-- ===== src/Repository/Fold.antt =====
-- The replay of events, one part after another.
use mathlib.Core.Path.{fun_ext}
use protosource.Prelude.{◌≡◌, refl, sym, ap, ◌∙◌, List, [], ◌∷◌, ◌++◌}
use protosource.Error.{Result, ok, err, ◌>>=◌}
use protosource.Repository.Types.{Domain}
use protosource.Repository.Base.{fold_on}

bind_assoc {ℓ} :
    {X Y Z : Type ℓ} (m : Result X) (f : X → Result Y) (g : Y → Result Z)
    → (m >>= f >>= g) ≡ (m >>= λ x. f x >>= g)
bind_assoc (ok x) f g = refl
bind_assoc (err e) f g = refl

module _ {A E C M : Type 0} (d : Domain A E C M) where
  pub fold_on-append :
      (es fs : List E) (a : A) → fold_on d (es ++ fs) a ≡ (fold_on d es a >>= fold_on d fs)
  unfolding fold_on
  fold_on-append [] fs a = refl
  fold_on-append (e ∷ es) fs a =
      ap (λ k. d.on e a >>= k) (fun_ext (fold_on-append es fs))
      ∙ sym (bind_assoc (d.on e a) (fold_on d es) (fold_on d fs))
