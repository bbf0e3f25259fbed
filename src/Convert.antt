-- ===== src/Convert.antt =====
-- The loops of the stores that turn the rows of an answer into records, up to the first that fails.
use mathlib.Core.List.{reverse, reverse-append}
use protosource.Prelude.{
  ℕ, zero, suc, ◌≡◌, refl, sym, ap, ◌∙◌, inl, inr, List, [], ◌∷◌, ◌++◌, take, length,
}
use protosource.Error.{Result, ok, ◌>>=◌}
use protosource.Repository.Stored.{Result-cases, >>=-eq-ok, ok-injective}

unfoldable pub convert_all {ℓ} :
    {I : Type 0} {A : Type ℓ} → (I → Result A) → List I → Result (List A)
convert_all convert [] = ok []
convert_all convert (i ∷ items) = do a ← convert i; rest ← convert_all convert items; ok (a ∷ rest)

pub convert_all-append {ℓ} :
    {I : Type 0} {A : Type ℓ} (convert : I → Result A) (front back : List I)
    → convert_all convert (front ++ back)
      ≡ (convert_all convert front >>= λ xs. convert_all convert back >>= λ ys. ok (xs ++ ys))
unfolding convert_all
convert_all-append convert [] back = elim (Result-cases (convert_all convert back)) [
  | inl (ys, h) ↦ rw h refl
  | inr (e, h) ↦ rw h refl
]
convert_all-append convert (i ∷ front) back = elim (Result-cases (convert i)) [
  | inr (e, h) ↦ rw (h, convert_all) refl
  | inl (x, h) ↦
      rw (h, convert_all-append convert front back)
        (elim (Result-cases (convert_all convert front)) [
          | inr (e, k) ↦ rw k refl
          | inl (xs, k) ↦ rw k (elim (Result-cases (convert_all convert back)) [
            | inr (e, l) ↦ rw l refl
            | inl (ys, l) ↦ rw l refl
          ])
        ])
]

pub length-convert_all {ℓ} :
    {I : Type 0} {A : Type ℓ} (convert : I → Result A) (items : List I) (rows : List A)
    → convert_all convert items ≡ ok rows
    → length rows ≡ length items
unfolding convert_all
length-convert_all convert [] rows h = ap length (sym (ok-injective h))
length-convert_all convert (i ∷ items) rows h =
    let (x, first, h1) = >>=-eq-ok (convert i) _ h in
    let (xs, others, h2) = >>=-eq-ok (convert_all convert items) _ h1 in
    ap length (sym (ok-injective h2)) ∙ ap suc (length-convert_all convert items xs others)

module _ {ℓ} {I : Type 0} {A : Type ℓ} (convert : I → Result A) where
  pub convert_all-take :
      (n : ℕ) (items : List I) (rows : List A)
      → convert_all convert items ≡ ok rows
      → convert_all convert (take n items) ≡ ok (take n rows)
  unfolding convert_all
  convert_all-take zero items rows h = refl
  convert_all-take (suc n) [] rows h = ap (λ l. ok (take (suc n) l)) (ok-injective h)
  convert_all-take (suc n) (i ∷ items) rows h =
      let (x, first, h1) = >>=-eq-ok (convert i) _ h in
      let (xs, others, h2) = >>=-eq-ok (convert_all convert items) _ h1 in
      rw (first, convert_all-take n items xs others)
        (ap (λ l. ok (take (suc n) l)) (ok-injective h2))

  pub convert_all-reverse :
      (items : List I) (rows : List A)
      → convert_all convert items ≡ ok rows
      → convert_all convert (reverse items) ≡ ok (reverse rows)
  unfolding convert_all
  convert_all-reverse [] rows h = ap (λ l. ok (reverse l)) (ok-injective h)
  convert_all-reverse (i ∷ items) rows h =
      let (x, first, h1) = >>=-eq-ok (convert i) _ h in
      let (xs, others, h2) = >>=-eq-ok (convert_all convert items) _ h1 in
      ap (convert_all convert) (reverse-append (i ∷ []) items)
      ∙ convert_all-append convert (reverse items) (i ∷ [])
      ∙ rw (convert_all-reverse items xs others, first)
          (ap ok (sym (reverse-append (x ∷ []) xs)) ∙ ap (λ l. ok (reverse l)) (ok-injective h2))
