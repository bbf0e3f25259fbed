-- ===== src/Repository/Keys.antt =====
-- The keys under which the repository stores histories, and which aggregates share one: packages that
-- differ in dots and underscores only do.
use Prim.Native.Char.{Char, code}
use Prim.Native.String
use mathlib.Core.Path.{ap₂}
use native.Mathlib.Omega.{arith}
use text.Mathlib.TextLemmas.{
  nil-append, cons-append, append_assoc, head-eq_of_cons-eq, tail-eq_of_cons-eq,
}
use protosource.Prelude.{String, ◌≡◌, ◌≢◌, ◌↔◌, refl, sym, ap, ◌∙◌, inl, inr, ◌==◌, Bool-cases}
use protosource.Repository.Base.{replace_dots, qualified_id}

-- A text without the character that ends a prefix. A proto package has letters, digits, dots and
-- underscores only.
abbrev pub NoHash : String → Type 0
NoHash String.[] = Unit
NoHash (String.◌∷◌ c s) = (code c ≢ b'#') × NoHash s

NoHash-underscore : (s : String) → NoHash s → NoHash (String.◌++◌ "_" s)
NoHash-underscore s h = rw (cons-append, nil-append) ((omega arith), h)

-- `"#" + s`, character first.
hash_append : (c : Char) (s : String) → String.◌++◌ (String.◌∷◌ c "") s ≡ String.◌∷◌ c s
hash_append c s = cons-append c "" s ∙ ap (String.◌∷◌ c) (nil-append s)

NoHash-replace_dots : (s : String) → NoHash s → NoHash (replace_dots s)
unfolding replace_dots
NoHash-replace_dots String.[] h = tt
NoHash-replace_dots (String.◌∷◌ c s) (h, hs) = elim (Bool-cases (code c == b'.')) [
  | inl dot ↦ rw dot (NoHash-underscore (replace_dots s) (NoHash-replace_dots s hs))
  | inr other ↦ rw other (h, NoHash-replace_dots s hs)
]

abbrev hash : Char
hash = "#"

-- Two texts that agree up to their first hash agree before and after it.
split_at_hash :
    (p q s t : String)
    → NoHash p
    → NoHash q
    → String.◌++◌ p (String.◌∷◌ hash s) ≡ String.◌++◌ q (String.◌∷◌ hash t)
    → (p ≡ q) × (s ≡ t)
split_at_hash String.[] String.[] s t hp hq e =
    (refl, tail-eq_of_cons-eq (rw nil-append at (rw nil-append at e)))
split_at_hash String.[] (String.◌∷◌ c q) s t hp hq e =
    absurd (hq.0 (sym (ap code (head-eq_of_cons-eq (sym (nil-append _) ∙ e ∙ cons-append c q _)))))
split_at_hash (String.◌∷◌ c p) String.[] s t hp hq e =
    absurd (hp.0 (ap code (head-eq_of_cons-eq (sym (cons-append c p _) ∙ e ∙ nil-append _))))
split_at_hash (String.◌∷◌ c p) (String.◌∷◌ d q) s t hp hq e =
    let both = sym (cons-append c p _) ∙ e ∙ cons-append d q _ in
    let (front, back) = split_at_hash p q s t hp.1 hq.1 (tail-eq_of_cons-eq both) in
    (ap₂ String.◌∷◌ (head-eq_of_cons-eq both) front, back)

qualified_id_lem :
    (pkg id : String) → qualified_id pkg id ≡ String.◌++◌ (replace_dots pkg) (String.◌∷◌ hash id)
unfolding qualified_id
qualified_id_lem pkg id =
    append_assoc (replace_dots pkg) "#" id
    ∙ ap (String.◌++◌ (replace_dots pkg)) (hash_append hash id)

-- For packages without a hash sign: two aggregates have one key exactly when their ids are equal
-- and their packages are, up to dots and underscores.
pub qualified_id_iff :
    (p q i j : String)
    → NoHash p
    → NoHash q
    → (qualified_id p i ≡ qualified_id q j) ↔ ((replace_dots p ≡ replace_dots q) × (i ≡ j))
qualified_id_iff p q i j hp hq = (
  λ e.
      split_at_hash (replace_dots p) (replace_dots q) i j (NoHash-replace_dots p hp)
        (NoHash-replace_dots q hq) (sym (qualified_id_lem p i) ∙ e ∙ qualified_id_lem q j),
  λ (same, id).
      qualified_id_lem p i
      ∙ ap₂ (λ x y. String.◌++◌ x (String.◌∷◌ hash y)) same id
      ∙ sym (qualified_id_lem q j),
)
