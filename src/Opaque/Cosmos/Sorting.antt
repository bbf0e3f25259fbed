-- ===== src/Opaque/Cosmos/Sorting.antt =====
-- gen/opaquedata/cosmos: what `Query` uses of `sort.SliceStable`, a stable sort by the texts that an
-- extractor gives, as an insertion sort. Go compares texts by their bytes, as `compare` does.
use Prim.Native.Nat.{Ordering}
use Prim.Native.String.{[], ◌∷◌, compare}
use Prim.Native.String.compare
use mathlib.Core.List.{Perm}
use mathlib.Core.List.Perm
use text.Mathlib.TextPositions.{compare_refl}
use protosource.Prelude.{
  String, ◌≡◌, refl, inl, inr, Bool, true, false, List, [], ◌∷◌, str_eq, eq_iff, arith,
  if◌then◌else◌, Bool-cases,
}

-- `a < b`
unfoldable pub text_lt : String → String → Bool
text_lt a b = elim (compare a b) [ Ordering.lt ↦ true | _ ↦ false ]

module _ {ℓ} {A : Type ℓ} (key : A → String) where
  -- Before the first element that is not less.
  unfoldable pub insert_stable : A → List A → List A
  insert_stable x [] = x ∷ []
  insert_stable x (y ∷ ys) =
      let rest = insert_stable x ys in if text_lt (key y) (key x) then y ∷ rest else x ∷ y ∷ ys

  unfoldable pub sort_stable : List A → List A
  sort_stable [] = []
  sort_stable (x ∷ xs) = insert_stable x (sort_stable xs)

  -- The next element, where there is one, is not less.
  abbrev pub IsBelowHead : A → List A → Type 0
  IsBelowHead x [] = Unit
  IsBelowHead x (y ∷ ys) = text_lt (key y) (key x) ≡ false

  abbrev pub IsAscending : List A → Type 0
  IsAscending [] = Unit
  IsAscending (x ∷ xs) = IsBelowHead x xs × IsAscending xs

  -- The elements with a given key, in their order.
  abbrev pub with_key : String → List A → List A
  with_key k [] = []
  with_key k (x ∷ xs) = let rest = with_key k xs in if str_eq (key x) k then x ∷ rest else rest

compare_sym : (a b : String) → compare a b ≡ Ordering.lt → compare b a ≡ Ordering.gt
compare_sym [] [] h = cc (compare_refl [])
compare_sym [] (d ∷ b) h = compare.cons-nil d b
compare_sym (c ∷ a) [] h = cc (compare.cons-nil c a)
compare_sym (c ∷ a) (d ∷ b) h =
    ground (arith, compare.cons-cons c d a b, compare.cons-cons d c b a, compare_sym a b)

-- Of two texts at most one is less than the other.
text_lt_asym : (a b : String) → text_lt a b ≡ true → text_lt b a ≡ false
unfolding text_lt
text_lt_asym a b h = ground (arith, compare_sym a b)

text_lt_irrefl : (a : String) → text_lt a a ≡ false
unfolding text_lt
text_lt_irrefl a = rw (compare_refl a, text_lt) refl

module _ {ℓ} {A : Type ℓ} (key : A → String) where
  insert_stable-perm : (x : A) (xs : List A) → Perm (insert_stable key x xs) (x ∷ xs)
  unfolding insert_stable
  insert_stable-perm x [] = Perm.rfl
  insert_stable-perm x (y ∷ ys) = elim (Bool-cases (text_lt (key y) (key x))) [
    | inl less ↦
        rw (less, insert_stable)
          (Perm.trans (Perm.cons y (insert_stable-perm x ys)) (Perm.swap x y ys))
    | inr more ↦ rw (more, insert_stable) Perm.rfl
  ]

  -- The result is a rearrangement of the list.
  pub sort_stable-perm : (xs : List A) → Perm (sort_stable key xs) xs
  unfolding sort_stable
  sort_stable-perm [] = Perm.rfl
  sort_stable-perm (x ∷ xs) =
      Perm.trans (insert_stable-perm x (sort_stable key xs)) (Perm.cons x (sort_stable-perm xs))

  insert_stable-IsBelowHead :
      (x y : A) (ys : List A)
      → text_lt (key y) (key x) ≡ true
      → IsBelowHead key y ys
      → IsBelowHead key y (insert_stable key x ys)
  unfolding insert_stable
  insert_stable-IsBelowHead x y [] less below = text_lt_asym (key y) (key x) less
  insert_stable-IsBelowHead x y (z ∷ zs) less below = elim (Bool-cases (text_lt (key z) (key x))) [
    | inl before ↦ rw (before, insert_stable) below
    | inr after ↦ rw (after, insert_stable) (text_lt_asym (key y) (key x) less)
  ]

  insert_stable-IsAscending :
      (x : A) (xs : List A) → IsAscending key xs → IsAscending key (insert_stable key x xs)
  unfolding insert_stable
  insert_stable-IsAscending x [] sorted = (tt, tt)
  insert_stable-IsAscending x (y ∷ ys) sorted = elim (Bool-cases (text_lt (key y) (key x))) [
    | inl less ↦
        rw (less, insert_stable)
          (insert_stable-IsBelowHead x y ys less sorted.0, insert_stable-IsAscending x ys sorted.1)
    | inr more ↦ rw (more, insert_stable) (more, sorted)
  ]

  pub sort_stable-IsAscending : (xs : List A) → IsAscending key (sort_stable key xs)
  unfolding sort_stable
  sort_stable-IsAscending [] = tt
  sort_stable-IsAscending (x ∷ xs) =
      insert_stable-IsAscending x (sort_stable key xs) (sort_stable-IsAscending xs)

  with_key-insert_stable :
      (k : String) (x : A) (xs : List A)
      → with_key key k (insert_stable key x xs) ≡ with_key key k (x ∷ xs)
  unfolding insert_stable
  with_key-insert_stable k x [] = refl
  with_key-insert_stable k x (y ∷ ys) =
      ground
        (arith, with_key-insert_stable k x ys, eq_iff (key x) k, eq_iff (key y) k, text_lt_irrefl k)

  -- Elements with the same key keep their order.
  pub with_key-sort_stable :
      (k : String) (xs : List A) → with_key key k (sort_stable key xs) ≡ with_key key k xs
  unfolding sort_stable
  with_key-sort_stable k [] = refl
  with_key-sort_stable k (x ∷ xs) =
      ground (arith, with_key-insert_stable k x (sort_stable key xs), with_key-sort_stable k xs)
