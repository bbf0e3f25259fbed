-- ===== src/Generator/OpaqueKeys/Unique.antt =====
-- cmd/protoc-gen-protosource: a composite key that passed the checks does not depend on how
-- `sort.Slice` arranges equal elements, since there are none.
use mathlib.Core.Logic.Or
use mathlib.Core.Path.{ap₂}
use text.Mathlib.TextEquality.{IsScalar-prop}
use mathlib.Core.List.{
  Mem, Perm, Pairwise, mem-cons, mem-cons_self, not-mem-nil, rel_of_Pairwise-cons,
  Pairwise-singleton,
}
use mathlib.Core.List.Perm
use mathlib.Core.List.Pairwise
use protosource.Prelude.{
  ℕ, ◌+◌, ◌%◌, ◌≤◌, ◌<◌, ◌≡◌, ◌≢◌, sym, true, false, List, [], ◌∷◌, arith, is_positive32, two31,
  two32, All, All-imp,
}
use protosource.Error.{ok}
use protosource.Generator.Indexes.{FieldMapping}
use protosource.Generator.Enums.{was_number}
use protosource.Generator.OpaqueKeys.{check_composite, check_group}

-- An int32 as a number in the same order.
abbrev pub rank : ℕ → ℕ
rank n = (n + two31) % two32

-- What the sort guarantees: the same elements, none with a smaller order after it.
pub record Sorts (sort : List FieldMapping → List FieldMapping) : Type 0 where
  pub keeps : (fields : List FieldMapping) → Perm (sort fields) fields
  pub ascends :
      (fields : List FieldMapping) → Pairwise (λ a b. rank a.order ≤ rank b.order) (sort fields)

abbrev IsPositive : FieldMapping → Type 0
IsPositive f = is_positive32 f.order ≡ true

abbrev Apart : FieldMapping → FieldMapping → Type 0
Apart a b = rank a.order ≢ rank b.order

check_composite-All :
    (seen : List ℕ) (fields : List FieldMapping)
    → check_composite seen fields ≡ ok tt
    → All (λ f. (is_positive32 f.order ≡ true) × (was_number f.order seen ≡ false)) fields
unfolding check_composite was_number
check_composite-All seen [] h = tt
check_composite-All seen (f ∷ fields) h =
    let rest = check_composite-All (f.order ∷ seen) fields (ground arith) in
    ((ground arith, ground arith), All-imp (λ g p. (p.0, ground (arith, p.1))) fields rest)

Apart-prop : (a b : FieldMapping) → IsProp (Apart a b)
Apart-prop a b = hlevel

-- What holds of all elements apart from one.
All-Mem :
    (f : FieldMapping) (fields : List FieldMapping)
    → All (Apart f) fields
    → (g : FieldMapping) → Mem g fields
    → Apart f g
All-Mem f [] all g m = absurd (not-mem-nil m)
All-Mem f (x ∷ fields) (here, all) g m =
    Or.elim (Apart-prop f g) (mem-cons.0 m) (λ e. rw e here) (All-Mem f fields all g)

-- The orders of a composite key are apart.
check_composite-Apart :
    (seen : List ℕ) (fields : List FieldMapping)
    → check_composite seen fields ≡ ok tt
    → Pairwise Apart fields
unfolding check_composite was_number
check_composite-Apart seen [] h = Pairwise.nil
check_composite-Apart seen (f ∷ fields) h =
    let passed : check_composite (f.order ∷ seen) fields ≡ ok tt = ground arith in
    let first_positive : is_positive32 f.order ≡ true = ground arith in
    let others = check_composite-All (f.order ∷ seen) fields passed in
    Pairwise.cons
      (All-Mem f fields
        (All-imp (λ g p. λ same. ground (arith, p.0, p.1, same, first_positive)) fields others))
      (check_composite-Apart (f.order ∷ seen) fields passed)

FieldMapping-set : IsSet FieldMapping
FieldMapping-set = hlevel (IsScalar-prop)

abbrev Below : FieldMapping → FieldMapping → Type 0
Below a b = rank a.order < rank b.order

lt_asym : (m n : ℕ) → m < n → n < m → ⊥
lt_asym m n p q = omega arith

-- Two strictly ascending lists of the same elements are equal.
ascending_unique :
    (xs ys : List FieldMapping) → Pairwise Below xs → Pairwise Below ys → Perm xs ys → xs ≡ ys
ascending_unique [] ys p q same = Perm.nil-eq same
ascending_unique (x ∷ xs) [] p q same = Perm.eq-nil same
ascending_unique (x ∷ xs) (y ∷ ys) p q same =
    let heads : x ≡ y =
      Or.elim (FieldMapping-set x y) (mem-cons.0 ((Perm.mem_iff same).0 mem-cons_self)) (λ e. e)
        (λ later.
          Or.elim (FieldMapping-set x y) (mem-cons.0 ((Perm.mem_iff same).1 mem-cons_self)) sym
            (λ later'.
              absurd
                (lt_asym _ _ (rel_of_Pairwise-cons q later) (rel_of_Pairwise-cons p later')))) in
    ap₂ ◌∷◌ heads (
      ascending_unique xs ys (Pairwise.of_cons p) (Pairwise.of_cons q)
        (Perm.cons_inv (Perm.trans same (Perm.cons' (sym heads) Perm.rfl))))

module _ (sort : List FieldMapping → List FieldMapping) (sorts : Sorts sort)
    (group : List FieldMapping) where
  -- With orders apart, the result of the sort ascends strictly.
  strict : Pairwise Apart group → Pairwise Below (sort group)
  strict apart =
      Pairwise.imp (λ a b p. ground (arith, p.0, p.1))
        (Pairwise.and (sorts.ascends group)
          (Perm.pairwise Apart-prop (λ a b p e. p (sym e)) (Perm.symm (sorts.keeps group)) apart))

single :
    (sort : List FieldMapping → List FieldMapping) (sorts : Sorts sort) (group : List FieldMapping)
    → Pairwise Apart (sort group)
    → Pairwise Apart group
single sort sorts group = Perm.pairwise Apart-prop (λ a b p e. p (sym e)) (sorts.keeps group)

check_group-Apart :
    (fields : List FieldMapping) → check_group fields ≡ ok tt → Pairwise Apart fields
unfolding check_group
check_group-Apart [] h = Pairwise.nil
check_group-Apart (f ∷ []) h = Pairwise-singleton _ f
check_group-Apart (f ∷ g ∷ fields) h = check_composite-Apart [] (f ∷ g ∷ fields) h

-- A group that passed the check for one sort is the same for every sort.
pub group_unique :
    (sort sort' : List FieldMapping → List FieldMapping) (group : List FieldMapping)
    → Sorts sort
    → Sorts sort'
    → check_group (sort group) ≡ ok tt
    → sort group ≡ sort' group
group_unique sort sort' group sorts sorts' checked =
    let apart = single sort sorts group (check_group-Apart (sort group) checked) in
    ascending_unique (sort group) (sort' group) (strict sort sorts group apart)
      (strict sort' sorts' group apart)
      (Perm.trans (sorts.keeps group) (Perm.symm (sorts'.keeps group)))
