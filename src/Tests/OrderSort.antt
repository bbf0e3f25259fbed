-- ===== src/Tests/OrderSort.antt =====
-- Two sorts of fields by their orders: by insertion, from the front and from the end.
use mathlib.Core.List.{Perm, Pairwise, Pairwise-singleton, forall_mem-cons, reverse, reverse_perm}
use mathlib.Core.List.Perm
use native.Mathlib.Bridge.{le_prop}
use protosource.Prelude.{◌≤◌, inl, inr, List, [], ◌∷◌, leb, arith, if◌then◌else◌, Bool-cases}
use protosource.Generator.Indexes.{FieldMapping}
use protosource.Generator.OpaqueKeys.Unique.{rank, Sorts}

unfoldable pub insert_by_order : FieldMapping → List FieldMapping → List FieldMapping
insert_by_order f [] = f ∷ []
insert_by_order f (g ∷ gs) =
    let rest = insert_by_order f gs in
    if leb (rank f.order) (rank g.order) then f ∷ g ∷ gs else g ∷ rest

unfoldable pub by_order : List FieldMapping → List FieldMapping
unfolding insert_by_order
by_order [] = []
by_order (f ∷ fields) = insert_by_order f (by_order fields)

insert_by_order-perm :
    (f : FieldMapping) (gs : List FieldMapping) → Perm (insert_by_order f gs) (f ∷ gs)
unfolding insert_by_order
insert_by_order-perm f [] = Perm.rfl
insert_by_order-perm f (g ∷ gs) = elim (Bool-cases (leb (rank f.order) (rank g.order))) [
  | inl first ↦ rw (first, insert_by_order) Perm.rfl
  | inr later ↦
      rw (later, insert_by_order)
        (Perm.trans (Perm.cons g (insert_by_order-perm f gs)) (Perm.swap f g gs))
]

by_order-perm : (fields : List FieldMapping) → Perm (by_order fields) fields
unfolding by_order
by_order-perm [] = Perm.rfl
by_order-perm (f ∷ fields) =
    Perm.trans (insert_by_order-perm f (by_order fields)) (Perm.cons f (by_order-perm fields))

abbrev InOrder : FieldMapping → FieldMapping → Type 0
InOrder a b = rank a.order ≤ rank b.order

insert_by_order-ascends :
    (f : FieldMapping) {gs : List FieldMapping}
    → Pairwise InOrder gs
    → Pairwise InOrder (insert_by_order f gs)
unfolding insert_by_order
insert_by_order-ascends f Pairwise.nil = Pairwise-singleton _ f
insert_by_order-ascends f (Pairwise.cons {a = g} {l = gs} below rest) =
    elim (Bool-cases (leb (rank f.order) (rank g.order))) [
      | inl first ↦
          let le : InOrder f g = ground arith in
          rw (first, insert_by_order)
            (Pairwise.cons
              ((forall_mem-cons (λ x. le_prop)).1 (le, λ x m. ground (arith, below x m, le)))
              (Pairwise.cons below rest))
      | inr later ↦
          let le : InOrder g f = ground arith in
          rw (later, insert_by_order)
            (Pairwise.cons
              (λ x m.
                (forall_mem-cons (λ y. le_prop)).1 (le, below) x
                  ((Perm.mem_iff (insert_by_order-perm f gs)).0 m))
              (insert_by_order-ascends f rest))
    ]

by_order-ascends : (fields : List FieldMapping) → Pairwise InOrder (by_order fields)
unfolding by_order
by_order-ascends [] = Pairwise.nil
by_order-ascends (f ∷ fields) = insert_by_order-ascends f (by_order-ascends fields)

pub by_order-Sorts : Sorts by_order
by_order-Sorts = record { keeps = by_order-perm; ascends = by_order-ascends }

unfoldable pub from_the_end : List FieldMapping → List FieldMapping
from_the_end fields = by_order (reverse fields)

pub from_the_end-Sorts : Sorts from_the_end
unfolding from_the_end
from_the_end-Sorts = record {
  keeps = λ fields. Perm.trans (by_order-perm (reverse fields)) (reverse_perm fields);
  ascends = λ fields. by_order-ascends (reverse fields);
}
