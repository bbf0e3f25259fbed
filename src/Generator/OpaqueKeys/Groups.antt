-- ===== src/Generator/OpaqueKeys/Groups.antt =====
-- cmd/protoc-gen-protosource: the groups of fields that `validateOpaqueAnnotations` accepts.
use mathlib.Core.List.Perm
use protosource.Prelude.{
  ℕ, ◌≡◌, refl, sym, ◌∙◌, inl, inr, true, false, ◌||◌, List, [], ◌∷◌, ◌++◌, ◌==◌, ==_iff, arith,
  Bool-cases,
}
use protosource.Error.{ok}
use protosource.Generator.{Message}
use protosource.Generator.Indexes.{FieldMapping}
use protosource.Generator.Descriptor.{>>-eq-ok}
use protosource.Generator.Enums.{was_number}
use protosource.Generator.OpaqueKeys.{
  AnnotatedField, attributes_of, collect, types_of, key_types, check_group, check_groups,
  check_primary, opaque_key_mappings, validate_opaque_annotations,
}
use protosource.Generator.OpaqueKeys.Unique.{Sorts, group_unique}

was_number-append :
    (n : ℕ) (xs ys : List ℕ) → was_number n (xs ++ ys) ≡ (was_number n xs || was_number n ys)
unfolding was_number
was_number-append n [] ys = refl
was_number-append n (x ∷ xs) ys = ground (arith, was_number-append n xs ys)

attributes_of-absent :
    (kt : ℕ) (f : AnnotatedField) (attributes : List (ℕ × ℕ))
    → (kt == 0) ≡ false
    → was_number kt (types_of attributes) ≡ false
    → attributes_of kt f attributes ≡ []
unfolding attributes_of types_of was_number
attributes_of-absent kt f [] set absent = refl
attributes_of-absent kt f ((type', order) ∷ attributes) set absent =
    ground (arith, attributes_of-absent kt f attributes set)

-- A key type that no field has gives an empty group.
collect-absent :
    (kt : ℕ) (fields : List AnnotatedField)
    → (kt == 0) ≡ false
    → was_number kt (key_types fields) ≡ false
    → collect kt fields ≡ []
unfolding collect key_types
collect-absent kt [] set absent = refl
collect-absent kt (f ∷ fields) set absent =
    let split = was_number-append kt (types_of f.attributes) (key_types fields) in
    rw (attributes_of-absent kt f f.attributes set (ground arith))
      (collect-absent kt fields set (ground arith))

check_groups-group :
    (sort : List FieldMapping → List FieldMapping) (fields : List AnnotatedField) (kt : ℕ)
    (kts : List ℕ)
    → check_groups sort fields kts ≡ ok tt
    → was_number kt kts ≡ true
    → check_group (opaque_key_mappings sort fields kt) ≡ ok tt
unfolding check_groups was_number
check_groups-group sort fields kt [] h m = cc
check_groups-group sort fields kt (k ∷ kts) h m = elim (Bool-cases (k == kt)) [
  | inl here ↦ rw (← (==_iff k kt).0 here) (>>-eq-ok _ _ h).0
  | inr later ↦ check_groups-group sort fields kt kts (>>-eq-ok _ _ h).1 (rw later at m)
]

check_groups-nil :
    (sort : List FieldMapping → List FieldMapping) (fields : List AnnotatedField)
    → check_groups sort fields [] ≡ ok tt
unfolding check_groups
check_groups-nil sort fields = refl

validated-groups :
    (sort : List FieldMapping → List FieldMapping) (m : Message) (fields : List AnnotatedField)
    → validate_opaque_annotations sort m fields ≡ ok tt
    → check_groups sort fields (key_types fields) ≡ ok tt
unfolding validate_opaque_annotations
validated-groups sort m fields h = groups (key_types fields) refl
  where
    groups :
        (kts : List ℕ)
        → key_types fields ≡ kts
        → check_groups sort fields (key_types fields) ≡ ok tt
    groups [] e = rw e (check_groups-nil sort fields)
    groups (kt ∷ kts) e =
        rw e
          (>>-eq-ok _ _
            (>>-eq-ok (check_primary sort m fields) _
              (rw (e, validate_opaque_annotations) at h)).1).0

-- The keys of a message that passed the checks are the same whatever the sort does with equal
-- elements.
pub opaque_key_mappings_unique :
    (sort sort' : List FieldMapping → List FieldMapping) (m : Message)
    (fields : List AnnotatedField)
    → Sorts sort
    → Sorts sort'
    → validate_opaque_annotations sort m fields ≡ ok tt
    → (kt : ℕ) → opaque_key_mappings sort fields kt ≡ opaque_key_mappings sort' fields kt
unfolding opaque_key_mappings
opaque_key_mappings_unique sort sort' m fields sorts sorts' h kt = elim (Bool-cases (kt == 0)) [
  | inl unset ↦ rw unset refl
  | inr set ↦ elim (Bool-cases (was_number kt (key_types fields))) [
    | inr absent ↦
        rw (set, collect-absent kt fields set absent)
          (Perm.eq-nil (sorts.keeps []) ∙ sym (Perm.eq-nil (sorts'.keeps [])))
    | inl there ↦
        let checked =
          check_groups-group sort fields kt (key_types fields) (validated-groups sort m fields h)
            there in
        rw set (
          group_unique sort sort' (collect kt fields) sorts sorts'
            (rw (opaque_key_mappings, set) at checked))
  ]
]
