-- ===== src/Generator/OpaqueKeys.antt =====
-- cmd/protoc-gen-protosource: the fields of the keys of opaque data, and the checks of their
-- annotations. `sort` stands for `sort.Slice`, which leaves the order of equal elements open; an order
-- is an int32.
pub mod Unique
pub mod Groups
use Prim.Native.String.{◌++◌ as ◌concat◌}
use protosource.Prelude.{
  ℕ, zero, suc, ◌+◌, ◌*◌, ◌-◌, ◌%◌, ◌≤◌, String, Bool, true, false, not, ◌&&◌, ◌||◌, List, [], ◌∷◌,
  ◌++◌, map, ◌==◌, str_eq, if◌then◌else◌, is_positive32, two31, two32,
}
use protosource.Error.{Result, ok, err, ◌>>=◌, ◌>>◌, other}
use protosource.Generator.{Message}
use protosource.Generator.Indexes.{FieldMapping, was_seen}
use protosource.Generator.Descriptor.{guard}
use protosource.Generator.Enums.{was_number}

-- A field with its OpaqueFieldOptions: for each attribute the number of its key type and its order.
pub record AnnotatedField : Type 0 where
  pub proto_name : String
  pub go_name : String
  pub attributes : List (ℕ × ℕ)

unfoldable pub attributes_of : ℕ → AnnotatedField → List (ℕ × ℕ) → List FieldMapping
attributes_of kt f [] = []
attributes_of kt f ((type', order) ∷ attributes) =
    let rest = attributes_of kt f attributes in
    if type' == kt
    then record { proto_name = f.proto_name; go_name = f.go_name; order = order } ∷ rest
    else rest

-- The group of a key type, in the order of the fields.
unfoldable pub collect : ℕ → List AnnotatedField → List FieldMapping
unfolding attributes_of
collect kt [] = []
collect kt (f ∷ fields) = attributes_of kt f f.attributes ++ collect kt fields

unfoldable pub types_of : List (ℕ × ℕ) → List ℕ
types_of [] = []
types_of ((type', order) ∷ attributes) =
    let rest = types_of attributes in if type' == 0 then rest else type' ∷ rest

-- The keys of the map that `opaqueKeyMappings` returns; a range over the map visits each, in some
-- order.
unfoldable pub key_types : List AnnotatedField → List ℕ
unfolding types_of
key_types [] = []
key_types (f ∷ fields) = types_of f.attributes ++ key_types fields

-- The check of a composite key.
unfoldable pub check_composite : List ℕ → List FieldMapping → Result (Unit {0})
unfolding was_number
check_composite seen [] = ok tt
check_composite seen (f ∷ fields) =
    let rest = check_composite (f.order ∷ seen) fields in
    if not (is_positive32 f.order)
    then err (other "composite key: all must have positive order values")
    else if was_number f.order seen
    then err (other "duplicate order for key type")
    else rest

abbrev pub is_negative32 : ℕ → Bool
is_negative32 n = not (n == 0 || is_positive32 n)

unfoldable pub check_group : List FieldMapping → Result (Unit {0})
unfolding check_composite
check_group [] = ok tt
check_group (f ∷ []) = guard (not (is_negative32 f.order)) "field has negative order"
check_group (f ∷ g ∷ fields) = check_composite [] (f ∷ g ∷ fields)

abbrev pub is_empty : List FieldMapping → Bool
is_empty [] = true
is_empty (f ∷ fields) = false

module _ (sort : List FieldMapping → List FieldMapping) where
  -- `opaqueKeyMappings`
  unfoldable pub opaque_key_mappings : List AnnotatedField → ℕ → List FieldMapping
  unfolding collect
  opaque_key_mappings fields kt = if kt == 0 then [] else sort (collect kt fields)

  unfoldable pub check_groups : List AnnotatedField → List ℕ → Result (Unit {0})
  check_groups fields [] = ok tt
  check_groups fields (kt ∷ kts) =
      check_group (opaque_key_mappings fields kt) >> check_groups fields kts

  -- The loop over n indexes from the i-th on.
  unfoldable pub check_indexes : List AnnotatedField → ℕ → ℕ → Result (Unit {0})
  unfolding opaque_key_mappings
  check_indexes fields zero i = ok tt
  check_indexes fields (suc n) i =
      let rest = check_indexes fields n (i + 1) in
      if not (is_empty (opaque_key_mappings fields (4 + (i - 1) * 2)))
        && is_empty (opaque_key_mappings fields (3 + (i - 1) * 2))
      then err (other "GSI has SK fields but no PK fields")
      else rest

  -- Aggregates and projections get their primary key automatically.
  abbrev pub check_automatic : List AnnotatedField → Result (Unit {0})
  check_automatic fields = do
    guard (is_empty (opaque_key_mappings fields 1)) "PK is automatic"
    guard (is_empty (opaque_key_mappings fields 2)) "SK is automatic"

  abbrev pub check_primary : Message → List AnnotatedField → Result (Unit {0})
  check_primary m fields =
      if m.is_aggregate || m.is_projection
      then check_automatic fields
      else guard (not (is_empty (opaque_key_mappings fields 1))) "no PK field defined"

  -- `validateOpaqueAnnotations`
  unfoldable pub validate_opaque_annotations : Message → List AnnotatedField → Result (Unit {0})
  validate_opaque_annotations m fields = elim (key_types fields) [
    | [] ↦ ok tt
    | kt ∷ kts ↦ do
      check_primary m fields
      check_groups fields (kt ∷ kts)
      check_indexes fields 20 1
  ]

-- `hasOpaqueAnnotations`
unfoldable pub is_annotated : List AnnotatedField → Bool
is_annotated [] = false
is_annotated (f ∷ fields) =
    let rest = is_annotated fields in elim f.attributes [ [] ↦ rest | a ∷ attributes ↦ true ]

unfoldable pub has_opaque_annotations : Message → List AnnotatedField → Bool
unfolding is_annotated
has_opaque_annotations m fields = m.is_aggregate || m.is_projection || is_annotated fields

-- The names of the key types from the first index on, "GSI1PK" and so on; `digits` is the decimal form
-- of a number.
unfoldable pub slot_names : (ℕ → String) → ℕ → ℕ → List String
slot_names digits zero i = []
slot_names digits (suc n) i =
    ("GSI" concat (digits i concat "PK"))
    ∷ ("GSI" concat (digits i concat "SK"))
    ∷ slot_names digits n (i + 1)

-- `opaqueReservedNames`
unfoldable pub opaque_reserved_names : (ℕ → String) → List String
unfolding slot_names
opaque_reserved_names digits = "Hydrate" ∷ "PK" ∷ "SK" ∷ slot_names digits 20 1

-- `validateMessageNamesAgainstOpaque`
unfoldable pub validate_message_names : List String → List Message → Result (Unit {0})
validate_message_names reserved [] = ok tt
validate_message_names reserved (m ∷ messages) =
    let rest = validate_message_names reserved messages in
    if was_seen m.name reserved
    then err (other "message conflicts with generated AutoPKSK method name")
    else rest

-- `opaqueKeyPrefix`; `underscored` puts underscores for dots, `lower` is `strings.ToLower`.
unfoldable pub opaque_key_prefix : (String → String) → (String → String) → String → Message → String
opaque_key_prefix underscored lower pkg m = underscored pkg concat ("#" concat lower m.name)
