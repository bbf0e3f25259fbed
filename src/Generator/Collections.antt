-- ===== src/Generator/Collections.antt =====
-- cmd/protoc-gen-protosource: `validateCollectionMapping`, and the lookups of the templates that rely
-- on it.
pub mod Lookups
use protosource.Prelude.{
  ℕ, suc, String, Bool, true, false, not, ◌&&◌, ◌||◌, Option, none, some, List, [], ◌∷◌, ltb,
  length, ◌==◌, str_eq, if◌then◌else◌,
}
use protosource.Error.{Result, ok, err, ◌>>=◌, ◌>>◌, other}
use protosource.Generator.{is_listed}
use protosource.Generator.Descriptor.{
  ElementField, Element, ProtoField, CollectionAction, unspecified, add, remove, unknown,
  CollectionMapping, ProtoMessage, string_t, field_by_name, element_field_by_name, guard,
}

-- The loop of `isCreationEvent` over all messages; `made` is producedByCreation.
unfoldable pub creation_from : Bool → String → List ProtoMessage → Bool
unfolding is_listed
creation_from made name [] = made
creation_from made name (m ∷ messages) =
    let rest = creation_from made name messages in
    let rest_made = creation_from true name messages in
    if m.base.is_command && is_listed name m.base.produces
    then (if str_eq m.base.lifecycle "CREATION" then rest_made else false)
    else rest

-- `isCreationEvent`
unfoldable pub is_creation_event : String → List ProtoMessage → Bool
unfolding creation_from
is_creation_event name messages = creation_from false name messages

abbrev pub is_common : String → Bool
is_common name =
    str_eq name "id" || str_eq name "version" || str_eq name "at" || str_eq name "actor"

unfoldable pub domain_fields : List ProtoField → List ProtoField
domain_fields [] = []
domain_fields (f ∷ fields) =
    let rest = domain_fields fields in if is_common f.name then rest else f ∷ rest

abbrev pub carries : String → ProtoField → Bool
carries fqn f = f.is_embed && str_eq f.fqn fqn

unfoldable pub match_count : String → List ProtoField → ℕ
match_count fqn [] = 0
match_count fqn (f ∷ fields) =
    let rest = match_count fqn fields in if carries fqn f then suc rest else rest

-- The case of ADD.
unfoldable pub check_add : ProtoMessage → Element → Result (Unit {0})
check_add evt element = do
  guard (not (match_count element.fqn evt.fields == 0)) "collection ADD requires a field"
  guard (not (ltb 1 (match_count element.fqn evt.fields))) "collection ADD requires one field"
  guard (length (domain_fields evt.fields) == 1) "collection ADD must have one domain field"

-- The case of REMOVE.
unfoldable pub check_remove : ProtoMessage → CollectionMapping → Result (Unit {0})
check_remove evt cm = elim (field_by_name cm.key_field evt.fields) [
  | none ↦ err (other "collection REMOVE requires a field matching the key_field")
  | some f ↦ do
    guard (not (f.is_repeated || f.is_map)) "collection REMOVE field must be a scalar string"
    guard (f.ptype == string_t) "collection REMOVE field must be a string"
    guard (length (domain_fields evt.fields) == 1) "collection REMOVE must have one domain field"
]

unfoldable pub check_target : ProtoField → Result (Unit {0})
check_target target = do
  guard target.is_map "collection target must be a map field"
  guard (target.key_ptype == string_t) "collection target must have string keys"
  guard target.element.is_embed "collection target must have message values"

unfoldable pub check_key_field : CollectionMapping → Element → Result (Unit {0})
check_key_field cm element = elim (element_field_by_name cm.key_field element.fields) [
  | none ↦ err (other "key_field not found on element")
  | some f ↦ do
    guard (not (f.is_repeated || f.is_map)) "key_field must be a scalar string"
    guard (f.ptype == string_t) "key_field must be a string"
]

abbrev pub is_unspecified : CollectionAction → Bool
is_unspecified unspecified = true
is_unspecified _ = false

abbrev pub is_remove : CollectionAction → Bool
is_remove remove = true
is_remove _ = false

unfoldable pub check_event_fields : ProtoMessage → CollectionMapping → Element → Result (Unit {0})
check_event_fields evt cm element = elim cm.action [
  | add ↦ check_add evt element
  | remove ↦ check_remove evt cm
  | _ ↦ err (other "collection action must be ADD or REMOVE")
]

-- The checks from the target field on.
unfoldable pub check_mapping :
    ProtoMessage → CollectionMapping → ProtoField → List ProtoMessage → Result (Unit {0})
check_mapping evt cm target messages = do
  check_target target
  check_key_field cm target.element
  guard (not (is_remove cm.action && is_creation_event evt.base.name messages))
      "collection REMOVE is not valid on a creation event"
  check_event_fields evt cm target.element

-- `validateCollectionMapping`
unfoldable pub validate_collection_mapping :
    ProtoMessage → ProtoMessage → List ProtoMessage → Result (Unit {0})
validate_collection_mapping evt agg messages = elim evt.collection [
  | none ↦ ok tt
  | some cm ↦ do
    guard (not (str_eq cm.target "")) "collection annotation present but target is empty"
    guard (not (is_unspecified cm.action)) "collection annotation present but action is unspecified"
    guard (not (str_eq cm.key_field "")) "collection annotation requires key_field to be set"
    elim (field_by_name cm.target agg.fields) [
      | none ↦ err (other "collection target not found on aggregate")
      | some target ↦ check_mapping evt cm target messages
    ]
]

-- The loop of `eventCollectionSourceField` over the fields of the event.
unfoldable pub first_carrier : String → List ProtoField → Option ProtoField
first_carrier fqn [] = none
first_carrier fqn (f ∷ fields) =
    let rest = first_carrier fqn fields in if carries fqn f then some f else rest

-- `eventCollectionSourceField`
unfoldable pub event_collection_source_field : ProtoMessage → ProtoMessage → Option ProtoField
event_collection_source_field evt agg = elim evt.collection [
  | none ↦ none
  | some cm ↦ elim (field_by_name cm.target agg.fields) [
    | none ↦ none
    | some target ↦
        if not target.is_map || not target.element.is_embed
        then none
        else first_carrier target.element.fqn evt.fields
  ]
]

-- The loop of `collectionKeyFieldGoName`; it goes on after a target that has no such key.
unfoldable pub collection_key_field_go_name : String → String → List ProtoField → String
unfolding element_field_by_name
collection_key_field_go_name key_field target [] = ""
collection_key_field_go_name key_field target (f ∷ fields) =
    let rest = collection_key_field_go_name key_field target fields in
    if str_eq f.name target && f.is_map && f.element.is_embed
    then elim (element_field_by_name key_field f.element.fields) [
      | none ↦ rest
      | some e ↦ e.go_name
    ]
    else rest
