-- ===== src/Generator/Collections/Lookups.antt =====
-- cmd/protoc-gen-protosource: what `validateCollectionMapping` guarantees to the templates.
use protosource.Prelude.{
  String, ◌≡◌, ◌≤◌, refl, ◌∙◌, inl, inr, true, some, List, [], ◌∷◌, str_eq, arith, Bool-cases,
  Option-cases,
}
use protosource.Error.{ok}
use protosource.Generator.Descriptor.{
  Element, ElementField, ProtoField, add, remove, CollectionMapping, ProtoMessage, string_t,
  field_by_name, element_field_by_name,
}
use protosource.Generator.Collections.{
  carries, match_count, first_carrier, check_add, check_remove, check_target, check_key_field,
  check_event_fields, check_mapping, validate_collection_mapping, event_collection_source_field,
  collection_key_field_go_name,
}

-- What the templates look up for a collection event: the map of the aggregate, the key of its
-- elements, and what the event carries, an element to add or the key of one to remove.
pub record IsResolved (evt agg : ProtoMessage) (cm : CollectionMapping) : Type 0 where
  pub target : ProtoField
  pub target_found : field_by_name cm.target agg.fields ≡ some target
  pub target_map : target.is_map ≡ true
  pub string_keys : target.key_ptype ≡ string_t
  pub message_values : target.element.is_embed ≡ true
  pub key : ElementField
  pub key_found : element_field_by_name cm.key_field target.element.fields ≡ some key
  pub key_string : key.ptype ≡ string_t
  pub key_name : collection_key_field_go_name cm.key_field cm.target agg.fields ≡ key.go_name
  pub added :
      cm.action ≡ add
      → (f : ProtoField) × (event_collection_source_field evt agg ≡ some f)
        × (carries target.element.fqn f ≡ true)
        × (match_count target.element.fqn evt.fields ≡ 1)
  pub removed :
      cm.action ≡ remove
      → (f : ProtoField) × (field_by_name cm.key_field evt.fields ≡ some f) × (f.ptype ≡ string_t)

-- Where an event carries one element, the template finds it.
first_carrier-match_count :
    (fqn : String) (fields : List ProtoField)
    → 1 ≤ match_count fqn fields
    → (f : ProtoField) × (first_carrier fqn fields ≡ some f) × (carries fqn f ≡ true)
unfolding first_carrier match_count
first_carrier-match_count fqn [] h = absurd (omega arith)
first_carrier-match_count fqn (f ∷ fields) h = elim (Bool-cases (carries fqn f)) [
  | inl here ↦ (f, rw here refl, here)
  | inr later ↦ rw later (first_carrier-match_count fqn fields (rw later at h))
]

-- The two loops over the fields of the aggregate stop at the same field.
collection_key_field_go_name-field_by_name :
    (key_field target : String) (fields : List ProtoField) (f : ProtoField) (e : ElementField)
    → field_by_name target fields ≡ some f
    → f.is_map ≡ true
    → f.element.is_embed ≡ true
    → element_field_by_name key_field f.element.fields ≡ some e
    → collection_key_field_go_name key_field target fields ≡ e.go_name
unfolding field_by_name collection_key_field_go_name
collection_key_field_go_name-field_by_name key_field target [] f e found map embed key = cc
collection_key_field_go_name-field_by_name key_field target (g ∷ fields) f e found map embed key =
    elim (Bool-cases (str_eq g.name target)) [
      | inl here ↦
          let found' = rw here at found in
          let same : g ≡ f = cc in
          let map' : g.is_map ≡ true = rw same map in
          let embed' : g.element.is_embed ≡ true = rw same embed in
          let key' : element_field_by_name key_field g.element.fields ≡ some e = rw same key in
          rw (here, map', embed', key') refl
      | inr later ↦ rw later (
          collection_key_field_go_name-field_by_name key_field target fields f e (rw later at found)
            map embed key)
    ]

check_target-eq-ok :
    (target : ProtoField)
    → check_target target ≡ ok tt
    → (target.is_map ≡ true) × (target.key_ptype ≡ string_t) × (target.element.is_embed ≡ true)
unfolding check_target
check_target-eq-ok target h = ground arith

check_key_field-eq-ok :
    (cm : CollectionMapping) (element : Element)
    → check_key_field cm element ≡ ok tt
    → (key : ElementField) × (element_field_by_name cm.key_field element.fields ≡ some key)
      × (key.ptype ≡ string_t)
unfolding check_key_field
check_key_field-eq-ok cm element h =
    elim (Option-cases (element_field_by_name cm.key_field element.fields)) [
      | inl missing ↦ absurd (let bad = rw (missing, check_key_field) at h in cc)
      | inr (key, found) ↦
          let passed = rw (found, check_key_field) at h in (key, found, ground arith)
    ]

check_add-eq-ok :
    (evt : ProtoMessage) (element : Element)
    → check_add evt element ≡ ok tt
    → match_count element.fqn evt.fields ≡ 1
unfolding check_add
check_add-eq-ok evt element h = ground arith

check_remove-eq-ok :
    (evt : ProtoMessage) (cm : CollectionMapping)
    → check_remove evt cm ≡ ok tt
    → (f : ProtoField) × (field_by_name cm.key_field evt.fields ≡ some f) × (f.ptype ≡ string_t)
unfolding check_remove
check_remove-eq-ok evt cm h = elim (Option-cases (field_by_name cm.key_field evt.fields)) [
  | inl missing ↦ absurd (let bad = rw (missing, check_remove) at h in cc)
  | inr (f, found) ↦ let passed = rw (found, check_remove) at h in (f, found, ground arith)
]

check_mapping-eq-ok :
    (evt : ProtoMessage) (cm : CollectionMapping) (target : ProtoField) (all : List ProtoMessage)
    → check_mapping evt cm target all ≡ ok tt
    → (check_target target ≡ ok tt)
      × (check_key_field cm target.element ≡ ok tt)
      × (check_event_fields evt cm target.element ≡ ok tt)
unfolding check_mapping
check_mapping-eq-ok evt cm target all h = ground arith

check_event_fields-add :
    (evt : ProtoMessage) (cm : CollectionMapping) (element : Element)
    → check_event_fields evt cm element ≡ ok tt
    → cm.action ≡ add
    → check_add evt element ≡ ok tt
unfolding check_event_fields
check_event_fields-add evt cm element h adds = rw adds at h

check_event_fields-remove :
    (evt : ProtoMessage) (cm : CollectionMapping) (element : Element)
    → check_event_fields evt cm element ≡ ok tt
    → cm.action ≡ remove
    → check_remove evt cm ≡ ok tt
unfolding check_event_fields
check_event_fields-remove evt cm element h removes = ground arith

source_field :
    (evt agg : ProtoMessage) (cm : CollectionMapping) (target : ProtoField)
    → evt.collection ≡ some cm
    → field_by_name cm.target agg.fields ≡ some target
    → target.is_map ≡ true
    → target.element.is_embed ≡ true
    → event_collection_source_field evt agg ≡ first_carrier target.element.fqn evt.fields
unfolding event_collection_source_field
source_field evt agg cm target annotated found map embed = ground arith

-- The target of a collection that passed the checks.
resolve :
    (evt agg : ProtoMessage) (cm : CollectionMapping) (target : ProtoField)
    (all : List ProtoMessage)
    → evt.collection ≡ some cm
    → field_by_name cm.target agg.fields ≡ some target
    → check_mapping evt cm target all ≡ ok tt
    → IsResolved evt agg cm
resolve evt agg cm target all annotated found h =
    let (target_ok, key_ok, fields_ok) = check_mapping-eq-ok evt cm target all h in
    let (map, string_keys, embed) = check_target-eq-ok target target_ok in
    let (key, key_found, key_string) = check_key_field-eq-ok cm target.element key_ok in
    record {
      target = target;
      target_found = found;
      target_map = map;
      string_keys = string_keys;
      message_values = embed;
      key = key;
      key_found = key_found;
      key_string = key_string;
      key_name =
          collection_key_field_go_name-field_by_name cm.key_field cm.target agg.fields target key
            found map embed key_found;
      added = λ adds.
          let one =
            check_add-eq-ok evt target.element
              (check_event_fields-add evt cm target.element fields_ok adds) in
          let (f, first, carried) =
            first_carrier-match_count target.element.fqn evt.fields (omega (arith, one)) in
          (f, source_field evt agg cm target annotated found map embed ∙ first, carried, one);
      removed = λ removes.
          check_remove-eq-ok evt cm
            (check_event_fields-remove evt cm target.element fields_ok removes);
    }

-- For an event that passed `validateCollectionMapping`, the lookups of the templates succeed.
pub validate_collection_mapping-IsResolved :
    (evt agg : ProtoMessage) (cm : CollectionMapping) (all : List ProtoMessage)
    → evt.collection ≡ some cm
    → validate_collection_mapping evt agg all ≡ ok tt
    → IsResolved evt agg cm
unfolding validate_collection_mapping
validate_collection_mapping-IsResolved evt agg cm all annotated h =
    elim (Option-cases (field_by_name cm.target agg.fields)) [
      | inl missing ↦
          absurd
            (let bad = rw (annotated, validate_collection_mapping, missing) at h in ground arith)
      | inr (target, found) ↦
          let checked = rw (annotated, found) at h in
          resolve evt agg cm target all annotated found (ground arith)
    ]
