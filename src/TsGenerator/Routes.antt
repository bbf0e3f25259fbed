-- ===== src/TsGenerator/Routes.antt =====
-- cmd/protoc-gen-protosource-ts: the routes that the TypeScript client asks are those that the code of
-- cmd/protoc-gen-protosource answers.
use mathlib.Core.List.{map-append}
use mathlib.Core.Path.{ap₂}
use protosource.Prelude.{
  ℕ, zero, suc, ◌+◌, ◌*◌, ◌-◌, ◌≡◌, refl, ap, ◌∙◌, inl, inr, String, List, [], ◌∷◌, ◌++◌, map, ◌==◌,
  Bool-cases, List-cases, fun_ext,
}
use protosource.Generator.Indexes.{
  FieldMapping, UsedGsi, pk_fields_key, gsis_from, mark_duplicates, used_gsis, query_route_path,
  gsi_query_route_path,
}
use protosource.Generator.OpaqueKeys.{AnnotatedField, attributes_of, collect, opaque_key_mappings}
use protosource.TsGenerator.Fields.{TsField}
use protosource.TsGenerator.Indexes.{
  TsMapping, TsGsi, mappings_of, gather, key_mappings, fields_key, used_from, mark_seen,
  opaque_used_gsis, ts_query_route_path, ts_gsi_query_route_path,
}

-- What the Go generator reads of the same field, the same mapping and the same index.
abbrev pub annotated : TsField → AnnotatedField
annotated f = record { proto_name = f.name; go_name = f.go_name; attributes = f.attributes }

abbrev pub by_names : TsMapping → FieldMapping
by_names m = record { proto_name = m.field.name; go_name = m.field.go_name; order = m.order }

abbrev pub same_gsi : TsGsi → UsedGsi
same_gsi g = record {
  num = g.num;
  pk_type = g.pk_type;
  sk_type = g.sk_type;
  pk_fields = map by_names g.pk_fields;
  sk_fields = map by_names g.sk_fields;
  pk_only_dup = g.pk_only_dup;
}

map-map {ℓ} :
    {A : Type ℓ} {B C : Type 0} (g : B → C) (f : A → B) (xs : List A)
    → map g (map f xs) ≡ map (λ x. g (f x)) xs
map-map g f [] = refl
map-map g f (x ∷ xs) = ap (◌∷◌ (g (f x))) (map-map g f xs)

mappings_of-same :
    (kt : ℕ) (f : TsField) (attributes : List (ℕ × ℕ))
    → map by_names (mappings_of kt f attributes) ≡ attributes_of kt (annotated f) attributes
unfolding mappings_of attributes_of
mappings_of-same kt f [] = refl
mappings_of-same kt f ((type', order) ∷ attributes) = elim (Bool-cases (type' == kt)) [
  | inl here ↦
      rw here (
        ap (◌∷◌ (by_names (record { field = f; order = order })))
          (mappings_of-same kt f attributes))
  | inr other ↦ rw other (mappings_of-same kt f attributes)
]

gather-same :
    (kt : ℕ) (fields : List TsField)
    → map by_names (gather kt fields) ≡ collect kt (map annotated fields)
unfolding gather collect
gather-same kt [] = refl
gather-same kt (f ∷ fields) =
    map-append by_names (mappings_of kt f f.attributes) (gather kt fields)
    ∙ ap₂ ◌++◌ (mappings_of-same kt f f.attributes) (gather-same kt fields)

key_mappings-same :
    (sort : List FieldMapping → List FieldMapping) (ts_sort : List TsMapping → List TsMapping)
    (fields : List TsField)
    → ((ms : List TsMapping) → map by_names (ts_sort ms) ≡ sort (map by_names ms))
    → (kt : ℕ)
    → map by_names (key_mappings ts_sort fields kt)
      ≡ opaque_key_mappings sort (map annotated fields) kt
unfolding key_mappings opaque_key_mappings
key_mappings-same sort ts_sort fields same kt = elim (Bool-cases (kt == 0)) [
  | inl unset ↦ rw unset refl
  | inr set ↦ rw set (same (gather kt fields) ∙ ap sort (gather-same kt fields))
]

used_from-same :
    (ts : ℕ → List TsMapping) (n i : ℕ)
    → map same_gsi (used_from ts n i) ≡ gsis_from (λ kt. map by_names (ts kt)) n i
unfolding used_from gsis_from
used_from-same ts zero i = refl
used_from-same ts (suc n) i = elim (List-cases (ts (3 + (i - 1) * 2))) [
  | inl none_there ↦ rw (none_there, map, gsis_from) (used_from-same ts n (i + 1))
  | inr (f, fields, e) ↦ rw (e, map, gsis_from) (ap₂ ◌∷◌ refl (used_from-same ts n (i + 1)))
]

mark_seen-same :
    (seen : List String) (gsis : List TsGsi)
    → map same_gsi (mark_seen seen gsis) ≡ mark_duplicates seen (map same_gsi gsis)
unfolding mark_seen mark_duplicates fields_key pk_fields_key
mark_seen-same seen [] = refl
mark_seen-same seen (g ∷ gsis) =
    rw (map-map (λ f. f.go_name) by_names g.pk_fields)
      (ap₂ ◌∷◌ refl (mark_seen-same (fields_key g.pk_fields ∷ seen) gsis))

gsi_query_route_path-same :
    (dashed : String → String) (g : TsGsi)
    → ts_gsi_query_route_path dashed g ≡ gsi_query_route_path dashed (same_gsi g)
unfolding ts_gsi_query_route_path gsi_query_route_path ts_query_route_path query_route_path
gsi_query_route_path-same dashed g =
    let pk = map-map (λ f. dashed f.proto_name) by_names g.pk_fields in
    let sk = map-map (λ f. dashed f.proto_name) by_names g.sk_fields in
    elim (Bool-cases g.pk_only_dup) [
      | inr first ↦ rw (first, pk) refl
      | inl dup ↦ elim (List-cases g.sk_fields) [
        | inl none_there ↦ rw (dup, none_there, pk) refl
        | inr (f, fields, e) ↦
            rw (dup, e, pk, map-map (λ f. dashed f.proto_name) by_names fields) refl
      ]
    ]

routes-same :
    (dashed : String → String) (gsis : List TsGsi)
    → map (ts_gsi_query_route_path dashed) gsis
      ≡ map (gsi_query_route_path dashed) (map same_gsi gsis)
routes-same dashed [] = refl
routes-same dashed (g ∷ gsis) =
    ap₂ ◌∷◌ (gsi_query_route_path-same dashed g) (routes-same dashed gsis)

-- Where both sorts put the mappings of a field in the same order: the indexes that the TypeScript
-- generator finds in a message are those of the Go generator, with the same fields, and the routes of
-- their queries are the same.
pub opaque_used_gsis-routes :
    (dashed : String → String) (sort : List FieldMapping → List FieldMapping)
    (ts_sort : List TsMapping → List TsMapping) (fields : List TsField)
    → ((ms : List TsMapping) → map by_names (ts_sort ms) ≡ sort (map by_names ms))
    → (map same_gsi (opaque_used_gsis (key_mappings ts_sort fields))
        ≡ used_gsis (opaque_key_mappings sort (map annotated fields)))
      × (map (ts_gsi_query_route_path dashed) (opaque_used_gsis (key_mappings ts_sort fields))
          ≡ map
              (gsi_query_route_path dashed)
              (used_gsis (opaque_key_mappings sort (map annotated fields))))
unfolding opaque_used_gsis used_gsis
opaque_used_gsis-routes dashed sort ts_sort fields same =
    let ts = key_mappings ts_sort fields in
    let mappings = fun_ext (key_mappings-same sort ts_sort fields same) in
    let gsis =
      mark_seen-same [] (used_from ts 20 1)
      ∙ ap (mark_duplicates []) (used_from-same ts 20 1 ∙ ap (λ m. gsis_from m 20 1) mappings) in
    (gsis, routes-same dashed (opaque_used_gsis ts) ∙ ap (map (gsi_query_route_path dashed)) gsis)
