-- ===== src/TsGenerator/Indexes.antt =====
-- cmd/protoc-gen-protosource-ts: the indexes of a message and the routes of their queries, a copy of
-- the Go generator's. `sort` is `sort.Slice` by the order of a mapping; `dashed` is the lower case
-- with dashes for underscores.
use Prim.Native.String.{◌++◌ as ◌concat◌}
use protosource.Prelude.{
  ℕ, zero, suc, ◌+◌, ◌*◌, ◌-◌, String, Bool, false, not, List, [], ◌∷◌, ◌++◌, map, ◌==◌,
  if◌then◌else◌,
}
use protosource.Generator.Indexes.{join, was_seen}
use protosource.TsGenerator.Fields.{TsField}

-- `opaqueFieldMapping`
pub record TsMapping : Type 0 where
  pub field : TsField
  pub order : ℕ

-- `opaqueUsedGSI`, without the flags that its lists determine.
pub record TsGsi : Type 0 where
  pub num : ℕ
  pub pk_type : ℕ
  pub sk_type : ℕ
  pub pk_fields : List TsMapping
  pub sk_fields : List TsMapping
  pub pk_only_dup : Bool

-- The inner loop of `opaqueKeyMappings`, for one key type.
unfoldable pub mappings_of : ℕ → TsField → List (ℕ × ℕ) → List TsMapping
mappings_of kt f [] = []
mappings_of kt f ((type', order) ∷ attributes) =
    let rest = mappings_of kt f attributes in
    if type' == kt then record { field = f; order = order } ∷ rest else rest

unfoldable pub gather : ℕ → List TsField → List TsMapping
unfolding mappings_of
gather kt [] = []
gather kt (f ∷ fields) = mappings_of kt f f.attributes ++ gather kt fields

-- `opaqueKeyMappings`, as a function of the key type.
unfoldable pub key_mappings : (List TsMapping → List TsMapping) → List TsField → ℕ → List TsMapping
unfolding gather
key_mappings sort fields kt = if kt == 0 then [] else sort (gather kt fields)

-- `pkFieldsKey`
unfoldable pub fields_key : List TsMapping → String
unfolding join
fields_key fields = join "+" (map (λ m. m.field.go_name) fields)

-- The first loop of `opaqueUsedGSIs`, over n indexes from the i-th on.
unfoldable pub used_from : (ℕ → List TsMapping) → ℕ → ℕ → List TsGsi
used_from mappings zero i = []
used_from mappings (suc n) i =
    let rest = used_from mappings n (i + 1) in
    elim (mappings (3 + (i - 1) * 2)) [
      | [] ↦ rest
      | f ∷ fields ↦
          record {
            num = i;
            pk_type = 3 + (i - 1) * 2;
            sk_type = 4 + (i - 1) * 2;
            pk_fields = f ∷ fields;
            sk_fields = mappings (4 + (i - 1) * 2);
            pk_only_dup = false;
          }
          ∷ rest
    ]

-- The second loop of `opaqueUsedGSIs`.
unfoldable pub mark_seen : List String → List TsGsi → List TsGsi
unfolding was_seen
mark_seen seen [] = []
mark_seen seen (g ∷ gsis) =
    let key = fields_key g.pk_fields in
    record g { pk_only_dup = was_seen key seen } ∷ mark_seen (key ∷ seen) gsis

-- `opaqueUsedGSIs`
unfoldable pub opaque_used_gsis : (ℕ → List TsMapping) → List TsGsi
unfolding used_from mark_seen
opaque_used_gsis mappings = mark_seen [] (used_from mappings 20 1)

-- `opaqueGSISKFields`
unfoldable pub opaque_gsi_sk_fields : (ℕ → List TsMapping) → ℕ → List TsMapping
opaque_gsi_sk_fields mappings n = mappings (4 + (n - 1) * 2)

module _ (dashed : String → String) where
  -- `queryRoutePath`
  unfoldable pub ts_query_route_path : List TsMapping → String
  unfolding join
  ts_query_route_path fields = "by-" concat join "-and-" (map (λ m. dashed m.field.name) fields)

  -- `gsiQueryRoutePath`
  unfoldable pub ts_gsi_query_route_path : TsGsi → String
  unfolding ts_query_route_path
  ts_gsi_query_route_path gsi =
      let base = ts_query_route_path gsi.pk_fields in
      if not gsi.pk_only_dup then base else elim gsi.sk_fields [
        | [] ↦ base
        | f ∷ fields ↦
            base concat ("-with-" concat join "-and-" (map (λ m. dashed m.field.name) (f ∷ fields)))
      ]
