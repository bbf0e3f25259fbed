-- ===== src/Generator/Indexes.antt =====
-- cmd/protoc-gen-protosource: the indexes that a message uses, and the routes of their queries.
-- `strings.ToLower` and `strings.ReplaceAll(s, "_", "-")` are parameters.
use Prim.Native.String.{◌++◌ as ◌concat◌}
use protosource.Prelude.{
  ℕ, zero, suc, ◌+◌, ◌*◌, ◌-◌, ◌/◌, ◌%◌, String, ◌≡◌, refl, inl, inr, Bool, true, false, not, List,
  [], ◌∷◌, map, arith, leb, ◌==◌, str_eq, eq_iff, if◌then◌else◌, Bool-cases,
}

-- `opaqueFieldMapping`, by the names of its field.
pub record FieldMapping : Type 0 where
  pub proto_name : String
  pub go_name : String
  pub order : ℕ

-- `opaqueKeySlotGSINum` and `opaqueKeySlotIsSK`
unfoldable pub key_slot_gsi_num : ℕ → ℕ
key_slot_gsi_num n = if leb n 2 then 0 else (n - 3) / 2 + 1

unfoldable pub key_slot_is_sk : ℕ → Bool
key_slot_is_sk n = n % 2 == 0

-- `opaqueUsedGSI`
pub record UsedGsi : Type 0 where
  pub num : ℕ
  pub pk_type : ℕ
  pub sk_type : ℕ
  pub pk_fields : List FieldMapping
  pub sk_fields : List FieldMapping
  pub pk_only_dup : Bool

unfoldable pub join : String → List String → String
join separator [] = ""
join separator (part ∷ []) = part
join separator (part ∷ other ∷ parts) =
    part concat (separator concat join separator (other ∷ parts))

-- `pkFieldsKey`
unfoldable pub pk_fields_key : List FieldMapping → String
unfolding join
pk_fields_key fields = join "+" (map (λ f. f.go_name) fields)

-- The first loop of `opaqueUsedGSIs`, over n indexes from the i-th on.
unfoldable pub gsis_from : (ℕ → List FieldMapping) → ℕ → ℕ → List UsedGsi
gsis_from mappings zero i = []
gsis_from mappings (suc n) i =
    let rest = gsis_from mappings n (i + 1) in
    elim (mappings (3 + (i - 1) * 2)) [
      | [] ↦ rest
      | f ∷ fields ↦
          record {
            num = i;
            pk_type = 3 + (i - 1) * 2;
            sk_type = 4 + (i - 1) * 2;
            pk_fields = f ∷ fields;
            sk_fields = mappings (4 + (i - 1) * 2);
            pk_only_dup = false;
          }
          ∷ rest
    ]

unfoldable pub was_seen : String → List String → Bool
was_seen key [] = false
was_seen key (k ∷ seen) = let rest = was_seen key seen in if str_eq k key then true else rest

-- The second loop of `opaqueUsedGSIs`.
unfoldable pub mark_duplicates : List String → List UsedGsi → List UsedGsi
unfolding was_seen
mark_duplicates seen [] = []
mark_duplicates seen (g ∷ gsis) =
    let key = pk_fields_key g.pk_fields in
    record g { pk_only_dup = was_seen key seen } ∷ mark_duplicates (key ∷ seen) gsis

-- `opaqueUsedGSIs`
unfoldable pub used_gsis : (ℕ → List FieldMapping) → List UsedGsi
unfolding gsis_from mark_duplicates
used_gsis mappings = mark_duplicates [] (gsis_from mappings 20 1)

module _ (dashed : String → String) where
  -- `queryRoutePath`; `dashed` is the lower case with dashes for underscores.
  unfoldable pub query_route_path : List FieldMapping → String
  unfolding join
  query_route_path fields = "by-" concat join "-and-" (map (λ f. dashed f.proto_name) fields)

  -- `gsiQueryRoutePath`
  unfoldable pub gsi_query_route_path : UsedGsi → String
  unfolding query_route_path
  gsi_query_route_path gsi =
      let base = query_route_path gsi.pk_fields in
      if not gsi.pk_only_dup then base else elim gsi.sk_fields [
        | [] ↦ base
        | f ∷ fields ↦
            base concat ("-with-" concat join "-and-" (map (λ s. dashed s.proto_name) (f ∷ fields)))
      ]

-- The keys of the indexes that own the query by the partition key alone.
abbrev pub owners : List UsedGsi → List String
owners [] = []
owners (g ∷ gsis) =
    let rest = owners gsis in if g.pk_only_dup then rest else pk_fields_key g.pk_fields ∷ rest

abbrev pub AreDistinct : List String → Type 0
AreDistinct [] = Unit
AreDistinct (k ∷ keys) = (was_seen k keys ≡ false) × AreDistinct keys

owners-seen :
    (seen : List String) (gsis : List UsedGsi) (key : String)
    → was_seen key seen ≡ true
    → was_seen key (owners (mark_duplicates seen gsis)) ≡ false
unfolding mark_duplicates was_seen
owners-seen seen [] key h = refl
owners-seen seen (g ∷ gsis) key h =
    let own = pk_fields_key g.pk_fields in
    let rest = owners-seen (own ∷ seen) gsis key (ground arith) in
    ground (arith, eq_iff own key, rest, h)

-- No two indexes of a message own the query by the same partition key.
pub owners-mark_duplicates :
    (seen : List String) (gsis : List UsedGsi) → AreDistinct (owners (mark_duplicates seen gsis))
unfolding mark_duplicates was_seen
owners-mark_duplicates seen [] = tt
owners-mark_duplicates seen (g ∷ gsis) =
    let own = pk_fields_key g.pk_fields in
    let rest = owners-mark_duplicates (own ∷ seen) gsis in
    elim (Bool-cases (was_seen own seen)) [
      | inl dup ↦ rw dup rest
      | inr new ↦ rw new (owners-seen (own ∷ seen) gsis own (ground (arith, eq_iff own own)), rest)
    ]
