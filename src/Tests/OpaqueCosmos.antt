-- ===== src/Tests/OpaqueCosmos.antt =====
-- Two documents of a container, one written at the second 1500 and one that was there.
use mathlib.Core.List.{Perm}
use protosource.Prelude.{
  ℕ, zero, suc, ◌+◌, All, String, ◌≡◌, refl, inl, inr, Option, none, List, [], ◌∷◌, ◌≤◌, true,
  arith, if◌then◌else◌,
}
use protosource.Error.{Error, ok}
use protosource.Convert.{convert_all}
use protosource.Opaque.{OpaqueData, QueryOptions}
use protosource.Opaque.Cosmos.Attributes.{is_valid_opaque_attr, same_codes}
use protosource.Opaque.Cosmos.Accepted.{IsOpaqueAttr}
use protosource.Opaque.Cosmos.Sorting.{IsAscending, with_key, text_lt, insert_stable, sort_stable}
use protosource.Opaque.Cosmos.{
  DocumentJson, ContainerClient, document_of, put, get, fetch, query, sk_value_extractor,
}
use protosource.Opaque.Cosmos.Documents.{IsKept, get-put}
use protosource.Opaque.Cosmos.Answers.{query-fetch}
use protosource.Opaque.Cosmos.Keys.{index_key}

abbrev empty_keys : ℕ → List (String × String)
empty_keys zero = []
empty_keys (suc n) = ("", "") ∷ empty_keys n

abbrev row : String → String → OpaqueData
row sk created = record {
  pk = "tenant";
  sk = sk;
  body = 7 ∷ [];
  t = 2000;
  version = 3;
  gsi = ("open", created) ∷ empty_keys 19;
}

abbrev june : OpaqueData
june = row "order#7" "2024-06"

abbrev may : OpaqueData
may = row "order#9" "2024-05"

-- An encoding that knows the two rows.
abbrev json : DocumentJson
json = record {
  marshal = λ doc. ok (1 ∷ []);
  unmarshal = λ raw.
      if same_codes raw (1 ∷ []) then ok (document_of 1500 june) else ok (document_of 1500 may);
}

abbrev container : ContainerClient ℕ
container = record {
  upsert_item = λ pk raw s. (ok tt, s + 1);
  read_item = λ pk id s. ok (1 ∷ []);
  delete_item = λ pk id s. (ok tt, s);
  query_items = λ text pk params s. ok ((1 ∷ []) ∷ (2 ∷ []) ∷ []);
}

abbrev status : Error → Option ℕ
status e = none

empty_keys-IsKept : (n : ℕ) → All IsKept (empty_keys n)
empty_keys-IsKept zero = tt
empty_keys-IsKept (suc n) = (inl (refl, λ e. cc), empty_keys-IsKept n)

get-put_example : get json status container "tenant" "order#7" 1 ≡ ok june
unfolding put document_of same_codes
get-put_example =
    get-put json status container 1500 june 0 1 (λ raw coded sent. (1 ∷ [], refl, refl)) refl
      ((inr ((λ e. cc), (λ e. cc), (λ e. cc))), empty_keys-IsKept 19) refl

abbrev by_created : QueryOptions
by_created = record { gsi_index = 1 }

query-fetch_example :
    IsOpaqueAttr "gsi1pk"
    × (1 ≤ 20)
    × ((items : List OpaqueData) × (fetch json status container 1600 "gsi1pk" "open" "gsi1sk" none
            by_created 1
          ≡ ok items)
        × Perm (may ∷ june ∷ []) items
        × IsAscending (index_key 0) (may ∷ june ∷ [])
        × ((k : String)
            → with_key (index_key 0) k (may ∷ june ∷ []) ≡ with_key (index_key 0) k items))
unfolding query fetch is_valid_opaque_attr sk_value_extractor sort_stable insert_stable text_lt
    document_of same_codes convert_all
query-fetch_example =
    query-fetch json status container 1600 "gsi1pk" "open" "gsi1sk" none by_created 1
      (may ∷ june ∷ []) 0 refl (omega arith) refl

-- A name with a leading zero is accepted, and no key is read under it.
leading_zero : is_valid_opaque_attr "gsi01sk" ≡ true
unfolding is_valid_opaque_attr same_codes
leading_zero = refl

leading_zero_key : sk_value_extractor "gsi01sk" june ≡ ""
unfolding sk_value_extractor
leading_zero_key = refl
