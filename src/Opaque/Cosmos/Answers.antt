-- ===== src/Opaque/Cosmos/Answers.antt =====
-- gen/opaquedata/cosmos: the answers of `Query` on an index.
use mathlib.Core.List.{Perm}
use protosource.Prelude.{
  ℕ, ◌≤◌, ◌<◌, String, ◌≡◌, ◌∙◌, ap, some, inl, inr, true, Option, List, arith,
}
use protosource.Error.{Error, ok}
use protosource.Repository.Stored.{Result-cases}
use protosource.Opaque.{OpaqueData, SortCondition, QueryOptions}
use protosource.Opaque.Cosmos.Attributes.{is_valid_opaque_attr}
use protosource.Opaque.Cosmos.Accepted.{IsOpaqueAttr, is_valid_opaque_attr_iff}
use protosource.Opaque.Cosmos.Sorting.{
  IsAscending, with_key, sort_stable, sort_stable-perm, sort_stable-IsAscending,
  with_key-sort_stable,
}
use protosource.Opaque.Cosmos.Keys.{name_at, sort_names, index_key, sk_value_extractor-index_key}
use protosource.Opaque.Cosmos.{DocumentJson, ContainerClient, query, fetch, sk_value_extractor}

module _ (json : DocumentJson) (status_of : Error → Option ℕ) {S : Type 0}
    (client : ContainerClient S) where
  -- What Query on an index answers, for the sort key of an index of the schema (counted from 0): all
  -- that it fetched, in ascending order of the keys that the documents have for that index, and in the
  -- order of the database where these are equal. The name of the partition key is one that
  -- isValidOpaqueAttr accepts, and the number of the index is at most 20.
  pub query-fetch :
      (now : ℕ) (pk_attr pk_value sk_attr : String) (sort : Option SortCondition)
      (qo : QueryOptions) (s : S) (found : List OpaqueData) (i : ℕ)
      → name_at i sort_names ≡ some sk_attr
      → 0 < qo.gsi_index
      → query json status_of client now pk_attr pk_value sk_attr sort qo s ≡ ok found
      → IsOpaqueAttr pk_attr
        × (qo.gsi_index ≤ 20)
        × ((items : List OpaqueData) × (fetch json status_of client now pk_attr pk_value sk_attr
                sort qo s
              ≡ ok items)
            × Perm found items
            × IsAscending (index_key i) found
            × ((k : String) → with_key (index_key i) k found ≡ with_key (index_key i) k items))
  unfolding query
  query-fetch now pk_attr pk_value sk_attr sort qo s found i named index answered =
      let reads = sk_value_extractor-index_key i sk_attr named in
      elim (Result-cases (fetch json status_of client now pk_attr pk_value sk_attr sort qo s)) [
        | inr (e, failed) ↦ absurd (ground (arith, failed))
        | inl (items, fetched) ↦
            let guarded : (qo.gsi_index ≤ 20)
                × (is_valid_opaque_attr pk_attr ≡ true)
                × (found ≡ sort_stable (sk_value_extractor sk_attr) items) =
              ground (arith, fetched) in
            let sorted : found ≡ sort_stable (index_key i) items =
              guarded.2 ∙ ap (λ key. sort_stable key items) reads in
            (
              (is_valid_opaque_attr_iff pk_attr).0 guarded.1,
              guarded.0,
              (
                items,
                fetched,
                rw sorted (sort_stable-perm _ items),
                rw sorted (sort_stable-IsAscending _ items),
                λ k. rw sorted (with_key-sort_stable _ k items),
              ),
            )
      ]
