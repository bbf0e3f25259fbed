-- ===== src/Opaque/Cosmos.antt =====
-- gen/opaquedata/cosmos: opaque data as documents of a Cosmos DB container. The container client,
-- encoding/json and `errors.As` for the errors of the client are parameters, and so is the clock in
-- seconds, `now`.
pub mod Attributes
pub mod Accepted
pub mod Sorting
pub mod Documents
pub mod Keys
pub mod Answers
use protosource.Prelude.{
  ℕ, ◌-◌, String, Bool, true, false, not, Option, none, some, List, [], ◌∷◌, ◌++◌, map, ltb, ◌==◌,
  is_positive64, str_eq, if◌then◌else◌,
}
use Prim.Native.String.{◌++◌ as ◌concat◌}
use protosource.Error.{Error, Result, ok, err, ◌>>=◌, wrap, wrap_err, other}
use protosource.Compress.{Bytes}
use protosource.Convert.{convert_all}
use protosource.Opaque.{
  OpaqueData, SortOperator, equal, lt, le, gt, ge, between, begins_with, unknown, SortCondition,
  QueryOptions, OpaqueStore, err_not_found,
}
use protosource.Opaque.Table.{GsiPair, gsi_names, pairs_of, gsi_pairs, is_present}
use protosource.Opaque.Cosmos.Attributes.{is_valid_opaque_attr}
use protosource.Opaque.Cosmos.Sorting.{sort_stable}

-- `document`, with the keys of the indexes 1 to 20 in their order; a key that the JSON omits is "".
pub record OpaqueDocument : Type 0 where
  pub id : String
  pub pk : String
  pub sk : String
  pub body : Bytes
  pub t : ℕ
  pub ttl : ℕ
  pub version : ℕ
  pub gsi : List (String × String)

-- The value of an azcosmos.QueryParameter.
pub data QueryValue : Type 0 where
  text : String → QueryValue
  number : ℕ → QueryValue

-- cosmosclient.ContainerClient, over a container in state S. A query without a partition key goes to
-- all partitions.
pub record ContainerClient (S : Type 0) : Type 0 where
  pub upsert_item : String → Bytes → S → Result (Unit {0}) × S
  pub read_item : String → String → S → Result Bytes
  pub delete_item : String → String → S → Result (Unit {0}) × S
  pub query_items : String → Option String → List (String × QueryValue) → S → Result (List Bytes)

pub record DocumentJson : Type 0 where
  pub marshal : OpaqueDocument → Result Bytes
  pub unmarshal : Bytes → Result OpaqueDocument

-- What an index writes into a document that has none of its keys.
unfoldable pub slot_keys : GsiPair → String × String
slot_keys g =
    if is_present g.pk_val
    then (g.pk_val, if str_eq g.sk_val "" then "NA" else g.sk_val)
    else if is_present g.sk_val
    then ("", g.sk_val)
    else ("", "")

-- `t - now` and at least 1; on ℕ the difference of a time that is past is 0.
unfoldable pub document_ttl : ℕ → ℕ → ℕ
document_ttl now t =
    let remaining = t - now in
    if is_positive64 t then (if ltb remaining 1 then 1 else remaining) else 0

-- The document of `marshalItem`.
unfoldable pub document_of : ℕ → OpaqueData → OpaqueDocument
unfolding document_ttl slot_keys gsi_pairs is_present
document_of now od = record {
  id = od.sk;
  pk = od.pk;
  sk = od.sk;
  body = od.body;
  t = od.t;
  ttl = document_ttl now od.t;
  version = od.version;
  gsi = map slot_keys (gsi_pairs od);
}

-- The opaque data of `unmarshalItem`.
unfoldable pub opaque_of : OpaqueDocument → OpaqueData
opaque_of doc = record {
  pk = doc.pk;
  sk = doc.sk;
  body = doc.body;
  t = doc.t;
  version = doc.version;
  gsi = doc.gsi;
}

-- The keys of an index among those of all; a field that is not set reads as the empty text.
unfoldable pub sk_of : String → List GsiPair → String
sk_of name [] = ""
sk_of name (g ∷ gs) = let rest = sk_of name gs in if str_eq g.sk_attr name then g.sk_val else rest

-- `skValueExtractor`
unfoldable pub sk_value_extractor : String → OpaqueData → String
unfolding sk_of gsi_pairs
sk_value_extractor sk_attr od = if str_eq sk_attr "sk" then od.sk else sk_of sk_attr (gsi_pairs od)

-- The condition on the sort key.
unfoldable pub sort_condition : String → SortOperator → Option String
sort_condition sk_attr equal = some (" AND c." concat (sk_attr concat " = @sk"))
sort_condition sk_attr lt = some (" AND c." concat (sk_attr concat " < @sk"))
sort_condition sk_attr le = some (" AND c." concat (sk_attr concat " <= @sk"))
sort_condition sk_attr gt = some (" AND c." concat (sk_attr concat " > @sk"))
sort_condition sk_attr ge = some (" AND c." concat (sk_attr concat " >= @sk"))
sort_condition sk_attr between = some (" AND c." concat (sk_attr concat " BETWEEN @sk AND @sk2"))
sort_condition sk_attr begins_with = some (" AND STARTSWITH(c." concat (sk_attr concat ", @sk)"))
sort_condition sk_attr (unknown n) = none

unfoldable pub sort_params : SortCondition → List (String × QueryValue)
sort_params sort = elim sort.operator [
  | between ↦ ("@sk", text sort.value) ∷ ("@sk2", text sort.value2) ∷ []
  | _ ↦ ("@sk", text sort.value) ∷ []
]

-- The condition and the parameters that an optional sort condition adds.
unfoldable pub sort_part :
    String → Option SortCondition → Result (String × List (String × QueryValue))
unfolding sort_condition sort_params
sort_part sk_attr none = ok ("", [])
sort_part sk_attr (some sort) = elim (sort_condition sk_attr sort.operator) [
  | none ↦ err (other "opaquedata: unknown sort operator")
  | some condition ↦ ok (condition, sort_params sort)
]

-- The SQL text of `Query`; `condition` is that of the sort key.
unfoldable pub query_text : String → String → String → QueryOptions → String
query_text pk_attr sk_attr condition qo =
    let order = " ORDER BY c." concat (sk_attr concat " ASC") in
    "SELECT * FROM c WHERE c."
    concat (pk_attr
        concat (" = @pk"
            concat (condition
                concat (" AND (NOT IS_DEFINED(c.t) OR c.t = 0 OR c.t > @now)"
                    concat (if qo.gsi_index == 0 then order else "")))))

module _ (json : DocumentJson) (status_of : Error → Option ℕ) {S : Type 0}
    (client : ContainerClient S) where
  -- `isNotFound`; `status_of` is the status of the azcore.ResponseError that `errors.As` finds.
  unfoldable pub is_not_found : Error → Bool
  is_not_found e = elim (status_of e) [ none ↦ false | some status ↦ status == 404 ]

  -- `unmarshalItem`
  unfoldable pub unmarshal_item : Bytes → Result OpaqueData
  unfolding opaque_of
  unmarshal_item raw = do doc ← json.unmarshal raw; ok (opaque_of doc)

  unfoldable pub put : ℕ → OpaqueData → S → Result (Unit {0}) × S
  put now od s = elim (json.marshal (document_of now od)) [
    | err e ↦ (err (wrap "cosmos.Store.Put" e), s)
    | ok item ↦
        let (done, s') = client.upsert_item od.pk item s in (wrap_err "cosmos.Store.Put" done, s')
  ]

  unfoldable pub get : String → String → S → Result OpaqueData
  unfolding unmarshal_item is_not_found
  get pk sk s = elim (client.read_item pk sk s) [
    | err e ↦ if is_not_found e then err err_not_found else err (wrap "cosmos.Store.Get" e)
    | ok raw ↦ wrap_err "cosmos.Store.Get: unmarshal" (unmarshal_item raw)
  ]

  unfoldable pub delete : String → String → S → Result (Unit {0}) × S
  unfolding is_not_found
  delete pk sk s =
      let (done, s') = client.delete_item pk sk s in
      elim done [
        | err e ↦ ((if is_not_found e then ok tt else err (wrap "cosmos.Store.Delete" e)), s')
        | ok _ ↦ (ok tt, s')
      ]

  -- The results of `Query`, in the order of the sort key where the database was not asked for it.
  unfoldable pub ordered : String → QueryOptions → List OpaqueData → List OpaqueData
  unfolding sk_value_extractor
  ordered sk_attr qo found =
      if ltb 0 qo.gsi_index then sort_stable (sk_value_extractor sk_attr) found else found

  -- What `Query` reads after its guards, in the order of the answer.
  unfoldable pub fetch :
      ℕ
      → String
      → String
      → String
      → Option SortCondition
      → QueryOptions
      → S
      → Result (List OpaqueData)
  unfolding sort_part query_text unmarshal_item
  fetch now pk_attr pk_value sk_attr sort qo s = do
    part ← sort_part sk_attr sort
    raws ← wrap_err "opaquedata: query" (
        client.query_items (query_text pk_attr sk_attr part.0 qo)
          (if qo.gsi_index == 0 then some pk_value else none)
          (("@pk", text pk_value) ∷ ("@now", number now) ∷ part.1) s)
    convert_all (λ raw. wrap_err "opaquedata: unmarshal item" (unmarshal_item raw)) raws

  -- `Query`
  unfoldable pub query :
      ℕ
      → String
      → String
      → String
      → Option SortCondition
      → QueryOptions
      → S
      → Result (List OpaqueData)
  unfolding ordered
  query now pk_attr pk_value sk_attr sort qo s =
      if ltb 20 qo.gsi_index
      then err (other "opaquedata: GSI index out of range [0,20]")
      else if not (is_valid_opaque_attr pk_attr)
      then err (other "opaquedata: invalid pk attribute")
      else if not (is_valid_opaque_attr sk_attr)
      then err (other "opaquedata: invalid sk attribute")
      else do items ← fetch now pk_attr pk_value sk_attr sort qo s; ok (ordered sk_attr qo items)

  -- The store as the aggregates' interface, at the second `now`.
  abbrev pub opaque_store : ℕ → OpaqueStore S
  opaque_store now = record {
    put = put now;
    get = get;
    delete = delete;
    query =
        λ pk_attr pk_value sk_attr sort qo s. some (query now pk_attr pk_value sk_attr sort qo s);
  }
