-- ===== src/Opaque/Table.antt =====
-- gen/opaquedata/dynamo: opaque data as items of a DynamoDB table with indexes. The client, strconv
-- and `attributevalue.UnmarshalMap` are parameters.
use Prim.Native.String.{◌++◌ as ◌concat◌}
use protosource.Prelude.{
  ℕ, String, Bool, true, false, not, ◌&&◌, Option, none, some, List, [], ◌∷◌, length, ltb, ◌==◌,
  str_eq, if◌then◌else◌,
}
use protosource.Prelude.Dict.{lookup, insert, erase}
use protosource.Error.{Result, ok, err, wrap, wrap_err, other}
use protosource.Dynamo.{text, number, binary, Item, QueryInput, Client, Strconv}
use protosource.Dynamo.Pages.{all_pages}
use protosource.Opaque.{
  OpaqueData, SortOperator, equal, lt, le, gt, ge, between, begins_with, unknown, SortCondition,
  QueryOptions, OpaqueStore, err_not_found,
}

-- `getKey` and `GetKey`
unfoldable pub get_key : String → String → Item
get_key pk sk = ("pk", text pk) ∷ ("sk", text sk) ∷ []

pub record GsiPair : Type 0 where
  pub pk_attr : String
  pub sk_attr : String
  pub pk_val : String
  pub sk_val : String

-- The attributes of the indexes 1 to 20.
abbrev pub gsi_names : List (String × String)
gsi_names =
    ("gsi1pk", "gsi1sk")
    ∷ ("gsi2pk", "gsi2sk")
    ∷ ("gsi3pk", "gsi3sk")
    ∷ ("gsi4pk", "gsi4sk")
    ∷ ("gsi5pk", "gsi5sk")
    ∷ ("gsi6pk", "gsi6sk")
    ∷ ("gsi7pk", "gsi7sk")
    ∷ ("gsi8pk", "gsi8sk")
    ∷ ("gsi9pk", "gsi9sk")
    ∷ ("gsi10pk", "gsi10sk")
    ∷ ("gsi11pk", "gsi11sk")
    ∷ ("gsi12pk", "gsi12sk")
    ∷ ("gsi13pk", "gsi13sk")
    ∷ ("gsi14pk", "gsi14sk")
    ∷ ("gsi15pk", "gsi15sk")
    ∷ ("gsi16pk", "gsi16sk")
    ∷ ("gsi17pk", "gsi17sk")
    ∷ ("gsi18pk", "gsi18sk")
    ∷ ("gsi19pk", "gsi19sk")
    ∷ ("gsi20pk", "gsi20sk")
    ∷ []

-- The keys of the first index of a list; a field that is not set reads as the empty text.
abbrev pub first_keys : List (String × String) → String × String
first_keys [] = ("", "")
first_keys (keys ∷ others) = keys

abbrev pub other_keys : List (String × String) → List (String × String)
other_keys [] = []
other_keys (keys ∷ others) = others

unfoldable pub pairs_of : List (String × String) → List (String × String) → List GsiPair
pairs_of [] keys = []
pairs_of ((pk, sk) ∷ names) keys =
    record {
      pk_attr = pk;
      sk_attr = sk;
      pk_val = (first_keys keys).0;
      sk_val = (first_keys keys).1;
    }
    ∷ pairs_of names (other_keys keys)

-- `gsiPairs`
unfoldable pub gsi_pairs : OpaqueData → List GsiPair
unfolding pairs_of
gsi_pairs od = pairs_of gsi_names od.gsi

unfoldable pub is_present : String → Bool
is_present v = not (str_eq v "") && not (str_eq v "NA")

-- The loop of `GetItem` over the indexes.
unfoldable pub add_pair : GsiPair → Item → Item
unfolding is_present
add_pair g item =
    if is_present g.pk_val
    then insert g.sk_attr (text (if str_eq g.sk_val "" then "NA" else g.sk_val))
        (insert g.pk_attr (text g.pk_val) item)
    else if is_present g.sk_val
    then insert g.sk_attr (text g.sk_val) item
    else item

unfoldable pub add_pairs : List GsiPair → Item → Item
unfolding add_pair
add_pairs [] item = item
add_pairs (g ∷ gs) item = add_pairs gs (add_pair g item)

module _ (strconv : Strconv) where
  -- The attributes of an item but for those of the indexes.
  unfoldable pub plain_item : OpaqueData → Item
  plain_item od =
      let item = ("pk", text od.pk) ∷ ("sk", text od.sk) ∷ [] in
      let item' = if ltb 0 (length od.body) then insert "body" (binary od.body) item else item in
      let item'' =
        if od.t == 0 then item' else insert "t" (number (strconv.format_int od.t)) item' in
      if od.version == 0
      then item''
      else insert "version" (number (strconv.format_int od.version)) item''

  -- `GetItem`
  unfoldable pub get_item : OpaqueData → Item
  unfolding plain_item add_pairs
  get_item od = add_pairs (gsi_pairs od) (plain_item od)

  -- The loop that `GetItems` and `GetExpressionValues` share; `prefix` stands before a name.
  unfoldable pub pick_names : String → Item → List String → Item → Result Item
  pick_names prefix full [] result = ok result
  pick_names prefix full (name ∷ names) result = elim (lookup name full) [
    | none ↦ err (other "opaquedata: attribute not found or empty")
    | some v ↦ pick_names prefix full names (insert (prefix concat name) v result)
  ]

  unfoldable pub get_items : OpaqueData → List String → Result Item
  unfolding get_item pick_names
  get_items od names = pick_names "" (get_item od) names []

  unfoldable pub get_expression_values : OpaqueData → List String → Result Item
  unfolding get_item pick_names
  get_expression_values od names = pick_names ":" (get_item od) names []

  -- `GetValue`
  unfoldable pub get_value : OpaqueData → Item
  unfolding get_item
  get_value od = erase "sk" (erase "pk" (get_item od))

  -- `GSIIndexName`
  unfoldable pub gsi_index_name : ℕ → String
  gsi_index_name n =
      "gsi"
      concat (strconv.format_int n
          concat ("pk-gsi" concat (strconv.format_int n concat "sk-index")))

  -- The part of the key condition on the sort key.
  unfoldable pub sort_clause : SortOperator → Option String
  sort_clause equal = some " AND #sk = :sk"
  sort_clause lt = some " AND #sk < :sk"
  sort_clause le = some " AND #sk <= :sk"
  sort_clause gt = some " AND #sk > :sk"
  sort_clause ge = some " AND #sk >= :sk"
  sort_clause between = some " AND #sk BETWEEN :sk AND :sk2"
  sort_clause begins_with = some " AND begins_with(#sk, :sk)"
  sort_clause (unknown n) = none

  unfoldable pub sort_values : SortCondition → Item
  sort_values sort = elim sort.operator [
    | between ↦ (":sk", text sort.value) ∷ (":sk2", text sort.value2) ∷ []
    | _ ↦ (":sk", text sort.value) ∷ []
  ]

  abbrev with_values : Item → Item → Item
  with_values [] values = values
  with_values ((k, v) ∷ more) values = with_values more (insert k v values)

  module _ {S : Type 0} (client : Client S) (unmarshal_map : Item → Result OpaqueData)
      (table : String) where
    unfoldable pub put : OpaqueData → S → Result (Unit {0}) × S
    unfolding get_item
    put od s =
        let (done, s') = client.put_item table (get_item od) s in
        (wrap_err "dynamo.Store.Put" done, s')

    unfoldable pub get : String → String → S → Result OpaqueData
    unfolding get_key
    get pk sk s = elim (client.get_item table (get_key pk sk) s) [
      | err e ↦ err (wrap "dynamo.Store.Get" e)
      | ok none ↦ err err_not_found
      | ok (some item) ↦ wrap_err "dynamo.Store.Get: unmarshal" (unmarshal_map item)
    ]

    unfoldable pub delete : String → String → S → Result (Unit {0}) × S
    unfolding get_key
    delete pk sk s =
        let (done, s') = client.delete_item table (get_key pk sk) s in
        (wrap_err "dynamo.Store.Delete" done, s')

    -- The input of `Query` on the main table, without a sort condition; `now` is the clock in seconds.
    unfoldable pub plain_query : ℕ → String → String → QueryInput
    plain_query now pk_attr pk_value = record {
      table = table;
      index = none;
      consistent = false;
      forward = true;
      limit = none;
      key_condition = "#pk = :pk";
      filter = some "attribute_not_exists(#t) OR #t = :zero OR #t > :now";
      names = ("#pk", pk_attr) ∷ ("#t", "t") ∷ [];
      values =
          (":pk", text pk_value)
          ∷ (":zero", number "0")
          ∷ (":now", number (strconv.format_int now))
          ∷ [];
      start = none;
    }

    unfoldable pub sorted_query : String → Option SortCondition → QueryInput → Result QueryInput
    unfolding sort_clause sort_values
    sorted_query sk_attr none q = ok q
    sorted_query sk_attr (some sort) q = elim (sort_clause sort.operator) [
      | none ↦ err (other "opaquedata: unknown sort operator")
      | some clause ↦ ok (record q {
        key_condition = q.key_condition concat clause;
        names = insert "#sk" sk_attr q.names;
        values = with_values (sort_values sort) q.values;
      })
    ]

    -- `Query`, on fuel for the pages.
    unfoldable pub query :
        ℕ
        → ℕ
        → String
        → String
        → String
        → Option SortCondition
        → QueryOptions
        → S
        → Option (Result (List OpaqueData))
    unfolding plain_query sorted_query gsi_index_name
    query fuel now pk_attr pk_value sk_attr sort qo s =
        if ltb 20 qo.gsi_index
        then some (err (other "opaquedata: GSI index out of range [0,20]"))
        else elim (sorted_query sk_attr sort (plain_query now pk_attr pk_value)) [
          | err e ↦ some (err e)
          | ok q ↦
              let indexed =
                if ltb 0 qo.gsi_index
                then record q { index = some (gsi_index_name qo.gsi_index) }
                else q in
              all_pages client unmarshal_map (wrap "opaquedata: query")
                (wrap "opaquedata: unmarshal item") fuel indexed s
        ]

    -- The store as the aggregates' interface, on fuel for the pages of its queries, at the second `now`.
    abbrev pub opaque_store : ℕ → ℕ → OpaqueStore S
    opaque_store fuel now = record { put = put; get = get; delete = delete; query = query fuel now }
