-- ===== src/Dynamo.antt =====
-- The AWS client for DynamoDB, as stores/dynamodbstore and gen/opaquedata/dynamo call it: attribute
-- values, items, requests and pages. The client and strconv are parameters.
pub mod Pages
pub mod Total
use mathlib.Core.List.{reverse}
use protosource.Prelude.{ℕ, ◌<◌, ◌≡◌, String, Bool, true, false, Option, none, some, List, ◌++◌}
use protosource.Prelude.Dict.{Dict}
use protosource.Error.{Result, ok}
use protosource.Compress.{Bytes}

-- types.AttributeValue
pub data Attribute : Type 0 where
  text : String → Attribute
  number : String → Attribute
  binary : Bytes → Attribute

abbrev pub Item : Type 0
Item = Dict Attribute

-- dynamodb.QueryInput
pub record QueryInput : Type 0 where
  pub table : String
  pub index : Option String
  pub consistent : Bool
  pub forward : Bool
  pub limit : Option ℕ
  pub key_condition : String
  pub filter : Option String
  pub names : Dict String
  pub values : Item
  pub start : Option Item

-- dynamodb.QueryOutput: Items and LastEvaluatedKey
pub record Page : Type 0 where
  pub items : List Item
  pub last : Option Item

-- types.Put in a TransactWriteItem
pub record Put : Type 0 where
  pub table : String
  pub item : Item
  pub condition : String

-- The calls on a database in state S. A query changes nothing.
pub record Client (S : Type 0) : Type 0 where
  pub transact_write : List Put → S → Result (Unit {0}) × S
  pub put_item : String → Item → S → Result (Unit {0}) × S
  pub get_item : String → Item → S → Result (Option Item)
  pub delete_item : String → Item → S → Result (Unit {0}) × S
  pub query : QueryInput → S → Result Page

-- What the documentation says of queries: a page holds the next items that the query selects, in
-- its order, whatever the limit; the last evaluated key leads on to the others, with fewer items left
-- to read; without one there are none.
pub record IsPaged {S : Type 0} (client : Client S) : Type 0 where
  pub selected : QueryInput → S → List Item
  pub left : QueryInput → S → ℕ
  pub last_page :
      (q : QueryInput) (s : S) (page : Page)
      → client.query q s ≡ ok page
      → page.last ≡ none
      → selected q s ≡ page.items
  pub next_page :
      (q : QueryInput) (s : S) (page : Page) (key : Item)
      → client.query q s ≡ ok page
      → page.last ≡ some key
      → (selected q s ≡ page.items ++ selected (record q { start = some key }) s)
        × (left (record q { start = some key }) s < left q s)
  pub any_limit :
      (q : QueryInput) (s : S) (limit : Option ℕ)
      → (selected (record q { limit = limit }) s ≡ selected q s)
        × (left (record q { limit = limit }) s ≡ left q s)
  -- ScanIndexForward turns the order round.
  pub other_way :
      (q : QueryInput) (s : S)
      → q.start ≡ none
      → (selected (record q { forward = false }) s
          ≡ reverse (selected (record q { forward = true }) s))
        × (left (record q { forward = false }) s ≡ left (record q { forward = true }) s)

-- strconv: `FormatInt` and `ParseInt` at base 10.
pub record Strconv : Type 0 where
  pub format_int : ℕ → String
  pub parse_int : String → Result ℕ
