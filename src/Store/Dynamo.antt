-- ===== src/Store/Dynamo.antt =====
-- stores/dynamodbstore: the events of an aggregate as the items of a partition, one for a version.
pub mod Save
pub mod Tail
pub mod Read
use protosource.Prelude.{
  ℕ, zero, suc, ◌+◌, ◌*◌, ◌/◌, ◌%◌, ◌-◌, String, Bool, true, false, Option, none, some, List, [],
  ◌∷◌, map, take, drop, length, ltb, leb, ◌==◌, is_positive64, if◌then◌else◌, two63,
}
use mathlib.Core.List.{reverse}
use protosource.Prelude.Dict.{lookup}
use protosource.Error.{Error, Result, ok, err, ◌>>=◌, wrap, wrap_err, other}
use protosource.Compress.{Bytes, Gzip}
use protosource.Repository.Types.{Record, History, Context}
use protosource.Convert.{convert_all}
use protosource.Dynamo.{
  Attribute, text, number, binary, Item, QueryInput, Page, Put, Client, Strconv,
}
use protosource.Dynamo.Pages.{all_pages, then_more}
use protosource.Opaque.{AutoPksk, OpaqueStore, OpaqueOption, with_ttl, new_opaque_data}

-- The configuration; the times to live are durations in nanoseconds.
pub record DynamoStore (S : Type 0) : Type 0 where
  pub events_table : String
  pub opaque_store : Option (OpaqueStore S)
  pub ttl : ℕ

-- `WithEventsTable`, `WithOpaqueStore` and `WithTTL`
abbrev pub with_events_table : {S : Type 0} → String → DynamoStore S → DynamoStore S
with_events_table name cfg = record cfg { events_table = name }

abbrev pub with_opaque_store : {S : Type 0} → OpaqueStore S → DynamoStore S → DynamoStore S
with_opaque_store store cfg = record cfg { opaque_store = some store }

abbrev pub with_event_ttl : {S : Type 0} → ℕ → DynamoStore S → DynamoStore S
with_event_ttl ttl cfg = record cfg { ttl = ttl }

abbrev pub default_events_table : String
default_events_table = "events"

abbrev configure :
    {S : Type 0} → List (DynamoStore S → DynamoStore S) → DynamoStore S → DynamoStore S
configure [] cfg = cfg
configure (opt ∷ opts) cfg = configure opts (opt cfg)

-- `New`: a client that is nil is refused.
unfoldable pub new_dynamo_store :
    {S : Type 0}
    → Option (Client S)
    → List (DynamoStore S → DynamoStore S)
    → Result (Client S × DynamoStore S)
new_dynamo_store none opts = err (other "dynamodbstore.New: client must not be nil")
new_dynamo_store (some client) opts = ok (
  client,
  configure opts (record { events_table = default_events_table; opaque_store = none; ttl = 0 }),
)

abbrev pub max_transact_items : ℕ
max_transact_items = 100

abbrev pub max_int32 : ℕ
max_int32 = 2147483647

-- `time.Second`, and the seconds above which a time.Duration overflows.
abbrev second : ℕ
second = 1000000000

abbrev pub new_version : String
new_version = "attribute_not_exists(a) AND attribute_not_exists(v)"

-- `strconv` is Go's, `expiry` the clock as in gen/opaquedata.
module _ (strconv : Strconv) (expiry : ℕ → ℕ) {S : Type 0} (client : Client S) where
  unfoldable pub item_of : DynamoStore S → String → Record → Item
  item_of cfg id r =
      let ttl_item : ℕ → Item = λ seconds. ("t", number (strconv.format_int seconds)) ∷ [] in
      ("a", text id)
      ∷ ("v", number (strconv.format_int r.version))
      ∷ ("d", binary r.payload)
      ∷ (if is_positive64 r.ttl
          then ttl_item r.ttl
          else if is_positive64 cfg.ttl
          then ttl_item (expiry cfg.ttl)
          else [])

  unfoldable pub put_of : DynamoStore S → String → Record → Put
  unfolding item_of
  put_of cfg id r = record {
    table = cfg.events_table;
    item = item_of cfg id r;
    condition = new_version;
  }

  -- The loop of `Save`: a transaction for each batch, while records are left. Every round takes one
  -- record at least, so that their number is fuel enough.
  unfoldable pub save_batches : DynamoStore S → String → ℕ → List Record → S → Result (Unit {0}) × S
  unfolding put_of
  save_batches cfg id zero records s = (ok tt, s)
  save_batches cfg id (suc fuel) [] s = (ok tt, s)
  save_batches cfg id (suc fuel) (r ∷ rs) s =
      let (answer, s') =
        client.transact_write (map (put_of cfg id) (take max_transact_items (r ∷ rs))) s in
      elim answer [
        | err e ↦ (err (wrap "dynamodbstore.Save" e), s')
        | ok _ ↦ save_batches cfg id fuel (drop max_transact_items (r ∷ rs)) s'
      ]

  -- `Save`
  unfoldable pub save : DynamoStore S → Context → String → List Record → S → Result (Unit {0}) × S
  unfolding save_batches
  save cfg (some e) id records s = (err (wrap "dynamodbstore.Save" e), s)
  save cfg none id records s = save_batches cfg id (length records) records s

  -- `itemToRecord`
  abbrev number_of : Option Attribute → Result String
  number_of (some (number n)) = ok n
  number_of _ = err (other "version attribute is not a number")

  abbrev binary_of : Option Attribute → Result Bytes
  binary_of (some (binary bytes)) = ok bytes
  binary_of _ = err (other "data attribute is not binary")

  unfoldable pub item_to_record : Item → Result Record
  item_to_record item = do
    version_val ← number_of (lookup "v" item)
    version ← wrap_err "failed to parse version" (strconv.parse_int version_val)
    bytes ← binary_of (lookup "d" item)
    ok (record { version = version; payload = bytes; ttl = 0 })

  unfoldable pub events_query : DynamoStore S → String → Bool → Option ℕ → QueryInput
  events_query cfg id forward limit = record {
    table = cfg.events_table;
    index = none;
    consistent = true;
    forward = forward;
    limit = limit;
    key_condition = "a = :id";
    filter = none;
    names = [];
    values = (":id", text id) ∷ [];
    start = none;
  }

  -- `Load`, on fuel for the pages.
  unfoldable pub load : ℕ → DynamoStore S → Context → String → S → Option (Result History)
  unfolding events_query item_to_record
  load fuel cfg (some e) id s = some (err (wrap "dynamodbstore.Load" e))
  load fuel cfg none id s =
      all_pages client item_to_record (wrap "dynamodbstore.Load") (wrap "dynamodbstore.Load") fuel
        (events_query cfg id true none) s

  abbrev page_limit : ℕ → ℕ
  page_limit remaining = if ltb max_int32 remaining then max_int32 else remaining

  -- The loop of `LoadTail`, on fuel; the records are collected from the last version back.
  unfoldable pub tail_pages : ℕ → ℕ → QueryInput → S → Option (Result History)
  unfolding item_to_record
  tail_pages zero remaining q s = none
  tail_pages (suc fuel) remaining q s =
      if leb remaining 0
      then some (ok [])
      else elim (client.query (record q { limit = some (page_limit remaining) }) s) [
        | err e ↦ some (err (wrap "dynamodbstore.LoadTail" e))
        | ok page ↦ elim (convert_all item_to_record (take remaining page.items)) [
          | err e ↦ some (err (wrap "dynamodbstore.LoadTail" e))
          | ok rows ↦ elim page.last [
            | none ↦ some (ok rows)
            | some key ↦
                let rest =
                  tail_pages fuel (remaining - length rows) (record q { start = some key }) s in
                if leb (remaining - length rows) 0 then some (ok rows) else then_more rows rest
          ]
        ]
      ]

  abbrev reversed : Option (Result History) → Option (Result History)
  reversed none = none
  reversed (some (err e)) = some (err e)
  reversed (some (ok rows)) = some (ok (reverse rows))

  -- `LoadTail`
  unfoldable pub load_tail : ℕ → DynamoStore S → Context → String → ℕ → S → Option (Result History)
  unfolding tail_pages events_query
  load_tail fuel cfg (some e) id n s = some (err (wrap "dynamodbstore.LoadTail" e))
  load_tail fuel cfg none id n s =
      if is_positive64 n
      then reversed (tail_pages fuel n (events_query cfg id false none) s)
      else some (ok [])

  -- The options of `SaveAggregate`, from `EventTTLSeconds` where the aggregate has it.
  unfoldable pub ttl_options : Option ℕ → Result (List OpaqueOption)
  ttl_options none = ok []
  ttl_options (some seconds) =
      if is_positive64 seconds
      then (if ltb ((two63 - 1) / second) seconds
          then err (other "dynamodbstore.SaveAggregate: event_ttl_seconds overflows time.Duration")
          else ok (with_ttl (seconds * second) ∷ []))
      else ok []

  -- `SaveAggregate`; `auto` is the assertion that the aggregate is an AutoPKSK.
  unfoldable pub save_aggregate :
      {M : Type 0}
      → Gzip
      → DynamoStore S
      → Option (AutoPksk M)
      → Option ℕ
      → Context
      → M
      → S
      → Result (Unit {0}) × S
  unfolding ttl_options
  save_aggregate z cfg auto seconds (some e) m s = (err (wrap "dynamodbstore.SaveAggregate" e), s)
  save_aggregate z cfg auto seconds none m s = elim cfg.opaque_store [
    | none ↦ (err (other "dynamodbstore.SaveAggregate: no OpaqueStore configured"), s)
    | some store ↦ elim auto [
      | none ↦ (err (other "dynamodbstore.SaveAggregate: not an opaquedata.AutoPKSK"), s)
      | some apk ↦ elim (ttl_options seconds) [
        | err e ↦ (err e, s)
        | ok opts ↦ elim (new_opaque_data z expiry apk m opts) [
          | err e ↦ (err (wrap "dynamodbstore.SaveAggregate: opaquedata" e), s)
          | ok od ↦
              let (stored, s') = store.put od s in
              (wrap_err "dynamodbstore.SaveAggregate" stored, s')
        ]
      ]
    ]
  ]
