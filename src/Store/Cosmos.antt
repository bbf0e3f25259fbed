-- ===== src/Store/Cosmos.antt =====
-- stores/cosmosdbstore: the events of an aggregate as the documents of a partition.
pub mod Tail
pub mod Client
pub mod Batches
pub mod Pages
use mathlib.Core.List.{reverse}
use protosource.Prelude.{
  ℕ, zero, suc, ◌+◌, ◌*◌, ◌/◌, ◌-◌, String, Option, none, some, List, [], ◌∷◌, ◌++◌, take, drop,
  length, ltb, leb, is_positive64, if◌then◌else◌, two63,
}
use protosource.Error.{Error, Result, ok, err, ◌>>=◌, wrap, wrap_err, other}
use protosource.Compress.{Bytes, Gzip}
use protosource.Repository.Types.{Record, History, Context}
use protosource.Convert.{convert_all}
use protosource.Opaque.{AutoPksk, OpaqueStore, OpaqueOption, with_ttl, new_opaque_data}

-- `eventDoc`
pub record EventDoc : Type 0 where
  pub id : String
  pub a : String
  pub v : ℕ
  pub d : Bytes
  pub t : ℕ
  pub ttl : ℕ

-- cosmosclient.ContainerClient, over a container in state S. A pager is the list of what `NextPage`
-- returns, as long as `More` says that there is more.
pub record Container (S : Type 0) : Type 0 where
  pub execute_create_batch : String → List Bytes → S → Result (Unit {0}) × S
  pub query_items : String → String → S → Result (List Bytes)
  pub query_pager : String → String → ℕ → S → List (Result (List Bytes))

-- encoding/json on documents, and `strconv.FormatInt`.
pub record Json : Type 0 where
  pub marshal : EventDoc → Result Bytes
  pub unmarshal : Bytes → Result EventDoc
  pub format_int : ℕ → String

pub record CosmosStore (S : Type 0) : Type 0 where
  pub opaque_store : Option (OpaqueStore S)
  pub ttl : ℕ

-- `WithOpaqueStore` and `WithTTL`
abbrev pub with_opaque_store : {S : Type 0} → OpaqueStore S → CosmosStore S → CosmosStore S
with_opaque_store store cfg = record cfg { opaque_store = some store }

abbrev pub with_event_ttl : {S : Type 0} → ℕ → CosmosStore S → CosmosStore S
with_event_ttl ttl cfg = record cfg { ttl = ttl }

abbrev configure :
    {S : Type 0} → List (CosmosStore S → CosmosStore S) → CosmosStore S → CosmosStore S
configure [] cfg = cfg
configure (opt ∷ opts) cfg = configure opts (opt cfg)

-- `New`
unfoldable pub new_cosmos_store :
    {S : Type 0}
    → Option (Container S)
    → List (CosmosStore S → CosmosStore S)
    → Result (Container S × CosmosStore S)
new_cosmos_store none opts = err (other "cosmosdbstore.New: events client must not be nil")
new_cosmos_store (some events) opts =
    ok (events, configure opts (record { opaque_store = none; ttl = 0 }))

abbrev pub max_batch_items : ℕ
max_batch_items = 100

abbrev pub max_int32 : ℕ
max_int32 = 2147483647

-- `time.Second`
abbrev pub second : ℕ
second = 1000000000

abbrev pub ascending : String
ascending = "SELECT * FROM c WHERE c.a = @id ORDER BY c.v ASC"

abbrev pub descending : String
descending = "SELECT * FROM c WHERE c.a = @id ORDER BY c.v DESC"

-- `clock` is what `time.Now` reads at a batch, in nanoseconds.
module _ (json : Json) (clock : ℕ → ℕ) {S : Type 0} (events : Container S) where
  -- The time to live of a record as a point in time, in seconds; 0 for none.
  unfoldable pub expiry_of : CosmosStore S → ℕ → Record → ℕ
  expiry_of cfg now r =
      if is_positive64 r.ttl
      then r.ttl
      else if is_positive64 cfg.ttl
      then (now + cfg.ttl) / second
      else 0

  -- `doc.T - now.Unix()`, and 1 where that is less; on ℕ the difference of a time that is past is 0.
  unfoldable pub relative_ttl : ℕ → ℕ → ℕ
  relative_ttl t now =
      let remaining = t - now / second in
      if is_positive64 t then (if ltb remaining 1 then 1 else remaining) else 0

  unfoldable pub doc_of : CosmosStore S → String → ℕ → Record → EventDoc
  unfolding expiry_of relative_ttl
  doc_of cfg id now r = record {
    id = json.format_int r.version;
    a = id;
    v = r.version;
    d = r.payload;
    t = expiry_of cfg now r;
    ttl = relative_ttl (expiry_of cfg now r) now;
  }

  unfoldable pub marshal_record : CosmosStore S → String → ℕ → Record → Result Bytes
  unfolding doc_of
  marshal_record cfg id now r =
      wrap_err "cosmosdbstore.Save: marshal record" (json.marshal (doc_of cfg id now r))

  -- The loop of `Save` from its k-th batch on; the number of the records is fuel enough.
  unfoldable pub save_batches :
      CosmosStore S → String → ℕ → ℕ → List Record → S → Result (Unit {0}) × S
  unfolding marshal_record
  save_batches cfg id zero k records s = (ok tt, s)
  save_batches cfg id (suc fuel) k [] s = (ok tt, s)
  save_batches cfg id (suc fuel) k (r ∷ rs) s =
      elim (convert_all (marshal_record cfg id (clock k)) (take max_batch_items (r ∷ rs))) [
        | err e ↦ (err e, s)
        | ok items ↦
            let (answer, s') = events.execute_create_batch id items s in
            elim answer [
              | err e ↦ (err (wrap "cosmosdbstore.Save" e), s')
              | ok _ ↦ save_batches cfg id fuel (suc k) (drop max_batch_items (r ∷ rs)) s'
            ]
      ]

  -- `Save`
  unfoldable pub save : CosmosStore S → Context → String → List Record → S → Result (Unit {0}) × S
  unfolding save_batches
  save cfg (some e) id records s = (err (wrap "cosmosdbstore.Save" e), s)
  save cfg none id records s = save_batches cfg id (length records) 0 records s

  -- `docToRecord`
  unfoldable pub doc_to_record : Bytes → Result Record
  doc_to_record raw = do
    doc ← wrap_err "unmarshal event doc" (json.unmarshal raw)
    ok (record { version = doc.v; payload = doc.d; ttl = 0 })

  -- `Load`
  unfoldable pub load : Context → String → S → Result History
  unfolding doc_to_record
  load (some e) id s = err (wrap "cosmosdbstore.Load" e)
  load none id s = do
    raws ← wrap_err "cosmosdbstore.Load" (events.query_items ascending id s)
    wrap_err "cosmosdbstore.Load" (convert_all doc_to_record raws)

  -- The loop of `LoadTail` over the pages.
  unfoldable pub collect_pages : ℕ → List (Result (List Bytes)) → Result History
  unfolding doc_to_record
  collect_pages remaining [] = ok []
  collect_pages remaining (answer ∷ pages) = if leb remaining 0 then ok [] else elim answer [
    | err e ↦ err (wrap "cosmosdbstore.LoadTail" e)
    | ok page ↦ elim (convert_all doc_to_record (take remaining page)) [
      | err e ↦ err (wrap "cosmosdbstore.LoadTail" e)
      | ok rows ↦ collect_pages (remaining - length rows) pages >>= λ more. ok (rows ++ more)
    ]
  ]

  abbrev pub page_hint : ℕ → ℕ
  page_hint n = if ltb max_int32 n then max_int32 else n

  -- `LoadTail`
  unfoldable pub load_tail : Context → String → ℕ → S → Result History
  unfolding collect_pages
  load_tail (some e) id n s = err (wrap "cosmosdbstore.LoadTail" e)
  load_tail none id n s =
      if is_positive64 n
      then (collect_pages n (events.query_pager descending id (page_hint n) s) >>= λ rows.
          ok (reverse rows))
      else ok []

  -- The options of `SaveAggregate`.
  unfoldable pub ttl_options : Option ℕ → Result (List OpaqueOption)
  ttl_options none = ok []
  ttl_options (some seconds) =
      if is_positive64 seconds
      then (if ltb ((two63 - 1) / second) seconds
          then err (other "cosmosdbstore.SaveAggregate: event_ttl_seconds overflows time.Duration")
          else ok (with_ttl (seconds * second) ∷ []))
      else ok []

  -- `SaveAggregate`; `auto` is the assertion that the aggregate is an AutoPKSK, `expiry` the clock.
  unfoldable pub save_aggregate :
      {M : Type 0}
      → Gzip
      → (ℕ → ℕ)
      → CosmosStore S
      → Option (AutoPksk M)
      → Option ℕ
      → Context
      → M
      → S
      → Result (Unit {0}) × S
  unfolding ttl_options
  save_aggregate z expiry cfg auto seconds (some e) m s =
      (err (wrap "cosmosdbstore.SaveAggregate" e), s)
  save_aggregate z expiry cfg auto seconds none m s = elim cfg.opaque_store [
    | none ↦ (err (other "cosmosdbstore.SaveAggregate: no OpaqueStore configured"), s)
    | some store ↦ elim auto [
      | none ↦ (err (other "cosmosdbstore.SaveAggregate: not an opaquedata.AutoPKSK"), s)
      | some apk ↦ elim (ttl_options seconds) [
        | err e ↦ (err e, s)
        | ok opts ↦ elim (new_opaque_data z expiry apk m opts) [
          | err e ↦ (err (wrap "cosmosdbstore.SaveAggregate: opaquedata" e), s)
          | ok od ↦
              let (stored, s') = store.put od s in
              (wrap_err "cosmosdbstore.SaveAggregate" stored, s')
        ]
      ]
    ]
  ]
