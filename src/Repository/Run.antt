-- ===== src/Repository/Run.antt =====
-- The methods of protosource.go's `Repository`: `Load`, `History`, `Apply`, `Save` and their
-- helpers, over any aggregate, store, serializer and codec.
use protosource.Prelude.{
  ℕ, String, Option, none, some, List, [], ◌∷◌, ◌++◌, map, str_eq, add64, is_positive32,
  is_positive64, if◌then◌else◌,
}
use protosource.Error.{
  Error, sentinel, wrap, Result, ok, err, ◌>>=◌, wrap_err, is_error, aggregate_not_found,
  unhandled_event, nil_command, empty_aggregate_id, skip,
}
use protosource.Compress.{Gzip, maybe_compress, maybe_decompress}
use protosource.Repository.Types.{Record, History, Context, Store, Serializer, Domain}
use protosource.Repository.Base.{
  qualified_id, run_hook, warning, fold_on, check_command, last_version,
}

-- The result of `Apply`: the version or an error, the store, and the messages that were logged.
pub record Applied (S : Type 0) : Type 0 where
  pub result : Result ℕ
  pub store : S
  pub warnings : List String

abbrev pub with_ttl : ℕ → Record → Record
with_ttl t r = record r { ttl = t }

-- The expiry that `Save` stamps on records, where the aggregate has a time to live.
unfoldable pub stamp_by : Option ℕ → ℕ → History → History
stamp_by none now records = records
stamp_by (some seconds) now records =
    if is_positive64 seconds then map (with_ttl (add64 now seconds)) records else records

module _ (z : Gzip) {A E C M S : Type 0} (d : Domain A E C M) (serializer : Serializer E)
    (store : Store S M) (threshold : ℕ) where
  -- One round of the loop of `loadAggregateVersion`. The record is changed in place.
  unfoldable pub read_record : Record → A → Result A × Record
  read_record r a = elim (maybe_decompress z r.payload) [
    | err e ↦ (err (wrap "decompress event" e), r)
    | ok bytes ↦
        let r' = record r { payload = bytes } in
        elim (serializer.unmarshal_event r') [
          | err e ↦ (err e, r')
          | ok event ↦ elim (d.on event a) [
            | err e ↦
                (err (wrap "aggregate was unable to handle event" (sentinel unhandled_event)), r')
            | ok a' ↦ (ok a', r')
          ]
        ]
  ]

  -- The loop, with the records as it leaves them.
  unfoldable pub replay : History → A → ℕ → Result (A × ℕ) × History
  replay [] a version = (ok (a, version), [])
  replay (r ∷ rs) a version =
      let (read, r') = read_record r a in
      elim read [
        | err e ↦ (err e, r' ∷ rs)
        | ok a' ↦ (let (rest, rs') = replay rs a' r.version in (rest, r' ∷ rs'))
      ]

  unfoldable pub load_history : Context → String → S → Result History × S
  load_history ctx id s =
      let qid = qualified_id d.proto_package id in
      elim store.load_tail [
        | none ↦ store.load ctx qid s
        | some load_tail ↦ elim d.snapshot_interval [
          | none ↦ store.load ctx qid s
          | some interval ↦
              if is_positive32 interval then load_tail ctx qid interval s else store.load ctx qid s
        ]
      ]

  abbrev pub finish_load : Result (A × ℕ) → Result (A × ℕ)
  finish_load (ok (a, version)) = ok (run_hook d.after_on a, version)
  finish_load (err e) = err e

  abbrev pub rebuild : String → Result History → S → Result (A × ℕ) × S
  rebuild id (err e) s = (err e, s)
  rebuild id (ok []) s = (err (wrap "unable to load" (sentinel aggregate_not_found)), s)
  rebuild id (ok (r ∷ rs)) s =
      let (rebuilt, records) = replay (r ∷ rs) d.fresh 0 in
      (finish_load rebuilt, store.write_through (qualified_id d.proto_package id) records s)

  unfoldable pub load_aggregate_version : Context → String → S → Result (A × ℕ) × S
  load_aggregate_version ctx id s = let (loaded, s') = load_history ctx id s in rebuild id loaded s'

  abbrev pub first_of_load : Result (A × ℕ) → Result A
  first_of_load (ok (a, version)) = ok a
  first_of_load (err e) = err (wrap "load aggregate version" e)

  -- `Load`
  unfoldable pub load : Context → String → S → Result A × S
  load ctx id s = let (loaded, s') = load_aggregate_version ctx id s in (first_of_load loaded, s')

  -- The loop of `History`, which decompresses the records in place.
  unfoldable pub decompress_all : History → Result (Unit {0}) × History
  decompress_all [] = (ok tt, [])
  decompress_all (r ∷ rs) = elim (maybe_decompress z r.payload) [
    | err e ↦ (err (wrap "decompress event" e), r ∷ rs)
    | ok bytes ↦ (let (rest, rs') = decompress_all rs in (rest, record r { payload = bytes } ∷ rs'))
  ]

  abbrev pub decompressed : String → Result History → S → Result History × S
  decompressed id (err e) s = (err e, s)
  decompressed id (ok records) s =
      let (done, records') = decompress_all records in
      let s' = store.write_through (qualified_id d.proto_package id) records' s in
      elim done [ ok _ ↦ (ok records', s') | err e ↦ (err e, s') ]

  -- `History`
  unfoldable pub history : Context → String → S → Result History × S
  history ctx id s =
      if str_eq id ""
      then (err (sentinel empty_aggregate_id), s)
      else (let (loaded, s') = store.load ctx (qualified_id d.proto_package id) s in
          decompressed id loaded s')

  -- The loop of `Save` over one event: its record, compressed where that is enabled.
  unfoldable pub pack : Record → Result Record
  pack r =
      if is_positive64 threshold
      then (do
        bytes ← wrap_err "compress event" (maybe_compress z r.payload threshold)
        ok (record r { payload = bytes }))
      else ok r

  unfoldable pub write_record : E → Result Record
  write_record event = do r ← serializer.marshal_event event; pack r

  unfoldable pub write_records : List E → Result History
  write_records [] = ok []
  write_records (event ∷ events) = do r ← write_record event; rs ← write_records events; ok (r ∷ rs)

  -- `now` is `time.Now().Unix()`.
  unfoldable pub stamp : ℕ → History → History
  unfolding stamp_by
  stamp now records = stamp_by d.event_ttl_seconds now records

  -- `Save`
  unfoldable pub save : Context → ℕ → List E → S → Result (Unit {0}) × S
  save ctx now [] s = (ok tt, s)
  save ctx now (event ∷ events) s = elim (write_records (event ∷ events)) [
    | err e ↦ (err e, s)
    | ok records ↦
        store.save ctx (qualified_id d.proto_package (d.event_id event)) (stamp now records) s
  ]

  module _ (ctx : Context) (put : Context → M → S → Result (Unit {0}) × S) where
    unfoldable pub save_projections : List M → S → S × List String
    save_projections [] s = (s, [])
    save_projections (m ∷ ms) s =
        let (r, s1) = put ctx m s in
        let (s2, logged) = save_projections ms s1 in (s2, warning "projection failed" r ++ logged)

    abbrev pub run_projections : Option (A → List M) → A → S → S × List String
    run_projections none a s = (s, [])
    run_projections (some views) a s = save_projections (views a) s

    unfoldable pub save_views : A → S → S × List String
    unfolding save_projections
    save_views a s =
        let (r, s1) = put ctx (d.message a) s in
        let (s2, logged) = run_projections d.projections a s1 in
        (s2, warning "materialize failed" r ++ logged)

  -- Steps 8 and 9 of `Apply`.
  unfoldable pub materialize : Context → List E → A → S → S × List String
  materialize ctx events a s = elim store.save_aggregate [
    | none ↦ (s, [])
    | some put ↦ elim (fold_on d events a) [
      | err e ↦ (s, [])
      | ok a' ↦ save_views ctx put (run_hook d.after_on a') s
    ]
  ]

  -- Steps 6 to 9 of `Apply`.
  unfoldable pub persist : Context → ℕ → List E → A → ℕ → S → Applied S
  persist ctx now events a version s =
      let (saved, s1) = save ctx now events s in
      elim saved [
        | err e ↦ record { result = err e; store = s1; warnings = [] }
        | ok _ ↦
            let (s2, logged) = materialize ctx events a s1 in
            record { result = ok (last_version d events version); store = s2; warnings = logged }
      ]

  -- Step 5 of `Apply`: a failure that is `ErrSkip` ends without an error.
  abbrev pub skip_or_fail : Error → ℕ → Result ℕ
  skip_or_fail e version = if is_error e skip then ok version else err e

  abbrev pub run_evaluate : C → A → Result (Unit {0})
  run_evaluate c a = elim (d.evaluate c) [ none ↦ ok tt | some f ↦ f a ]

  -- Steps 1 to 9 of `Apply`, on the aggregate that was loaded.
  unfoldable pub execute : Context → ℕ → (ℕ → ℕ) → C → A → ℕ → S → Applied S
  execute ctx now clock c a version s = elim (check_command d c a) [
    | err e ↦ record { result = err e; store = s; warnings = [] }
    | ok emit ↦ elim (run_evaluate c a) [
      | err e ↦ record { result = skip_or_fail e version; store = s; warnings = [] }
      | ok _ ↦ persist ctx now (emit clock a) a version s
    ]
  ]

  -- `if err != nil { aggregate = r.new() }`, on every error of the load.
  abbrev pub or_new : Result (A × ℕ) → A × ℕ
  or_new (ok (a, version)) = (a, version)
  or_new (err e) = (d.fresh, 0)

  -- `Apply`; a nil command is `none`.
  unfoldable pub apply : Context → ℕ → (ℕ → ℕ) → Option C → S → Applied S
  apply ctx now clock none s = record {
    result = err (sentinel nil_command);
    store = s;
    warnings = [];
  }
  apply ctx now clock (some c) s =
      if str_eq (d.command_id c) ""
      then record { result = err (sentinel empty_aggregate_id); store = s; warnings = [] }
      else elim ctx [
        | some e ↦ record { result = err (wrap "context error" e); store = s; warnings = [] }
        | none ↦
            let (loaded, s1) = load_aggregate_version none (d.command_id c) s in
            let (a, version) = or_new loaded in execute none now clock c a version s1
      ]
