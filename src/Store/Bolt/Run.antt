-- ===== src/Store/Bolt/Run.antt =====
-- stores/boltdbstore: `Save`, `Load` and `LoadTail`.
use mathlib.Core.List.{reverse}
use protosource.Prelude.{
  ℕ, String, none, some, List, [], ◌∷◌, map, take, is_positive64, if◌then◌else◌,
}
use protosource.Error.{Result, ok, err, ◌>>=◌, wrap}
use protosource.Compress.{Bytes}
use protosource.Repository.Types.{Record, History, Context}
use protosource.Store.Bolt.Keys.{be_bytes, be_value}
use protosource.Store.Bolt.Bucket.{Entries, BucketPath, Bbolt}
use protosource.Store.Bolt.Index.{
  BoltStore, set_file, update, view_tx, assign_shard, lookup_shard, open_shard,
}

abbrev pub record_of_entry : Bytes × Bytes → Record
record_of_entry (k, v) = record { version = be_value k; payload = v; ttl = 0 }

-- The loop of `LoadTail`: the pairs from the last one back, while fewer than n are collected.
abbrev pub walk_back : ℕ → Entries → Entries
walk_back n entries = take (if is_positive64 n then n else 0) (reverse entries)

module _ (to_bytes : String → Bytes) {F : Type 0} (db : Bbolt F)
    (open_file : ℕ → Result (Unit {0})) where
  abbrev pub events_bucket : BucketPath
  events_bucket = to_bytes "events" ∷ []

  abbrev pub aggregate_bucket : String → BucketPath
  aggregate_bucket id = to_bytes "events" ∷ to_bytes id ∷ []

  -- The loop of `Save`.
  unfoldable pub put_records : String → List Record → F → Result F
  put_records id [] f = ok f
  put_records id (r ∷ rs) f = do
    g ← db.put (aggregate_bucket id) (be_bytes 8 r.version) r.payload f
    put_records id rs g

  -- The transaction of `Save`.
  unfoldable pub save_in : String → List Record → F → Result (Unit {0} × F)
  unfolding put_records
  save_in id rs f = do
    f1 ← db.create_bucket events_bucket f
    f2 ← db.create_bucket (aggregate_bucket id) f1
    f3 ← put_records id rs f2
    ok (tt, f3)

  unfoldable pub write_shard :
      String → List Record → ℕ → BoltStore F → Result (Unit {0}) × BoltStore F
  unfolding save_in
  write_shard id rs shard s = elim (update to_bytes db open_file (save_in id rs) (s.files shard)) [
    | err e ↦ (err e, s)
    | ok (_, f) ↦ (ok tt, record s { files = set_file shard f s.files })
  ]

  -- `Save`
  unfoldable pub save :
      Context → String → List Record → BoltStore F → Result (Unit {0}) × BoltStore F
  unfolding write_shard
  save (some e) id rs s = (err (wrap "save failed: context error" e), s)
  save none id rs s =
      let (assigned, s1) = assign_shard to_bytes db open_file id s in
      elim assigned [
        | err e ↦ (err (wrap "assign shard" e), s1)
        | ok shard ↦
            let (opened, s2) = open_shard to_bytes db open_file shard s1 in
            elim opened [
              | err e ↦ (err (wrap "open shard" e), s2)
              | ok _ ↦ write_shard id rs shard s2
            ]
      ]

  -- The pairs of an aggregate in a shard; none where a bucket was not created.
  unfoldable pub entries_of : String → F → Entries
  entries_of id f =
      if db.has_bucket events_bucket f
      then if db.has_bucket (aggregate_bucket id) f then db.entries (aggregate_bucket id) f else []
      else []

  -- What `Load` and `LoadTail` share: the shard is looked up and opened, and then read.
  unfoldable pub read_shard :
      (Entries → History) → String → String → Context → BoltStore F → Result History × BoltStore F
  unfolding entries_of
  read_shard read msg id (some e) s = (err (wrap msg e), s)
  read_shard read msg id none s = elim (lookup_shard to_bytes db open_file id s) [
    | err e ↦ (err (wrap "lookup shard" e), s)
    | ok none ↦ (ok [], s)
    | ok (some shard) ↦
        let (opened, s1) = open_shard to_bytes db open_file shard s in
        elim opened [
          | err e ↦ (err (wrap "open shard" e), s1)
          | ok _ ↦
              (view_tx to_bytes db open_file (λ f. read (entries_of id f)) (s1.files shard), s1)
        ]
  ]

  -- `Load`
  unfoldable pub load : Context → String → BoltStore F → Result History × BoltStore F
  unfolding read_shard
  load ctx id s = read_shard (map record_of_entry) "load failed: context error" id ctx s

  -- `LoadTail`
  unfoldable pub load_tail : Context → String → ℕ → BoltStore F → Result History × BoltStore F
  unfolding read_shard
  load_tail ctx id n s =
      read_shard (λ m. reverse (map record_of_entry (walk_back n m)))
        "load tail failed: context error" id ctx s
