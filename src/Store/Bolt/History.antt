-- ===== src/Store/Bolt/History.antt =====
-- `Save` and `Load` of the Bolt store: its contents as histories.
use mathlib.Core.List.{map-append}
use protosource.Prelude.{
  ℕ, ◌+◌, ◌<◌, String, ◌≡◌, ◌≢◌, refl, sym, ap, ◌∙◌, inl, inr, true, Option, none, some, List, [],
  ◌∷◌, ◌++◌, map, arith, ◌==◌, ==_iff, two32, two64, Bool-cases, Option-cases,
}
use protosource.Error.{Result, ok}
use protosource.Compress.{Bytes}
use protosource.Repository.Types.{Record, History}
use protosource.Store.Bolt.Keys.{be_value-be_bytes}
use protosource.Store.Bolt.Bucket.{Bbolt, IsBbolt}
use protosource.Store.Bolt.Index.{
  BoltStore, set_file, view_tx, is_open, open_shard, lookup_shard, shard_of,
}
use protosource.Store.Bolt.Run.{record_of_entry, aggregate_bucket, entries_of, read_shard, load}
use protosource.Store.Bolt.Capacity.{IsPacked, assign_in-IsPacked}
use protosource.Store.Bolt.Written.{
  AllBefore, AscendFrom, ascend_bound, entry_of, save_in-entries, save_in-other,
}
use protosource.Store.Bolt.Saved.{Saved}
use protosource.Store.Bolt.Assigned.{assign_in-known, assign_in-other}

-- What a stored record comes back as: its time to live is not kept.
abbrev pub without_ttl : Record → Record
without_ttl r = record r { ttl = 0 }

records_of_entries :
    (n : ℕ) (rs : List Record)
    → AscendFrom n rs
    → map record_of_entry (map entry_of rs) ≡ map without_ttl rs
records_of_entries n [] h = refl
records_of_entries n (r ∷ rs) (low, h) =
    let bound : r.version < two64 = omega (arith, ascend_bound _ rs h) in
    rw (records_of_entries _ rs h, be_value-be_bytes 8 r.version bound) refl

module _ (to_bytes : String → Bytes) {F : Type 0} (db : Bbolt F)
    (open_file : ℕ → Result (Unit {0})) where
  -- The history of an aggregate, by its shard.
  unfoldable pub history_at : Option ℕ → String → BoltStore F → History
  history_at none id s = []
  history_at (some k) id s = map record_of_entry (entries_of to_bytes db open_file id (s.files k))

  unfoldable pub history_of : String → BoltStore F → History
  history_of id s = history_at (shard_of to_bytes db open_file id s.index) id s

  -- A shard has entries of the aggregates that the index assigns to it, and of no others.
  pub record IsIndexed (s : BoltStore F) : Type 0 where
    pub only :
        (id : String) (k : ℕ)
        → shard_of to_bytes db open_file id s.index ≢ some k
        → entries_of to_bytes db open_file id (s.files k) ≡ []

  open_shard_lem :
      (k : ℕ) (s : BoltStore F)
      → open_file k ≡ ok tt
      → ((open_shard to_bytes db open_file k s).0 ≡ ok tt)
        × ((open_shard to_bytes db open_file k s).1.files ≡ s.files)
  unfolding open_shard
  open_shard_lem k s opens = elim (Bool-cases (is_open k s.shards)) [
    | inl already ↦ rw (already, open_shard) (refl, refl)
    | inr closed ↦ rw (closed, opens, open_shard) (refl, refl)
  ]

  -- Where files open and transactions begin, `Load` returns the history.
  pub load_lem :
      (id : String) (s : BoltStore F)
      → ((f : F) → db.begin f ≡ ok tt)
      → ((k : ℕ) → open_file k ≡ ok tt)
      → (load to_bytes db open_file none id s).0 ≡ ok (history_of id s)
  unfolding load read_shard lookup_shard view_tx history_of history_at entries_of
  load_lem id s begins opens =
      let found : lookup_shard to_bytes db open_file id s
          ≡ ok (shard_of to_bytes db open_file id s.index) =
        rw (begins s.index, lookup_shard) refl in
      elim (Option-cases (shard_of to_bytes db open_file id s.index)) [
        | inl missing ↦ rw (found, missing, load, read_shard, history_of) refl
        | inr (k, there) ↦
            let (opened, same) = open_shard_lem k s (opens k) in
            rw (found, there, opened, begins, same, load, read_shard, history_of) refl
      ]

module _ (to_bytes : String → Bytes) {F : Type 0} (db : Bbolt F) (laws : IsBbolt db)
    (open_file : ℕ → Result (Unit {0}))
    (injective : (a b : String) → to_bytes a ≡ to_bytes b → a ≡ b) where
  path-apart :
      (id j : String)
      → id ≢ j
      → aggregate_bucket to_bytes db open_file id ≢ aggregate_bucket to_bytes db open_file j
  path-apart id j apart e = let same : to_bytes id ≡ to_bytes j = cc in apart (injective id j same)

  -- No shard's entries of another aggregate change.
  pub files_other :
      (id j : String) (k : ℕ) (rs : List Record) (s t : BoltStore F)
      → id ≢ j
      → Saved to_bytes db open_file id rs s t
      → entries_of to_bytes db open_file j (t.files k)
        ≡ entries_of to_bytes db open_file j (s.files k)
  unfolding set_file
  files_other id j k rs s t apart h = rw h.files (elim (Bool-cases (k == h.shard)) [
    | inl same ↦ rw same (
        save_in-other to_bytes db laws open_file id j rs (s.files h.shard) h.content
          (path-apart id j apart) h.written
        ∙ ap (λ m. entries_of to_bytes db open_file j (s.files m))
            (sym ((==_iff k h.shard).0 same)))
    | inr other ↦ rw other refl
  ])

  -- The history is in the shard that `Save` writes to, also where the aggregate is a new one.
  history_before :
      (id : String) (rs : List Record) (s t : BoltStore F)
      → IsIndexed to_bytes db open_file s
      → (h : Saved to_bytes db open_file id rs s t)
      → history_of to_bytes db open_file id s
        ≡ map record_of_entry (entries_of to_bytes db open_file id (s.files h.shard))
  unfolding history_of history_at
  history_before id rs s t indexed h =
      elim (Option-cases (shard_of to_bytes db open_file id s.index)) [
        | inl missing ↦
            let empty = indexed.only id h.shard (λ e. let bad = sym missing ∙ e in cc) in
            rw (missing, empty, history_of) refl
        | inr (k, there) ↦
            let same =
              assign_in-known to_bytes db laws open_file injective id h.shard k s.index t.index
                there h.assigned in
            rw (there, same, history_of) refl
      ]

  -- Where the index sends the aggregate after a `Save`.
  pub assigned_to :
      (id : String) (rs : List Record) (n max : ℕ) (s t : BoltStore F)
      → IsPacked to_bytes db laws open_file injective n max s.index
      → n + 1 < two32
      → (h : Saved to_bytes db open_file id rs s t)
      → shard_of to_bytes db open_file id t.index ≡ some h.shard
  unfolding shard_of
  assigned_to id rs n max s t packed room h =
      let (after, (v, found, value)) =
        assign_in-IsPacked to_bytes db laws open_file injective id n max h.shard s.index t.index
          packed room h.assigned in
      rw (found, shard_of) (ap some value)

  pub own_history :
      (id : String) (rs : List Record) (n max from : ℕ) (s t : BoltStore F)
      → IsPacked to_bytes db laws open_file injective n max s.index
      → n + 1 < two32
      → IsIndexed to_bytes db open_file s
      → (h : Saved to_bytes db open_file id rs s t)
      → AllBefore from (entries_of to_bytes db open_file id (s.files h.shard))
      → AscendFrom from rs
      → history_of to_bytes db open_file id t
        ≡ history_of to_bytes db open_file id s ++ map without_ttl rs
  unfolding history_of history_at set_file
  own_history id rs n max from s t packed room indexed h old ascend =
      let here : (h.shard == h.shard) ≡ true = (==_iff h.shard h.shard).1 refl in
      let file : t.files h.shard ≡ h.content =
        ap (λ files. files h.shard) h.files ∙ rw (here, set_file) refl in
      let there = assigned_to id rs n max s t packed room h in
      let read : history_of to_bytes db open_file id t
          ≡ map record_of_entry (entries_of to_bytes db open_file id (t.files h.shard)) =
        rw (there, history_of) refl in
      read
      ∙ ap (λ f. map record_of_entry (entries_of to_bytes db open_file id f)) file
      ∙ ap (map record_of_entry) (
          save_in-entries to_bytes db laws open_file id from rs (s.files h.shard) h.content old
            ascend h.written)
      ∙ map-append record_of_entry _ (map entry_of rs)
      ∙ rw (records_of_entries from rs ascend, history_before id rs s t indexed h) refl

  pub other_history :
      (id j : String) (rs : List Record) (s t : BoltStore F)
      → id ≢ j
      → Saved to_bytes db open_file id rs s t
      → history_of to_bytes db open_file j t ≡ history_of to_bytes db open_file j s
  unfolding history_of history_at
  other_history id j rs s t apart h =
      let kept =
        assign_in-other to_bytes db laws open_file injective id j h.shard s.index t.index apart
          h.assigned in
      elim (Option-cases (shard_of to_bytes db open_file j s.index)) [
        | inl missing ↦ rw (kept, missing, history_of) refl
        | inr (k, there) ↦ rw (kept, there, files_other id j k rs s t apart h, history_of) refl
      ]
