-- ===== src/Store/Bolt/Index.antt =====
-- stores/boltdbstore: `New`, and the index that assigns every aggregate to a shard. Shards that do
-- not exist are empty; a shard is a file that is opened when it is first used.
use protosource.Prelude.{
  ℕ, ◌+◌, ◌%◌, String, Bool, true, false, Option, none, some, List, [], ◌∷◌, leb, ◌==◌, two32,
  is_positive64, if◌then◌else◌,
}
use protosource.Error.{Result, ok, err, ◌>>=◌, ◌>>◌, wrap_err, other}
use protosource.Compress.{Bytes}
use protosource.Store.Bolt.Keys.{be_bytes, be_value}
use protosource.Store.Bolt.Bucket.{Entries, BucketPath, Bbolt}

pub record BoltStore (F : Type 0) : Type 0 where
  pub max_per_shard : ℕ
  pub index : F
  -- The files on the disk, and the numbers of those that are open.
  pub files : ℕ → F
  pub shards : List ℕ

abbrev pub default_max_per_shard : ℕ
default_max_per_shard = 10000

-- `WithMaxPerShard`
abbrev pub with_max_per_shard : ℕ → ℕ → ℕ
with_max_per_shard n max = if is_positive64 n then n else max

unfoldable pub set_file {ℓ} : {F : Type ℓ} → ℕ → F → (ℕ → F) → ℕ → F
set_file n f files m = if m == n then f else files m

-- `binary.BigEndian.Uint32`, which panics on a value that is not there.
abbrev pub uint32_at : Option Bytes → Result ℕ
uint32_at none = err (other "panic: index out of range")
uint32_at (some bytes) = ok (be_value bytes)

-- `countInShard`
unfoldable pub count_in_shard : ℕ → Entries → ℕ
count_in_shard n [] = 0
count_in_shard n ((k, v) ∷ m) =
    let rest = count_in_shard n m in if be_value v == n then rest + 1 else rest

unfoldable pub is_open : ℕ → List ℕ → Bool
is_open n [] = false
is_open n (m ∷ shards) = if m == n then true else is_open n shards

-- `to_bytes` is Go's conversion of a string to its bytes, `open_file` is `bbolt.Open` of a shard.
module _ (to_bytes : String → Bytes) {F : Type 0} (db : Bbolt F)
    (open_file : ℕ → Result (Unit {0})) where
  abbrev pub index_bucket : BucketPath
  index_bucket = to_bytes "index" ∷ []

  abbrev pub meta_bucket : BucketPath
  meta_bucket = to_bytes "meta" ∷ []

  abbrev pub next_shard_key : Bytes
  next_shard_key = to_bytes "next_shard"

  abbrev pub max_per_shard_key : Bytes
  max_per_shard_key = to_bytes "max_per_shard"

  -- `Update`: what the function made is there when the transaction commits, and only then.
  unfoldable pub update : {A : Type 0} → (F → Result (A × F)) → F → Result (A × F)
  update body f = do db.begin f; (a, g) ← body f; db.commit g; ok (a, g)

  -- `View`
  unfoldable pub view_tx : {A : Type 0} → (F → A) → F → Result A
  view_tx body f = db.begin f >>= λ _. ok (body f)

  -- `meta.Put`, if there is no value.
  abbrev pub put_default : Bytes → ℕ → F → Result F
  put_default k n f = elim (db.get meta_bucket k f) [
    | some _ ↦ ok f
    | none ↦ db.put meta_bucket k (be_bytes 4 (n % two32)) f
  ]

  -- `initIndex`
  unfoldable pub init_index : ℕ → F → Result (Unit {0} × F)
  init_index max f = do
    f1 ← db.create_bucket index_bucket f
    f2 ← db.create_bucket meta_bucket f1
    f3 ← put_default next_shard_key 1 f2
    f4 ← put_default max_per_shard_key max f3
    ok (tt, f4)

  -- `New`, over what the directory holds: the results of `MkdirAll` and of opening the index.
  unfoldable pub new_bolt_store : Result (Unit {0}) → Result F → (ℕ → F) → ℕ → Result (BoltStore F)
  unfolding update init_index
  new_bolt_store made opened files max = do
    wrap_err "create directory" made
    f ← wrap_err "open index db" opened
    (_, g) ← update (init_index max) f
    ok (record { max_per_shard = max; index = g; files = files; shards = [] })

  -- The number for a new aggregate: the current shard, or the next one where it is full.
  unfoldable pub choose_shard : ℕ → ℕ → F → Result (ℕ × F)
  choose_shard next max f =
      if leb max (count_in_shard next (db.entries index_bucket f))
      then (do
        g ← db.put meta_bucket next_shard_key (be_bytes 4 ((next + 1) % two32)) f
        ok ((next + 1) % two32, g))
      else ok (next, f)

  -- The transaction of `assignShard`.
  unfoldable pub assign_in : String → F → Result (ℕ × F)
  unfolding choose_shard
  assign_in id f = elim (db.get index_bucket (to_bytes id) f) [
    | some v ↦ ok (be_value v, f)
    | none ↦ do
      next ← uint32_at (db.get meta_bucket next_shard_key f)
      max ← uint32_at (db.get meta_bucket max_per_shard_key f)
      (shard, g) ← choose_shard next max f
      h ← db.put index_bucket (to_bytes id) (be_bytes 4 shard) g
      ok (shard, h)
  ]

  -- `assignShard`
  unfoldable pub assign_shard : String → BoltStore F → Result ℕ × BoltStore F
  unfolding update assign_in
  assign_shard id s = elim (update (assign_in id) s.index) [
    | err e ↦ (err e, s)
    | ok (shard, f) ↦ (ok shard, record s { index = f })
  ]

  unfoldable pub shard_of : String → F → Option ℕ
  shard_of id f = elim (db.get index_bucket (to_bytes id) f) [
    | none ↦ none
    | some v ↦ some (be_value v)
  ]

  -- `lookupShard`
  unfoldable pub lookup_shard : String → BoltStore F → Result (Option ℕ)
  unfolding view_tx shard_of
  lookup_shard id s = view_tx (shard_of id) s.index

  -- `openShard`
  unfoldable pub open_shard : ℕ → BoltStore F → Result (Unit {0}) × BoltStore F
  unfolding is_open
  open_shard n s = if is_open n s.shards then (ok tt, s) else elim (open_file n) [
    | err e ↦ (wrap_err "open shard" (err e), s)
    | ok _ ↦ (ok tt, record s { shards = n ∷ s.shards })
  ]

-- The loop of `Close` over the open shards, in the order in which the map yields them.
unfoldable pub close_all : (ℕ → Result (Unit {0})) → List ℕ → Result (Unit {0})
close_all close_file [] = ok tt
close_all close_file (n ∷ shards) =
    let rest = close_all close_file shards in elim (close_file n) [ err e ↦ err e | ok _ ↦ rest ]

-- `Close`: all files are closed, also after an error, and the first error is returned. The handle of
-- the index is dropped too, so that no other call may follow.
unfoldable pub close :
    {F : Type 0}
    → (ℕ → Result (Unit {0}))
    → Result (Unit {0})
    → BoltStore F
    → Result (Unit {0}) × BoltStore F
unfolding close_all
close close_file close_index s =
    (close_all close_file s.shards >> close_index, record s { shards = [] })
