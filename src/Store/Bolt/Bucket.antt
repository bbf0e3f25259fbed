-- ===== src/Store/Bolt/Bucket.antt =====
-- go.etcd.io/bbolt, as the store calls it: buckets of byte strings in nested paths, kept in the
-- order of their keys. It is a parameter, with the laws that its documentation states.
use protosource.Prelude.{
  ◌≡◌, ◌≢◌, refl, Bool, true, false, Option, none, some, List, [], ◌∷◌, ◌++◌, arith, if◌then◌else◌,
  All,
}
use protosource.Error.{Result, ok}
use protosource.Compress.{Bytes}
use protosource.Store.Bolt.Keys.{bytes_eq, before, bytes_eq_iff}

-- The pairs of a bucket, as a cursor meets them from `First` by `Next`; `Last` and `Prev` meet them
-- the other way round.
abbrev pub Entries : Type 0
Entries = List (Bytes × Bytes)

-- The names of the buckets from the root.
abbrev pub BucketPath : Type 0
BucketPath = List Bytes

unfoldable pub find_key : Bytes → Entries → Option Bytes
find_key k [] = none
find_key k ((j, w) ∷ m) = if bytes_eq j k then some w else find_key k m

-- A pair in its place: instead of the pair with its key, or before the first later key.
unfoldable pub put_entry : Bytes → Bytes → Entries → Entries
put_entry k v [] = (k, v) ∷ []
put_entry k v ((j, w) ∷ m) =
    let later = put_entry k v m in
    if bytes_eq j k then (k, v) ∷ m else if before k j then (k, v) ∷ (j, w) ∷ m else (j, w) ∷ later

-- A database with contents F: `Open`, the start and the end of a transaction, and the calls inside
-- one. The bucket of a path that was not created has no entries.
pub record Bbolt (F : Type 0) : Type 0 where
  pub begin : F → Result (Unit {0})
  pub commit : F → Result (Unit {0})
  pub has_bucket : BucketPath → F → Bool
  pub create_bucket : BucketPath → F → Result F
  pub get : BucketPath → Bytes → F → Option Bytes
  pub put : BucketPath → Bytes → Bytes → F → Result F
  pub entries : BucketPath → F → Entries

pub record IsBbolt {F : Type 0} (db : Bbolt F) : Type 0 where
  -- A bucket stands in one that was created before it.
  pub has_parent :
      (p : BucketPath) (name : Bytes) (f : F)
      → db.has_bucket (p ++ name ∷ []) f ≡ true
      → db.has_bucket p f ≡ true
  pub entries_create :
      (p q : BucketPath) (f g : F) → db.create_bucket p f ≡ ok g → db.entries q g ≡ db.entries q f
  pub entries_put :
      (p : BucketPath) (k v : Bytes) (f g : F)
      → db.put p k v f ≡ ok g
      → db.entries p g ≡ put_entry k v (db.entries p f)
  pub entries_put_other :
      (p q : BucketPath) (k v : Bytes) (f g : F)
      → db.put p k v f ≡ ok g
      → p ≢ q
      → db.entries q g ≡ db.entries q f
  pub get_entries :
      (p : BucketPath) (k : Bytes) (f : F) → db.get p k f ≡ find_key k (db.entries p f)
  pub entries_missing : (p : BucketPath) (f : F) → db.has_bucket p f ≡ false → db.entries p f ≡ []

pub find_key-put_entry :
    (k j v : Bytes) (m : Entries)
    → find_key j (put_entry k v m) ≡ (if bytes_eq k j then some v else find_key j m)
unfolding find_key put_entry
find_key-put_entry k j v [] = ground arith
find_key-put_entry k j v ((i, w) ∷ m) =
    ground (arith, find_key-put_entry k j v m, bytes_eq_iff k j, bytes_eq_iff i k, bytes_eq_iff i j)

-- After the last key, a pair is put at the end.
pub put_entry_last :
    (k v : Bytes) (m : Entries)
    → All (λ e. (bytes_eq e.0 k ≡ false) × (before k e.0 ≡ false)) m
    → put_entry k v m ≡ m ++ (k, v) ∷ []
unfolding put_entry
put_entry_last k v [] h = refl
put_entry_last k v ((j, w) ∷ m) (h, hs) = ground (arith, put_entry_last k v m hs)
