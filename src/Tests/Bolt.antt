-- ===== src/Tests/Bolt.antt =====
-- The Bolt store over databases that are functions from the paths of buckets to their pairs.
use Prim.Native.Char.{code}
use Prim.Native.String.{[] as no_text, ◌∷◌ as ◌then◌}
use text.Mathlib.TextEquality.{Char-path}
use protosource.Prelude.{
  ℕ, String, ◌≡◌, ◌≢◌, refl, sym, ap, ◌∙◌, Bool, true, false, ◌&&◌, none, List, [], ◌∷◌, ◌++◌,
  arith, if◌then◌else◌, map, ◌↔◌, Bool-cases, inl, inr,
}
use protosource.Error.{Result, ok, err, ◌>>=◌}
use protosource.Compress.{Bytes}
use protosource.Repository.Types.{Record}
use protosource.Store.Bolt.Keys.{
  be_bytes, be_value, before, before-be_bytes, bytes_eq, bytes_eq_iff,
}
use protosource.Store.Bolt.Bucket.{Entries, BucketPath, Bbolt, IsBbolt, find_key, put_entry}
use protosource.Store.Bolt.Index.{
  BoltStore, init_index, update, assign_shard, assign_in, choose_shard, count_in_shard, open_shard,
  is_open,
}
use protosource.Repository.Stored.{ok-injective}
use protosource.Store.Bolt.Capacity.{IsPacked}
use protosource.Store.Bolt.Start.{init_index-IsPacked}
use protosource.Store.Bolt.Run.{save, load, entries_of, write_shard, save_in, put_records}
use protosource.Store.Bolt.History.{IsIndexed, without_ttl}
use protosource.Store.Bolt.Log.{save-load, save-IsIndexed}

-- A text by the numbers of its characters.
unfoldable codes : String → Bytes
codes no_text = []
codes (c then s) = code c ∷ codes s

codes_injective : (a b : String) → codes a ≡ codes b → a ≡ b
unfolding codes
codes_injective no_text no_text h = refl
codes_injective no_text (d then b) h = absurd (let bad = h in cc)
codes_injective (c then a) no_text h = absurd (let bad = h in cc)
codes_injective (c then a) (d then b) h =
    let first : code c ≡ code d = cc in
    let rest : codes a ≡ codes b = cc in
    ap (λ x. x then a) (Char-path c d first) ∙ ap (λ t. d then t) (codes_injective a b rest)

abbrev Disk : Type 0
Disk = BucketPath → Entries

path_eq : BucketPath → BucketPath → Bool
unfolding bytes_eq
path_eq [] [] = true
path_eq (a ∷ ps) (b ∷ qs) = bytes_eq a b && path_eq ps qs
path_eq _ _ = false

path_eq_iff : (p q : BucketPath) → (path_eq p q ≡ true) ↔ (p ≡ q)
unfolding path_eq
path_eq_iff [] [] = ground arith
path_eq_iff [] (b ∷ qs) = ground arith
path_eq_iff (a ∷ ps) [] = ground arith
path_eq_iff (a ∷ ps) (b ∷ qs) = ground (arith, bytes_eq_iff a b, path_eq_iff ps qs)

abbrev disk_put : BucketPath → Bytes → Bytes → Disk → Disk
disk_put p k v f q = if path_eq p q then put_entry k v (f q) else f q

-- Every bucket is there from the start, and nothing fails.
abbrev bbolt : Bbolt Disk
bbolt = record {
  begin = λ f. ok tt;
  commit = λ f. ok tt;
  has_bucket = λ p f. true;
  create_bucket = λ p f. ok f;
  get = λ p k f. find_key k (f p);
  put = λ p k v f. ok (disk_put p k v f);
  entries = λ p f. f p;
}

path_eq-apart : (p q : BucketPath) → p ≢ q → path_eq p q ≡ false
path_eq-apart p q apart = elim (Bool-cases (path_eq p q)) [
  | inl same ↦ absurd (apart ((path_eq_iff p q).0 same))
  | inr differ ↦ differ
]

bbolt-IsBbolt : IsBbolt bbolt
bbolt-IsBbolt = record {
  has_parent = λ p name f h. refl;
  entries_create = λ p q f g h. ap (λ r. r q) (sym (ok-injective h));
  entries_put =
      λ p k v f g h. ap (λ r. r p) (sym (ok-injective h)) ∙ rw ((path_eq_iff p p).1 refl) refl;
  entries_put_other = λ p q k v f g h apart.
      ap (λ r. r q) (sym (ok-injective h)) ∙ rw (path_eq-apart p q apart) refl;
  get_entries = λ p k f. refl;
  entries_missing = λ p f h. cc;
}

abbrev opens : ℕ → Result (Unit {0})
opens k = ok tt

abbrev no_files : Disk
no_files p = []

abbrev fresh : Disk
fresh = elim (init_index codes bbolt opens 2 no_files) [ ok (_, f) ↦ f | err e ↦ no_files ]

abbrev empty_store : BoltStore Disk
empty_store = record { max_per_shard = 2; index = fresh; files = λ k. no_files; shards = [] }

abbrev two_records : List Record
two_records =
    record { version = 1; payload = 7 ∷ []; ttl = 60 }
    ∷ record { version = 2; payload = 9 ∷ []; ttl = 0 }
    ∷ []

abbrev saved : BoltStore Disk
saved = (save codes bbolt opens none "a" two_records empty_store).1

packed : IsPacked codes bbolt bbolt-IsBbolt opens codes_injective 1 2 fresh
unfolding init_index find_key path_eq codes put_entry
packed =
    init_index-IsPacked codes bbolt bbolt-IsBbolt opens codes_injective 2 no_files fresh refl refl
      (omega arith) (omega arith) refl

indexed : IsIndexed codes bbolt opens empty_store
unfolding entries_of
indexed = record { only = λ id k h. refl }

saved_ok : save codes bbolt opens none "a" two_records empty_store ≡ (ok tt, saved)
unfolding save assign_shard update assign_in choose_shard count_in_shard open_shard is_open
    write_shard save_in put_records init_index find_key path_eq codes put_entry before be_value
    be_bytes
saved_ok = refl

save-load_example : (load codes bbolt opens none "a" saved).0 ≡ (
    (load codes bbolt opens none "a" empty_store).0 >>= λ h. ok (h ++ map without_ttl two_records))
unfolding entries_of
save-load_example =
    save-load codes bbolt bbolt-IsBbolt opens codes_injective "a" "a" two_records 1 2 1 empty_store
      saved (λ f. refl) (λ k. refl) packed (omega arith) indexed (λ k. tt)
      (omega arith, (omega arith, omega arith)) saved_ok

save-IsIndexed_example :
    ((n : ℕ) × IsPacked codes bbolt bbolt-IsBbolt opens codes_injective n 2 saved.index)
    × IsIndexed codes bbolt opens saved
save-IsIndexed_example =
    save-IsIndexed codes bbolt bbolt-IsBbolt opens codes_injective "a" two_records 1 2 empty_store
      saved packed (omega arith) indexed saved_ok

before-be_bytes_example : before (be_bytes 8 255) (be_bytes 8 256) ≡ true
before-be_bytes_example = before-be_bytes 8 255 256 (omega arith) (omega arith)
