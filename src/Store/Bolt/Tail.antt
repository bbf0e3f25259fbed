-- ===== src/Store/Bolt/Tail.antt =====
-- `LoadTail` of the Bolt store against `Load`.
use mathlib.Core.List.{reverse}
use protosource.Prelude.{
  ℕ, ◌-◌, String, [], sym, ◌≡◌, refl, ap, ◌∙◌, inl, inr, true, none, map, take, take_last, drop,
  arith, map-take, map-reverse, reverse-take-reverse, is_positive64, fun_ext, Option-cases,
}
use protosource.Error.{Result, ok, ◌>>=◌}
use protosource.Compress.{Bytes}
use protosource.Repository.Types.{History}
use protosource.Repository.Stored.{Result-cases}
use protosource.Store.Bolt.Bucket.{Entries, Bbolt}
use protosource.Store.Bolt.Index.{BoltStore, view_tx, lookup_shard, open_shard}
use protosource.Store.Bolt.Run.{record_of_entry, walk_back, read_shard, load, load_tail}

walk_back_lem :
    (n : ℕ)
    → is_positive64 n ≡ true
    → (m : Entries)
    → reverse (map record_of_entry (walk_back n m)) ≡ take_last n (map record_of_entry m)
walk_back_lem n h m =
    ap (λ k. reverse (map record_of_entry (take k (reverse m)))) (rw h refl)
    ∙ ap reverse (map-take record_of_entry n (reverse m))
    ∙ ap (λ xs. reverse (take n xs)) (map-reverse record_of_entry m)
    ∙ reverse-take-reverse n (map record_of_entry m)

module _ (to_bytes : String → Bytes) {F : Type 0} (db : Bbolt F)
    (open_file : ℕ → Result (Unit {0})) where
  -- The two calls differ in what they make of the pairs only.
  read_shard-after :
      (read : Entries → History) (change : History → History) (msg msg' id : String)
      → (s : BoltStore F) → change [] ≡ []
      → read_shard to_bytes db open_file (λ m. change (read m)) msg id none s ≡ (
          let (r, s') = read_shard to_bytes db open_file read msg' id none s in
          (r >>= λ h. ok (change h), s'))
  unfolding read_shard view_tx
  read_shard-after read change msg msg' id s empty =
      elim (Result-cases (lookup_shard to_bytes db open_file id s)) [
        | inr (e, h) ↦ rw (h, read_shard) refl
        | inl (found, h) ↦ elim (Option-cases found) [
          | inl missing ↦ rw (h, missing, read_shard) (ap (λ l. (ok l, s)) (sym empty))
          | inr (shard, there) ↦
              rw (h, there, read_shard)
                (elim (Result-cases (open_shard to_bytes db open_file shard s).0) [
                  | inr (e, closed) ↦ rw closed refl
                  | inl (_, opened) ↦
                      rw opened
                        (elim (Result-cases
                          (db.begin ((open_shard to_bytes db open_file shard s).1.files shard))) [
                            | inr (e, failed) ↦ rw failed refl
                            | inl (_, begun) ↦ rw begun refl
                          ])
                ])
        ]
      ]

  -- A tail is the end of what `Load` returns, with the same error where the store cannot be read
  -- and the same shards open after it, in a live context and for a positive int64 n.
  pub load_tail-load :
      (id : String) (n : ℕ) (s : BoltStore F)
      → is_positive64 n ≡ true
      → load_tail to_bytes db open_file none id n s ≡ (
          let (r, s') = load to_bytes db open_file none id s in (r >>= λ h. ok (take_last n h), s'))
  unfolding load load_tail
  load_tail-load id n s positive =
      ap (λ read. read_shard to_bytes db open_file read "load tail failed: context error" id none s)
        (fun_ext (walk_back_lem n positive))
      ∙ read_shard-after (map record_of_entry) (take_last n) "load tail failed: context error"
          "load failed: context error" id s (ap (λ k. drop k []) {x = 0 - n} {y = 0} (omega arith))
