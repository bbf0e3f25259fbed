-- ===== src/Store/Bolt/Assigned.antt =====
-- Which places in the index `assignShard` leaves as they are.
use protosource.Prelude.{
  ℕ, String, ◌≡◌, ◌≢◌, refl, sym, ap, ◌∙◌, inl, inr, false, some, Bool-cases, leb, Option-cases,
}
use protosource.Error.{Result, ok}
use protosource.Compress.{Bytes}
use protosource.Repository.Stored.{>>=-eq-ok, ok-injective}
use protosource.Store.Bolt.Keys.{be_bytes, bytes_eq, bytes_eq_iff}
use protosource.Store.Bolt.Bucket.{Bbolt, IsBbolt, find_key, find_key-put_entry}
use protosource.Store.Bolt.Index.{
  index_bucket, meta_bucket, choose_shard, assign_in, shard_of, uint32_at, count_in_shard,
}
use protosource.Store.Bolt.Capacity.{index-ne-meta}

module _ (to_bytes : String → Bytes) {F : Type 0} (db : Bbolt F) (laws : IsBbolt db)
    (open_file : ℕ → Result (Unit {0}))
    (injective : (a b : String) → to_bytes a ≡ to_bytes b → a ≡ b) where
  -- A known aggregate keeps its shard, and the index is as it was.
  pub assign_in-known :
      (id : String) (n k : ℕ) (f g : F)
      → shard_of to_bytes db open_file id f ≡ some k
      → assign_in to_bytes db open_file id f ≡ ok (n, g)
      → n ≡ k
  unfolding shard_of assign_in
  assign_in-known id n k f g known done =
      elim (Option-cases (db.get (index_bucket to_bytes db open_file) (to_bytes id) f)) [
        | inl missing ↦ absurd (let bad = rw (missing, shard_of) at known in cc)
        | inr (v, found) ↦
            let value = rw (found, shard_of) at known in
            let made = ap (λ p. p.0) (ok-injective (rw (found, assign_in) at done)) in cc
      ]

  -- Choosing a shard leaves the index of the aggregates as it was.
  choose_shard-other :
      (x y : ℕ) (f : F) (c : ℕ × F)
      → choose_shard to_bytes db open_file x y f ≡ ok c
      → db.entries (index_bucket to_bytes db open_file) c.1
        ≡ db.entries (index_bucket to_bytes db open_file) f
  unfolding choose_shard
  choose_shard-other x y f c chosen =
      let index = index_bucket to_bytes db open_file in
      elim (Bool-cases (leb y (count_in_shard x (db.entries index f)))) [
        | inr room ↦
            ap (λ p. db.entries index (p.1))
              (sym (ok-injective (rw (room, choose_shard) at chosen)))
        | inl full ↦
            let (g, put, made) =
              >>=-eq-ok (db.put (meta_bucket to_bytes db open_file) _ _ f) _
                (rw (full, choose_shard) at chosen) in
            ap (λ p. db.entries index (p.1)) (sym (ok-injective made))
            ∙ laws.entries_put_other _ index _ _ f g put
                (λ e. index-ne-meta to_bytes db laws open_file injective (sym e))
      ]

  other_entry :
      (id j : String) (n : ℕ) (f g h : F)
      → id ≢ j
      → db.entries (index_bucket to_bytes db open_file) g
        ≡ db.entries (index_bucket to_bytes db open_file) f
      → db.put (index_bucket to_bytes db open_file) (to_bytes id) (be_bytes 4 n) g ≡ ok h
      → db.get (index_bucket to_bytes db open_file) (to_bytes j) h
        ≡ db.get (index_bucket to_bytes db open_file) (to_bytes j) f
  other_entry id j n f g h apart same put =
      let index = index_bucket to_bytes db open_file in
      let distinct : bytes_eq (to_bytes id) (to_bytes j) ≡ false =
        elim (Bool-cases (bytes_eq (to_bytes id) (to_bytes j))) [
          | inl equal ↦ absurd (apart (injective id j ((bytes_eq_iff _ _).0 equal)))
          | inr other ↦ other
        ] in
      laws.get_entries index (to_bytes j) h
      ∙ ap (find_key (to_bytes j)) (laws.entries_put index _ _ g h put)
      ∙ find_key-put_entry (to_bytes id) (to_bytes j) _ _
      ∙ rw (distinct, same) (sym (laws.get_entries index (to_bytes j) f))

  -- Another aggregate keeps its place in the index.
  pub assign_in-other :
      (id j : String) (n : ℕ) (f g : F)
      → id ≢ j
      → assign_in to_bytes db open_file id f ≡ ok (n, g)
      → shard_of to_bytes db open_file j g ≡ shard_of to_bytes db open_file j f
  unfolding shard_of assign_in
  assign_in-other id j n f g apart done =
      elim (Option-cases (db.get (index_bucket to_bytes db open_file) (to_bytes id) f)) [
        | inr (v, known) ↦
            ap (λ p. shard_of to_bytes db open_file j (p.1))
              (sym (ok-injective (rw (known, assign_in) at done)))
        | inl new ↦
            let (x, next, r1) =
              >>=-eq-ok (uint32_at (db.get (meta_bucket to_bytes db open_file) _ f)) _
                (rw (new, assign_in) at done) in
            let (y, limit, r2) =
              >>=-eq-ok (uint32_at (db.get (meta_bucket to_bytes db open_file) _ f)) _ r1 in
            let (c, chosen, r3) = >>=-eq-ok (choose_shard to_bytes db open_file x y f) _ r2 in
            let (k, put, r4) =
              >>=-eq-ok (db.put (index_bucket to_bytes db open_file) (to_bytes id) _ _) _ r3 in
            ap (λ p. shard_of to_bytes db open_file j (p.1)) (sym (ok-injective r4))
            ∙ rw
                (
                  other_entry id j c.0 f c.1 k apart (choose_shard-other x y f c chosen) put,
                  shard_of,
                )
                refl
      ]
