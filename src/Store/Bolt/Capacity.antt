-- ===== src/Store/Bolt/Capacity.antt =====
-- The index of the Bolt store: how many aggregates `assignShard` puts in a shard.
use protosource.Prelude.{
  ℕ, ◌+◌, ◌%◌, ◌≤◌, ◌<◌, String, ◌≡◌, ◌≢◌, refl, sym, ap, ◌∙◌, inl, inr, true, false, none, some,
  [], ◌∷◌, arith, leb, ◌==◌, two32, if◌then◌else◌, Bool-cases, Option-cases, eq_iff,
}
use protosource.Error.{Result, ok}
use protosource.Compress.{Bytes}
use protosource.Repository.Stored.{ok-injective, >>=-eq-ok}
use protosource.Store.Bolt.Keys.{be_bytes, be_value, bytes_eq, bytes_eq_iff, be_value-be_bytes}
use protosource.Store.Bolt.Bucket.{
  Entries, Bbolt, IsBbolt, BucketPath, find_key, put_entry, find_key-put_entry,
}
use protosource.Store.Bolt.Index.{
  count_in_shard, index_bucket, meta_bucket, next_shard_key, max_per_shard_key, choose_shard,
  assign_in, uint32_at,
}

-- A key that was not there adds one to the count of its shard.
count_in_shard-put_entry :
    (n : ℕ) (k v : Bytes) (m : Entries)
    → find_key k m ≡ none
    → count_in_shard n (put_entry k v m) ≡ count_in_shard n m + (if be_value v == n then 1 else 0)
unfolding count_in_shard put_entry find_key
count_in_shard-put_entry n k v [] h = ground arith
count_in_shard-put_entry n k v ((j, w) ∷ m) h = ground (arith, count_in_shard-put_entry n k v m)

head_eq : (a b : Bytes) → ◌≡◌ {A = BucketPath} (a ∷ []) (b ∷ []) → a ≡ b
head_eq a b e = cc

module _ (to_bytes : String → Bytes) {F : Type 0} (db : Bbolt F) (laws : IsBbolt db)
    (open_file : ℕ → Result (Unit {0}))
    (injective : (a b : String) → to_bytes a ≡ to_bytes b → a ≡ b) where
  abbrev index : BucketPath
  index = index_bucket to_bytes db open_file

  abbrev meta : BucketPath
  meta = meta_bucket to_bytes db open_file

  pub index-ne-meta : index ≢ meta
  index-ne-meta e =
      let same : false ≡ true =
        (eq_iff "index" "meta").1 (injective "index" "meta" (head_eq _ _ e)) in
      cc

  pub keys_differ :
      bytes_eq (next_shard_key to_bytes db open_file) (max_per_shard_key to_bytes db open_file)
      ≡ false
  keys_differ = elim (Bool-cases _) [
    | inl same ↦
        let texts : false ≡ true =
          (eq_iff "next_shard" "max_per_shard").1
            (injective "next_shard" "max_per_shard" ((bytes_eq_iff _ _).0 same)) in
        cc
    | inr other ↦ other
  ]

  -- The index with its current shard n: the values of the meta bucket, no shard over its limit, and
  -- none in use after the current one.
  pub record IsPacked (n max : ℕ) (f : F) : Type 0 where
    pub next : db.get meta (next_shard_key to_bytes db open_file) f ≡ some (be_bytes 4 n)
    pub limit : db.get meta (max_per_shard_key to_bytes db open_file) f ≡ some (be_bytes 4 max)
    pub counts : (m : ℕ) → count_in_shard m (db.entries index f) ≤ max
    pub unused : (m : ℕ) → n < m → count_in_shard m (db.entries index f) ≡ 0
    pub in_range : n < two32
    pub max_in_range : max < two32
    pub positive : 0 < max

  -- The move to the next shard.
  next-IsPacked :
      (n max : ℕ) (f g : F)
      → IsPacked n max f
      → n + 1 < two32
      → db.put meta (next_shard_key to_bytes db open_file) (be_bytes 4 (n + 1)) f ≡ ok g
      → IsPacked (n + 1) max g
  next-IsPacked n max f g h room moved =
      let same = laws.entries_put_other meta index _ _ f g moved (λ e. index-ne-meta (sym e)) in
      let stored = laws.entries_put meta _ _ f g moved in
      let limit =
        sym (laws.get_entries meta (max_per_shard_key to_bytes db open_file) f) ∙ h.limit in
      record {
        next =
            laws.get_entries meta _ g
            ∙ rw stored (
                find_key-put_entry _ _ _ _
                ∙ rw ((bytes_eq_iff _ _).1 (refl {a = next_shard_key to_bytes db open_file})));
        limit =
            laws.get_entries meta _ g
            ∙ rw stored (find_key-put_entry _ _ _ _ ∙ rw keys_differ limit);
        counts = λ m. rw same (h.counts m);
        unused = λ m k. rw same (h.unused m (omega arith));
        in_range = room;
        max_in_range = h.max_in_range;
        positive = h.positive;
      }

  -- An aggregate that the index does not have, put in the current shard.
  put-IsPacked :
      (n max : ℕ) (key : Bytes) (f g : F)
      → IsPacked n max f
      → count_in_shard n (db.entries index f) < max
      → find_key key (db.entries index f) ≡ none
      → db.put index key (be_bytes 4 n) f ≡ ok g
      → IsPacked n max g
  put-IsPacked n max key f g h room absent put =
      let same = laws.entries_put_other index meta _ _ f g put index-ne-meta in
      let stored = laws.entries_put index _ _ f g put in
      let value = be_value-be_bytes 4 n h.in_range in
      record {
        next = laws.get_entries meta _ g ∙ rw same (sym (laws.get_entries meta _ f) ∙ h.next);
        limit = laws.get_entries meta _ g ∙ rw same (sym (laws.get_entries meta _ f) ∙ h.limit);
        counts = λ m. rw stored (
            rw (count_in_shard-put_entry m key (be_bytes 4 n) _ absent, value)
              (ground (arith, h.counts m)));
        unused = λ m k. rw stored (
            rw (count_in_shard-put_entry m key (be_bytes 4 n) _ absent, value)
              (ground (arith, h.unused m k)));
        in_range = h.in_range;
        max_in_range = h.max_in_range;
        positive = h.positive;
      }

  -- What `assignShard` reads in the meta bucket.
  read_meta :
      (n max : ℕ) (f : F)
      → IsPacked n max f
      → (uint32_at (db.get meta (next_shard_key to_bytes db open_file) f) ≡ ok n)
        × (uint32_at (db.get meta (max_per_shard_key to_bytes db open_file) f) ≡ ok max)
  read_meta n max f h = (
    rw h.next (ap ok (be_value-be_bytes 4 n h.in_range)),
    rw h.limit (ap ok (be_value-be_bytes 4 max h.max_in_range)),
  )

  -- The shard that is chosen has room.
  choose_shard-IsPacked :
      (n max shard : ℕ) (f g : F)
      → IsPacked n max f
      → n + 1 < two32
      → choose_shard to_bytes db open_file n max f ≡ ok (shard, g)
      → IsPacked shard max g
        × (db.entries index g ≡ db.entries index f)
        × (count_in_shard shard (db.entries index g) < max)
        × (n ≤ shard)
        × (shard ≤ n + 1)
  unfolding choose_shard
  choose_shard-IsPacked n max shard f g h room chosen =
      elim (Bool-cases (leb max (count_in_shard n (db.entries index f)))) [
        | inl full ↦
            let (x, put, made) =
              >>=-eq-ok (db.put meta _ _ f) _ (rw (full, choose_shard) at chosen) in
            let wrap : (n + 1) % two32 ≡ n + 1 = omega arith in
            let number : n + 1 ≡ shard = sym wrap ∙ ap (λ p. p.0) (ok-injective made) in
            let moved =
              ap (λ k. db.put meta (next_shard_key to_bytes db open_file) (be_bytes 4 k) f)
                (sym wrap)
              ∙ put
              ∙ ap (λ p. ok (p.1)) (ok-injective made) in
            let same =
              laws.entries_put_other meta index _ _ f g moved (λ e. index-ne-meta (sym e)) in
            let empty = h.unused (n + 1) (omega arith) in
            rw (← number) (
              next-IsPacked n max f g h room moved,
              same,
              rw same (omega (arith, empty, h.positive)),
              omega arith,
              omega arith,
            )
        | inr open' ↦
            let made = ok-injective (rw (open', choose_shard) at chosen) in
            rw (← ap (λ p. p.0) made, ← ap (λ p. p.1) made)
              (h, refl, ground arith, omega arith, omega arith)
      ]

  -- The aggregate is not in the index: it is put in the shard that was chosen.
  new_entry :
      (id : String) (n max shard chosen : ℕ) (f g put_in made : F)
      → IsPacked n max f
      → n + 1 < two32
      → db.get index (to_bytes id) f ≡ none
      → choose_shard to_bytes db open_file n max f ≡ ok (chosen, put_in)
      → db.put index (to_bytes id) (be_bytes 4 chosen) put_in ≡ ok made
      → ◌≡◌ {A = Result (ℕ × F)} (ok (chosen, made)) (ok (shard, g))
      → ((n' : ℕ) × IsPacked n' max g × (n ≤ n') × (n' ≤ n + 1))
        × ((v : Bytes) × (db.get index (to_bytes id) g ≡ some v) × (be_value v ≡ shard))
  new_entry id n max shard chosen f g put_in made h room absent choose put result =
      let key = to_bytes id in
      let (h', same, fits, low, high) = choose_shard-IsPacked n max chosen f put_in h room choose in
      let missing : find_key key (db.entries index put_in) ≡ none =
        rw same (sym (laws.get_entries index key f) ∙ absent) in
      let number = ap (λ p. p.0) (ok-injective result) in
      let at_end = put ∙ ap (λ p. ok (p.1)) (ok-injective result) in
      let found =
        laws.get_entries index key g
        ∙ rw (laws.entries_put index _ _ _ _ at_end) (
            find_key-put_entry key key (be_bytes 4 chosen) _
            ∙ rw ((bytes_eq_iff key key).1 refl) refl) in
      (
        (chosen, put-IsPacked chosen max key put_in g h' fits missing at_end, low, high),
        (be_bytes 4 chosen, found, be_value-be_bytes 4 chosen h'.in_range ∙ number),
      )

  -- `assignShard` keeps the invariant, and moves on by one shard at most; the index then has the
  -- aggregate, under the number that is returned.
  pub assign_in-IsPacked :
      (id : String) (n max shard : ℕ) (f g : F)
      → IsPacked n max f
      → n + 1 < two32
      → assign_in to_bytes db open_file id f ≡ ok (shard, g)
      → ((n' : ℕ) × IsPacked n' max g × (n ≤ n') × (n' ≤ n + 1))
        × ((v : Bytes) × (db.get index (to_bytes id) g ≡ some v) × (be_value v ≡ shard))
  unfolding assign_in
  assign_in-IsPacked id n max shard f g h room assigned =
      elim (Option-cases (db.get index (to_bytes id) f)) [
        | inr (v, known) ↦
            let made = ok-injective (rw (known, assign_in) at assigned) in
            rw (← ap (λ p. p.0) made, ← ap (λ p. p.1) made)
              ((n, h, omega arith, omega arith), (v, known, refl))
        | inl new ↦
            let (read_next, read_max) = read_meta n max f h in
            let (c, chosen, r3) =
              >>=-eq-ok (choose_shard to_bytes db open_file n max f) _
                (rw (new, read_next, read_max, assign_in) at assigned) in
            let (k, put, r4) = >>=-eq-ok (db.put index (to_bytes id) _ _) _ r3 in
            new_entry id n max shard c.0 f g c.1 k h room new chosen put r4
      ]
