-- ===== src/Store/Bolt/Start.antt =====
-- `initIndex` of the Bolt store: the index that `New` leaves.
use protosource.Prelude.{
  ℕ, ◌%◌, ◌<◌, String, ◌≡◌, ◌≢◌, refl, sym, ap, ◌∙◌, false, none, some, List, [], ◌∷◌, arith, two32,
}
use protosource.Error.{Result, ok}
use protosource.Compress.{Bytes}
use protosource.Repository.Stored.{ok-injective, >>=-eq-ok}
use protosource.Store.Bolt.Keys.{be_bytes, bytes_eq, bytes_eq_iff}
use protosource.Store.Bolt.Bucket.{Bbolt, IsBbolt, find_key, put_entry, find_key-put_entry}
use protosource.Store.Bolt.Index.{
  count_in_shard, index_bucket, meta_bucket, next_shard_key, max_per_shard_key, put_default,
  init_index,
}
use protosource.Store.Bolt.Capacity.{IsPacked, index-ne-meta, keys_differ}

module _ (to_bytes : String → Bytes) {F : Type 0} (db : Bbolt F) (laws : IsBbolt db)
    (open_file : ℕ → Result (Unit {0}))
    (injective : (a b : String) → to_bytes a ≡ to_bytes b → a ≡ b) where
  put_default-new :
      (k : Bytes) (n : ℕ) (f g : F)
      → find_key k (db.entries (meta_bucket to_bytes db open_file) f) ≡ none
      → put_default to_bytes db open_file k n f ≡ ok g
      → db.put (meta_bucket to_bytes db open_file) k (be_bytes 4 (n % two32)) f ≡ ok g
  put_default-new k n f g absent done =
      let missing = laws.get_entries (meta_bucket to_bytes db open_file) k f ∙ absent in
      rw (missing, put_default) at done

  put_default-known :
      (k v : Bytes) (n : ℕ) (f g : F)
      → db.get (meta_bucket to_bytes db open_file) k f ≡ some v
      → put_default to_bytes db open_file k n f ≡ ok g
      → f ≡ g
  put_default-known k v n f g known done = ok-injective (rw (known, put_default) at done)

  init_steps :
      (max : ℕ) (f g : F)
      → init_index to_bytes db open_file max f ≡ ok (tt, g)
      → (l m : F) × ((q : List Bytes) → db.entries q l ≡ db.entries q f)
        × (put_default to_bytes db open_file (next_shard_key to_bytes db open_file) 1 l ≡ ok m)
        × (put_default to_bytes db open_file (max_per_shard_key to_bytes db open_file) max m ≡ ok g)
  unfolding init_index
  init_steps max f g done =
      let (k, first, r1) = >>=-eq-ok (db.create_bucket _ f) _ done in
      let (l, second, r2) = >>=-eq-ok (db.create_bucket _ k) _ r1 in
      let (m, next, r3) = >>=-eq-ok (put_default to_bytes db open_file _ 1 l) _ r2 in
      let (n, limit, r4) = >>=-eq-ok (put_default to_bytes db open_file _ max m) _ r3 in
      (
        l,
        m,
        λ q. laws.entries_create _ q k l second ∙ laws.entries_create _ q f k first,
        next,
        limit ∙ ap (λ p. ok (p.1)) (ok-injective r4),
      )

  -- `New` on an empty index: the first shard is the current one, and the limit is the store's.
  pub init_index-IsPacked :
      (max : ℕ) (f g : F)
      → db.entries (index_bucket to_bytes db open_file) f ≡ []
      → db.entries (meta_bucket to_bytes db open_file) f ≡ []
      → 0 < max
      → max < two32
      → init_index to_bytes db open_file max f ≡ ok (tt, g)
      → IsPacked to_bytes db laws open_file injective 1 max g
  unfolding count_in_shard find_key put_entry
  init_index-IsPacked max f g empty_index empty_meta positive bound done =
      let index = index_bucket to_bytes db open_file in
      let meta = meta_bucket to_bytes db open_file in
      let next_key = next_shard_key to_bytes db open_file in
      let limit_key = max_per_shard_key to_bytes db open_file in
      let differ : bytes_eq next_key limit_key ≡ false =
        keys_differ to_bytes db laws open_file injective in
      let differ' : bytes_eq limit_key next_key ≡ false =
        ground (arith, bytes_eq_iff limit_key next_key, bytes_eq_iff next_key limit_key, differ) in
      let (l, m, same, next, last) = init_steps max f g done in
      let put_next =
        put_default-new next_key 1 l m (rw (same meta, empty_meta, find_key) refl) next in
      let at_m : db.entries meta m ≡ (next_key, be_bytes 4 1) ∷ [] =
        laws.entries_put meta _ _ l m put_next ∙ rw (same meta, empty_meta, put_entry) refl in
      let put_limit = put_default-new limit_key max m g (rw (at_m, differ, find_key) refl) last in
      let at_g = laws.entries_put meta _ _ m g put_limit in
      let apart : index ≢ meta = index-ne-meta to_bytes db laws open_file injective in
      let no_entries : db.entries index g ≡ [] =
        laws.entries_put_other meta index _ _ m g put_limit (λ e. apart (sym e))
        ∙ laws.entries_put_other meta index _ _ l m put_next (λ e. apart (sym e))
        ∙ same index
        ∙ empty_index in
      let fits : max % two32 ≡ max = omega (arith, bound) in
      record {
        next =
            laws.get_entries meta next_key g
            ∙ rw at_g (
                find_key-put_entry limit_key next_key _ _
                ∙ rw (differ', at_m, (bytes_eq_iff next_key next_key).1 refl, find_key) refl);
        limit =
            laws.get_entries meta limit_key g
            ∙ rw at_g (
                find_key-put_entry limit_key limit_key _ _
                ∙ rw ((bytes_eq_iff limit_key limit_key).1 refl)
                    (ap (λ k. some (be_bytes 4 k)) fits));
        counts = λ k. rw (no_entries, count_in_shard) (omega arith);
        unused = λ k h. rw (no_entries, count_in_shard) refl;
        in_range = omega arith;
        max_in_range = bound;
        positive = positive;
      }

  -- `New` on an index that is there keeps its current shard and its limit, whatever the store's is.
  pub init_index-kept :
      (max n limit : ℕ) (f g : F)
      → IsPacked to_bytes db laws open_file injective n limit f
      → init_index to_bytes db open_file max f ≡ ok (tt, g)
      → IsPacked to_bytes db laws open_file injective n limit g
  init_index-kept max n limit f g packed done =
      let meta = meta_bucket to_bytes db open_file in
      let limit_key = max_per_shard_key to_bytes db open_file in
      let (l, m, same, next, last) = init_steps max f g done in
      let at_l : (k : Bytes) → db.get meta k l ≡ db.get meta k f =
        λ k. laws.get_entries meta k l ∙ rw (same meta) (sym (laws.get_entries meta k f)) in
      let l_is_m = put_default-known _ _ 1 l m (at_l _ ∙ packed.next) next in
      let m_is_g =
        put_default-known _ _ max m g
          ((ap (db.get meta limit_key) (sym l_is_m) ∙ at_l _ ∙ packed.limit)) last in
      rw (← m_is_g, ← l_is_m)
        (record {
          next = at_l _ ∙ packed.next;
          limit = at_l _ ∙ packed.limit;
          counts = λ k. rw (same (index_bucket to_bytes db open_file)) (packed.counts k);
          unused = λ k h. rw (same (index_bucket to_bytes db open_file)) (packed.unused k h);
          in_range = packed.in_range;
          max_in_range = packed.max_in_range;
          positive = packed.positive;
        })
