-- ===== src/Store/Bolt/Written.antt =====
-- What the transaction of `Save` leaves in a shard of the Bolt store.
use protosource.Prelude.{
  ℕ, suc, ◌≤◌, ◌<◌, String, ◌≡◌, ◌≢◌, refl, sym, ap, ◌∙◌, inl, inr, false, List, [], ◌∷◌, ◌++◌, map,
  arith, ltb, two64, All, All-append, All-imp, append_assoc, append-nil, Bool-cases,
}
use protosource.Error.{Result, ok}
use protosource.Compress.{Bytes}
use protosource.Repository.Types.{Record}
use protosource.Repository.Stored.{>>=-eq-ok, ok-injective}
use protosource.Store.Bolt.Keys.{
  be_bytes, be_value, bytes_eq, bytes_eq_iff, before, be_value-be_bytes, before-be_bytes,
}
use protosource.Store.Bolt.Bucket.{Entries, BucketPath, Bbolt, IsBbolt, put_entry_last}
use protosource.Store.Bolt.Run.{events_bucket, aggregate_bucket, put_records, save_in, entries_of}

abbrev pub entry_of : Record → Bytes × Bytes
entry_of r = (be_bytes 8 r.version, r.payload)

-- Every key is the number of a version before n.
abbrev pub AllBefore : ℕ → Entries → Type 0
AllBefore n = All (λ e. (v : ℕ) × (e.0 ≡ be_bytes 8 v) × (v < n))

-- Versions that ascend from n on.
abbrev pub AscendFrom : ℕ → List Record → Type 0
AscendFrom n [] = n ≤ two64
AscendFrom n (r ∷ rs) = (n ≤ r.version) × AscendFrom (suc r.version) rs

pub ascend_bound : (n : ℕ) (rs : List Record) → AscendFrom n rs → n ≤ two64
ascend_bound n [] h = h
ascend_bound n (r ∷ rs) (low, h) = omega (arith, ascend_bound (suc r.version) rs h)

key_later :
    (n v : ℕ)
    → n ≤ v
    → v < two64
    → (e : Bytes × Bytes) → ((w : ℕ) × (e.0 ≡ be_bytes 8 w) × (w < n))
    → (bytes_eq e.0 (be_bytes 8 v) ≡ false) × (before (be_bytes 8 v) e.0 ≡ false)
key_later n v low high e (w, key, less) =
    let order : before (be_bytes 8 v) (be_bytes 8 w) ≡ ltb v w =
      before-be_bytes 8 v w high (omega (arith, less)) in
    let read_v : be_value (be_bytes 8 v) ≡ v = be_value-be_bytes 8 v high in
    let read_w : be_value (be_bytes 8 w) ≡ w = be_value-be_bytes 8 w (omega (arith, less)) in
    rw key (
      elim (Bool-cases (bytes_eq (be_bytes 8 w) (be_bytes 8 v))) [
        | inl same ↦
            let equal : w ≡ v = sym read_w ∙ ap be_value ((bytes_eq_iff _ _).0 same) ∙ read_v in
            absurd (omega (arith, equal))
        | inr other ↦ other
      ],
      rw order (ground arith),
    )

module _ (to_bytes : String → Bytes) {F : Type 0} (db : Bbolt F) (laws : IsBbolt db)
    (open_file : ℕ → Result (Unit {0})) where
  abbrev path : String → BucketPath
  path id = aggregate_bucket to_bytes db open_file id

  -- Records of later versions are put behind what is there, in their order.
  put_records-entries :
      (id : String) (n : ℕ) (rs : List Record) (f g : F)
      → AllBefore n (db.entries (path id) f)
      → AscendFrom n rs
      → put_records to_bytes db open_file id rs f ≡ ok g
      → db.entries (path id) g ≡ db.entries (path id) f ++ map entry_of rs
  unfolding put_records
  put_records-entries id n [] f g old h done = rw (← ok-injective done) (sym (append-nil _))
  put_records-entries id n (r ∷ rs) f g old (low, h) done =
      let v = r.version in
      let high : v < two64 = omega (arith, ascend_bound (suc v) rs h) in
      let (k, put, rest) = >>=-eq-ok (db.put (path id) _ _ f) _ done in
      let stored =
        laws.entries_put (path id) _ _ f k put
        ∙ put_entry_last _ _ _ (All-imp (key_later n v low high) _ old) in
      let wider =
        All-append _ (db.entries (path id) f) (entry_of r ∷ [])
          (All-imp (λ e (w, key, less). (w, key, omega (arith, less))) _ old)
          ((v, refl, omega arith), tt) in
      put_records-entries id (suc v) rs k g (rw stored wider) h rest
      ∙ ap (λ m. m ++ map entry_of rs) stored
      ∙ append_assoc (db.entries (path id) f) (entry_of r ∷ []) (map entry_of rs)

  put_records-other :
      (id : String) (q : BucketPath) (rs : List Record) (f g : F)
      → path id ≢ q
      → put_records to_bytes db open_file id rs f ≡ ok g
      → db.entries q g ≡ db.entries q f
  unfolding put_records
  put_records-other id q [] f g apart done = ap (db.entries q) (sym (ok-injective done))
  put_records-other id q (r ∷ rs) f g apart done =
      let (k, put, rest) = >>=-eq-ok (db.put (path id) _ _ f) _ done in
      put_records-other id q rs k g apart rest
      ∙ laws.entries_put_other (path id) q _ _ f k put apart

  -- The pairs that `Load` reads are those of the aggregate's bucket.
  pub entries_of-entries :
      (id : String) (f : F) → entries_of to_bytes db open_file id f ≡ db.entries (path id) f
  unfolding entries_of
  entries_of-entries id f = elim (Bool-cases (db.has_bucket (path id) f)) [
    | inl there ↦
        let parent = laws.has_parent (events_bucket to_bytes db open_file) (to_bytes id) f there in
        rw (parent, there) refl
    | inr missing ↦
        let empty = laws.entries_missing (path id) f missing in
        rw (missing, empty)
          (elim (Bool-cases (db.has_bucket (events_bucket to_bytes db open_file) f)) [
            | inl a ↦ rw a refl
            | inr b ↦ rw b refl
          ])
  ]

  -- The three steps of the transaction.
  save_in_steps :
      (id : String) (rs : List Record) (f g : F)
      → save_in to_bytes db open_file id rs f ≡ ok (tt, g)
      → (k l : F) × (db.create_bucket (events_bucket to_bytes db open_file) f ≡ ok k)
        × (db.create_bucket (path id) k ≡ ok l)
        × (put_records to_bytes db open_file id rs l ≡ ok g)
  unfolding save_in
  save_in_steps id rs f g done =
      let (k, first, r1) = >>=-eq-ok (db.create_bucket _ f) _ done in
      let (l, second, r2) = >>=-eq-ok (db.create_bucket (path id) k) _ r1 in
      let (m, puts, r3) = >>=-eq-ok (put_records to_bytes db open_file id rs l) _ r2 in
      (k, l, first, second, puts ∙ ap (λ p. ok (p.1)) (ok-injective r3))

  -- The aggregate's pairs are followed by the new ones.
  pub save_in-entries :
      (id : String) (n : ℕ) (rs : List Record) (f g : F)
      → AllBefore n (entries_of to_bytes db open_file id f)
      → AscendFrom n rs
      → save_in to_bytes db open_file id rs f ≡ ok (tt, g)
      → entries_of to_bytes db open_file id g
        ≡ entries_of to_bytes db open_file id f ++ map entry_of rs
  save_in-entries id n rs f g old h done =
      let (k, l, first, second, puts) = save_in_steps id rs f g done in
      let same =
        laws.entries_create _ (path id) k l second ∙ laws.entries_create _ (path id) f k first in
      let before' : AllBefore n (db.entries (path id) l) =
        rw (same ∙ sym (entries_of-entries id f)) old in
      entries_of-entries id g
      ∙ put_records-entries id n rs l g before' h puts
      ∙ ap (λ m. m ++ map entry_of rs) (same ∙ sym (entries_of-entries id f))

  -- The pairs of another aggregate stay as they are.
  pub save_in-other :
      (id j : String) (rs : List Record) (f g : F)
      → path id ≢ path j
      → save_in to_bytes db open_file id rs f ≡ ok (tt, g)
      → entries_of to_bytes db open_file j g ≡ entries_of to_bytes db open_file j f
  save_in-other id j rs f g apart done =
      let (k, l, first, second, puts) = save_in_steps id rs f g done in
      entries_of-entries j g
      ∙ put_records-other id (path j) rs l g apart puts
      ∙ laws.entries_create _ (path j) k l second
      ∙ laws.entries_create _ (path j) f k first
      ∙ sym (entries_of-entries j f)
