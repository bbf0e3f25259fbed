-- ===== src/Store/Bolt/Saved.antt =====
-- What a `Save` of the Bolt store that succeeds has done: the steps it went through.
use protosource.Prelude.{
  ℕ, String, ◌≡◌, refl, sym, ap, ◌∙◌, inl, inr, true, none, List, arith, Bool-cases,
}
use protosource.Error.{Result, ok}
use protosource.Compress.{Bytes}
use protosource.Repository.Types.{Record}
use protosource.Repository.Stored.{Result-cases, >>=-eq-ok, ok-injective}
use protosource.Store.Bolt.Bucket.{Bbolt}
use protosource.Store.Bolt.Index.{
  BoltStore, set_file, update, assign_in, assign_shard, is_open, open_shard,
}
use protosource.Store.Bolt.Run.{save_in, write_shard, save}

update_ok :
    {F A : Type 0} (to_bytes : String → Bytes) (db : Bbolt F) (open_file : ℕ → Result (Unit {0}))
    → (body : F → Result (A × F)) (f g : F) (a : A)
    → update to_bytes db open_file body f ≡ ok (a, g)
    → body f ≡ ok (a, g)
unfolding update
update_ok to_bytes db open_file body f g a done =
    let (_, begun, r1) = >>=-eq-ok (db.begin f) _ done in
    let (p, made, r2) = >>=-eq-ok (body f) _ r1 in
    let (_, committed, r3) = >>=-eq-ok (db.commit p.1) _ r2 in made ∙ r3

module _ (to_bytes : String → Bytes) {F : Type 0} (db : Bbolt F)
    (open_file : ℕ → Result (Unit {0})) where
  -- What a `Save` that succeeds has done.
  pub record Saved (id : String) (rs : List Record) (s t : BoltStore F) : Type 0 where
    pub shard : ℕ
    pub content : F
    pub assigned : assign_in to_bytes db open_file id s.index ≡ ok (shard, t.index)
    pub written : save_in to_bytes db open_file id rs (s.files shard) ≡ ok (tt, content)
    pub files : t.files ≡ set_file shard content s.files
    pub opened : is_open shard t.shards ≡ true

  open_shard_ok :
      (n : ℕ) (s : BoltStore F)
      → (open_shard to_bytes db open_file n s).0 ≡ ok tt
      → (is_open n (open_shard to_bytes db open_file n s).1.shards ≡ true)
        × ((open_shard to_bytes db open_file n s).1.index ≡ s.index)
        × ((open_shard to_bytes db open_file n s).1.files ≡ s.files)
  unfolding open_shard is_open
  open_shard_ok n s h = elim (Bool-cases (is_open n s.shards)) [
    | inl already ↦ rw (already, open_shard) (already, refl, refl)
    | inr closed ↦ elim (Result-cases (open_file n)) [
      | inl (_, opened) ↦ rw (closed, opened, open_shard) (ground arith, refl, refl)
      | inr (e, failed) ↦ absurd (let bad = rw (closed, failed, open_shard) at h in cc)
    ]
  ]

  assign_shard_ok :
      (id : String) (n : ℕ) (s : BoltStore F)
      → (assign_shard to_bytes db open_file id s).0 ≡ ok n
      → (assign_in to_bytes db open_file id s.index
          ≡ ok (n, (assign_shard to_bytes db open_file id s).1.index))
        × ((assign_shard to_bytes db open_file id s).1.files ≡ s.files)
  unfolding assign_shard
  assign_shard_ok id n s h =
      elim (Result-cases
        (update to_bytes db open_file (assign_in to_bytes db open_file id) s.index)) [
          | inl ((m, f), done) ↦
              let number = ok-injective (rw (done, assign_shard) at h) in
              rw (done, assign_shard)
                (
                  update_ok to_bytes db open_file (assign_in to_bytes db open_file id) s.index f m
                        done
                      ∙ ap (λ k. ok (k, f)) number,
                  refl,
                )
          | inr (e, failed) ↦ absurd (let bad = rw (failed, assign_shard) at h in cc)
        ]

  write_shard_ok :
      (id : String) (rs : List Record) (n : ℕ) (s t : BoltStore F)
      → write_shard to_bytes db open_file id rs n s ≡ (ok tt, t)
      → (content : F) × (save_in to_bytes db open_file id rs (s.files n) ≡ ok (tt, content))
        × (record s { files = set_file n content s.files } ≡ t)
  unfolding write_shard
  write_shard_ok id rs n s t h =
      elim (Result-cases
        (update to_bytes db open_file (save_in to_bytes db open_file id rs) (s.files n))) [
          | inl ((_, f), done) ↦ (
            f,
            update_ok to_bytes db open_file (save_in to_bytes db open_file id rs) (s.files n) f tt
                done,
            ap (λ p. p.1) (rw (done, write_shard) at h),
          )
          | inr (e, failed) ↦ absurd (let bad = ap (λ p. p.0) (rw (failed, write_shard) at h) in cc)
        ]

  result-Saved :
      (id : String) (rs : List Record) (n : ℕ) (f : F) (s u t : BoltStore F)
      → assign_in to_bytes db open_file id s.index ≡ ok (n, u.index)
      → u.files ≡ s.files
      → is_open n u.shards ≡ true
      → save_in to_bytes db open_file id rs (u.files n) ≡ ok (tt, f)
      → record u { files = set_file n f u.files } ≡ t
      → Saved id rs s t
  result-Saved id rs n f s u t assigned same there written result = record {
    shard = n;
    content = f;
    assigned = assigned ∙ ap (λ w. ok (n, w.index)) result;
    written = ap (λ files. save_in to_bytes db open_file id rs (files n)) (sym same) ∙ written;
    files = sym (ap (λ w. w.files) result) ∙ ap (set_file n f) same;
    opened = ap (λ w. is_open n w.shards) (sym result) ∙ there;
  }

  -- Such a `Save` went through all its steps.
  pub save-Saved :
      (id : String) (rs : List Record) (s t : BoltStore F)
      → save to_bytes db open_file none id rs s ≡ (ok tt, t)
      → Saved id rs s t
  unfolding save
  save-Saved id rs s t done =
      let s1 = (assign_shard to_bytes db open_file id s).1 in
      elim (Result-cases (assign_shard to_bytes db open_file id s).0) [
        | inr (e, failed) ↦ absurd (let bad = ap (λ p. p.0) (rw (failed, save) at done) in cc)
        | inl (n, assigned) ↦
            let s2 = (open_shard to_bytes db open_file n s1).1 in
            elim (Result-cases (open_shard to_bytes db open_file n s1).0) [
              | inr (e, failed) ↦
                  absurd (let bad = ap (λ p. p.0) (rw (assigned, failed, save) at done) in cc)
              | inl (_, opened) ↦
                  let (index, files) = assign_shard_ok id n s assigned in
                  let (is_there, index', files') = open_shard_ok n s1 opened in
                  let (f, written, result) =
                    write_shard_ok id rs n s2 t (rw (assigned, opened, save) at done) in
                  result-Saved id rs n f s s2 t (index ∙ ap (λ g. ok (n, g)) (sym index'))
                    (files' ∙ files) is_there written result
            ]
      ]
