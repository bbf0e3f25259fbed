-- ===== src/Store/Bolt/Log.antt =====
-- `Save` of the Bolt store followed by `Load`, over whole stores.
use protosource.Prelude.{
  ℕ, ◌+◌, ◌<◌, String, ◌≡◌, ◌≢◌, refl, sym, ap, ◌∙◌, inl, inr, Bool, true, false, none, some, List,
  [], ◌++◌, map, ◌==◌, ==_iff, two32, if◌then◌else◌, Bool-cases, str_eq, eq_iff,
}
use protosource.Error.{Result, ok, ◌>>=◌}
use protosource.Compress.{Bytes}
use protosource.Repository.Types.{Record}
use protosource.Store.Bolt.Bucket.{Bbolt, IsBbolt}
use protosource.Store.Bolt.Index.{BoltStore, set_file, shard_of}
use protosource.Store.Bolt.Run.{save, entries_of, load}
use protosource.Store.Bolt.Capacity.{IsPacked, assign_in-IsPacked}
use protosource.Store.Bolt.Written.{AllBefore, AscendFrom}
use protosource.Store.Bolt.Saved.{Saved, save-Saved}
use protosource.Store.Bolt.Assigned.{assign_in-known, assign_in-other}
use protosource.Store.Bolt.History.{
  without_ttl, history_of, IsIndexed, load_lem, files_other, own_history, other_history,
  assigned_to,
}

if_ok {ℓ} : {A : Type ℓ} (b : Bool) (x y : A) → ok (if b then x else y) ≡ (if b then ok x else ok y)
if_ok true x y = refl
if_ok false x y = refl

module _ (to_bytes : String → Bytes) {F : Type 0} (db : Bbolt F) (laws : IsBbolt db)
    (open_file : ℕ → Result (Unit {0}))
    (injective : (a b : String) → to_bytes a ≡ to_bytes b → a ≡ b) where
  -- The histories after a `Save`.
  save-history_of :
      (id j : String) (rs : List Record) (n max from : ℕ) (s t : BoltStore F)
      → IsPacked to_bytes db laws open_file injective n max s.index
      → n + 1 < two32
      → IsIndexed to_bytes db open_file s
      → ((k : ℕ) → AllBefore from (entries_of to_bytes db open_file id (s.files k)))
      → AscendFrom from rs
      → save to_bytes db open_file none id rs s ≡ (ok tt, t)
      → history_of to_bytes db open_file j t ≡ (
          if str_eq id j
          then history_of to_bytes db open_file id s ++ map without_ttl rs
          else history_of to_bytes db open_file j s)
  save-history_of id j rs n max from s t packed room indexed old ascend done =
      let h = save-Saved to_bytes db open_file id rs s t done in
      elim (Bool-cases (str_eq id j)) [
        | inl same ↦
            rw (same, ← (eq_iff id j).0 same)
              (own_history to_bytes db laws open_file injective id rs n max from s t packed room
                indexed h (old h.shard) ascend)
        | inr other ↦ rw other (
            other_history to_bytes db laws open_file injective id j rs s t
              (λ e. let bad = sym other ∙ (eq_iff id j).1 e in cc) h)
      ]

  -- A `Save` under one id that succeeds, for versions from `from` on in ascending order, where the
  -- stored versions of this id are lower: `Load` then returns under this id what it returned before,
  -- with the records appended but for their times to live, and under any other id what it returned
  -- before. The index has its form and room for one more shard; files open and transactions begin.
  pub save-load :
      (id j : String) (rs : List Record) (n max from : ℕ) (s t : BoltStore F)
      → ((f : F) → db.begin f ≡ ok tt)
      → ((k : ℕ) → open_file k ≡ ok tt)
      → IsPacked to_bytes db laws open_file injective n max s.index
      → n + 1 < two32
      → IsIndexed to_bytes db open_file s
      → ((k : ℕ) → AllBefore from (entries_of to_bytes db open_file id (s.files k)))
      → AscendFrom from rs
      → save to_bytes db open_file none id rs s ≡ (ok tt, t)
      → (load to_bytes db open_file none j t).0 ≡ (
          if str_eq id j
          then ((load to_bytes db open_file none id s).0 >>= λ h. ok (h ++ map without_ttl rs))
          else (load to_bytes db open_file none j s).0)
  save-load id j rs n max from s t begins opens packed room indexed old ascend done =
      rw
        (
          load_lem to_bytes db open_file id s begins opens,
          load_lem to_bytes db open_file j s begins opens,
        )
        (load_lem to_bytes db open_file j t begins opens
          ∙ ap ok (save-history_of id j rs n max from s t packed room indexed old ascend done)
          ∙ if_ok (str_eq id j) _ _)

  kept_only :
      (id j : String) (k : ℕ) (rs : List Record) (n max : ℕ) (s t : BoltStore F)
      → IsPacked to_bytes db laws open_file injective n max s.index
      → n + 1 < two32
      → IsIndexed to_bytes db open_file s
      → Saved to_bytes db open_file id rs s t
      → shard_of to_bytes db open_file j t.index ≢ some k
      → entries_of to_bytes db open_file j (t.files k) ≡ []
  unfolding set_file
  kept_only id j k rs n max s t packed room indexed h other = elim (Bool-cases (str_eq id j)) [
    | inl same ↦
        let own = (eq_iff id j).0 same in
        let there =
          assigned_to to_bytes db laws open_file injective id rs n max s t packed room h in
        let elsewhere : (k == h.shard) ≡ false = elim (Bool-cases (k == h.shard)) [
          | inl at ↦ absurd (
              other (
                ap (λ i. shard_of to_bytes db open_file i t.index) (sym own)
                ∙ there
                ∙ ap some (sym ((==_iff k h.shard).0 at))))
          | inr apart ↦ apart
        ] in
        ap (λ f. entries_of to_bytes db open_file j f)
          (ap (λ files. files k) h.files ∙ rw (elsewhere, set_file) refl)
        ∙ indexed.only j k (λ e.
          let known = ap (λ i. shard_of to_bytes db open_file i s.index) own ∙ e in
          let number =
            assign_in-known to_bytes db laws open_file injective id h.shard k s.index t.index known
              h.assigned in
          absurd (
            other (
              ap (λ i. shard_of to_bytes db open_file i t.index) (sym own)
              ∙ there
              ∙ ap some number)))
    | inr differ ↦
        let apart : id ≢ j = λ e. (let bad = sym differ ∙ (eq_iff id j).1 e in cc) in
        files_other to_bytes db laws open_file injective id j k rs s t apart h
        ∙ indexed.only j k (λ e. other (
            assign_in-other to_bytes db laws open_file injective id j h.shard s.index t.index apart
              h.assigned
            ∙ e))
  ]

  -- A `Save` that succeeds keeps the shards within their limit, and the index says of every aggregate
  -- where its entries are.
  pub save-IsIndexed :
      (id : String) (rs : List Record) (n max : ℕ) (s t : BoltStore F)
      → IsPacked to_bytes db laws open_file injective n max s.index
      → n + 1 < two32
      → IsIndexed to_bytes db open_file s
      → save to_bytes db open_file none id rs s ≡ (ok tt, t)
      → ((n' : ℕ) × IsPacked to_bytes db laws open_file injective n' max t.index)
        × IsIndexed to_bytes db open_file t
  unfolding set_file
  save-IsIndexed id rs n max s t packed room indexed done =
      let h = save-Saved to_bytes db open_file id rs s t done in
      let ((n', packed', low, high), entry) =
        assign_in-IsPacked to_bytes db laws open_file injective id n max h.shard s.index t.index
          packed room h.assigned in
      (
        (n', packed'),
        record { only = λ j k other. kept_only id j k rs n max s t packed room indexed h other },
      )
