-- ===== src/Repository/Log.antt =====
-- What the repository needs of a store: an append-only history for each key. Over any store with
-- these laws, `Load` replays the events that were saved, and `Save` appends the events given.
use protosource.Prelude.{
  ℕ, String, ◌≡◌, ap, ◌⊎◌, inl, inr, false, none, some, List, ◌∷◌, ◌++◌, str_eq, if◌then◌else◌,
  eq_refl, true, arith, List-cases, length-append, length-drop, Option, Bool-cases, Option-cases,
  take_last, drop, length, ◌-◌, is_positive32, [], refl,
}
use protosource.Error.{Result, ok, err, wrap, sentinel, aggregate_not_found}
use protosource.Compress.{Gzip, IsCodec}
use protosource.Repository.Types.{History, Context, Store, Serializer, Domain}
use protosource.Repository.Base.{qualified_id, fold_on, last_version, run_hook}
use protosource.Repository.Run.{
  load_history, load_aggregate_version, rebuild, finish_load, write_records, stamp, save,
}
use protosource.Repository.Stored.{
  IsSerializer, Stores, Stores-append, length-Stores, Stores-drop, Result-cases, replay-Stores,
  stamp-Stores,
}

-- `view s key` is the history that the store holds under a key.
pub record IsLog {S M : Type 0} (store : Store S M) (view : S → String → History) : Type 0 where
  pub load_result : (key : String) (s : S) → (store.load none key s).0 ≡ ok (view s key)
  pub load_view : (key k : String) (s : S) → view (store.load none key s).1 k ≡ view s k
  pub save_view :
      (key : String) (rs : History) (s : S) (u : Unit {0})
      → (store.save none key rs s).0 ≡ ok u
      → (k : String)
      → view (store.save none key rs s).1 k ≡ (if str_eq key k then view s k ++ rs else view s k)
  pub save_other :
      (key k : String) (rs : History) (s : S)
      → str_eq key k ≡ false
      → view (store.save none key rs s).1 k ≡ view s k
  -- The records of a loaded history are the store's own, or copies.
  pub through_self :
      (key : String) (rs : History) (s : S)
      → (view (store.write_through key rs s) key ≡ rs)
        ⊎ (view (store.write_through key rs s) key ≡ view s key)
  pub through_other :
      (key k : String) (rs : History) (s : S)
      → str_eq key k ≡ false
      → view (store.write_through key rs s) k ≡ view s k
  pub put_view :
      (put : Context → M → S → Result (Unit {0}) × S) (m : M) (s : S) (k : String)
      → store.save_aggregate ≡ some put
      → view (put none m s).1 k ≡ view s k
  -- A SnapshotTailStore loads the last records, and hands out copies.
  pub tail_result :
      (tail : Context → String → ℕ → S → Result History × S) (key : String) (n : ℕ) (s : S)
      → store.load_tail ≡ some tail
      → is_positive32 n ≡ true
      → (tail none key n s).0 ≡ ok (take_last n (view s key))
  pub tail_view :
      (tail : Context → String → ℕ → S → Result History × S) (key k : String) (n : ℕ) (s : S)
      → store.load_tail ≡ some tail
      → view (tail none key n s).1 k ≡ view s k
  pub tail_copies :
      (tail : Context → String → ℕ → S → Result History × S) (key k : String) (rs : History) (s : S)
      → store.load_tail ≡ some tail
      → view (store.write_through key rs s) k ≡ view s k

-- How many of the last records a load reads, `none` for all: the snapshot interval, where the store
-- has `LoadTail` and the interval is positive.
unfoldable pub window : {A E C M S : Type 0} → Domain A E C M → Store S M → Option ℕ
window d store = elim store.load_tail [
  | none ↦ none
  | some tail ↦ elim d.snapshot_interval [
    | none ↦ none
    | some n ↦ if is_positive32 n then some n else none
  ]
]

abbrev pub cut : {X : Type 0} → Option ℕ → List X → List X
cut none xs = xs
cut (some n) xs = take_last n xs

-- The part of a history that a load reads.
abbrev pub loaded_part : {A E C M S X : Type 0} → Domain A E C M → Store S M → List X → List X
loaded_part d store xs = cut (window d store) xs

window-is_positive :
    {A E C M S : Type 0} (d : Domain A E C M) (store : Store S M) (n : ℕ)
    → window d store ≡ some n
    → is_positive32 n ≡ true
unfolding window
window-is_positive d store n h = elim (Option-cases store.load_tail) [
  | inl no_tail ↦ let bad : none ≡ some n = rw (no_tail, window) at h in cc
  | inr (tail, has) ↦ elim (Option-cases d.snapshot_interval) [
    | inl no_snapshots ↦ let bad : none ≡ some n = rw (has, no_snapshots, window) at h in cc
    | inr (m, every) ↦ elim (Bool-cases (is_positive32 m)) [
      | inl positive ↦
          let same : some m ≡ some n = rw (has, every, positive, window) at h in
          let eq : m ≡ n = cc in rw (← eq) positive
      | inr off ↦ let bad : none ≡ some n = rw (has, every, off, window) at h in cc
    ]
  ]
]

-- A load reads something of a history that has events.
pub loaded_part-some :
    {A E C M S X : Type 0} (d : Domain A E C M) (store : Store S M) (xs : List X) (y : X)
    (ys : List X)
    → (x : X) × (read : List X) × (loaded_part d store (xs ++ y ∷ ys) ≡ x ∷ read)
loaded_part-some d store xs y ys = elim (List-cases (loaded_part d store (xs ++ y ∷ ys))) [
  | inr found ↦ found
  | inl nothing ↦ absurd (elim (Option-cases (window d store)) [
    | inl all ↦
        let whole : xs ++ y ∷ ys ≡ [] = rw all at nothing in
        omega (arith, ap length whole, length-append xs (y ∷ ys))
    | inr (n, last) ↦
        let size = length (xs ++ y ∷ ys) in
        let tail : drop (size - n) (xs ++ y ∷ ys) ≡ [] = rw last at nothing in
        ground (
          arith,
          ap length tail,
          length-drop (size - n) (xs ++ y ∷ ys),
          length-append xs (y ∷ ys),
          window-is_positive d store n last,
        )
  ])
]

module _ (z : Gzip) {A E C M S : Type 0} (d : Domain A E C M) (serializer : Serializer E)
    (store : Store S M) (threshold : ℕ) (view : S → String → History) (log : IsLog store view) where
  -- The store holds these events for the aggregate.
  abbrev pub Holds : S → String → List E → Type 0
  Holds s id es = Stores z d serializer (view s (qualified_id d.proto_package id)) es

  -- The two ways of a load.
  window-cases :
      (id : String) (s : S)
      → ((window d store ≡ none)
          × (load_history z d serializer store threshold none id s
              ≡ store.load none (qualified_id d.proto_package id) s))
        ⊎ ((tail : Context → String → ℕ → S → Result History × S) × (n : ℕ) × (store.load_tail
              ≡ some tail)
            × (is_positive32 n ≡ true)
            × (window d store ≡ some n)
            × (load_history z d serializer store threshold none id s
                ≡ tail none (qualified_id d.proto_package id) n s))
  unfolding load_history window
  window-cases id s = elim (Option-cases store.load_tail) [
    | inl no_tail ↦ inl (rw (no_tail, window) refl, rw (no_tail, load_history) refl)
    | inr (tail, has) ↦ elim (Option-cases d.snapshot_interval) [
      | inl no_snapshots ↦
          inl (rw (has, no_snapshots, window) refl, rw (has, no_snapshots, load_history) refl)
      | inr (n, every) ↦ elim (Bool-cases (is_positive32 n)) [
        | inl positive ↦ inr (
          tail,
          n,
          has,
          positive,
          rw (has, every, positive, window) refl,
          rw (has, every, positive, load_history) refl,
        )
        | inr off ↦ inl (rw (has, every, off, window) refl, rw (has, every, off, load_history) refl)
      ]
    ]
  ]

  load_history_lem :
      (id : String) (s : S)
      → (load_history z d serializer store threshold none id s).0
        ≡ ok (loaded_part d store (view s (qualified_id d.proto_package id)))
  load_history_lem id s = elim (window-cases id s) [
    | inl (all, loads) ↦ rw (loads, all) (log.load_result (qualified_id d.proto_package id) s)
    | inr (tail, n, has, positive, last, loads) ↦
        rw (loads, last) (log.tail_result tail (qualified_id d.proto_package id) n s has positive)
  ]

  pub view-load_history :
      (id k : String) (s : S)
      → view (load_history z d serializer store threshold none id s).1 k ≡ view s k
  view-load_history id k s = elim (window-cases id s) [
    | inl (all, loads) ↦ rw loads (log.load_view (qualified_id d.proto_package id) k s)
    | inr (tail, n, has, positive, last, loads) ↦
        rw loads (log.tail_view tail (qualified_id d.proto_package id) k n s has)
  ]

  -- The records that a load has read and changed in place leave the history's events.
  write_through-Holds :
      (id : String) (rs : History) (es : List E) (s : S)
      → Holds s id es
      → Stores z d serializer rs (loaded_part d store es)
      → Holds (store.write_through (qualified_id d.proto_package id) rs s) id es
  write_through-Holds id rs es s h kept =
      let key = qualified_id d.proto_package id in
      elim (window-cases id s) [
        | inr (tail, n, has, positive, last, loads) ↦ rw (log.tail_copies tail key key rs s has) h
        | inl (all, loads) ↦ elim (log.through_self key rs s) [
          | inl own ↦ rw own (rw all at kept)
          | inr copy ↦ rw copy h
        ]
      ]

  Stores-loaded_part :
      (rs : History) (es : List E)
      → Stores z d serializer rs es
      → Stores z d serializer (loaded_part d store rs) (loaded_part d store es)
  Stores-loaded_part rs es h = elim (Option-cases (window d store)) [
    | inl all ↦ rw all h
    | inr (n, last) ↦
        rw (last, length-Stores z d serializer rs es h)
          (Stores-drop z d serializer (length es - n) rs es h)
  ]

  rebuild_lem :
      (id : String) (rs : History) (es : List E) (e : E) (read : List E) (s : S) {b : A}
      → Stores z d serializer rs (loaded_part d store es)
      → Holds s id es
      → loaded_part d store es ≡ e ∷ read
      → fold_on d (e ∷ read) d.fresh ≡ ok b
      → ((rebuild z d serializer store threshold id (ok rs) s).0
          ≡ ok (run_hook d.after_on b, last_version d (e ∷ read) 0))
        × Holds (rebuild z d serializer store threshold id (ok rs) s).1 id es
  rebuild_lem id [] es e read s stored h part f = absurd (rw part at stored)
  rebuild_lem id (r ∷ rs) es e read s stored h part f =
      let (done, kept) =
        replay-Stores z d serializer store threshold (r ∷ rs) (e ∷ read) d.fresh 0
          (rw part at stored) f in
      (
        ap (finish_load z d serializer store threshold) done,
        write_through-Holds id _ es s h (rw part kept),
      )

  -- A load that reads no event fails, and keeps the history as it is.
  pub load_aggregate_version-none :
      (id : String) (es : List E) (s : S)
      → Holds s id es
      → loaded_part d store es ≡ []
      → ((load_aggregate_version z d serializer store threshold none id s).0
          ≡ err (wrap "unable to load" (sentinel aggregate_not_found)))
        × Holds (load_aggregate_version z d serializer store threshold none id s).1 id es
  unfolding load_aggregate_version
  load_aggregate_version-none id es s h part =
      let key = qualified_id d.proto_package id in
      let s1 = (load_history z d serializer store threshold none id s).1 in
      rw (load_history_lem id s) (
        go (loaded_part d store (view s key)) s1 (rw part at (Stores-loaded_part (view s key) es h))
          (rw (view-load_history id key s) h))
    where
      go :
          (rs : History) (s1 : S)
          → Stores z d serializer rs []
          → Holds s1 id es
          → ((rebuild z d serializer store threshold id (ok rs) s1).0
              ≡ err (wrap "unable to load" (sentinel aggregate_not_found)))
            × Holds (rebuild z d serializer store threshold id (ok rs) s1).1 id es
      go [] s1 stored held = (refl, held)
      go (r ∷ rs) s1 stored held = absurd stored

  -- Loading an aggregate gives the replay of the events that the load reads, with the derived fields
  -- and the version of the last one, and keeps the events.
  pub load_aggregate_version_lem :
      (id : String) (es : List E) (e : E) (read : List E) (s : S) {b : A}
      → Holds s id es
      → loaded_part d store es ≡ e ∷ read
      → fold_on d (e ∷ read) d.fresh ≡ ok b
      → ((load_aggregate_version z d serializer store threshold none id s).0
          ≡ ok (run_hook d.after_on b, last_version d (e ∷ read) 0))
        × Holds (load_aggregate_version z d serializer store threshold none id s).1 id es
  unfolding load_aggregate_version
  load_aggregate_version_lem id es e read s h part f =
      let key = qualified_id d.proto_package id in
      let s1 = (load_history z d serializer store threshold none id s).1 in
      rw (load_history_lem id s) (
        rebuild_lem id (loaded_part d store (view s key)) es e read s1
          (Stores-loaded_part (view s key) es h) (rw (view-load_history id key s) h) part f)

  module _ (laws : IsSerializer d serializer) (codec : IsCodec z) where
    -- Saving events that succeed appends them to those that the store holds.
    pub save-Holds :
        (now : ℕ) (f : E) (fs es : List E) (s : S) (u : Unit {0})
        → Holds s (d.event_id f) es
        → (save z d serializer store threshold none now (f ∷ fs) s).0 ≡ ok u
        → Holds
            (save z d serializer store threshold none now (f ∷ fs) s).1
            (d.event_id f)
            (es ++ f ∷ fs)
    unfolding save
    save-Holds now f fs es s u h ok' =
        elim (Result-cases (write_records z d serializer store threshold (f ∷ fs))) [
          | inl (rs, written) ↦
              let key = qualified_id d.proto_package (d.event_id f) in
              let stamped = stamp z d serializer store threshold now rs in
              let saved = rw (written, save) at ok' in
              rw (written, save)
                (rw (log.save_view key stamped s u saved key) (
                  rw (eq_refl key) (
                    Stores-append z d serializer (view s key) stamped es (f ∷ fs) h (
                      stamp-Stores d serializer laws z codec store threshold (f ∷ fs) rs now
                        written))))
          | inr (e, failed) ↦ let bad : err e ≡ ok u = rw (failed, save) at ok' in cc
        ]
