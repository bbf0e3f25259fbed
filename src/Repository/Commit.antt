-- ===== src/Repository/Commit.antt =====
-- `Repository.Apply` on every branch: what it answers, and what the store then holds.
use protosource.Prelude.{
  ℕ, String, ◌≡◌, refl, ap, ◌∙◌, false, none, some, List, [], ◌∷◌, ◌++◌, str_eq, if◌then◌else◌, inl,
  inr, List-cases,
}
use protosource.Error.{Error, Result, ok, err, ◌>>=◌, is_error, skip}
use protosource.Compress.{Gzip, IsCodec}
use protosource.Repository.Types.{History, Store, Serializer, Domain}
use protosource.Repository.Base.{qualified_id, fold_on, last_version, run_hook, check_command}
use protosource.Repository.Run.{
  Applied, load_aggregate_version, load, save, persist, execute, run_evaluate, or_new, apply,
  first_of_load, write_records, stamp,
}
use protosource.Repository.Stored.{IsSerializer, ok-injective, >>=-eq-ok}
use protosource.Repository.Log.{
  IsLog, Holds, loaded_part, loaded_part-some, load_aggregate_version-none,
  load_aggregate_version_lem, save-Holds,
}
use protosource.Repository.Views.{view-materialize}

-- The aggregate and the version that a history of events stands for: a fresh aggregate at version 0
-- without events, and otherwise the replay with its derived fields.
unfoldable pub state_of : {A E C M : Type 0} → Domain A E C M → List E → Result (A × ℕ)
state_of d [] = ok (d.fresh, 0)
state_of d (e ∷ es) =
    fold_on d (e ∷ es) d.fresh >>= λ b. ok (run_hook d.after_on b, last_version d (e ∷ es) 0)

module _ (z : Gzip) {A E C M S : Type 0} (d : Domain A E C M) (serializer : Serializer E)
    (store : Store S M) (threshold : ℕ) (view : S → String → History) (log : IsLog store view) where
  abbrev HoldsEvents : S → String → List E → Type 0
  HoldsEvents = Holds z d serializer store threshold view log

  -- What `Apply` works on after its load.
  loaded_empty :
      (id : String) (es : List E) (s : S)
      → HoldsEvents s id es
      → loaded_part d store es ≡ []
      → (or_new z d serializer store threshold
            (load_aggregate_version z d serializer store threshold none id s).0
          ≡ (d.fresh, 0))
        × HoldsEvents (load_aggregate_version z d serializer store threshold none id s).1 id es
  loaded_empty id es s h part =
      let (l, k) =
        load_aggregate_version-none z d serializer store threshold view log id es s h part in
      (ap (or_new z d serializer store threshold) l, k)

  pub loaded_lem :
      (id : String) (es : List E) (s : S) (a : A) (v : ℕ)
      → HoldsEvents s id es
      → state_of d (loaded_part d store es) ≡ ok (a, v)
      → (or_new z d serializer store threshold
            (load_aggregate_version z d serializer store threshold none id s).0
          ≡ (a, v))
        × HoldsEvents (load_aggregate_version z d serializer store threshold none id s).1 id es
  unfolding state_of
  loaded_lem id es s a v h f = elim (List-cases (loaded_part d store es)) [
    | inl nothing ↦
        let (l, k) = loaded_empty id es s h nothing in (l ∙ ok-injective (rw nothing at f), k)
    | inr (e, read, part) ↦
        let (b, folded, same) = >>=-eq-ok (fold_on d (e ∷ read) d.fresh) _ (rw part at f) in
        let (l, k) =
          load_aggregate_version_lem z d serializer store threshold view log id es e read s h part
            folded in
        (ap (or_new z d serializer store threshold) l ∙ ok-injective same, k)
  ]

  module _ (es : List E) (a : A) (v : ℕ) (now : ℕ) (clock : ℕ → ℕ) (c : C) (s : S)
      (given : str_eq (d.command_id c) "" ≡ false) (held : HoldsEvents s (d.command_id c) es)
      (state : state_of d es ≡ ok (a, v))
      (enough : state_of d (loaded_part d store es) ≡ state_of d es) where
    abbrev pub outcome : Applied S
    outcome = apply z d serializer store threshold none now clock (some c) s

    -- `Apply` with a live context runs its checks on the state that the history stands for, in a
    -- store that still holds the history.
    apply_lem :
        (s1 : S) × (outcome ≡ execute z d serializer store threshold none now clock c a v s1)
        × HoldsEvents s1 (d.command_id c) es
    unfolding apply
    apply_lem =
        let (l, k) = loaded_lem (d.command_id c) es s a v held (enough ∙ state) in
        (
          (load_aggregate_version z d serializer store threshold none (d.command_id c) s).1,
          rw given (
              ap
                (λ x.
                  execute z d serializer store threshold none now clock c x.0 x.1
                    (load_aggregate_version z d serializer store threshold none (d.command_id c)
                      s).1)
                l),
          k,
        )

    -- In a live context, in a store that is a log, with or without `LoadTail`, on a history that the
    -- aggregate can replay, where the part of it that a load reads gives the same state as the whole: a
    -- command that fails a check has that check's error, and the history stays.
    pub apply_rejected :
        (e : Error)
        → check_command d c a ≡ err e
        → (outcome.result ≡ err e) × HoldsEvents outcome.store (d.command_id c) es
    unfolding execute
    apply_rejected e checked =
        let (s1, runs, kept) = apply_lem in rw runs (rw (checked, execute) (refl, kept))

    -- In a live context, in a store that is a log, with or without `LoadTail`, on a history that the
    -- aggregate can replay, where the part of it that a load reads gives the same state as the whole: a
    -- command that passes its checks and whose `Evaluate` fails stores nothing. `ErrSkip`, wrapped
    -- or not, answers with the version that was loaded, and any other error is passed on.
    pub apply_declined :
        (emit : (ℕ → ℕ) → A → List E) (e : Error)
        → check_command d c a ≡ ok emit
        → run_evaluate z d serializer store threshold c a ≡ err e
        → (outcome.result ≡ (if is_error e skip then ok v else err e))
          × HoldsEvents outcome.store (d.command_id c) es
    unfolding execute
    apply_declined emit e checked evaluated =
        let (s1, runs, kept) = apply_lem in
        rw runs (rw (checked, execute) (rw (evaluated, execute) (refl, kept)))

  -- In a live context and a store that is a log, with or without `LoadTail`, `Load` gives the aggregate of a history that has
  -- events and that the aggregate can replay, where the part that the load reads (all of it, or the
  -- last events where the store has `LoadTail` and the aggregate takes snapshots) gives the same as the whole.
  pub load_lem :
      (id : String) (es : List E) (f : E) (fs : List E) (s : S) (a : A) (v : ℕ)
      → HoldsEvents s id (es ++ f ∷ fs)
      → state_of d (es ++ f ∷ fs) ≡ ok (a, v)
      → state_of d (loaded_part d store (es ++ f ∷ fs)) ≡ state_of d (es ++ f ∷ fs)
      → (load z d serializer store threshold none id s).0 ≡ ok a
  unfolding load state_of
  load_lem id es f fs s a v h st enough =
      let (e, read, part) = loaded_part-some d store es f fs in
      let (b, folded, same) =
        >>=-eq-ok (fold_on d (e ∷ read) d.fresh) _ (rw part at (enough ∙ st)) in
      let (l, _) =
        load_aggregate_version_lem z d serializer store threshold view log id (es ++ f ∷ fs) e read
          s h part folded in
      ap (first_of_load z d serializer store threshold) (l ∙ same)

  module _ (laws : IsSerializer d serializer) (codec : IsCodec z) where
    persist_lem :
        (now : ℕ) (es : List E) (f : E) (fs : List E) (a : A) (v : ℕ) (s : S)
        → HoldsEvents s (d.event_id f) es
        → (save z d serializer store threshold none now (f ∷ fs) s).0 ≡ ok tt
        → ((persist z d serializer store threshold none now (f ∷ fs) a v s).result
            ≡ ok (last_version d (f ∷ fs) v))
          × HoldsEvents
              (persist z d serializer store threshold none now (f ∷ fs) a v s).store
              (d.event_id f)
              (es ++ f ∷ fs)
    unfolding persist
    persist_lem now es f fs a v s h saved =
        let key = qualified_id d.proto_package (d.event_id f) in
        let s1 = (save z d serializer store threshold none now (f ∷ fs) s).1 in
        rw (saved, persist)
          (
            refl,
            rw (view-materialize z d serializer store threshold view log (f ∷ fs) a s1 key) (
                save-Holds z d serializer store threshold view log laws codec now f fs es s tt h
                  saved),
          )

    module _ (es : List E) (a : A) (v : ℕ) (now : ℕ) (clock : ℕ → ℕ) (c : C) (s : S)
        (given : str_eq (d.command_id c) "" ≡ false) (held : HoldsEvents s (d.command_id c) es)
        (state : state_of d es ≡ ok (a, v))
        (enough : state_of d (loaded_part d store es) ≡ state_of d es) where
      -- In a live context, on a history that the aggregate can replay, where the part of it that a load
      -- reads gives the same state as the whole, with a serializer, a codec and a store, with or
      -- without `LoadTail`, that meet their laws: a command that passes every check and emits events of its own
      -- aggregate appends them, and answers with the last one's version, if the events can be
      -- marshalled and the store accepts their records.
      pub apply_commits :
          (emit : (ℕ → ℕ) → A → List E) (f : E) (fs : List E) (rs : History)
          → check_command d c a ≡ ok emit
          → run_evaluate z d serializer store threshold c a ≡ ok tt
          → emit clock a ≡ f ∷ fs
          → d.event_id f ≡ d.command_id c
          → write_records z d serializer store threshold (f ∷ fs) ≡ ok rs
          → ((t : S)
              → (store.save none
                  (qualified_id d.proto_package (d.event_id f))
                  (stamp z d serializer store threshold now rs)
                  t).0
                ≡ ok tt)
          → ((outcome es a v now clock c s given held state enough).result
              ≡ ok (last_version d (f ∷ fs) v))
            × HoldsEvents
                (outcome es a v now clock c s given held state enough).store
                (d.command_id c)
                (es ++ f ∷ fs)
      unfolding execute save
      apply_commits emit f fs rs checked evaluated emits same written accepts =
          let (s1, runs, kept) = apply_lem es a v now clock c s given held state enough in
          let (r, h) =
            persist_lem now es f fs a v s1 (rw same kept) (rw (written, save) (accepts s1)) in
          rw runs (
            rw (checked, execute) (rw (evaluated, execute) (rw (emits, execute) (r, rw same at h))))
