-- ===== src/Repository/Isolation.antt =====
-- `Repository.Apply` touches the history of its own aggregate only, whatever becomes of the command.
use protosource.Prelude.{
  ℕ, String, ◌≡◌, refl, ◌∙◌, inl, inr, false, none, some, List, [], ◌∷◌, str_eq, Bool-cases, All,
}
use protosource.Error.{Result, ok, err}
use protosource.Compress.{Gzip}
use protosource.Repository.Types.{History, Context, Store, Serializer, Domain}
use protosource.Repository.Base.{qualified_id, check_command}
use protosource.Repository.Run.{
  rebuild, load_history, load_aggregate_version, save, persist, execute, run_evaluate, or_new,
  apply, write_records, stamp,
}
use protosource.Repository.Stored.{Result-cases}
use protosource.Repository.Log.{IsLog, view-load_history}
use protosource.Repository.Views.{view-materialize}

module _ (z : Gzip) {A E C M S : Type 0} (d : Domain A E C M) (serializer : Serializer E)
    (store : Store S M) (threshold : ℕ) (view : S → String → History) (log : IsLog store view)
    (id : String) (k : String)
    (elsewhere : str_eq (qualified_id d.proto_package id) k ≡ false) where
  view-rebuild :
      (r : Result History) (s : S)
      → view (rebuild z d serializer store threshold id r s).1 k ≡ view s k
  view-rebuild (err e) s = refl
  view-rebuild (ok []) s = refl
  view-rebuild (ok (r ∷ rs)) s = log.through_other _ k _ s elsewhere

  load_view :
      (s : S)
      → view (load_aggregate_version z d serializer store threshold none id s).1 k ≡ view s k
  unfolding load_aggregate_version
  load_view s =
      let (loaded, s1) = load_history z d serializer store threshold none id s in
      view-rebuild loaded s1 ∙ view-load_history z d serializer store threshold view log id k s

  save_view :
      (now : ℕ) (events : List E) (s : S)
      → All (λ e. d.event_id e ≡ id) events
      → view (save z d serializer store threshold none now events s).1 k ≡ view s k
  unfolding save
  save_view now [] s own = refl
  save_view now (e ∷ es) s (own, _) =
      elim (Result-cases (write_records z d serializer store threshold (e ∷ es))) [
        | inl (rs, written) ↦
            rw (written, save)
              (rw own (
                log.save_other (qualified_id d.proto_package id) k
                  (stamp z d serializer store threshold now rs) s elsewhere))
        | inr (x, failed) ↦ rw (failed, save)
      ]

  view-persist :
      (now : ℕ) (events : List E) (a : A) (v : ℕ) (s : S)
      → All (λ e. d.event_id e ≡ id) events
      → view (persist z d serializer store threshold none now events a v s).store k ≡ view s k
  unfolding persist
  view-persist now events a v s own =
      let s1 = (save z d serializer store threshold none now events s).1 in
      elim (Result-cases (save z d serializer store threshold none now events s).0) [
        | inl (u, saved) ↦
            rw (saved, persist)
              (view-materialize z d serializer store threshold view log events a s1 k
                ∙ save_view now events s own)
        | inr (e, failed) ↦ rw (failed, persist) (save_view now events s own)
      ]

  module _ (now : ℕ) (clock : ℕ → ℕ) (c : C)
      (own : (a : A) (emit : (ℕ → ℕ) → A → List E)
        → check_command d c a ≡ ok emit
        → All (λ e. d.event_id e ≡ id) (emit clock a)) where
    view-execute :
        (a : A) (v : ℕ) (s : S)
        → view (execute z d serializer store threshold none now clock c a v s).store k ≡ view s k
    unfolding execute
    view-execute a v s = elim (Result-cases (check_command d c a)) [
      | inl (emit, checked) ↦
          elim (Result-cases (run_evaluate z d serializer store threshold c a)) [
            | inl (u, passed) ↦
                rw (checked, execute)
                  (rw (passed, execute)
                    (view-persist now (emit clock a) a v s (own a emit checked)))
            | inr (e, failed) ↦ rw (checked, execute) (rw (failed, execute))
          ]
      | inr (e, failed) ↦ rw (failed, execute)
    ]

    -- In a store that is a log, with or without `LoadTail`, for a command whose events are of its own aggregate: whether it is
    -- applied, skipped, rejected or fails, in a live context or a dead one, the history under every
    -- key but that of the aggregate stays as it was.
    pub apply_isolated :
        (ctx : Context) (s : S)
        → d.command_id c ≡ id
        → view (apply z d serializer store threshold ctx now clock (some c) s).store k ≡ view s k
    unfolding apply
    apply_isolated (some e) s named = elim (Bool-cases (str_eq (d.command_id c) "")) [
      | inl empty ↦ rw empty
      | inr given ↦ rw given
    ]
    apply_isolated none s named = elim (Bool-cases (str_eq (d.command_id c) "")) [
      | inl empty ↦ rw empty
      | inr given ↦
          let (r, s1) = load_aggregate_version z d serializer store threshold none id s in
          let (a, v) = or_new z d serializer store threshold r in
          rw given (rw named (view-execute a v s1 ∙ load_view s))
    ]
