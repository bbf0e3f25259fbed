-- ===== src/Order/TailLoad.antt =====
-- The tail of an order's history, in the repository's terms: what `loadAggregateVersion` makes of
-- the last fifty events is what it makes of all of them.
use mathlib.Core.Path.{ap₂}
use protosource.Prelude.{
  ℕ, String, ◌++◌, none, inl, inr, Option-cases, ◌≡◌, refl, sym, ap, ◌∙◌, List, [], ◌∷◌, All,
  All-drop, length, ◌-◌,
}
use protosource.Error.{Result, ok}
use protosource.Repository.Base.{last_version}
use protosource.Repository.Commit.{state_of, load_lem}
use protosource.Repository.Run.{load}
use protosource.Repository.Types.{History, Store, Serializer}
use protosource.Repository.Log.{IsLog, Holds, window, loaded_part}
use protosource.Compress.{Gzip}
use protosource.Order.Types.{Order, Event, Command, Document, zero_order}
use protosource.Order.Commands.{order_domain}
use protosource.Order.Replay.{IsOwn, next, run, version-next, fold_on-run}
use protosource.Order.Tail.{
  Logged, Logged-IsOwn, tail_of, current, current-tail_of-Logged, run-tail_of-Logged,
}

module _ (validate : Command → Result (Unit {0})) where
  last_version-run :
      (es : List Event) (a : Order)
      → All IsOwn es
      → last_version (order_domain validate) es a.version ≡ (run es a).version
  unfolding last_version run
  last_version-run [] a own = refl
  last_version-run (e ∷ es) a (o, own) =
      ap (last_version (order_domain validate) es) (sym (version-next e a o))
      ∙ last_version-run es (next e a) own

  -- What the repository makes of own events: their replay, and its version.
  pub state_of-own :
      (es : List Event)
      → All IsOwn es
      → state_of (order_domain validate) es ≡ ok (current es, (run es zero_order).version)
  unfolding state_of current
  state_of-own [] own = unfold run in refl
  state_of-own (e ∷ es) own =
      rw (fold_on-run validate (e ∷ es) zero_order own)
        (ap (λ v. ok (current (e ∷ es), v)) (last_version-run (e ∷ es) zero_order own))

  -- For every history that commands have built, the repository gets the same aggregate and the same
  -- version from the last fifty events as from all of them.
  pub state_of-tail_of :
      {es : List Event}
      → Logged es
      → state_of (order_domain validate) (tail_of es) ≡ state_of (order_domain validate) es
  state_of-tail_of {es} l =
      state_of-own (tail_of es) (All-drop IsOwn (length es - 50) es (Logged-IsOwn l))
      ∙ ap₂ (λ a v. ok (a, v)) (current-tail_of-Logged l)
          (ap (λ a. a.version) (run-tail_of-Logged l))
      ∙ sym (state_of-own es (Logged-IsOwn l))

  -- So does whatever part of such a history a load reads, from any store.
  pub state_of-loaded_part :
      {S : Type 0} (store : Store S Document) {es : List Event}
      → Logged es
      → state_of (order_domain validate) (loaded_part (order_domain validate) store es)
        ≡ state_of (order_domain validate) es
  unfolding window
  state_of-loaded_part store l = elim (Option-cases store.load_tail) [
    | inl no_tail ↦ rw (no_tail, window) refl
    | inr (tail, has) ↦ rw (has, window) (state_of-tail_of l)
  ]

  -- In a live context, over any store that is a log, with or without `LoadTail`: for a history of an
  -- order that commands have built, and that has events, `Load` gives the aggregate that replaying the
  -- whole history gives.
  pub load-current :
      (z : Gzip) {S : Type 0} (serializer : Serializer Event) (store : Store S Document)
      (threshold : ℕ) (view : S → String → History) (log : IsLog store view) (id : String)
      (es : List Event) (f : Event) (fs : List Event) (s : S)
      → Logged (es ++ f ∷ fs)
      → Holds z (order_domain validate) serializer store threshold view log s id (es ++ f ∷ fs)
      → (load z (order_domain validate) serializer store threshold none id s).0
        ≡ ok (current (es ++ f ∷ fs))
  load-current z serializer store threshold view log id es f fs s l held =
      load_lem z (order_domain validate) serializer store threshold view log id es f fs s
        (current (es ++ f ∷ fs)) (run (es ++ f ∷ fs) zero_order).version held
        (state_of-own (es ++ f ∷ fs) (Logged-IsOwn l)) (state_of-loaded_part store l)
