-- ===== src/Order/Progress.antt =====
-- What is always possible for an order: `Cancel`.
use protosource.Prelude.{ℕ, String, ◌≡◌, ◌≢◌, refl, ◌⊎◌, inl, inr, arith}
use protosource.Error.{Result, ok}
use protosource.Repository.Base.{check_command}
use protosource.Order.Types.{Order, Command, CommandBody, State, create, place, cancel}
use protosource.Order.Aggregate.{after_on}
use protosource.Order.Commands.{order_domain, emit_events}
use protosource.Order.Machine.{
  IsAllowed, state_after, after_events, check_command_iff, state-after_events, Reachable, fresh,
  next, IsInUse, Reachable-IsInUse,
}

abbrev IsNamed : Order → Type 0
IsNamed a = (a.version ≡ 0) ⊎ (a.state ≢ State.unspecified)

state_after_named :
    (b : CommandBody) (a : Order)
    → IsAllowed b a
    → IsNamed a
    → state_after b a.state ≢ State.unspecified
state_after_named (create x y) a legal named e = cc
state_after_named (place t) a legal named e = cc
state_after_named (cancel r) a legal named e = cc
state_after_named _ a legal named e = ground arith

-- An order that exists has a state.
Reachable-IsNamed : {a : Order} → Reachable a → IsNamed a
unfolding after_on
Reachable-IsNamed fresh = inl refl
Reachable-IsNamed (next {a} c clock r legal) =
    inr (rw (state-after_events c clock a) (state_after_named c.body a legal (Reachable-IsNamed r)))

-- A state that some command leads to, and that is not the last one, is one that Cancel allows.
cancellable :
    (s : State)
    → IsInUse s
    → s ≢ State.unspecified
    → s ≢ State.cancelled
    → (s ≡ State.draft) ⊎ ((s ≡ State.placed) ⊎ (s ≡ State.paid))
cancellable State.draft h named live = inl refl
cancellable State.placed h named live = inr (inl refl)
cancellable State.unspecified h named live = absurd (named refl)
cancellable State.cancelled h named live = absurd (live refl)
cancellable _ h named live = absurd h

-- No order is stuck: one that exists and is not cancelled, however legal commands built it, is ready
-- for a Cancel that protovalidate accepts, which passes every check of Apply, and whose events, a
-- snapshot included where there is one, leave it cancelled.
pub check_command-cancel :
    (validate : Command → Result (Unit {0})) (c : Command) (clock : ℕ → ℕ) {a : Order}
    (reason : String)
    → Reachable a
    → a.version ≢ 0
    → a.state ≢ State.cancelled
    → c.body ≡ cancel reason
    → validate c ≡ ok tt
    → (check_command (order_domain validate) c a ≡ ok (emit_events c))
      × ((after_on (after_events c clock a)).state ≡ State.cancelled)
unfolding after_on
check_command-cancel validate c clock {a} reason built exists live body accepted =
    let named : a.state ≢ State.unspecified =
      λ e. ground (arith, Reachable-IsNamed built, exists) in
    let ready = cancellable a.state (Reachable-IsInUse built) named live in
    let legal : IsAllowed c.body a = rw body (exists, ready) in
    (
      (check_command_iff validate c a).1 (accepted, legal),
      rw (state-after_events c clock a) (rw body refl),
    )
