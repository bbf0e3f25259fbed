-- ===== src/Order/Machine.antt =====
-- The state machine of an order: which commands pass their checks in which state, and what becomes
-- of the state.
use protosource.Prelude.{ℕ, ◌≡◌, ◌≢◌, refl, ◌⊎◌, ◌↔◌, inl, inr, arith}
use protosource.Error.{Result, ok, err, ◌>>◌}
use protosource.Repository.Base.{check_command, run_check}
use protosource.Order.Types.{
  Order, Event, zero_order, Command, CommandBody, State, create, set_billing, clear_billing, place,
  cancel,
}
use protosource.Order.Aggregate.{on, on_body, restore_snapshot, after_on}
use protosource.Order.Commands.{
  order_domain, validate_version, guard_state, emit_events, proto_validate, or_unchanged, event_of,
}
use protosource.Order.Emit.{after_first, first_event, snapshot_event, emit_events_cases}
use protosource.Order.Replay.{next as next_event, run}

-- When a command is legal: a creation on a fresh aggregate, and any other on one that exists, in the
-- states of its `allowed_states` annotation (proto/example/app/order/v1).
abbrev pub IsAllowed : CommandBody → Order → Type 0
IsAllowed (create _ _) a = a.version ≡ 0
IsAllowed (set_billing _) a = a.version ≢ 0
IsAllowed clear_billing a = a.version ≢ 0
IsAllowed (cancel _) a =
    (a.version ≢ 0)
    × ((a.state ≡ State.draft) ⊎ ((a.state ≡ State.placed) ⊎ (a.state ≡ State.paid)))
IsAllowed _ a = (a.version ≢ 0) × (a.state ≡ State.draft)

-- The state that a command leads to.
abbrev pub state_after : CommandBody → State → State
state_after (create _ _) s = State.draft
state_after (place _) s = State.placed
state_after (cancel _) s = State.cancelled
state_after _ s = s

check_body :
    (b : CommandBody) (a : Order)
    → ((validate_version b a.version >> run_check (guard_state b) a) ≡ ok tt) ↔ IsAllowed b a
unfolding validate_version guard_state
check_body (create x y) a = ground arith
check_body _ a = ground arith

check_chain :
    {F : Type 0} (m : Result (Unit {0})) (p : Result (Unit {0})) (g : Result (Unit {0})) (f : F)
    → ((m >> (proto_validate p >> (g >> ok f))) ≡ ok f) ↔ ((p ≡ ok tt) × ((m >> g) ≡ ok tt))
check_chain (err e) (ok _) g f = ground arith
check_chain (err e) (err x) g f = ground arith
check_chain (ok _) (err x) g f = ground arith
check_chain (ok _) (ok _) (ok _) f = (λ e. (refl, refl), λ h. refl)
check_chain (ok _) (ok _) (err x) f = ground arith

-- The checks of `Apply` pass exactly when protovalidate accepts the command and the command is
-- legal on the aggregate.
pub check_command_iff :
    (validate : Command → Result (Unit {0})) (c : Command) (a : Order)
    → (check_command (order_domain validate) c a ≡ ok (emit_events c))
      ↔ ((validate c ≡ ok tt) × IsAllowed c.body a)
unfolding check_command
check_command_iff validate c a =
    let (to, from) =
      check_chain (validate_version c.body a.version) (validate c)
        (run_check (guard_state c.body) a) (emit_events c) in
    (
      λ e. ((to e).0, (check_body c.body a).0 (to e).1),
      λ (v, h). from (v, (check_body c.body a).1 h),
    )

-- The event of a command, on the aggregate.
state-body :
    (b : CommandBody) (e : Event) (a : Order)
    → (or_unchanged a (on_body (event_of b) e (record a { id = e.id; version = e.version }))).state
      ≡ state_after b a.state
unfolding on_body event_of
state-body (create x y) e a = refl
state-body _ e a = refl

state-after_first :
    (c : Command) (clock : ℕ → ℕ) (a : Order)
    → (after_first c clock a).state ≡ state_after c.body a.state
unfolding after_first
state-after_first c clock a = state-body c.body (first_event c clock a) a

-- The aggregate after all events of a command, the snapshot included where there is one.
unfoldable pub after_events : Command → (ℕ → ℕ) → Order → Order
after_events c clock a = run (emit_events c clock a) a

after_events-cases :
    (c : Command) (clock : ℕ → ℕ) (a : Order)
    → (after_events c clock a ≡ after_first c clock a)
      ⊎ (after_events c clock a ≡ next_event (snapshot_event c clock a) (after_first c clock a))
unfolding after_events run next_event after_first
after_events-cases c clock a = elim (emit_events_cases c clock a) [
  | inl (_, e) ↦ inl (rw e refl)
  | inr (_, e) ↦ inr (rw e refl)
]

pub state-after_events :
    (c : Command) (clock : ℕ → ℕ) (a : Order)
    → (after_events c clock a).state ≡ state_after c.body a.state
unfolding next_event snapshot_event on on_body restore_snapshot after_on
state-after_events c clock a = elim (after_events-cases c clock a) [
  | inl e ↦ rw e (state-after_first c clock a)
  | inr e ↦ rw e (state-after_first c clock a)
]

-- The aggregates that legal commands build, by all events that they emit.
pub data Reachable : Order → Type 0 where
  fresh : Reachable zero_order
  next :
      {a : Order} (c : Command) (clock : ℕ → ℕ)
      → Reachable a
      → IsAllowed c.body a
      → Reachable (after_on (after_events c clock a))

-- The states that some command leads to.
abbrev pub IsInUse : State → Type 0
IsInUse State.paid = ⊥
IsInUse State.shipped = ⊥
IsInUse State.delivered = ⊥
IsInUse _ = Unit

state_after-IsInUse : (b : CommandBody) (s : State) → IsInUse s → IsInUse (state_after b s)
state_after-IsInUse (create x y) s h = tt
state_after-IsInUse (place t) s h = tt
state_after-IsInUse (cancel r) s h = tt
state_after-IsInUse _ s h = h

-- No sequence of legal commands, begun on a new order, makes it paid, shipped or delivered, with the
-- snapshots among their events.
pub Reachable-IsInUse : {a : Order} → Reachable a → IsInUse a.state
unfolding after_on
Reachable-IsInUse fresh = tt
Reachable-IsInUse (next {a} c clock r legal) =
    rw (state-after_events c clock a) (state_after-IsInUse c.body a.state (Reachable-IsInUse r))

-- What a placed or cancelled order keeps: everything but the billing, the state, which stays or
-- becomes cancelled, and what every command brings: its id, the version, and who changed the order
-- last and when. The totals are those that `AfterOn` derives.
pub record IsFrozen (a b : Order) : Type 0 where
  pub items : b.items ≡ a.items
  pub tags : b.tags ≡ a.tags
  pub shipping_address : b.shipping_address ≡ a.shipping_address
  pub placed_at : b.placed_at ≡ a.placed_at
  pub customer_id : b.customer_id ≡ a.customer_id
  pub customer_name : b.customer_name ≡ a.customer_name
  pub created : (b.create_at ≡ a.create_at) × (b.create_by ≡ a.create_by)
  pub totals :
      ((after_on b).total_cents ≡ (after_on a).total_cents)
      × ((after_on b).item_count ≡ (after_on a).item_count)
  pub state : (b.state ≡ a.state) ⊎ (b.state ≡ State.cancelled)

IsFrozen-body :
    (b : CommandBody) (e : Event) (a : Order)
    → a.version ≢ 0
    → a.state ≢ State.draft
    → IsAllowed b a
    → IsFrozen a
        (or_unchanged a (on_body (event_of b) e (record a { id = e.id; version = e.version })))
unfolding on_body event_of after_on
IsFrozen-body (create x y) e a v s h = absurd (v h)
IsFrozen-body (set_billing x) e a v s h = ground arith
IsFrozen-body clear_billing e a v s h = ground arith
IsFrozen-body (cancel r) e a v s h = ground arith
IsFrozen-body _ e a v s h = absurd (s h.1)

-- A snapshot of the aggregate keeps what the aggregate had kept.
IsFrozen-snapshot :
    (c : Command) (clock : ℕ → ℕ) (a : Order)
    → IsFrozen a (after_first c clock a)
    → IsFrozen a (next_event (snapshot_event c clock a) (after_first c clock a))
unfolding next_event snapshot_event on on_body restore_snapshot after_on
IsFrozen-snapshot c clock a h = record {
  items = h.items;
  tags = h.tags;
  shipping_address = h.shipping_address;
  placed_at = h.placed_at;
  customer_id = h.customer_id;
  customer_name = h.customer_name;
  created = h.created;
  totals = h.totals;
  state = h.state;
}

-- A legal command on an order that exists and is no draft leaves its items, tags, address, totals,
-- customer and the dates of its creation and placing as they are, and its state too unless it cancels
-- the order, with or without a snapshot among its events.
pub after_events-IsFrozen :
    (c : Command) (clock : ℕ → ℕ) (a : Order)
    → a.version ≢ 0
    → a.state ≢ State.draft
    → IsAllowed c.body a
    → IsFrozen a (after_events c clock a)
unfolding after_first
after_events-IsFrozen c clock a v s h =
    let first : IsFrozen a (after_first c clock a) =
      IsFrozen-body c.body (first_event c clock a) a v s h in
    elim (after_events-cases c clock a) [
      | inl e ↦ rw e first
      | inr e ↦ rw e (IsFrozen-snapshot c clock a first)
    ]
