-- ===== src/Order/Commands.antt =====
-- The command methods of order_v1.protosource.pb.go and order_evaluators.go, the `Builder` of
-- events, and the aggregate as the repository's `Domain`. Protovalidate is a parameter.
use protosource.Prelude.{
  ℕ, String, Option, none, some, List, [], ◌∷◌, ◌++◌, length, ◌==◌, add64, is_multiple64, is_some,
  if◌then◌else◌,
}
use protosource.Prelude.Dict.{lookup}
use protosource.Error.{
  Error, Result, ok, err, sentinel, wrap, wrap_two, other, already_created, not_created_yet,
  state_not_allowed, validation_failed, skip,
}
use protosource.Repository.Types.{Domain}
use protosource.Order.Types.{
  Order, Document, LineItem, State, Event, EventBody, Command, CommandBody, zero_order,
  order_document, created, item_added, item_removed, tag_added, tag_removed, shipping_set,
  billing_set, billing_cleared, order_placed, order_cancelled, snapshot, create, add_item,
  remove_item, add_tag, remove_tag, set_shipping, set_billing, clear_billing, place, cancel,
}
use protosource.Order.Aggregate.{on, after_on, projections}

-- `SnapshotEveryNEvents`
abbrev pub snapshot_every_n_events : ℕ
snapshot_every_n_events = 50

pub record Builder : Type 0 where
  pub id : String
  pub version : ℕ
  pub events : List Event

-- The builder's methods `Created`, `ItemAdded`, ...: one more event, at the next version. The clock
-- is read once for each event.
unfoldable pub push : (ℕ → ℕ) → String → EventBody → Builder → Builder
push clock actor body b =
    let next = add64 b.version 1 in
    record b {
      version = next;
      events =
          b.events
          ++ record {
            id = b.id;
            version = next;
            at = clock (length b.events);
            actor = actor;
            body = body;
          }
            ∷ [];
    }

-- `Builder.Snapshot`
unfoldable pub push_snapshot : (ℕ → ℕ) → Order → Builder → Builder
unfolding push
push_snapshot clock a b =
    if is_multiple64 b.version snapshot_every_n_events
    then push clock "snapshot@system" (snapshot (some (after_on a))) b
    else b

-- The event that a command produces.
unfoldable pub event_of : CommandBody → EventBody
event_of (create customer_id customer_name) = created customer_id customer_name
event_of (add_item item) = item_added item
event_of (remove_item item_id) = item_removed item_id
event_of (add_tag tag) = tag_added tag
event_of (remove_tag key) = tag_removed key
event_of (set_shipping address) = shipping_set address
event_of (set_billing billing) = billing_set billing
event_of clear_billing = billing_cleared none
event_of (place placed_at) = order_placed placed_at
event_of (cancel reason) = order_cancelled reason

-- `_ = a.On(event)`
abbrev pub or_unchanged : Order → Result Order → Order
or_unchanged a (ok a') = a'
or_unchanged a (err e) = a

-- `a.On(b.Events[len(b.Events)-1])`
abbrev pub on_last : List Event → Order → Order
on_last [] a = a
on_last (e ∷ []) a = or_unchanged a (on e a)
on_last (e ∷ f ∷ es) a = on_last (f ∷ es) a

-- `EmitEvents`
unfoldable pub emit_events : Command → (ℕ → ℕ) → Order → List Event
unfolding push push_snapshot event_of
emit_events c clock a =
    let b =
      push clock c.actor (event_of c.body)
        (record { id = c.id; version = a.version; events = [] }) in
    (push_snapshot clock (on_last b.events a) b).events

-- `ValidateVersion`
unfoldable pub validate_version : CommandBody → ℕ → Result (Unit {0})
validate_version (create _ _) version =
    if version == 0 then ok tt else err (wrap "requires a new aggregate" (sentinel already_created))
validate_version _ version =
    if version == 0
    then err (wrap "requires an existing aggregate" (sentinel not_created_yet))
    else ok tt

abbrev pub not_allowed : Result (Unit {0})
not_allowed = err (wrap "not allowed in state" (sentinel state_not_allowed))

abbrev pub draft_only : State → Result (Unit {0})
draft_only State.draft = ok tt
draft_only _ = not_allowed

abbrev pub cancel_states : State → Result (Unit {0})
cancel_states State.draft = ok tt
cancel_states State.placed = ok tt
cancel_states State.paid = ok tt
cancel_states _ = not_allowed

-- `GuardState`, where the command has it.
unfoldable pub guard_state : CommandBody → Option (Order → Result (Unit {0}))
guard_state (create _ _) = none
guard_state (set_billing _) = none
guard_state clear_billing = none
guard_state (cancel _) = some (λ a. cancel_states a.state)
guard_state _ = some (λ a. draft_only a.state)

-- `c.GetItem().GetItemId()`
abbrev pub item_id_of : Option LineItem → String
item_id_of none = ""
item_id_of (some item) = item.item_id

abbrev pub item_already_present : Error
item_already_present = other "order: item already present"

-- `Evaluate`, where the command has it.
unfoldable pub evaluate : CommandBody → Option (Order → Result (Unit {0}))
evaluate (add_item item) = some (λ a.
    if is_some (lookup (item_id_of item) a.items)
    then err (wrap "%w" item_already_present)
    else ok tt)
evaluate (remove_item item_id) =
    some (λ a. if is_some (lookup item_id a.items) then ok tt else err (sentinel skip))
evaluate _ = none

-- `ProtoValidate`: the answer of protovalidate, wrapped.
abbrev pub proto_validate : Result (Unit {0}) → Result (Unit {0})
proto_validate (ok _) = ok tt
proto_validate (err e) = err (wrap_two "command" (sentinel validation_failed) e)

-- The aggregate and its commands, as the repository sees them.
abbrev pub order_domain : (Command → Result (Unit {0})) → Domain Order Event Command Document
order_domain validate = record {
  proto_package = "example.app.order.v1";
  fresh = zero_order;
  on = on;
  get_version = λ a. a.version;
  message = order_document;
  after_on = some after_on;
  snapshot_interval = some snapshot_every_n_events;
  event_ttl_seconds = none;
  projections = some projections;
  event_id = λ e. e.id;
  event_version = λ e. e.version;
  command_id = λ c. c.id;
  validate_version = λ c. some (validate_version c.body);
  proto_validate = λ c. some (proto_validate (validate c));
  guard_state = λ c. guard_state c.body;
  evaluate = λ c. evaluate c.body;
  emit_events = λ c. some (emit_events c);
}
