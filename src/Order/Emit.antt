-- ===== src/Order/Emit.antt =====
-- What `EmitEvents` produces: consecutive versions, and a snapshot after every fiftieth event.
use protosource.Prelude.{
  ℕ, ◌≡◌, true, false, ◌⊎◌, inl, inr, some, [], ◌∷◌, add64, is_multiple64, Bool-cases,
}
use protosource.Order.Types.{Order, Event, Command, snapshot}
use protosource.Order.Aggregate.{on, after_on}
use protosource.Order.Commands.{emit_events, event_of, or_unchanged}

-- The event that a command adds to an aggregate.
unfoldable pub first_event : Command → (ℕ → ℕ) → Order → Event
unfolding event_of
first_event c clock a = record {
  id = c.id;
  version = add64 a.version 1;
  at = clock 0;
  actor = c.actor;
  body = event_of c.body;
}

-- The aggregate after that event.
unfoldable pub after_first : Command → (ℕ → ℕ) → Order → Order
unfolding on first_event
after_first c clock a = or_unchanged a (on (first_event c clock a) a)

unfoldable pub snapshot_event : Command → (ℕ → ℕ) → Order → Event
unfolding after_first
snapshot_event c clock a = record {
  id = c.id;
  version = add64 (add64 a.version 1) 1;
  at = clock 1;
  actor = "snapshot@system";
  body = snapshot (some (after_on (after_first c clock a)));
}

-- A command emits one event, or that event and a snapshot.
pub emit_events_cases :
    (c : Command) (clock : ℕ → ℕ) (a : Order)
    → ((is_multiple64 (add64 a.version 1) 50 ≡ false)
        × (emit_events c clock a ≡ first_event c clock a ∷ []))
      ⊎ ((is_multiple64 (add64 a.version 1) 50 ≡ true)
          × (emit_events c clock a ≡ first_event c clock a ∷ snapshot_event c clock a ∷ []))
unfolding emit_events first_event snapshot_event
emit_events_cases c clock a = elim (Bool-cases (is_multiple64 (add64 a.version 1) 50)) [
  | inl yes' ↦ inr (yes', rw (yes', emit_events))
  | inr no' ↦ inl (no', rw (no', emit_events))
]
