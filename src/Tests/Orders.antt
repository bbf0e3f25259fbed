-- ===== src/Tests/Orders.antt =====
-- Orders at concrete inputs.
use protosource.Prelude.{
  ℕ, ◌≡◌, ◌↔◌, refl, inl, inr, none, some, List, [], ◌∷◌, ◌++◌, arith, length,
}
use protosource.Error.{Result, ok}
use protosource.Repository.Base.{check_command, qualified_id, replace_dots}
use protosource.Repository.Commit.{state_of}
use protosource.Order.Types.{
  Order, Event, Command, LineItem, State, zero_order, created, create, add_item, cancel,
}
use protosource.Order.Aggregate.{on, after_on}
use protosource.Order.Replay.{run, next as next_event}
use protosource.Order.Commands.{order_domain, emit_events}
use protosource.Order.Tail.{Logged, start, emitted, current, tail_of, version-current_of_Logged}
use protosource.Order.TailLoad.{state_of-tail_of, load-current}
use protosource.Prelude.Dict.{lookup}
use protosource.Compress.{maybe_decompress, is_gzipped}
use protosource.Repository.Types.{Serializer}
use protosource.Repository.Run.{load}
use protosource.Repository.Log.{Holds}
use protosource.Store.Memory.{MemoryStore}
use protosource.Store.Memory.Laws.{view}
use protosource.Tests.Counter.{marker, record_of}
use protosource.Tests.Tailed.{tailed, tailed-IsLog}
use protosource.Order.Progress.{check_command-cancel}
use protosource.Order.Machine.{
  IsAllowed, after_events, fresh, next, IsInUse, Reachable-IsInUse, IsFrozen, after_events-IsFrozen,
  check_command_iff,
}
use protosource.Order.Totals.{after_on_lem}

abbrev accept : Command → Result (Unit {0})
accept c = ok tt

abbrev noon : ℕ → ℕ
noon n = 1000

abbrev opening : Command
opening = record { id = "o1"; actor = "ann"; body = create "c1" "Ann" }

abbrev mug : LineItem
mug = record { item_id = "mug"; description = "a mug"; price_cents = 950; quantity = 2 }

abbrev adding : Command
adding = record { id = "o1"; actor = "ann"; body = add_item (some mug) }

abbrev cancelling : Command
cancelling = record { id = "o1"; actor = "ann"; body = cancel "late" }

-- An order with two events.
abbrev events : List Event
events =
    ([] ++ emit_events opening noon (current (tail_of [])))
    ++ emit_events adding noon
        (current (tail_of ([] ++ emit_events opening noon (current (tail_of [])))))

first_length : length ([] ++ emit_events opening noon (current (tail_of []))) ≡ 1
unfolding emit_events current
first_length = refl

events-Logged : Logged events
events-Logged =
    emitted adding noon (emitted opening noon start (omega arith)) (omega (arith, first_length))

state_of-tail_of_example :
    state_of (order_domain accept) (tail_of events) ≡ state_of (order_domain accept) events
state_of-tail_of_example = state_of-tail_of accept events-Logged

version-current_of_Logged_example : (current (tail_of events)).version ≡ length events
version-current_of_Logged_example = version-current_of_Logged events-Logged

check_command_iff_example :
    (check_command (order_domain accept) adding zero_order ≡ ok (emit_events adding))
    ↔ ((accept adding ≡ ok tt) × IsAllowed adding.body zero_order)
check_command_iff_example = check_command_iff accept adding zero_order

Reachable-IsInUse_example : IsInUse (after_on (after_events opening noon zero_order)).state
Reachable-IsInUse_example = Reachable-IsInUse (next opening noon fresh refl)

abbrev placed_order : Order
placed_order = record zero_order {
  id = "o1";
  version = 3;
  state = State.placed;
  items = ("mug", mug) ∷ [];
}

after_events-IsFrozen_example : IsFrozen placed_order (after_events cancelling noon placed_order)
after_events-IsFrozen_example =
    after_events-IsFrozen cancelling noon placed_order (omega arith) (λ e. cc)
      (omega arith, inr (inl refl))

after_on_lem_example :
    ((after_on placed_order).total_cents ≡ 1900) × ((after_on placed_order).item_count ≡ 1)
after_on_lem_example = after_on_lem placed_order

-- The fiftieth event brings a snapshot with it.
fiftieth : length (emit_events adding noon (record placed_order { version = 49 })) ≡ 2
unfolding emit_events
fiftieth = refl

abbrev opened : Order
opened = after_on (after_events opening noon zero_order)

check_command-cancel_example :
    (check_command (order_domain accept) cancelling opened ≡ ok (emit_events cancelling))
    × ((after_on (after_events cancelling noon opened)).state ≡ State.cancelled)
unfolding after_on after_events run next_event on emit_events
check_command-cancel_example =
    check_command-cancel accept cancelling noon "late" (next opening noon fresh refl) (λ e. cc)
      (λ e. cc) refl refl

-- The event of the opening, in a store under the key of the order, and its record.
abbrev first : Event
first = record { id = "o1"; version = 1; at = 1000; actor = "ann"; body = created "c1" "Ann" }

abbrev desk : MemoryStore
desk = record { events = ("example_app_order_v1#o1", record_of 1 ∷ []) ∷ []; snapshot_interval = 0 }

abbrev reader : Serializer Event
reader = record { marshal_event = λ e. ok (record_of 1); unmarshal_event = λ r. ok first }

first-Logged : Logged ([] ++ first ∷ [])
unfolding emit_events current
first-Logged = emitted opening noon start (omega arith)

desk-Holds :
    Holds marker (order_domain accept) reader tailed 300 view tailed-IsLog desk "o1" (first ∷ [])
unfolding view qualified_id replace_dots lookup maybe_decompress is_gzipped
desk-Holds =
    (record { bytes = 1 ∷ []; unpacked = refl; plain = refl; decoded = refl; versioned = refl }, tt)

load-current_example :
    (load marker (order_domain accept) reader tailed 300 none "o1" desk).0
    ≡ ok (current ([] ++ first ∷ []))
load-current_example =
    load-current accept marker reader tailed 300 view tailed-IsLog "o1" [] first [] desk
      first-Logged desk-Holds
