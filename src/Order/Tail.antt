-- ===== src/Order/Tail.antt =====
-- Loading an order from the last fifty events of its history (`loadHistory` with a
-- SnapshotTailStore) gives what the whole history gives.
use protosource.Prelude.{
  ℕ, ◌==◌, ◌≢◌, ◌+◌, ◌-◌, ◌%◌, ◌≤◌, ◌<◌, ◌≡◌, refl, sym, ap, ◌∙◌, inl, inr, true, false, Option,
  some, List, [], ◌∷◌, ◌++◌, arith, append_assoc, All, All-append, length, drop, take_last,
  length-append, drop-append_le, add64, two63, is_multiple64,
}
use protosource.Order.Types.{Order, Event, Command, snapshot, zero_order}
use protosource.Order.Aggregate.{after_on}
use protosource.Order.Commands.{emit_events, snapshot_every_n_events}
use protosource.Order.Emit.{first_event, snapshot_event, after_first, emit_events_cases}
use protosource.Order.Replay.{IsOwn, next, run, run-append, run_from_snapshot, version-next}

-- The aggregate that `Apply` works on: a fresh one without events, and otherwise the replay with
-- its derived fields.
unfoldable pub current : List Event → Order
current [] = zero_order
current (e ∷ es) = after_on (run (e ∷ es) zero_order)

-- What a SnapshotTailStore hands to an order.
abbrev pub tail_of : List Event → List Event
tail_of es = take_last snapshot_every_n_events es

-- The histories that commands build, each on the aggregate loaded from the tail. The versions stay
-- within int64.
pub data Logged : List Event → Type 0 where
  start : Logged []
  emitted :
      {es : List Event} (c : Command) (clock : ℕ → ℕ)
      → Logged es
      → length es + 2 < two63
      → Logged (es ++ emit_events c clock (current (tail_of es)))

-- Either there are fewer than fifty events, or a snapshot stands after a multiple of fifty, with
-- fewer than forty-nine events behind it.
pub data Covered : List Event → Type 0 where
  short : {es : List Event} → length es < 50 → Covered es
  covered :
      (pre : List Event) (s : Event) (shot : Option Order) (post : List Event)
      → s.body ≡ snapshot shot
      → length pre % 50 ≡ 0
      → length post < 49
      → Covered (pre ++ s ∷ post)

event_of-IsOwn : (c : Command) (clock : ℕ → ℕ) (a : Order) → IsOwn (first_event c clock a)
unfolding first_event
event_of-IsOwn c clock a = ground arith

snapshot_event-IsOwn : (c : Command) (clock : ℕ → ℕ) (a : Order) → IsOwn (snapshot_event c clock a)
unfolding snapshot_event
snapshot_event-IsOwn c clock a = cc

emit_events-IsOwn : (c : Command) (clock : ℕ → ℕ) (a : Order) → All IsOwn (emit_events c clock a)
emit_events-IsOwn c clock a = elim (emit_events_cases c clock a) [
  | inl (_, e) ↦ rw e (event_of-IsOwn c clock a, tt)
  | inr (_, e) ↦ rw e (event_of-IsOwn c clock a, (snapshot_event-IsOwn c clock a, tt))
]

pub Logged-IsOwn : {es : List Event} → Logged es → All IsOwn es
Logged-IsOwn start = tt
Logged-IsOwn (emitted {es} c clock l room) =
    All-append IsOwn es _ (Logged-IsOwn l) (emit_events-IsOwn c clock _)

current_lem : (es : List Event) → current es ≡ after_on (run es zero_order)
unfolding current run after_on
current_lem [] = refl
current_lem (e ∷ es) = refl

run-tail_of : (es : List Event) → Covered es → run (tail_of es) zero_order ≡ run es zero_order
run-tail_of es (short few) = let none' : length es - 50 ≡ 0 = omega arith in rw none'
run-tail_of es (covered pre s shot post body whole few) =
    let n = length (pre ++ s ∷ post) - 50 in
    let small : n ≤ length pre = omega (arith, length-append pre (s ∷ post)) in
    rw (drop-append_le n pre (s ∷ post) small)
      (run_from_snapshot s shot (drop n pre) pre post zero_order zero_order body)

-- The tail of a covered history gives the same aggregate as the whole.
current-tail_of : (es : List Event) → Covered es → current (tail_of es) ≡ current es
current-tail_of es h =
    current_lem (tail_of es) ∙ ap after_on (run-tail_of es h) ∙ sym (current_lem es)

Covered-snoc :
    (e : Event) {es : List Event} → Covered es → (length es + 1) % 50 ≢ 0 → Covered (es ++ e ∷ [])
Covered-snoc e {es} (short few) h = short (omega (arith, length-append es (e ∷ [])))
Covered-snoc e (covered pre s shot post body whole few) h = rw append_assoc (
    covered pre s shot (post ++ e ∷ []) body whole
      (omega (arith, length-append pre (s ∷ post), length-append post (e ∷ []))))

Covered-snapshot :
    (e s : Event) (shot : Option Order) (es : List Event)
    → s.body ≡ snapshot shot
    → (length es + 1) % 50 ≡ 0
    → Covered (es ++ e ∷ s ∷ [])
Covered-snapshot e s shot es body h =
    rw append_assoc at (
      covered (es ++ e ∷ []) s shot [] body (omega (arith, length-append es (e ∷ [])))
        (omega arith))

is_multiple_lem :
    (v n : ℕ) → v ≡ n → n + 2 < two63 → is_multiple64 (add64 v 1) 50 ≡ ((n + 1) % 50 == 0)
is_multiple_lem v n h room = ground arith

-- What is known of a logged history: it is covered, and the versions count its events.
record IsSound (es : List Event) : Type 0 where
  cover : Covered es
  counted : (run es zero_order).version ≡ length es

version-current : (es : List Event) → (current es).version ≡ (run es zero_order).version
unfolding after_on
version-current es = ap (λ a. a.version) (current_lem es)

version-run_one :
    (es : List Event) (e : Event) (a : Order) → IsOwn e → (run (es ++ e ∷ []) a).version ≡ e.version
unfolding run
version-run_one es e a own =
    ap (λ b. b.version) (run-append es (e ∷ []) a) ∙ version-next e (run es a) own

version-run_two :
    (es : List Event) (e s : Event) (a : Order)
    → IsOwn s
    → (run (es ++ e ∷ s ∷ []) a).version ≡ s.version
unfolding run
version-run_two es e s a own =
    ap (λ b. b.version) (run-append es (e ∷ s ∷ []) a) ∙ version-next s (next e (run es a)) own

module _ (c : Command) (clock : ℕ → ℕ) (a : Order) (es : List Event) (v : a.version ≡ length es)
    (room : length es + 2 < two63) where
  IsSound-first :
      IsSound es
      → is_multiple64 (add64 a.version 1) 50 ≡ false
      → IsSound (es ++ first_event c clock a ∷ [])
  unfolding first_event
  IsSound-first sound test = record {
    cover =
        Covered-snoc _ sound.cover (ground (arith, is_multiple_lem a.version (length es) v room));
    counted = omega (
      arith,
      version-run_one es (first_event c clock a) zero_order (event_of-IsOwn c clock a),
      length-append es (first_event c clock a ∷ []),
    );
  }

  IsSound-second :
      is_multiple64 (add64 a.version 1) 50 ≡ true
      → IsSound (es ++ first_event c clock a ∷ snapshot_event c clock a ∷ [])
  unfolding snapshot_event
  IsSound-second test = record {
    cover =
        Covered-snapshot (first_event c clock a) (snapshot_event c clock a)
          (some (after_on (after_first c clock a))) es refl
          (ground (arith, is_multiple_lem a.version (length es) v room));
    counted = omega (
      arith,
      version-run_two es (first_event c clock a) (snapshot_event c clock a) zero_order
          (snapshot_event-IsOwn c clock a),
      length-append es (first_event c clock a ∷ snapshot_event c clock a ∷ []),
    );
  }

  -- One command more, on an aggregate at the version that the history has reached.
  IsSound-emit : IsSound es → IsSound (es ++ emit_events c clock a)
  IsSound-emit sound = elim (emit_events_cases c clock a) [
    | inl (test, e) ↦ rw e (IsSound-first sound test)
    | inr (test, e) ↦ rw e (IsSound-second test)
  ]

Logged-IsSound : {es : List Event} → Logged es → IsSound es
unfolding run
Logged-IsSound start = record { cover = short (omega arith); counted = refl }
Logged-IsSound (emitted {es} c clock l room) =
    let sound = Logged-IsSound l in
    IsSound-emit c clock (current (tail_of es)) es
      (ap (λ a. a.version) (current-tail_of es sound.cover) ∙ version-current es ∙ sound.counted)
      room sound

-- For every history that commands have built, the aggregate loaded from its last fifty events is
-- the aggregate that the whole history gives.
pub current-tail_of-Logged : {es : List Event} → Logged es → current (tail_of es) ≡ current es
current-tail_of-Logged l = current-tail_of _ (Logged-IsSound l).cover

pub run-tail_of-Logged :
    {es : List Event} → Logged es → run (tail_of es) zero_order ≡ run es zero_order
run-tail_of-Logged l = run-tail_of _ (Logged-IsSound l).cover

-- The version of the aggregate loaded from the tail is the number of events stored, snapshots
-- included.
pub version-current_of_Logged :
    {es : List Event} → Logged es → (current (tail_of es)).version ≡ length es
version-current_of_Logged {es} l =
    ap (λ a. a.version) (current-tail_of-Logged l) ∙ version-current es ∙ (Logged-IsSound l).counted
