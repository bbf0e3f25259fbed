-- ===== src/Order/Replay.antt =====
-- Replaying the events of an order: events of the package never fail, each leaves its version
-- behind, and a snapshot forgets what was there before.
use protosource.Prelude.{◌≡◌, ◌≢◌, refl, Option, List, [], ◌∷◌, ◌++◌, All, ap, ◌∙◌, sym}
use protosource.Error.{Result, ok}
use protosource.Repository.Base.{fold_on}
use protosource.Order.Types.{Order, Event, EventBody, Command, snapshot, foreign}
use protosource.Order.Aggregate.{on, on_body}
use protosource.Order.Commands.{order_domain, or_unchanged}

-- An event of this package.
abbrev pub IsOwn : Event → Type 0
IsOwn e = e.body ≢ foreign

-- What `On` makes of an aggregate, if it does not fail.
unfoldable pub next : Event → Order → Order
unfolding on
next e a = or_unchanged a (on e a)

on_body_total :
    (x : EventBody) (e : Event) (a b : Order)
    → x ≢ foreign
    → on_body x e a ≡ ok (or_unchanged b (on_body x e a))
unfolding on_body
on_body_total foreign e a b own = absurd (own refl)
on_body_total _ e a b own = refl

version-on_body :
    (x : EventBody) (e : Event) (a b : Order)
    → x ≢ foreign
    → a.version ≡ e.version
    → (or_unchanged b (on_body x e a)).version ≡ e.version
unfolding on_body
version-on_body foreign e a b own h = absurd (own refl)
version-on_body (snapshot shot) e a b own h = refl
version-on_body _ e a b own h = h

pub on_total : (e : Event) (a : Order) → IsOwn e → on e a ≡ ok (next e a)
unfolding next
on_total e a own = on_body_total e.body e _ a own

pub version-next : (e : Event) (a : Order) → IsOwn e → (next e a).version ≡ e.version
unfolding next
version-next e a own = version-on_body e.body e _ a own refl

-- A snapshot leaves nothing of the aggregate that it is applied to.
pub next_forgets :
    (e : Event) (shot : Option Order) (a b : Order) → e.body ≡ snapshot shot → next e a ≡ next e b
unfolding next
next_forgets e shot a b h = rw h

-- The fold over a list of events of this package.
unfoldable pub run : List Event → Order → Order
run [] a = a
run (e ∷ es) a = run es (next e a)

pub run-append : (es fs : List Event) (a : Order) → run (es ++ fs) a ≡ run fs (run es a)
unfolding run
run-append [] fs a = refl
run-append (e ∷ es) fs a = run-append es fs (next e a)

-- Two replays that meet a common snapshot end alike.
pub run_from_snapshot :
    (s : Event) (shot : Option Order) (es fs post : List Event) (a b : Order)
    → s.body ≡ snapshot shot
    → run (es ++ s ∷ post) a ≡ run (fs ++ s ∷ post) b
unfolding run
run_from_snapshot s shot es fs post a b h =
    run-append es (s ∷ post) a
    ∙ ap (run post) (next_forgets s shot (run es a) (run fs b) h)
    ∙ sym (run-append fs (s ∷ post) b)

module _ (validate : Command → Result (Unit {0})) where
  pub fold_on-run :
      (es : List Event) (a : Order)
      → All IsOwn es
      → fold_on (order_domain validate) es a ≡ ok (run es a)
  unfolding fold_on run
  fold_on-run [] a own = refl
  fold_on-run (e ∷ es) a (o, own) = rw (on_total e a o) (fold_on-run es (next e a) own)
