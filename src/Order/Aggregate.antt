-- ===== src/Order/Aggregate.antt =====
-- The methods of `*Order` in order_v1.protosource.pb.go and order_derived.go.
use protosource.Prelude.{
  ℕ, ◌%◌, Option, none, some, List, [], ◌∷◌, length, add64, mul64, extend32, two32,
}
use protosource.Prelude.Dict.{Dict, insert, erase}
use protosource.Error.{Result, ok, err, sentinel, wrap, unhandled_event}
use protosource.Order.Types.{
  Order, OrderSummary, Document, LineItem, Tag, Event, EventBody, State, zero_order,
  summary_document, created, item_added, item_removed, tag_added, tag_removed, shipping_set,
  billing_set, billing_cleared, order_placed, order_cancelled, snapshot, foreign,
}

set_created : Event → Order → Order
set_created e a = record a { create_at = e.at; create_by = e.actor }

set_modified : Event → Order → Order
set_modified e a = record a { modify_at = e.at; modify_by = e.actor }

abbrev pub get_snapshot : Option Order → Order
get_snapshot none = zero_order
get_snapshot (some a) = a

-- `RestoreSnapshot`: every field but the id comes from the snapshot, the version from its event.
unfoldable pub restore_snapshot : ℕ → Option Order → Order → Order
restore_snapshot version shot a =
    let s = get_snapshot shot in
    record {
      id = a.id;
      version = version;
      state = s.state;
      customer_id = s.customer_id;
      customer_name = s.customer_name;
      create_at = s.create_at;
      create_by = s.create_by;
      modify_at = s.modify_at;
      modify_by = s.modify_by;
      total_cents = s.total_cents;
      item_count = s.item_count;
      shipping_address = s.shipping_address;
      placed_at = s.placed_at;
      items = s.items;
      tags = s.tags;
      billing = s.billing;
    }

add_element : Option LineItem → Dict LineItem → Dict LineItem
add_element none items = items
add_element (some item) items = insert item.item_id item items

add_tag_element : Option Tag → Dict Tag → Dict Tag
add_tag_element none tags = tags
add_tag_element (some tag) tags = insert tag.key tag tags

-- The switch of `On`.
unfoldable pub on_body : EventBody → Event → Order → Result Order
unfolding set_created set_modified restore_snapshot add_element add_tag_element
on_body (created customer_id customer_name) e a = ok (record (set_modified e (set_created e a)) {
  customer_id = customer_id;
  customer_name = customer_name;
  state = State.draft;
})
on_body (item_added item) e a = ok (record (set_modified e a) { items = add_element item a.items })
on_body (item_removed id) e a = ok (record (set_modified e a) { items = erase id a.items })
on_body (tag_added tag) e a = ok (record (set_modified e a) { tags = add_tag_element tag a.tags })
on_body (tag_removed key) e a = ok (record (set_modified e a) { tags = erase key a.tags })
on_body (shipping_set address) e a = ok (record (set_modified e a) { shipping_address = address })
on_body (billing_set billing) e a = ok (record (set_modified e a) { billing = billing })
on_body (billing_cleared billing) e a = ok (record (set_modified e a) { billing = billing })
on_body (order_placed placed_at) e a =
    ok (record (set_modified e a) { placed_at = placed_at; state = State.placed })
on_body (order_cancelled reason) e a = ok (record (set_modified e a) { state = State.cancelled })
on_body (snapshot shot) e a = ok (restore_snapshot e.version shot a)
on_body foreign e a = err (wrap "%T" (sentinel unhandled_event))

-- `On`
unfoldable pub on : Event → Order → Result Order
unfolding on_body
on e a = on_body e.body e (record a { id = e.id; version = e.version })

-- The sum of `AfterOn`, in the order of the iteration.
unfoldable pub total_from : ℕ → Dict LineItem → ℕ
total_from total [] = total
total_from total ((key, item) ∷ items) =
    total_from (add64 total (mul64 item.price_cents (extend32 item.quantity))) items

-- `AfterOn`
unfoldable pub after_on : Order → Order
unfolding total_from
after_on a = record a { item_count = length a.items % two32; total_cents = total_from 0 a.items }

-- `ProjectOrderSummary`
unfoldable pub project_order_summary : Order → OrderSummary
project_order_summary a = record {
  id = a.id;
  state = a.state;
  customer_id = a.customer_id;
  customer_name = a.customer_name;
  total_cents = a.total_cents;
  item_count = a.item_count;
  placed_at = a.placed_at;
  create_at = a.create_at;
}

-- `Projections`
unfoldable pub projections : Order → List Document
unfolding project_order_summary
projections a = summary_document (project_order_summary a) ∷ []
