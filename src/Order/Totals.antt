-- ===== src/Order/Totals.antt =====
-- `AfterOn`: the total of an order is the sum over its items, modulo 2 ^ 64, in whatever order Go's
-- map iterates.
use native.Mathlib.Nat.{ℕ_set}
use mathlib.Core.Logic.{∥∥₁_elim}
use mathlib.Core.List.{Perm, Permᴰ}
use protosource.Prelude.{
  ℕ, ◌+◌, ◌*◌, ◌%◌, ◌<◌, String, ◌≡◌, refl, ◌∙◌, ap, sym, none, [], ◌∷◌, arith, length, extend32,
  two64, two32, add64, mul64, eq_iff,
}
use protosource.Prelude.Dict.{Dict, lookup, insert}
use protosource.Order.Types.{Order, LineItem}
use protosource.Order.Aggregate.{total_from, after_on}

-- The price of a line times its quantity; the quantity is an int32, extended to 64 bits.
abbrev pub line_total : LineItem → ℕ
line_total item = item.price_cents * extend32 item.quantity

abbrev pub sum_of_lines : Dict LineItem → ℕ
sum_of_lines [] = 0
sum_of_lines ((key, item) ∷ items) = line_total item + sum_of_lines items

wrap_step : (t x s : ℕ) → ((t + x % two64) % two64 + s) % two64 ≡ (t + (x + s)) % two64
wrap_step t x s = omega arith

total_from_lem :
    (t : ℕ) (items : Dict LineItem)
    → t < two64
    → total_from t items ≡ (t + sum_of_lines items) % two64
unfolding total_from
total_from_lem t [] h = omega arith
total_from_lem t ((key, item) ∷ items) h =
    total_from_lem (add64 t (mul64 item.price_cents (extend32 item.quantity))) items (omega arith)
    ∙ wrap_step t (line_total item) (sum_of_lines items)

-- `AfterOn` computes the sum of the lines and their number, wrapped to the widths of the fields.
pub after_on_lem :
    (a : Order)
    → ((after_on a).total_cents ≡ sum_of_lines a.items % two64)
      × ((after_on a).item_count ≡ length a.items % two32)
unfolding after_on
after_on_lem a = (total_from_lem 0 a.items (omega arith) ∙ ap (λ x. x % two64) (omega arith), refl)

sum-cons :
    (e f : String × LineItem) (l m : Dict LineItem)
    → e ≡ f
    → sum_of_lines l ≡ sum_of_lines m
    → sum_of_lines (e ∷ l) ≡ sum_of_lines (f ∷ m)
sum-cons e f l m p q = omega (arith, ap (λ (x : String × LineItem). line_total x.1) p)

sum-swap :
    (a b a' b' : String × LineItem) (l : Dict LineItem)
    → a ≡ b'
    → b ≡ a'
    → sum_of_lines (a ∷ b ∷ l) ≡ sum_of_lines (a' ∷ b' ∷ l)
sum-swap a b a' b' l p q = omega (
  arith,
  ap (λ (x : String × LineItem). line_total x.1) p,
  ap (λ (x : String × LineItem). line_total x.1) q,
)

sum-perm_data : {l m : Dict LineItem} → Permᴰ l m → sum_of_lines l ≡ sum_of_lines m
sum-perm_data Permᴰ.nil = refl
sum-perm_data (Permᴰ.cons {a} {b} {l₁} {l₂} e p) = sum-cons a b l₁ l₂ e (sum-perm_data p)
sum-perm_data (Permᴰ.swap {a} {b} {a'} {b'} {l} e f) = sum-swap a b a' b' l e f
sum-perm_data (Permᴰ.trans p q) = sum-perm_data p ∙ sum-perm_data q

-- The total does not depend on the order in which the items are visited.
pub total_from-perm : (l m : Dict LineItem) → Perm l m → total_from 0 l ≡ total_from 0 m
total_from-perm l m p =
    total_from_lem 0 l (omega arith)
    ∙ ap (λ x. (0 + x) % two64) (∥∥₁_elim p (ℕ_set _ _) sum-perm_data)
    ∙ sym (total_from_lem 0 m (omega arith))

sum-insert_new :
    (k : String) (item : LineItem) (m : Dict LineItem)
    → lookup k m ≡ none
    → (sum_of_lines (insert k item m) ≡ sum_of_lines m + line_total item)
      × (length (insert k item m) ≡ length m + 1)
unfolding lookup insert
sum-insert_new k item [] h = (omega arith, refl)
sum-insert_new k item ((j, other) ∷ m) h = ground (arith, sum-insert_new k item m, eq_iff j k)

-- An item under an id that the order does not have adds its line to the total, and one to the
-- count, up to the wrap-around.
pub after_on-insert_new :
    (a : Order) (k : String) (item : LineItem)
    → lookup k a.items ≡ none
    → ((after_on (record a { items = insert k item a.items })).total_cents
        ≡ ((after_on a).total_cents + line_total item) % two64)
      × ((after_on (record a { items = insert k item a.items })).item_count
          ≡ ((after_on a).item_count + 1) % two32)
after_on-insert_new a k item h =
    let (s, n) = sum-insert_new k item a.items h in
    let (t, c) = after_on_lem a in
    let (t', c') = after_on_lem (record a { items = insert k item a.items }) in
    (omega arith, omega arith)
