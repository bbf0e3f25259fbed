-- ===== src/Tests/DynamoSave.antt =====
-- `Save` of the DynamoDB store to a table that takes one put at a time.
use protosource.Prelude.{
  ◌≡◌, ◌≢◌, ◌↔◌, refl, sym, ap, ◌∙◌, inl, inr, Bool, true, false, ◌&&◌, Option, none, some, List,
  [], ◌∷◌, arith, if◌then◌else◌, str_eq, eq_iff, Bool-cases, Option-cases, All,
}
use protosource.Prelude.Dict.{lookup}
use protosource.Error.{Error, Result, ok, err, other}
use protosource.Store.Bolt.Keys.{bytes_eq, bytes_eq_iff}
use protosource.Dynamo.{Attribute, text, number, binary, Item, Put, Client}
use protosource.Store.Dynamo.{item_to_record, save, save_batches, put_of, item_of}
use protosource.Store.Dynamo.Save.{Key, key_of, IsTransactional, save-stored}
use protosource.Tests.Dynamo.{
  unary, config, clock, first_record, strokes, count_strokes, count_strokes-strokes,
}

attribute_eq : Attribute → Attribute → Bool
unfolding bytes_eq
attribute_eq (text a) (text b) = str_eq a b
attribute_eq (number a) (number b) = str_eq a b
attribute_eq (binary a) (binary b) = bytes_eq a b
attribute_eq _ _ = false

attribute_eq_iff : (a b : Attribute) → (attribute_eq a b ≡ true) ↔ (a ≡ b)
unfolding attribute_eq
attribute_eq_iff (text a) (text b) = ground (arith, eq_iff a b)
attribute_eq_iff (number a) (number b) = ground (arith, eq_iff a b)
attribute_eq_iff (binary a) (binary b) = ground (arith, bytes_eq_iff a b)
attribute_eq_iff (text a) (number b) = ground arith
attribute_eq_iff (text a) (binary b) = ground arith
attribute_eq_iff (number a) (text b) = ground arith
attribute_eq_iff (number a) (binary b) = ground arith
attribute_eq_iff (binary a) (text b) = ground arith
attribute_eq_iff (binary a) (number b) = ground arith

option_eq : Option Attribute → Option Attribute → Bool
unfolding attribute_eq
option_eq none none = true
option_eq (some a) (some b) = attribute_eq a b
option_eq _ _ = false

option_eq_iff : (a b : Option Attribute) → (option_eq a b ≡ true) ↔ (a ≡ b)
unfolding option_eq
option_eq_iff none none = ground arith
option_eq_iff none (some b) = ground arith
option_eq_iff (some a) none = ground arith
option_eq_iff (some a) (some b) = ground (arith, attribute_eq_iff a b)

key_eq : Key → Key → Bool
unfolding option_eq
key_eq (t, (a, v)) (u, (b, w)) = str_eq t u && option_eq a b && option_eq v w

key_eq_iff : (k l : Key) → (key_eq k l ≡ true) ↔ (k ≡ l)
unfolding key_eq
key_eq_iff (t, (a, v)) (u, (b, w)) =
    ground (arith, eq_iff t u, option_eq_iff a b, option_eq_iff v w)

abbrev Table : Type 0
Table = Key → Option Item

unfoldable set_item : Key → Item → Table → Table
unfolding key_eq
set_item key item t k = if key_eq key k then some item else t k

-- One put is made where its key is free.
unfoldable put_one : List Put → Table → Result (Unit {0}) × Table
unfolding set_item
put_one [] t = (ok tt, t)
put_one (p ∷ []) t = elim (t (key_of p)) [
  | none ↦ (ok tt, set_item (key_of p) p.item t)
  | some i ↦ (err (other "the conditional request failed"), t)
]
put_one (p ∷ q ∷ puts) t = (err (other "too many items"), t)

abbrev single : Client Table
single = record {
  transact_write = put_one;
  put_item = λ table item t. (err (other "not used"), t);
  get_item = λ table key t. ok none;
  delete_item = λ table key t. (err (other "not used"), t);
  query = λ q t. err (other "not used");
}

put_one-made :
    (p : Put) (t u : Table)
    → put_one (p ∷ []) t ≡ (ok tt, u)
    → (t (key_of p) ≡ none) × (set_item (key_of p) p.item t ≡ u)
unfolding put_one
put_one-made p t u h = elim (Option-cases (t (key_of p))) [
  | inl free ↦ (free, ap (λ r. r.1) (rw (free, put_one) at h))
  | inr (i, taken) ↦ absurd (let bad = ap (λ r. r.0) (rw (taken, put_one) at h) in cc)
]

put_one-unmade : (puts : List Put) (t u : Table) (e : Error) → put_one puts t ≡ (err e, u) → t ≡ u
unfolding put_one
put_one-unmade [] t u e h = absurd (let bad = ap (λ r. r.0) h in cc)
put_one-unmade (p ∷ []) t u e h = elim (Option-cases (t (key_of p))) [
  | inl free ↦ absurd (let bad = ap (λ r. r.0) (rw (free, put_one) at h) in cc)
  | inr (i, taken) ↦ ap (λ r. r.1) (rw (taken, put_one) at h)
]
put_one-unmade (p ∷ q ∷ puts) t u e h = ap (λ r. r.1) h

not_made : (p q : Put) (puts : List Put) (t u : Table) → put_one (p ∷ q ∷ puts) t ≢ (ok tt, u)
unfolding put_one
not_made p q puts t u h = let bad = ap (λ r. r.0) h in cc

key_eq-apart : (k l : Key) → k ≢ l → key_eq k l ≡ false
key_eq-apart k l apart = elim (Bool-cases (key_eq k l)) [
  | inl same ↦ absurd (apart ((key_eq_iff k l).0 same))
  | inr differ ↦ differ
]

stored_one :
    (puts : List Put) (t u : Table)
    → put_one puts t ≡ (ok tt, u)
    → All (λ p. u (key_of p) ≡ some p.item) puts
unfolding set_item
stored_one [] t u h = tt
stored_one (p ∷ []) t u h = (
  ap (λ v. v (key_of p)) (sym (put_one-made p t u h).1)
      ∙ rw ((key_eq_iff (key_of p) (key_of p)).1 refl, set_item) refl,
  tt,
)
stored_one (p ∷ q ∷ puts) t u h = absurd (not_made p q puts t u h)

fresh_one :
    (puts : List Put) (t u : Table)
    → put_one puts t ≡ (ok tt, u)
    → All (λ p. t (key_of p) ≡ none) puts
fresh_one [] t u h = tt
fresh_one (p ∷ []) t u h = ((put_one-made p t u h).0, tt)
fresh_one (p ∷ q ∷ puts) t u h = absurd (not_made p q puts t u h)

others_one :
    (puts : List Put) (key : Key) (t u : Table)
    → put_one puts t ≡ (ok tt, u)
    → All (λ p. key_of p ≢ key) puts
    → u key ≡ t key
unfolding set_item put_one
others_one [] key t u h apart = ap (λ r. r.1 key) (sym h)
others_one (p ∷ []) key t u h (apart, _) =
    ap (λ v. v key) (sym (put_one-made p t u h).1)
    ∙ rw (key_eq-apart (key_of p) key apart, set_item) refl
others_one (p ∷ q ∷ puts) key t u h apart = absurd (not_made p q puts t u h)

abbrev single-IsTransactional : IsTransactional single
single-IsTransactional = record {
  find = λ key t. t key;
  stored = stored_one;
  fresh = λ puts t u h conditions. fresh_one puts t u h;
  others = others_one;
  unmade = λ puts key t u e h. ap (λ v. v key) (sym (put_one-unmade puts t u e h));
}

abbrev no_items : Table
no_items key = none

abbrev first_key : Key
first_key = ("events", (some (text "a"), some (number (strokes 1))))

abbrev one_saved : Table
one_saved = (save unary clock single config none "a" (first_record ∷ []) no_items).1

save-stored_example :
    ((item : Item) × (one_saved first_key ≡ some item)
      × (item_to_record unary clock single item ≡ ok (record first_record { ttl = 0 })))
    × Unit {0}
unfolding save save_batches put_of item_of put_one lookup item_to_record strokes count_strokes
    key_eq set_item
save-stored_example =
    save-stored unary clock single single-IsTransactional config "a" (first_record ∷ []) no_items
      one_saved (λ n h. ap ok (count_strokes-strokes n)) (omega arith, tt) refl
