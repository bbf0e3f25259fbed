-- ===== src/Tests/Dynamo.antt =====
-- Reads of the DynamoDB store from a table that gives one item a page.
use Prim.Native.String.{[] as no_text, ◌∷◌ as ◌then◌}
use mathlib.Core.List.{reverse}
use protosource.Prelude.{
  ℕ, zero, suc, ◌+◌, ◌≡◌, refl, sym, ap, ◌∙◌, ◌⊎◌, String, Bool, true, false, Option, none, some,
  List, [], ◌∷◌, ◌++◌, arith, drop, length, length-reverse, if◌then◌else◌,
}
use protosource.Error.{Error, ok, err, other, wrap, wrap_err}
use protosource.Repository.Types.{Record}
use protosource.Repository.Stored.{ok-injective}
use protosource.Convert.{convert_all}
use protosource.Dynamo.{text, Item, QueryInput, Page, Client, IsPaged, Strconv}
use protosource.Store.Dynamo.{
  DynamoStore, default_events_table, item_to_record, events_query, load, item_of,
}
use protosource.Store.Dynamo.Read.{load-all_pages}

-- The key of a page is as long as the number of items before it.
abbrev place : Option Item → ℕ
place none = 0
place (some key) = length key

abbrev ordered : Bool → List Item → List Item
ordered true items = items
ordered false items = reverse items

abbrev rest_of : QueryInput → List Item → List Item
rest_of q items = drop (place q.start) (ordered q.forward items)

abbrev key_after : Option Item → Item
key_after none = ("n", text "") ∷ []
key_after (some key) = ("n", text "") ∷ key

abbrev page_of : Option Item → List Item → Page
page_of start [] = record { items = []; last = none }
page_of start (i ∷ []) = record { items = i ∷ []; last = none }
page_of start (i ∷ j ∷ others) = record { items = i ∷ []; last = some (key_after start) }

abbrev paged : Client (List Item)
paged = record {
  transact_write = λ puts s. (err (other "read only"), s);
  put_item = λ table item s. (err (other "read only"), s);
  get_item = λ table key s. ok none;
  delete_item = λ table key s. (err (other "read only"), s);
  query = λ q s. ok (page_of q.start (rest_of q s));
}

drop_next :
    (n : ℕ) (xs : List Item) (i : Item) (others : List Item)
    → drop n xs ≡ i ∷ others
    → drop (suc n) xs ≡ others
drop_next zero [] i others h = cc
drop_next zero (x ∷ xs) i others h = cc
drop_next (suc n) [] i others h = cc
drop_next (suc n) (x ∷ xs) i others h = drop_next n xs i others h

place-key_after : (start : Option Item) → place (some (key_after start)) ≡ suc (place start)
place-key_after none = refl
place-key_after (some key) = refl

page_of-last :
    (start : Option Item) (items : List Item)
    → (page_of start items).last ≡ none
    → items ≡ (page_of start items).items
page_of-last start [] h = refl
page_of-last start (i ∷ []) h = refl
page_of-last start (i ∷ j ∷ others) h = cc

page_of-next :
    (start : Option Item) (items : List Item) (key : Item)
    → (page_of start items).last ≡ some key
    → (i : Item) × (others : List Item) × (items ≡ i ∷ others)
      × ((page_of start items).items ≡ i ∷ [])
      × (key ≡ key_after start)
page_of-next start [] key h = cc
page_of-next start (i ∷ []) key h = cc
page_of-next start (i ∷ j ∷ others) key h = (i, j ∷ others, refl, refl, cc)

abbrev paged-IsPaged : IsPaged paged
paged-IsPaged = record {
  selected = rest_of;
  left = λ q s. length (rest_of q s);
  last_page = λ q s page answer last.
      page_of-last q.start (rest_of q s) (ap (λ p. p.last) (ok-injective answer) ∙ last)
      ∙ ap (λ p. p.items) (ok-injective answer);
  next_page = λ q s page key answer next.
      let (i, others, here, one, named) =
        page_of-next q.start (rest_of q s) key (ap (λ p. p.last) (ok-injective answer) ∙ next) in
      let size : place (some key) ≡ suc (place q.start) =
        ap (λ k. place (some k)) named ∙ place-key_after q.start in
      let later : rest_of (record q { start = some key }) s ≡ others =
        ap (λ n. drop n (ordered q.forward s)) size
        ∙ drop_next (place q.start) (ordered q.forward s) i others here in
      (
        here
            ∙ ap (λ l. i ∷ l) (sym later)
            ∙ ap (λ l. l ++ rest_of (record q { start = some key }) s)
                (sym one ∙ ap (λ p. p.items) (ok-injective answer)),
        omega (arith, ap length later, ap length here),
      );
  any_limit = λ q s limit. (refl, refl);
  other_way = λ q s first. rw first (refl, length-reverse s);
}

-- A number as so many strokes.
unfoldable pub strokes : ℕ → String
strokes zero = no_text
strokes (suc n) = "i" then strokes n

unfoldable pub count_strokes : String → ℕ
count_strokes no_text = 0
count_strokes (c then t) = suc (count_strokes t)

abbrev pub unary : Strconv
unary = record { format_int = strokes; parse_int = λ t. ok (count_strokes t) }

pub count_strokes-strokes : (n : ℕ) → count_strokes (strokes n) ≡ n
unfolding strokes count_strokes
count_strokes-strokes zero = refl
count_strokes-strokes (suc n) = ap suc (count_strokes-strokes n)

abbrev pub config : {S : Type 0} → DynamoStore S
config = record { events_table = default_events_table; opaque_store = none; ttl = 0 }

abbrev pub clock : ℕ → ℕ
clock ttl = 1000 + ttl

abbrev pub first_record : Record
first_record = record { version = 1; payload = 5 ∷ []; ttl = 60 }

abbrev pub second_record : Record
second_record = record { version = 2; payload = 6 ∷ []; ttl = 0 }

abbrev two_items : List Item
two_items =
    item_of unary clock paged config "a" first_record
    ∷ item_of unary clock paged config "a" second_record
    ∷ []

load-all_pages_example :
    (load unary clock paged 3 config none "a" two_items
      ≡ some (
          wrap_err "dynamodbstore.Load" (convert_all (item_to_record unary clock paged) two_items)))
    ⊎ ((e : Error) × (p : QueryInput) × (paged.query p two_items ≡ err e)
        × (load unary clock paged 3 config none "a" two_items
            ≡ some (err (wrap "dynamodbstore.Load" e))))
unfolding events_query
load-all_pages_example =
    load-all_pages unary clock paged paged-IsPaged 3 config "a" two_items (omega arith)
