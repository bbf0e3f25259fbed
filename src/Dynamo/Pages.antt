-- ===== src/Dynamo/Pages.antt =====
-- The loops over the pages of a query, on fuel.
use protosource.Prelude.{ℕ, zero, suc, Option, none, some, List, ◌++◌}
use protosource.Error.{Error, Result, ok, err}
use protosource.Convert.{convert_all}
use protosource.Dynamo.{Item, QueryInput, Client}

abbrev pub then_more {ℓ} :
    {A : Type ℓ} → List A → Option (Result (List A)) → Option (Result (List A))
then_more front none = none
then_more front (some (err e)) = some (err e)
then_more front (some (ok more)) = some (ok (front ++ more))

-- `wrap_query` and `wrap_item` are what the loop makes of an error of the query and of an item.
module _ {S : Type 0} (client : Client S) {A : Type 0} (convert : Item → Result A)
    (wrap_query wrap_item : Error → Error) where
  abbrev pub finish : Result (List A) → Result (List A)
  finish (ok rows) = ok rows
  finish (err e) = err (wrap_item e)

  -- All pages from the input's start key on; none where the fuel runs out.
  unfoldable pub all_pages : ℕ → QueryInput → S → Option (Result (List A))
  unfolding convert_all
  all_pages zero q s = none
  all_pages (suc fuel) q s = elim (client.query q s) [
    | err e ↦ some (err (wrap_query e))
    | ok page ↦ elim (finish (convert_all convert page.items)) [
      | err e ↦ some (err e)
      | ok rows ↦ elim page.last [
        | none ↦ some (ok rows)
        | some key ↦ then_more rows (all_pages fuel (record q { start = some key }) s)
      ]
    ]
  ]
