-- ===== src/Dynamo/Total.antt =====
-- The loops over pages against the items that a query selects.
use protosource.Prelude.{
  ℕ, zero, suc, ◌<◌, ◌≡◌, refl, ap, ◌∙◌, ◌⊎◌, inl, inr, Option, some, List, ◌++◌, arith,
  Option-cases,
}
use protosource.Error.{Error, Result, ok, err}
use protosource.Repository.Stored.{Result-cases}
use protosource.Convert.{convert_all, convert_all-append}
use protosource.Dynamo.{Item, QueryInput, Page, Client, IsPaged}
use protosource.Dynamo.Pages.{then_more, finish, all_pages}

module _ {S : Type 0} (client : Client S) (laws : IsPaged client) {A : Type 0}
    (convert : Item → Result A) (wrap_query wrap_item : Error → Error) where
  abbrev loop : ℕ → QueryInput → S → Option (Result (List A))
  loop = all_pages client convert wrap_query wrap_item

  abbrev converted : Result (List A) → Result (List A)
  converted = finish client convert wrap_query wrap_item

  -- What the loop comes to: the items that are selected, or the error of a query.
  unfoldable pub IsRead : Option (Result (List A)) → List Item → S → Type 0
  IsRead result items s =
      (result ≡ some (converted (convert_all convert items)))
      ⊎ ((e : Error) × (p : QueryInput) × (client.query p s ≡ err e)
          × (result ≡ some (err (wrap_query e))))

  pub more_pages :
      (rows : List A) (front back : List Item) (rest : Option (Result (List A))) (s : S)
      → convert_all convert front ≡ ok rows
      → IsRead rest back s
      → IsRead (then_more rows rest) (front ++ back) s
  unfolding IsRead
  more_pages rows front back rest s done (inr (e, p, failed, result)) =
      inr (e, p, failed, ap (then_more rows) result)
  more_pages rows front back rest s done (inl result) = inl (
      ap (then_more rows) result
      ∙ rw (convert_all-append convert front back, done)
          (elim (Result-cases (convert_all convert back)) [
            | inl (ys, h) ↦ rw h refl
            | inr (e, h) ↦ rw h refl
          ]))

  -- An item that does not convert spoils all that is selected.
  bad_page :
      (q : QueryInput) (s : S) (page : Page) (e : Error)
      → client.query q s ≡ ok page
      → convert_all convert page.items ≡ err e
      → convert_all convert (laws.selected q s) ≡ err e
  bad_page q s page e answer bad = elim (Option-cases page.last) [
    | inl last ↦ rw (laws.last_page q s page answer last) bad
    | inr (key, next) ↦
        rw ((laws.next_page q s page key answer next).0, convert_all-append convert page.items, bad)
          refl
  ]

  -- With more fuel than there are items left, the loop ends: with all that is selected, converted in
  -- its order, or with the first error of an item, unless a query fails.
  pub all_pages-IsRead :
      (fuel : ℕ) (q : QueryInput) (s : S)
      → laws.left q s < fuel
      → IsRead (loop fuel q s) (laws.selected q s) s
  unfolding all_pages IsRead
  all_pages-IsRead zero q s h = absurd (omega arith)
  all_pages-IsRead (suc fuel) q s h = elim (Result-cases (client.query q s)) [
    | inr (e, failed) ↦ rw (failed, all_pages) (inr (e, q, failed, refl))
    | inl (page, answer) ↦ elim (Result-cases (convert_all convert page.items)) [
      | inr (e, bad) ↦ rw (answer, bad, bad_page q s page e answer bad, all_pages) (inl refl)
      | inl (rows, good) ↦ elim (Option-cases page.last) [
        | inl last ↦
            rw (answer, good, last, all_pages)
              (inl (rw (laws.last_page q s page answer last, good) refl))
        | inr (key, next) ↦
            let (parts, fewer) = laws.next_page q s page key answer next in
            rw (answer, good, next, parts, all_pages)
              (more_pages rows page.items _ _ s good
                (all_pages-IsRead fuel (record q { start = some key }) s (omega (arith, fewer))))
      ]
    ]
  ]
