-- ===== src/Store/Dynamo/Read.antt =====
-- `Load` and `LoadTail` of the DynamoDB store over all pages.
use mathlib.Core.List.{reverse}
use protosource.Prelude.{
  ℕ, ◌<◌, ◌≡◌, refl, sym, ap, ◌∙◌, inl, inr, ◌⊎◌, String, true, false, none, some, arith, take,
  take_last, reverse-take-reverse, is_positive64,
}
use protosource.Error.{Error, ok, err, wrap, wrap_err}
use protosource.Repository.Types.{History}
use protosource.Repository.Stored.{Result-cases}
use protosource.Convert.{convert_all, convert_all-take, convert_all-reverse}
use protosource.Dynamo.{QueryInput, Page, Client, IsPaged, Strconv}
use protosource.Dynamo.Total.{IsRead, all_pages-IsRead}
use protosource.Store.Dynamo.{DynamoStore, item_to_record, events_query, load, load_tail}
use protosource.Store.Dynamo.Tail.{tail_pages-IsRead}

module _ (strconv : Strconv) (expiry : ℕ → ℕ) {S : Type 0} (client : Client S)
    (laws : IsPaged client) where
  -- With more fuel than there are items in the partition, `Load` ends in a live context: with the
  -- records of all its items in ascending order, or the first error of an item, or else with the
  -- error of a query that failed.
  pub load-all_pages :
      (fuel : ℕ) (cfg : DynamoStore S) (id : String) (s : S)
      → laws.left (events_query strconv expiry client cfg id true none) s < fuel
      → (load strconv expiry client fuel cfg none id s
          ≡ some (
              wrap_err "dynamodbstore.Load" (
                convert_all
                  (item_to_record strconv expiry client)
                  (laws.selected (events_query strconv expiry client cfg id true none) s))))
        ⊎ ((e : Error) × (p : QueryInput) × (client.query p s ≡ err e)
            × (load strconv expiry client fuel cfg none id s
                ≡ some (err (wrap "dynamodbstore.Load" e))))
  unfolding load IsRead
  load-all_pages fuel cfg id s h =
      elim (all_pages-IsRead client laws (item_to_record strconv expiry client)
        (wrap "dynamodbstore.Load") (wrap "dynamodbstore.Load") fuel
        (events_query strconv expiry client cfg id true none) s h) [
          | inl done ↦
              elim (Result-cases (
                convert_all (item_to_record strconv expiry client)
                  (laws.selected (events_query strconv expiry client cfg id true none) s))) [
                    | inl (rows, good) ↦ inl (done ∙ rw good refl)
                    | inr (e, bad) ↦ inl (done ∙ rw bad refl)
                  ]
          | inr failed ↦ inr failed
        ]

  -- What `Load` returns are the items of the partition.
  loaded_items :
      (fuel : ℕ) (cfg : DynamoStore S) (id : String) (s : S) (h : History)
      → ((p : QueryInput) → (page : Page) × (client.query p s ≡ ok page))
      → laws.left (events_query strconv expiry client cfg id true none) s < fuel
      → load strconv expiry client fuel cfg none id s ≡ some (ok h)
      → convert_all
          (item_to_record strconv expiry client)
          (laws.selected (events_query strconv expiry client cfg id true none) s)
        ≡ ok h
  loaded_items fuel cfg id s h live enough loaded = elim (load-all_pages fuel cfg id s enough) [
    | inl done ↦
        elim (Result-cases (
          convert_all (item_to_record strconv expiry client)
            (laws.selected (events_query strconv expiry client cfg id true none) s))) [
              | inl (rows, good) ↦ let same = sym loaded ∙ rw good at done in good ∙ cc
              | inr (e, bad) ↦ absurd (let same = sym loaded ∙ rw bad at done in cc)
            ]
    | inr (e, p, failed, result) ↦
        let (page, answer) = live p in absurd (let clash = sym failed ∙ answer in cc)
  ]

  -- With enough fuel, and where no query fails, `LoadTail` of a positive int64 n returns the last n
  -- records that `Load` returns.
  pub load_tail-take_last :
      (fuel : ℕ) (cfg : DynamoStore S) (id : String) (n : ℕ) (s : S) (h : History)
      → is_positive64 n ≡ true
      → ((p : QueryInput) → (page : Page) × (client.query p s ≡ ok page))
      → laws.left (events_query strconv expiry client cfg id true none) s < fuel
      → load strconv expiry client fuel cfg none id s ≡ some (ok h)
      → load_tail strconv expiry client fuel cfg none id n s ≡ some (ok (take_last n h))
  unfolding load_tail events_query IsRead
  load_tail-take_last fuel cfg id n s h positive live enough loaded =
      let forward = events_query strconv expiry client cfg id true none in
      let backward = events_query strconv expiry client cfg id false none in
      let convert = item_to_record strconv expiry client in
      let (turned, size) = laws.other_way forward s refl in
      let rows : convert_all convert (take n (laws.selected backward s)) ≡ ok (take n (reverse h)) =
        ap (λ items. convert_all convert (take n items)) turned
        ∙ convert_all-take convert n _ _
            (convert_all-reverse convert _ _ (loaded_items fuel cfg id s h live enough loaded)) in
      elim (tail_pages-IsRead strconv expiry client laws fuel n backward s
        (omega (arith, enough, size))) [
          | inl done ↦
              rw (positive, done, rows, load_tail)
                (ap (λ l. some (ok l)) (reverse-take-reverse n h))
          | inr (e, p, failed, result) ↦
              let (page, answer) = live p in absurd (let clash = sym failed ∙ answer in cc)
        ]
