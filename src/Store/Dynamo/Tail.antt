-- ===== src/Store/Dynamo/Tail.antt =====
-- `LoadTail` of the DynamoDB store against the items of the partition, and against `Load`.
use protosource.Prelude.{
  ℕ, zero, suc, ◌-◌, ◌<◌, ◌≡◌, refl, sym, ap, ◌∙◌, inl, inr, Option, none, some, List, ◌++◌, arith,
  length, take, take-append_split, append-nil, leb, Bool-cases, Option-cases,
}
use protosource.Error.{Error, Result, ok, err, wrap}
use protosource.Repository.Types.{Record, History}
use protosource.Repository.Stored.{Result-cases}
use protosource.Convert.{convert_all, convert_all-append, length-convert_all}
use protosource.Dynamo.{Item, QueryInput, Page, Client, IsPaged, Strconv}
use protosource.Dynamo.Total.{IsRead, more_pages}
use protosource.Store.Dynamo.{item_to_record, page_limit, tail_pages}

module _ (strconv : Strconv) (expiry : ℕ → ℕ) {S : Type 0} (client : Client S)
    (laws : IsPaged client) where
  abbrev convert : Item → Result Record
  convert = item_to_record strconv expiry client

  abbrev wrapped : Error → Error
  wrapped = wrap "dynamodbstore.LoadTail"

  abbrev IsTailRead : Option (Result History) → List Item → S → Type 0
  IsTailRead = IsRead client laws convert wrapped wrapped

  -- What a page, and the key that leads on, say of the items of the query with another limit.
  next_of :
      (q : QueryInput) (limit : Option ℕ) (s : S) (page : Page) (key : Item)
      → client.query (record q { limit = limit }) s ≡ ok page
      → page.last ≡ some key
      → (laws.selected q s ≡ page.items ++ laws.selected (record q { start = some key }) s)
        × (laws.left (record q { start = some key }) s < laws.left q s)
  next_of q limit s page key answer next =
      let (parts, fewer) = laws.next_page (record q { limit = limit }) s page key answer next in
      let (same, size) = laws.any_limit q s limit in
      let (same', size') = laws.any_limit (record q { start = some key }) s limit in
      (sym same ∙ parts ∙ ap (λ back. page.items ++ back) same', omega (arith, fewer, size, size'))

  last_of :
      (q : QueryInput) (limit : Option ℕ) (s : S) (page : Page)
      → client.query (record q { limit = limit }) s ≡ ok page
      → page.last ≡ none
      → laws.selected q s ≡ page.items
  last_of q limit s page answer last =
      sym (laws.any_limit q s limit).0
      ∙ laws.last_page (record q { limit = limit }) s page answer last

  bad_tail :
      (n : ℕ) (q : QueryInput) (limit : Option ℕ) (s : S) (page : Page) (e : Error)
      → client.query (record q { limit = limit }) s ≡ ok page
      → convert_all convert (take n page.items) ≡ err e
      → convert_all convert (take n (laws.selected q s)) ≡ err e
  bad_tail n q limit s page e answer bad = elim (Option-cases page.last) [
    | inl last ↦ rw (last_of q limit s page answer last) bad
    | inr (key, next) ↦
        rw
          (
            (next_of q limit s page key answer next).0,
            take-append_split n page.items,
            convert_all-append convert (take n page.items),
            bad,
          )
          refl
  ]

  -- With more fuel than there are items left, the loop ends: with the first n of the items that are
  -- selected, converted in their order, or with the first error of these, unless a query fails.
  pub tail_pages-IsRead :
      (fuel n : ℕ) (q : QueryInput) (s : S)
      → laws.left q s < fuel
      → IsTailRead (tail_pages strconv expiry client fuel n q s) (take n (laws.selected q s)) s
  unfolding tail_pages IsRead convert_all
  tail_pages-IsRead zero n q s h = absurd (omega arith)
  tail_pages-IsRead (suc fuel) n q s h = elim (Bool-cases (leb n 0)) [
    | inl no_more ↦
        let nothing : n ≡ 0 = ground arith in rw (no_more, nothing, tail_pages) (inl refl)
    | inr more ↦
        let limit : Option ℕ = some (page_limit strconv expiry client n) in
        elim (Result-cases (client.query (record q { limit = limit }) s)) [
          | inr (e, failed) ↦
              rw (more, failed, tail_pages) (inr (e, record q { limit = limit }, failed, refl))
          | inl (page, answer) ↦ elim (Result-cases (convert_all convert (take n page.items))) [
            | inr (e, bad) ↦
                rw (more, answer, bad, bad_tail n q limit s page e answer bad, tail_pages)
                  (inl refl)
            | inl (rows, good) ↦ elim (Option-cases page.last) [
              | inl last ↦
                  rw
                    (more, answer, good, last, last_of q limit s page answer last, good, tail_pages)
                    (inl refl)
              | inr (key, next) ↦
                  let (parts, fewer) = next_of q limit s page key answer next in
                  let split =
                    ap (take n) parts
                    ∙ take-append_split n page.items _
                    ∙ ap
                        (λ k.
                          take n page.items
                          ++ take (n - k) (laws.selected (record q { start = some key }) s))
                        (sym (length-convert_all convert (take n page.items) rows good)) in
                  elim (Bool-cases (leb (n - length rows) 0)) [
                    | inl full ↦
                        let zero_left : n - length rows ≡ 0 = ground arith in
                        rw
                          (more, answer, good, next, full, split, zero_left, append-nil, tail_pages)
                          (rw good (inl refl))
                    | inr short ↦
                        rw (more, answer, good, next, short, split, tail_pages)
                          (more_pages client laws convert wrapped wrapped rows (take n page.items) _
                            _ s good
                            (tail_pages-IsRead fuel (n - length rows)
                              (record q { start = some key }) s (omega (arith, fewer))))
                  ]
            ]
          ]
        ]
  ]
