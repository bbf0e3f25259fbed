-- ===== src/Store/Cosmos/Tail.antt =====
-- `LoadTail` of the Cosmos DB store against `Load`, and the times to live of its documents.
use mathlib.Core.List.{reverse}
use protosource.Prelude.{
  ℕ, ◌+◌, ◌-◌, ◌/◌, ◌≤◌, ◌≡◌, sym, ap, ◌∙◌, inl, inr, String, true, none, List, [], ◌∷◌, ◌++◌, map,
  arith, take, take_last, take-append_split, take_all, length, leb, ltb, Bool-cases,
  reverse-take-reverse, is_positive64,
}
use protosource.Error.{Result, ok, err, ◌>>=◌, wrap_err}
use protosource.Compress.{Bytes}
use protosource.Repository.Types.{Record, History}
use protosource.Repository.Stored.{>>=-eq-ok}
use protosource.Convert.{
  convert_all, convert_all-append, convert_all-take, convert_all-reverse, length-convert_all,
}
use protosource.Store.Cosmos.{
  Container, Json, CosmosStore, second, ascending, descending, expiry_of, relative_ttl, doc_of,
  doc_to_record, load, collect_pages, page_hint, load_tail,
}

abbrev pub join_pages {ℓ} : {A : Type ℓ} → List (List A) → List A
join_pages [] = []
join_pages (page ∷ pages) = page ++ join_pages pages

unwrapped {ℓ} :
    {A : Type ℓ} (msg : String) (m : Result A) (a : A) → wrap_err msg m ≡ ok a → m ≡ ok a
unwrapped msg (ok x) a h = h
unwrapped msg (err e) a h = cc

module _ (json : Json) (clock : ℕ → ℕ) {S : Type 0} (events : Container S) where
  abbrev convert : Bytes → Result Record
  convert = doc_to_record json clock events

  -- A document is purged neither at once nor before the point in time that its `t` gives.
  pub relative_ttl-doc_of :
      (cfg : CosmosStore S) (id : String) (now : ℕ) (r : Record)
      → is_positive64 (doc_of json clock events cfg id now r).t ≡ true
      → (1 ≤ (doc_of json clock events cfg id now r).ttl)
        × ((doc_of json clock events cfg id now r).t
            ≤ now / second + (doc_of json clock events cfg id now r).ttl)
  unfolding doc_of relative_ttl
  relative_ttl-doc_of cfg id now r h =
      let t = expiry_of json clock events cfg now r in
      elim (Bool-cases (ltb (t - now / second) 1)) [
        | inl past ↦ rw (h, past) (omega arith, ground arith)
        | inr ahead ↦ rw (h, ahead) (ground arith, ground arith)
      ]

  -- The loop collects the first n documents of pages that all arrive.
  collect_pages-join :
      (n : ℕ) (pages : List (List Bytes)) (rows : History)
      → convert_all convert (take n (join_pages pages)) ≡ ok rows
      → collect_pages json clock events n (map ok pages) ≡ ok rows
  unfolding collect_pages convert_all
  collect_pages-join n [] rows h =
      let empty : take {A = Bytes} n [] ≡ [] = take_all n [] (omega arith) in
      sym (ap (convert_all convert) empty) ∙ h
  collect_pages-join n (page ∷ pages) rows h = elim (Bool-cases (leb n 0)) [
    | inl no_more ↦
        let nothing : n ≡ 0 = ground arith in rw (no_more, collect_pages) (rw nothing at h)
    | inr more ↦
        let size = length (take n page) in
        let split : (convert_all convert (take n page) >>= λ xs.
        convert_all convert (take (n - size) (join_pages pages)) >>= λ ys. ok (xs ++ ys))
            ≡ ok rows =
          sym (convert_all-append convert (take n page) (take (n - size) (join_pages pages)))
          ∙ ap (convert_all convert) (sym (take-append_split n page (join_pages pages)))
          ∙ h in
        let (xs, first, h1) = >>=-eq-ok (convert_all convert (take n page)) _ split in
        let (ys, others, h2) =
          >>=-eq-ok (convert_all convert (take (n - size) (join_pages pages))) _ h1 in
        let same : length xs ≡ size = length-convert_all convert (take n page) xs first in
        rw (more, first, same, collect_pages-join (n - size) pages ys others, collect_pages) h2
  ]

  -- Where all pages of the descending query arrive, and together hold the documents of the ascending
  -- one in the opposite order, `LoadTail` of a positive int64 n returns the last n records that `Load`
  -- returns.
  pub load_tail-join_pages :
      (id : String) (n : ℕ) (s : S) (raws : List Bytes) (pages : List (List Bytes)) (h : History)
      → is_positive64 n ≡ true
      → events.query_items ascending id s ≡ ok raws
      → events.query_pager descending id (page_hint json clock events n) s ≡ map ok pages
      → join_pages pages ≡ reverse raws
      → load json clock events none id s ≡ ok h
      → load_tail json clock events none id n s ≡ ok (take_last n h)
  unfolding load load_tail
  load_tail-join_pages id n s raws pages h positive answer arrived turned loaded =
      let rows : convert_all convert raws ≡ ok h =
        unwrapped _ (convert_all convert raws) h (rw (answer, load) at loaded) in
      let tail : convert_all convert (take n (join_pages pages)) ≡ ok (take n (reverse h)) =
        ap (λ l. convert_all convert (take n l)) turned
        ∙ convert_all-take convert n _ _ (convert_all-reverse convert raws h rows) in
      rw (positive, arrived, collect_pages-join n pages _ tail, load_tail)
        (ap ok (reverse-take-reverse n h))
