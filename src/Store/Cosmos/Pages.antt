-- ===== src/Store/Cosmos/Pages.antt =====
-- `Load` and `LoadTail` of the Cosmos DB store over the wrapper of azure/cosmosclient, page by page.
use mathlib.Core.List.{reverse}
use protosource.Prelude.{
  ℕ, ◌≡◌, refl, ap, ◌∙◌, String, true, none, List, [], ◌∷◌, map, take_last, is_positive64,
}
use protosource.Error.{ok, wrap_err}
use protosource.Compress.{Bytes}
use protosource.Repository.Types.{History}
use protosource.Store.Cosmos.{Json, ascending, descending, page_hint, load, load_tail}
use protosource.Store.Cosmos.Client.{AzContainer, drain, wrapper}
use protosource.Store.Cosmos.Tail.{join_pages, load_tail-join_pages}

drain-map_ok : (pages : List (List Bytes)) → drain (map ok pages) ≡ ok (join_pages pages)
unfolding drain
drain-map_ok [] = refl
drain-map_ok (page ∷ pages) = rw (drain-map_ok pages) refl

map-wrap_err_ok :
    (msg : String) (pages : List (List Bytes)) → map (wrap_err msg) (map ok pages) ≡ map ok pages
map-wrap_err_ok msg [] = refl
map-wrap_err_ok msg (page ∷ pages) = ap (◌∷◌ (ok page)) (map-wrap_err_ok msg pages)

-- Where azcosmos delivers all pages of both queries, and those of the descending query together hold
-- the documents of the ascending one in the opposite order, `LoadTail` of a positive int64 n returns
-- the last n records that `Load` returns, however the documents are cut into pages.
pub load_tail-wrapper :
    (json : Json) (clock : ℕ → ℕ) {S : Type 0} (c : AzContainer S) (id : String) (n : ℕ) (s : S)
    (up down : List (List Bytes)) (h : History)
    → is_positive64 n ≡ true
    → c.query_pages ascending id 0 s ≡ map ok up
    → c.query_pages descending id (page_hint json clock (wrapper c) n) s ≡ map ok down
    → join_pages down ≡ reverse (join_pages up)
    → load json clock (wrapper c) none id s ≡ ok h
    → load_tail json clock (wrapper c) none id n s ≡ ok (take_last n h)
unfolding wrapper
load_tail-wrapper json clock c id n s up down h positive upward downward turned loaded =
    load_tail-join_pages json clock (wrapper c) id n s (join_pages up) down h positive
      (ap drain upward ∙ drain-map_ok up)
      (ap (map (wrap_err "cosmosclient: query page")) downward ∙ map-wrap_err_ok _ down) turned
      loaded
