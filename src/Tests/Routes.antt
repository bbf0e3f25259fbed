-- ===== src/Tests/Routes.antt =====
-- Routes at concrete inputs.
use protosource.Prelude.{◌≡◌, ◌≢◌, ◌↔◌, refl, none, some, [], ◌∷◌, All, arith, eq_iff}
use protosource.Prelude.Dict.{insert}
use protosource.Router.Path.{split_path, match_segments}
use protosource.Router.Matching.{Fits, match_segments_iff}
use protosource.Router.Dispatch.{
  Request, Route, Router, HandlerFunc, apply_cors, with_params, dispatch,
}
use protosource.Router.Laws.{Answers, dispatch-first}
use protosource.Router.Split.{IsSegment}

abbrev greet : HandlerFunc
greet q = record { status_code = 200; body = "hello"; headers = []; cookies = [] }

abbrev get_user : Route
get_user = record { method = "GET"; segments = "users" ∷ "{id}" ∷ []; handler = greet }

abbrev post_user : Route
post_user = record { method = "POST"; segments = "users" ∷ "{id}" ∷ []; handler = greet }

abbrev routes : Router
routes = record { routes = post_user ∷ get_user ∷ []; cors = none }

abbrev ask : Request
ask = record { body = ""; path_parameters = []; query_parameters = []; headers = [] }

matched : match_segments get_user.segments ("users" ∷ "7" ∷ []) ≡ some (("id", "7") ∷ [])
unfolding match_segments insert
matched = refl

post_is_not_get : ¬ Answers "GET" ("users" ∷ "7" ∷ []) post_user
post_is_not_get (_, e) = ground (arith, eq_iff "POST" "GET")

dispatch-first_example :
    dispatch routes "GET" "/users/7" ask ≡ greet (with_params (("id", "7") ∷ []) ask)
unfolding split_path apply_cors
dispatch-first_example =
    dispatch-first "GET" ("users" ∷ "7" ∷ []) routes "/users/7" ask refl refl (post_user ∷ []) []
      get_user (("id", "7") ∷ []) refl (post_is_not_get, tt) matched refl

match_segments_iff_example :
    (match_segments ("users" ∷ "{id}" ∷ []) ("users" ∷ "7" ∷ []) ≢ none)
    ↔ Fits ("users" ∷ "{id}" ∷ []) ("users" ∷ "7" ∷ [])
match_segments_iff_example = match_segments_iff ("users" ∷ "{id}" ∷ []) ("users" ∷ "7" ∷ [])

segments_are : All IsSegment ("a" ∷ "b" ∷ [])
segments_are = (
  ((λ e. ground (arith, eq_iff "a" "")), omega arith),
  (((λ e. ground (arith, eq_iff "b" "")), omega arith), tt),
)
