-- ===== src/Router/Laws.antt =====
-- What `Dispatch` answers, and which responses carry CORS headers.
use protosource.Prelude.{
  String, ◌≡◌, ◌≢◌, ◌⊎◌, inl, inr, refl, ap, ◌∙◌, is_some, ◌||◌, Bool, true, false, ◌&&◌, none,
  some, List, [], ◌∷◌, ◌++◌, arith, str_eq, eq_iff, if◌then◌else◌, Bool-cases, Option-cases, All,
}
use protosource.Prelude.Dict.{Dict, lookup, lookup-insert}
use protosource.Router.Path.{split_path, match_segments}
use protosource.Router.Dispatch.{
  Request, Response, CorsConfig, Route, Router, match_origin, cors_headers, apply_cors, with_params,
  not_allowed, not_found, find_route, has_cors, header_or_empty, dispatch,
}

module _ (method : String) (path : List String) where
  -- A route answers a request whose path its pattern matches, under its own method.
  abbrev pub Answers : Route → Type 0
  Answers rt = (match_segments rt.segments path ≢ none) × (rt.method ≡ method)

  find_route-skip :
      (rt : Route) (routes : List Route) (mismatch : Bool) (q : Request)
      → ¬ Answers rt
      → (later : Bool) × (find_route (rt ∷ routes) method path mismatch q
          ≡ find_route routes method path later q)
  unfolding find_route
  find_route-skip rt routes mismatch q h = elim (Option-cases (match_segments rt.segments path)) [
    | inl missed ↦ (mismatch, rw (missed, find_route))
    | inr (params, hit) ↦ (true, rw (hit, find_route) (ground (arith, eq_iff rt.method method)))
  ]

  -- The first route that answers is the one that runs, with its parameters merged into the request.
  pub find_route-first :
      (pre post : List Route) (rt : Route) (params : Dict String) (mismatch : Bool) (q : Request)
      → All (λ r. ¬ Answers r) pre
      → match_segments rt.segments path ≡ some params
      → rt.method ≡ method
      → find_route (pre ++ rt ∷ post) method path mismatch q ≡ rt.handler (with_params params q)
  find_route-first [] post rt params mismatch q h hit same =
      unfold find_route in rw (hit, find_route) (rw ((eq_iff rt.method method).1 same))
  find_route-first (r ∷ pre) post rt params mismatch q (no', h) hit same =
      let (later, e) = find_route-skip r (pre ++ rt ∷ post) mismatch q no' in
      e ∙ find_route-first pre post rt params later q h hit same

  -- Whether some pattern matches the path.
  abbrev pub any_match : List Route → Bool
  any_match [] = false
  any_match (rt ∷ routes) = is_some (match_segments rt.segments path) || any_match routes

  find_route-none :
      (routes : List Route) (mismatch : Bool) (q : Request)
      → All (λ r. ¬ Answers r) routes
      → find_route routes method path mismatch q
        ≡ (if mismatch || any_match routes then not_allowed else not_found)
  unfolding find_route
  find_route-none [] mismatch q h = ground arith
  find_route-none (r ∷ routes) mismatch q (no', h) =
      elim (Option-cases (match_segments r.segments path)) [
        | inl missed ↦ rw (missed, find_route) (find_route-none routes mismatch q h)
        | inr (params, hit) ↦
            rw (hit, find_route)
              (ground (arith, find_route-none routes true q h, eq_iff r.method method))
      ]

  module _ (r : Router) (url : String) (q : Request) (here : split_path url ≡ path)
      (plain : (has_cors r.cors && str_eq method "OPTIONS") ≡ false) where
    abbrev origin_of : String
    origin_of = header_or_empty (lookup "origin" q.headers)

    -- Outside a CORS preflight, the first registered route whose pattern matches the path under the
    -- request's method runs, on the request with the route's parameters, and its response gets the
    -- CORS headers.
    pub dispatch-first :
        (pre post : List Route) (rt : Route) (params : Dict String)
        → r.routes ≡ pre ++ rt ∷ post
        → All (λ x. ¬ Answers x) pre
        → match_segments rt.segments path ≡ some params
        → rt.method ≡ method
        → dispatch r method url q ≡ apply_cors r.cors origin_of (rt.handler (with_params params q))
    unfolding dispatch
    dispatch-first pre post rt params e h hit same = rw plain (
        ap (apply_cors r.cors origin_of) (
          ap (λ x. find_route x method (split_path url) false q) e
          ∙ ap (λ x. find_route (pre ++ rt ∷ post) method x false q) here
          ∙ find_route-first pre post rt params false q h hit same))

    -- Outside a CORS preflight, if no route answers, the response is 405 when some pattern matches
    -- the path, and 404 otherwise, with the CORS headers.
    pub dispatch-none :
        All (λ x. ¬ Answers x) r.routes
        → dispatch r method url q
          ≡ apply_cors r.cors origin_of (if any_match r.routes then not_allowed else not_found)
    unfolding dispatch
    dispatch-none h = rw plain (
        ap (apply_cors r.cors origin_of) (
          ap (λ x. find_route r.routes method x false q) here ∙ find_route-none r.routes false q h))

-- The origins that a configuration lists.
abbrev pub Listed : String → List String → Type 0
Listed x [] = ⊥
Listed x (o ∷ os) = (o ≡ x) ⊎ Listed x os

match_origin-unlisted :
    (os : List String) (origin : String)
    → ¬ Listed "*" os
    → ¬ Listed origin os
    → match_origin os origin ≡ ""
unfolding match_origin
match_origin-unlisted [] origin s h = refl
match_origin-unlisted (o ∷ os) origin s h =
    ground (arith, match_origin-unlisted os origin, eq_iff o "*", eq_iff o origin)

match_origin-Listed :
    (os : List String) (origin : String)
    → Listed origin os
    → (match_origin os origin ≡ "*") ⊎ (match_origin os origin ≡ origin)
unfolding match_origin
match_origin-Listed [] origin h = absurd h
match_origin-Listed (o ∷ os) origin h =
    ground (arith, match_origin-Listed os origin, eq_iff o "*", eq_iff o origin)

-- A response to an origin that is not listed, nor covered by the star, is left as it is.
pub apply_cors-unlisted :
    (cfg : CorsConfig) (origin : String) (resp : Response)
    → ¬ Listed "*" cfg.allow_origins
    → ¬ Listed origin cfg.allow_origins
    → apply_cors (some cfg) origin resp ≡ resp
unfolding apply_cors
apply_cors-unlisted cfg origin resp s h = rw (match_origin-unlisted cfg.allow_origins origin s h)

str_eq_ne : (s t : String) → s ≢ t → str_eq s t ≡ false
str_eq_ne s t h = ground (arith, eq_iff s t)

origin-cors_headers :
    (cfg : CorsConfig) (matched : String) (headers : Dict String)
    → lookup "Access-Control-Allow-Origin" (cors_headers cfg matched headers) ≡ some matched
unfolding cors_headers
origin-cors_headers cfg matched headers = elim (Bool-cases cfg.allow_credentials) [
  | inl on ↦ elim (Bool-cases (str_eq matched "*")) [
    | inl star ↦ simp (on, star, lookup-insert)
    | inr other ↦ simp (on, other, lookup-insert)
  ]
  | inr off ↦ elim (Bool-cases (str_eq matched "*")) [
    | inl star ↦ simp (off, star, lookup-insert)
    | inr other ↦ simp (off, other, lookup-insert)
  ]
]

-- A response to a listed origin that is not empty allows that origin, or every origin.
pub apply_cors-Listed :
    (cfg : CorsConfig) (origin : String) (resp : Response)
    → origin ≢ ""
    → Listed origin cfg.allow_origins
    → (lookup "Access-Control-Allow-Origin" (apply_cors (some cfg) origin resp).headers ≡ some "*")
      ⊎ (lookup "Access-Control-Allow-Origin" (apply_cors (some cfg) origin resp).headers
          ≡ some origin)
unfolding apply_cors
apply_cors-Listed cfg origin resp ne h = elim (match_origin-Listed cfg.allow_origins origin h) [
  | inl star ↦ inl (rw star (origin-cors_headers cfg "*" resp.headers))
  | inr same ↦
      inr (rw same (rw (str_eq_ne origin "" ne) (origin-cors_headers cfg origin resp.headers)))
]
