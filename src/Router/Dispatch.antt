-- ===== src/Router/Dispatch.antt =====
-- router.go: `Handle`, `Dispatch` and the CORS headers. A handler is a parameter of the model, a
-- function from the request to a response; a nil map is an empty one.
use protosource.Prelude.{
  ℕ, String, Bool, true, false, ◌&&◌, Option, none, some, List, [], ◌∷◌, ◌++◌, str_eq, not,
  if◌then◌else◌,
}
use protosource.Prelude.Dict.{Dict, lookup, insert}
use protosource.Router.Path.{split_path, match_segments}

pub record Request : Type 0 where
  pub body : String
  pub path_parameters : Dict String
  pub query_parameters : Dict String
  pub headers : Dict String

pub record Response : Type 0 where
  pub status_code : ℕ
  pub body : String
  pub headers : Dict String
  pub cookies : List String

abbrev pub HandlerFunc : Type 0
HandlerFunc = Request → Response

pub record CorsConfig : Type 0 where
  pub allow_origins : List String
  pub allow_methods : String
  pub allow_headers : String
  pub allow_credentials : Bool

pub record Route : Type 0 where
  pub method : String
  pub segments : List String
  pub handler : HandlerFunc

pub record Router : Type 0 where
  pub routes : List Route
  pub cors : Option CorsConfig

-- `NewRouter`: each registrar in turn adds its routes.
abbrev register_all : List (Router → Router) → Router → Router
register_all [] r = r
register_all (register ∷ registrars) r = register_all registrars (register r)

abbrev pub new_router : List (Router → Router) → Router
new_router registrars = register_all registrars (record { routes = []; cors = none })

-- `SetCORS`
abbrev pub set_cors : CorsConfig → Router → Router
set_cors cfg r = record r { cors = some cfg }

-- `Handle`
unfoldable pub handle : String → String → HandlerFunc → Router → Router
unfolding split_path
handle method pattern' handler r = record r {
  routes =
      r.routes
      ++ record { method = method; segments = split_path pattern'; handler = handler } ∷ [];
}

-- `matchOrigin`
unfoldable pub match_origin : List String → String → String
match_origin [] origin = ""
match_origin (o ∷ os) origin =
    let rest = match_origin os origin in
    if str_eq o "*" then "*" else if str_eq o origin then origin else rest

-- The headers that `applyCORS` sets once the origin is matched.
unfoldable pub cors_headers : CorsConfig → String → Dict String → Dict String
cors_headers cfg matched headers =
    let h1 = insert "Access-Control-Allow-Headers" cfg.allow_headers (
      insert "Access-Control-Allow-Methods" cfg.allow_methods
        (insert "Access-Control-Allow-Origin" matched headers)) in
    let h2 = if not (str_eq matched "*") then insert "Vary" "Origin" h1 else h1 in
    if cfg.allow_credentials then insert "Access-Control-Allow-Credentials" "true" h2 else h2

-- `applyCORS`
unfoldable pub apply_cors : Option CorsConfig → String → Response → Response
apply_cors none origin resp = resp
apply_cors (some cfg) origin resp =
    let matched = match_origin cfg.allow_origins origin in
    if str_eq matched ""
    then resp
    else record resp { headers = cors_headers cfg matched resp.headers }

-- `for k, v := range params { request.PathParameters[k] = v }`
unfoldable pub merge : Dict String → Dict String → Dict String
merge [] into = into
merge ((k, v) ∷ params) into = merge params (insert k v into)

abbrev pub with_params : Dict String → Request → Request
with_params params q = record q { path_parameters = merge params q.path_parameters }

abbrev pub error_response : ℕ → String → Response
error_response status body = record {
  status_code = status;
  body = body;
  headers = ("Content-Type", "application/json") ∷ [];
  cookies = [];
}

abbrev pub not_allowed : Response
not_allowed = error_response 405 "{\"error\":\"method not allowed\"}"

abbrev pub not_found : Response
not_found = error_response 404 "{\"error\":\"not found\"}"

-- The loop of `Dispatch` over the routes, with the flag that it keeps, up to the CORS headers.
unfoldable pub find_route : List Route → String → List String → Bool → Request → Response
find_route [] method path mismatch q = if mismatch then not_allowed else not_found
find_route (rt ∷ routes) method path mismatch q = elim (match_segments rt.segments path) [
  | none ↦ find_route routes method path mismatch q
  | some params ↦ elim (str_eq rt.method method) [
    | false ↦ find_route routes method path true q
    | true ↦ rt.handler (with_params params q)
  ]
]

abbrev pub header_or_empty : Option String → String
header_or_empty none = ""
header_or_empty (some v) = v

abbrev pub has_cors : Option CorsConfig → Bool
has_cors none = false
has_cors (some _) = true

abbrev pub no_content : Response
no_content = record { status_code = 204; body = ""; headers = []; cookies = [] }

-- `Dispatch`
unfoldable pub dispatch : Router → String → String → Request → Response
dispatch r method path q =
    let origin = header_or_empty (lookup "origin" q.headers) in
    if has_cors r.cors && str_eq method "OPTIONS"
    then apply_cors r.cors origin no_content
    else apply_cors r.cors origin (find_route r.routes method (split_path path) false q)
