-- ===== src/HttpAdapter.antt =====
-- adapters/httpstandard: requests and responses of net/http, around a handler or a router.
-- `strings.ToLower` is a parameter.
pub mod Laws
use Prim.Native.String
use protosource.Prelude.{
  ℕ, String, Bool, true, false, Option, none, some, List, [], ◌∷◌, ◌++◌, map, str_eq, if◌then◌else◌,
}
use protosource.Prelude.Dict.{Dict, lookup, insert}
use protosource.Error.{Error, Result, ok, err}
use protosource.Router.Dispatch.{Request, Response, HandlerFunc, Router, dispatch, header_or_empty}

-- What the adapter reads of an `*http.Request`: `io.ReadAll(r.Body)`, `r.PathValue("id")`, and the
-- maps of `r.URL.Query()` and `r.Header`, whose keys are canonical.
pub record HttpRequest : Type 0 where
  pub method : String
  pub url_path : String
  pub host : String
  pub body : Result String
  pub path_id : String
  pub query : Dict (List String)
  pub header : Dict (List String)

-- The calls on the `http.ResponseWriter`, in their order.
pub data Call : Type 0 where
  set_header : (key value : String) → Call
  set_cookie : (cookie : String) → Call
  write_header : (status : ℕ) → Call
  write_string : (body : String) → Call

abbrev pub bad_body : List Call
bad_body =
    set_header "Content-Type" "application/json"
    ∷ write_header 400
    ∷ write_string "{\"error\":\"failed to read request body\"}"
    ∷ []

abbrev pub id_params : String → Dict String
id_params id = if str_eq id "" then [] else ("id", id) ∷ []

-- The loop over the query, on the map made so far: the first value of each key that has one.
unfoldable pub query_from : Dict (List String) → Dict String → Dict String
query_from [] out = out
query_from ((k, []) ∷ query) out = query_from query out
query_from ((k, v ∷ vs) ∷ query) out = query_from query (insert k v out)

-- `r.Header.Get(k)` at a key of the map.
abbrev pub first_value : List String → String
first_value [] = ""
first_value (v ∷ vs) = v

-- The loop over the header, on the map made so far.
unfoldable pub headers_from : (String → String) → Dict (List String) → Dict String → Dict String
headers_from to_lower [] out = out
headers_from to_lower ((k, values) ∷ header) out =
    headers_from to_lower header (insert (to_lower k) (first_value values) out)

abbrev pub set_headers : Dict String → List Call
set_headers [] = []
set_headers ((k, v) ∷ headers) = set_header k v ∷ set_headers headers

-- The end of both adapters: what they do with a response.
unfoldable pub respond : Response → List Call
respond resp =
    set_headers resp.headers
    ++ map set_cookie resp.cookies
    ++ write_header resp.status_code ∷ write_string resp.body ∷ []

unfoldable pub build_request : (String → String) → Dict String → String → HttpRequest → Request
unfolding query_from headers_from
build_request to_lower params body r = record {
  body = body;
  path_parameters = params;
  query_parameters = query_from r.query [];
  headers = insert "host" r.host (headers_from to_lower r.header []);
}

-- Both adapters: the body is read to its end, and then answered.
abbrev pub answer : Result String → (String → Response) → List Call
answer (err _) serve = bad_body
answer (ok body) serve = respond (serve body)

-- `Wrap`
unfoldable pub wrap : (String → String) → HandlerFunc → HttpRequest → List Call
wrap to_lower handler r =
    answer r.body (λ body. handler (build_request to_lower (id_params r.path_id) body r))

-- `WrapRouter`
unfoldable pub wrap_router : (String → String) → Router → HttpRequest → List Call
wrap_router to_lower router r =
    answer r.body (λ body. dispatch router r.method r.url_path (build_request to_lower [] body r))

-- What follows a prefix.
unfoldable pub after_prefix : String → String → Option String
after_prefix String.[] s = some s
after_prefix (String.◌∷◌ c p) String.[] = none
after_prefix (String.◌∷◌ c p) (String.◌∷◌ d s) =
    let rest = after_prefix p s in if str_eq (String.◌∷◌ c "") (String.◌∷◌ d "") then rest else none

-- `BearerTokenExtractor`, which takes seven bytes off: the prefix is ASCII.
unfoldable pub bearer_token_extractor : HttpRequest → String
unfolding after_prefix
bearer_token_extractor r =
    let auth = first_value (values_or_none (lookup "Authorization" r.header)) in
    header_or_empty (after_prefix "Bearer " auth)
  where
    values_or_none : Option (List String) → List String
    values_or_none none = []
    values_or_none (some values) = values
