-- ===== src/Adapter.antt =====
-- adapters/awslambda: requests and responses of API Gateway, around a handler or a router. Base64,
-- `strings.ToLower` and the text of a cookie are parameters.
pub mod Laws
use protosource.Prelude.{
  ℕ, String, Bool, true, false, ◌||◌, List, [], ◌∷◌, Option, none, some, str_eq, if◌then◌else◌,
}
use protosource.Prelude.Dict.{Dict, lookup, insert}
use protosource.Error.{Result, ok, err, ◌>>=◌}
use protosource.Router.Dispatch.{
  Request, Response, HandlerFunc, Router, dispatch, header_or_empty, error_response,
}

-- The fields of events.APIGatewayProxyRequest and APIGatewayProxyResponse that the adapter uses. A
-- map that is nil and one that is empty read alike.
pub record ProxyRequest : Type 0 where
  pub http_method : String
  pub path : String
  pub body : String
  pub is_base64_encoded : Bool
  pub path_parameters : Dict String
  pub query_string_parameters : Dict String
  pub headers : Dict String

pub record ProxyResponse : Type 0 where
  pub status_code : ℕ
  pub headers : Dict String
  pub multi_value_headers : Dict (List String)
  pub body : String
  pub is_base64_encoded : Bool

pub record Base64 : Type 0 where
  pub encode_to_string : String → String
  pub decode_string : String → Result String

-- The loop of `lowercaseHeaders`, on the map made so far.
unfoldable pub lowercase_from : (String → String) → Dict String → Dict String → Dict String
lowercase_from to_lower [] out = out
lowercase_from to_lower ((k, v) ∷ headers) out =
    lowercase_from to_lower headers (insert (to_lower k) v out)

-- `lowercaseHeaders`
unfoldable pub lowercase_headers : (String → String) → Dict String → Dict String
unfolding lowercase_from
lowercase_headers to_lower headers = lowercase_from to_lower headers []

-- The texts of the cookies that are valid; another has the empty text.
unfoldable pub set_cookies : List String → List String
set_cookies [] = []
set_cookies (text ∷ texts) =
    let rest = set_cookies texts in if str_eq text "" then rest else text ∷ rest

abbrev pub multi_values : List String → Dict (List String)
multi_values [] = []
multi_values (text ∷ texts) = ("Set-Cookie", text ∷ texts) ∷ []

unfoldable pub is_binary : String → Bool
is_binary content_type =
    str_eq content_type "application/protobuf" || str_eq content_type "application/octet-stream"

module _ (base64 : Base64) (to_lower : String → String) where
  abbrev pub decode_body : ProxyRequest → Result String
  decode_body q = if q.is_base64_encoded then base64.decode_string q.body else ok q.body

  -- `decodeRequest`
  unfoldable pub decode_request : ProxyRequest → Result Request
  unfolding lowercase_headers
  decode_request q = decode_body q >>= λ body. ok (record {
    body = body;
    path_parameters = q.path_parameters;
    query_parameters = q.query_string_parameters;
    headers = lowercase_headers to_lower q.headers;
  })

  -- `encodeResponse`
  unfoldable pub encode_response : Response → ProxyResponse
  unfolding set_cookies is_binary
  encode_response resp =
      let binary = is_binary (header_or_empty (lookup "Content-Type" resp.headers)) in
      record {
        status_code = resp.status_code;
        headers = resp.headers;
        multi_value_headers = multi_values (set_cookies resp.cookies);
        body = if binary then base64.encode_to_string resp.body else resp.body;
        is_base64_encoded = binary;
      }

  abbrev pub bad_request : Response
  bad_request = error_response 400 "{\"error\":\"failed to decode base64 request body\"}"

  -- `Adapter.Handle`
  unfoldable pub handle : HandlerFunc → ProxyRequest → ProxyResponse
  handle handler q = elim (decode_request q) [
    | err _ ↦ encode_response bad_request
    | ok r ↦ encode_response (handler r)
  ]

  -- `WrapRouter`
  unfoldable pub wrap_router : Router → ProxyRequest → ProxyResponse
  wrap_router router q = elim (decode_request q) [
    | err _ ↦ encode_response bad_request
    | ok r ↦ encode_response (dispatch router q.http_method q.path r)
  ]
