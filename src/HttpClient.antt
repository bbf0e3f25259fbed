-- ===== src/HttpClient.antt =====
-- httpclient: the client of the generated handlers. net/http, net/url, strings and protobuf are
-- parameters.
pub mod Negotiation
use Prim.Native.String.{◌++◌ as ◌concat◌}
use protosource.Prelude.{
  ℕ, String, Bool, true, false, Option, none, some, List, [], ◌∷◌, leb, str_eq, if◌then◌else◌,
}
use protosource.Prelude.Dict.{Dict, insert}
use protosource.Error.{Error, Result, ok, err, wrap}
use protosource.Compress.{Bytes}

pub record HttpRequest : Type 0 where
  pub method : String
  pub url : String
  pub headers : Dict String
  pub body : Bytes

-- http.Response, with the result of reading its body.
pub record HttpResponse : Type 0 where
  pub status : ℕ
  pub content_type : String
  pub body : Result Bytes

-- `http.NewRequestWithContext`, `Do` of an http.Client, `url.PathEscape`, `Encode` of url.Values,
-- `strings.TrimRight(s, "/")`, `strings.ToLower`, `strings.Contains(s, "json")`, `string(bytes)`.
pub record Net : Type 0 where
  pub new_request : String → String → Bytes → Result HttpRequest
  pub send : HttpRequest → Result HttpResponse
  pub path_escape : String → String
  pub encode : Dict String → String
  pub trim_slashes : String → String
  pub to_lower : String → String
  pub has_json : String → Bool
  pub as_text : Bytes → String

-- `AuthProvider`
pub record AuthProvider : Type 0 where
  pub authenticate : HttpRequest → Result HttpRequest
  pub actor : String

-- proto and protojson on messages of one type.
pub record Encoding (M : Type 0) : Type 0 where
  pub marshal_json : M → Result Bytes
  pub marshal_proto : M → Result Bytes
  pub unmarshal_json : Bytes → Result M
  pub unmarshal_proto : Bytes → Result M

-- Reflection on a command: its name, and field 2 where it is a string.
pub record Reflection (C : Type 0) : Type 0 where
  pub name : C → String
  pub set_field2 : C → Option (String → C)

-- apierrorv1.Error
pub record WireError : Type 0 where
  pub code : String
  pub message : String
  pub detail : String

-- `APIError`
pub record ApiError : Type 0 where
  pub status_code : ℕ
  pub code : String
  pub message : String
  pub detail : String

-- What a call returns: a value, an APIError, or another error.
pub data Outcome (A : Type 0) : Type 0 where
  done : A → Outcome A
  refused : ApiError → Outcome A
  failed : Error → Outcome A

abbrev pub or_fail : {A B : Type 0} → String → Result A → (A → Outcome B) → Outcome B
or_fail msg (ok a) next = next a
or_fail msg (err e) next = failed (wrap msg e)

pub record HttpClient : Type 0 where
  pub base_url : String
  pub use_json : Bool
  pub auth : AuthProvider

-- `WithJSON`
abbrev pub with_json : HttpClient → HttpClient
with_json c = record c { use_json = true }

abbrev configure : List (HttpClient → HttpClient) → HttpClient → HttpClient
configure [] c = c
configure (opt ∷ opts) c = configure opts (opt c)

-- `BearerTokenAuth`
unfoldable pub bearer_token_auth : String → String → AuthProvider
bearer_token_auth token actor = record {
  authenticate =
      λ r. ok (record r { headers = insert "Authorization" ("Bearer " concat token) r.headers });
  actor = actor;
}

-- `NoAuth`
abbrev pub no_auth : String → AuthProvider
no_auth actor = record { authenticate = λ r. ok r; actor = actor }

unfoldable pub set_actor_field : {C : Type 0} → Reflection C → C → String → C
set_actor_field reflection cmd actor = elim (reflection.set_field2 cmd) [
  | none ↦ cmd
  | some set ↦ set actor
]

unfoldable pub accept_header : HttpClient → String
accept_header c = if c.use_json then "application/json" else "application/protobuf"

unfoldable pub marshal : {M : Type 0} → HttpClient → Encoding M → M → Result Bytes
marshal c encoding msg =
    if c.use_json then encoding.marshal_json msg else encoding.marshal_proto msg

module _ (net : Net) where
  -- `New`, and its options one after the other.
  abbrev new_client : String → AuthProvider → List (HttpClient → HttpClient) → HttpClient
  new_client base_url auth opts =
      configure opts
        (record { base_url = net.trim_slashes base_url; use_json = false; auth = auth })

  unfoldable pub unmarshal : {M : Type 0} → Encoding M → Bytes → String → Outcome M
  unmarshal encoding body content_type =
      if net.has_json content_type
      then or_fail "httpclient: unmarshal json" (encoding.unmarshal_json body) done
      else or_fail "httpclient: unmarshal protobuf" (encoding.unmarshal_proto body) done

  abbrev unknown_error : ℕ → Bytes → ApiError
  unknown_error status body = record {
    status_code = status;
    code = "UNKNOWN";
    message = net.as_text body;
    detail = "";
  }

  abbrev of_wire : ℕ → Bytes → Result WireError → ApiError
  of_wire status body (err e) = unknown_error status body
  of_wire status body (ok wire) =
      if str_eq wire.code "" then unknown_error status body else record {
        status_code = status;
        code = wire.code;
        message = wire.message;
        detail = wire.detail;
      }

  -- `parseAPIError`
  unfoldable pub parse_api_error : Encoding WireError → ℕ → String → Bytes → ApiError
  parse_api_error errors status content_type body = of_wire status body (
      if net.has_json content_type then errors.unmarshal_json body else errors.unmarshal_proto body)

  module _ (errors : Encoding WireError) (c : HttpClient) where
    -- What `Apply` and `getInto` share: the request is authenticated and sent, and its response read.
    unfoldable pub exchange : {M : Type 0} → Encoding M → HttpRequest → Outcome M
    unfolding unmarshal parse_api_error
    exchange encoding request =
        or_fail "httpclient: authenticate" (c.auth.authenticate request) (λ signed.
          or_fail "httpclient: do request" (net.send signed) (λ response.
            or_fail "httpclient: read response" response.body (λ body.
              if leb 400 response.status
              then refused (parse_api_error errors response.status response.content_type body)
              else unmarshal encoding body response.content_type)))

    -- `getInto`
    unfoldable pub get_into : {M : Type 0} → Encoding M → String → Outcome M
    unfolding exchange accept_header
    get_into encoding url =
        or_fail "httpclient: create request" (net.new_request "GET" url []) (λ request.
          exchange encoding
            (record request { headers = insert "Accept" (accept_header c) request.headers }))

    -- `Apply`
    unfoldable pub apply :
        {C R : Type 0} → Reflection C → Encoding C → Encoding R → String → C → Outcome R
    unfolding exchange set_actor_field marshal accept_header
    apply reflection commands responses route_path cmd =
        let cmd' = set_actor_field reflection cmd c.auth.actor in
        let url =
          c.base_url
          concat ("/"
              concat (route_path concat ("/" concat net.to_lower (reflection.name cmd')))) in
        or_fail "httpclient: marshal command" (marshal c commands cmd') (λ body.
          or_fail "httpclient: create request" (net.new_request "POST" url body) (λ request.
            exchange responses (record request {
              headers =
                  insert "Accept" (accept_header c)
                    (insert "Content-Type" (accept_header c) request.headers);
            })))

    abbrev route_url : String → String → String
    route_url route_path rest = c.base_url concat ("/" concat (route_path concat ("/" concat rest)))

    -- `Load`, `Get` and `History`
    unfoldable pub load : {M : Type 0} → Encoding M → String → String → Outcome M
    unfolding get_into
    load encoding route_path id =
        get_into encoding (route_url route_path ("load/" concat net.path_escape id))

    unfoldable pub get : {M : Type 0} → Encoding M → String → String → Outcome M
    unfolding get_into
    get encoding route_path id = get_into encoding (route_url route_path (net.path_escape id))

    unfoldable pub history : {H : Type 0} → Encoding H → String → String → Outcome H
    unfolding get_into
    history encoding route_path id =
        get_into encoding (route_url route_path (net.path_escape id concat "/history"))

    -- `Query`
    unfoldable pub query : {M : Type 0} → Encoding M → String → String → Dict String → Outcome M
    unfolding get_into
    query encoding route_path query_path [] =
        get_into encoding (route_url route_path ("query/" concat net.path_escape query_path))
    query encoding route_path query_path (p ∷ params) = get_into encoding (
        route_url route_path ("query/" concat net.path_escape query_path)
        concat ("?" concat net.encode (p ∷ params)))
