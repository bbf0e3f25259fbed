-- ===== src/Adapter/Laws.antt =====
-- What the adapter passes to the handler, and what the client gets.
use protosource.Prelude.{
  String, Bool, true, false, ◌≡◌, ◌⊎◌, refl, ap, ◌∙◌, [], ◌∷◌, Option, none, some, str_eq,
  if◌then◌else◌, inl, inr, Bool-cases,
}
use protosource.Prelude.Dict.{Dict, lookup, insert, lookup-insert}
use protosource.Error.{Error, Result, ok, err}
use protosource.Repository.Stored.{Result-cases}
use protosource.Router.Matching.{or_else, or_else-none}
use protosource.Router.Dispatch.{Request, Response, HandlerFunc, Router, dispatch, header_or_empty}
use protosource.Adapter.{
  ProxyRequest, ProxyResponse, Base64, lowercase_from, lowercase_headers, decode_request,
  decode_body, encode_response, is_binary, handle, wrap_router,
}

-- The value of the last header whose name is `name` in lower case.
abbrev pub last_named : (String → String) → String → Dict String → Option String
last_named to_lower name [] = none
last_named to_lower name ((k, v) ∷ headers) =
    or_else (last_named to_lower name headers) (if str_eq (to_lower k) name then some v else none)

or_else-test :
    (a : Option String) (b : Bool) (v : String) (o : Option String)
    → or_else a (if b then some v else o) ≡ or_else (or_else a (if b then some v else none)) o
or_else-test none true v o = refl
or_else-test none false v o = refl
or_else-test (some w) b v o = refl

lookup-lowercase_from :
    (to_lower : String → String) (name : String) (headers out : Dict String)
    → lookup name (lowercase_from to_lower headers out)
      ≡ or_else (last_named to_lower name headers) (lookup name out)
unfolding lowercase_from
lookup-lowercase_from to_lower name [] out = refl
lookup-lowercase_from to_lower name ((k, v) ∷ headers) out =
    lookup-lowercase_from to_lower name headers (insert (to_lower k) v out)
    ∙ ap (or_else (last_named to_lower name headers)) (lookup-insert (to_lower k) name v out)
    ∙ or_else-test (last_named to_lower name headers) (str_eq (to_lower k) name) v (lookup name out)

-- A name in lower case has the value of the last header that is spelled like it in some case, and
-- none where there is no such header.
pub lookup-lowercase_headers :
    (to_lower : String → String) (name : String) (headers : Dict String)
    → lookup name (lowercase_headers to_lower headers) ≡ last_named to_lower name headers
unfolding lowercase_headers lookup
lookup-lowercase_headers to_lower name headers =
    lookup-lowercase_from to_lower name headers [] ∙ or_else-none (last_named to_lower name headers)

module _ (base64 : Base64) (to_lower : String → String) where
  -- The body as a client of the gateway reads it.
  abbrev pub received : ProxyResponse → Result String
  received p = if p.is_base64_encoded then base64.decode_string p.body else ok p.body

  received_encoded :
      ((s : String) → base64.decode_string (base64.encode_to_string s) ≡ ok s)
      → (resp : Response) → received (encode_response base64 to_lower resp) ≡ ok resp.body
  unfolding encode_response
  received_encoded restores resp =
      elim (Bool-cases (is_binary (header_or_empty (lookup "Content-Type" resp.headers)))) [
        | inl binary ↦ rw (binary, encode_response) (restores resp.body)
        | inr text ↦ rw (text, encode_response) refl
      ]

  -- With a base64 that decodes what it encodes: the client receives the handler's body and status
  -- for every body that can be decoded, and otherwise status 400.
  pub received-handle :
      ((s : String) → base64.decode_string (base64.encode_to_string s) ≡ ok s)
      → (handler : HandlerFunc) (q : ProxyRequest)
      → ((r : Request) × (decode_request base64 to_lower q ≡ ok r)
          × (received (handle base64 to_lower handler q) ≡ ok (handler r).body)
          × ((handle base64 to_lower handler q).status_code ≡ (handler r).status_code))
        ⊎ ((e : Error) × (decode_body base64 to_lower q ≡ err e)
            × ((handle base64 to_lower handler q).status_code ≡ 400))
  unfolding handle encode_response decode_request
  received-handle restores handler q = elim (Result-cases (decode_body base64 to_lower q)) [
    | inr (e, failed) ↦ inr (e, failed, rw (failed, handle) refl)
    | inl (body, decoded) ↦
        let r : Request = record {
          body = body;
          path_parameters = q.path_parameters;
          query_parameters = q.query_string_parameters;
          headers = lowercase_headers to_lower q.headers;
        } in
        inl (
          r,
          rw (decoded, decode_request) refl,
          rw (decoded, handle) (received_encoded restores (handler r)),
          rw (decoded, handle) refl,
        )
  ]

  -- The adapter around a router is the adapter around the handler that dispatches on the request's
  -- method and path.
  pub wrap_router-handle :
      (router : Router) (q : ProxyRequest)
      → wrap_router base64 to_lower router q
        ≡ handle base64 to_lower (dispatch router q.http_method q.path) q
  unfolding wrap_router handle
  wrap_router-handle router q = refl
