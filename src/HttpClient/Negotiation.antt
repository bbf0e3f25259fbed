-- ===== src/HttpClient/Negotiation.antt =====
-- The client of httpclient against a server that answers in the encoding that `Accept` asks for.
use protosource.Prelude.{
  ℕ, ◌<◌, String, ◌≡◌, refl, ◌∙◌, inl, inr, true, false, some, [], arith, leb, str_eq, Bool-cases,
  if◌then◌else◌,
}
use protosource.Prelude.Dict.{lookup, insert, lookup-insert}
use protosource.Error.{ok}
use protosource.Compress.{Bytes}
use protosource.HttpClient.{
  HttpRequest, HttpResponse, Net, Encoding, WireError, done, HttpClient, accept_header, unmarshal,
  exchange, get_into,
}

-- `strings.Contains` on the two content types, and a message from its bytes in either encoding.
pub record IsNet (net : Net) : Type 0 where
  pub json : net.has_json "application/json" ≡ true
  pub protobuf : net.has_json "application/protobuf" ≡ false

pub record IsEncoding {M : Type 0} (encoding : Encoding M) : Type 0 where
  pub restores_json :
      (m : M) (bytes : Bytes)
      → encoding.marshal_json m ≡ ok bytes
      → encoding.unmarshal_json bytes ≡ ok m
  pub restores_proto :
      (m : M) (bytes : Bytes)
      → encoding.marshal_proto m ≡ ok bytes
      → encoding.unmarshal_proto bytes ≡ ok m

-- A response with a message, in the encoding that the request accepts.
pub record IsAnswer {M : Type 0} (encoding : Encoding M) (m : M) (accept : String)
    (response : HttpResponse) : Type 0 where
  pub success : response.status < 400
  pub same_type : response.content_type ≡ accept
  pub bytes : Bytes
  pub arrived : response.body ≡ ok bytes
  pub encoded :
      (if str_eq accept "application/json"
        then encoding.marshal_json m
        else encoding.marshal_proto m)
      ≡ ok bytes

not_refused : (n : ℕ) → n < 400 → leb 400 n ≡ false
not_refused n h = ground arith

module _ (net : Net) (contains : IsNet net) (errors : Encoding WireError) (c : HttpClient) where
  unmarshal-IsAnswer :
      {M : Type 0} (encoding : Encoding M) (m : M) (response : HttpResponse)
      → IsEncoding encoding
      → (h : IsAnswer encoding m (accept_header c) response)
      → unmarshal net encoding h.bytes response.content_type ≡ done m
  unfolding unmarshal accept_header
  unmarshal-IsAnswer encoding m response laws h = elim (Bool-cases c.use_json) [
    | inl json ↦
        let kind : response.content_type ≡ "application/json" = h.same_type ∙ rw json refl in
        let bytes = laws.restores_json m h.bytes (rw (json, accept_header) at h.encoded) in
        rw (kind, contains.json, bytes, unmarshal) refl
    | inr proto ↦
        let kind : response.content_type ≡ "application/protobuf" = h.same_type ∙ rw proto refl in
        let bytes = laws.restores_proto m h.bytes (rw (proto, accept_header) at h.encoded) in
        rw (kind, contains.protobuf, bytes, unmarshal) refl
  ]

  -- `Load`, `Get`, `History` and `Query` return the message that the server sent, where the request
  -- can be made, its authentication keeps the header `Accept`, and the server answers with a status
  -- below 400 in the encoding that this header names.
  pub get_into-IsAnswer :
      {M : Type 0} (encoding : Encoding M) (m : M) (url : String)
      → (request : HttpRequest) (sign : HttpRequest → HttpRequest) → IsEncoding encoding
      → net.new_request "GET" url [] ≡ ok request
      → ((r : HttpRequest) → c.auth.authenticate r ≡ ok (sign r))
      → ((r : HttpRequest) → lookup "Accept" (sign r).headers ≡ lookup "Accept" r.headers)
      → ((r : HttpRequest) (accept : String)
          → lookup "Accept" r.headers ≡ some accept
          → (response : HttpResponse) × (net.send r ≡ ok response)
            × IsAnswer encoding m accept response)
      → get_into net errors c encoding url ≡ done m
  unfolding get_into exchange
  get_into-IsAnswer encoding m url request sign laws made signed kept answers =
      let sent : HttpRequest = record request {
        headers = insert "Accept" (accept_header c) request.headers;
      } in
      let asked : lookup "Accept" (sign sent).headers ≡ some (accept_header c) =
        kept sent ∙ lookup-insert "Accept" "Accept" (accept_header c) request.headers in
      let (response, answer, h) = answers (sign sent) (accept_header c) asked in
      let fine : leb 400 response.status ≡ false = not_refused response.status h.success in
      rw (made, signed sent, answer, h.arrived, fine, get_into, exchange)
        (unmarshal-IsAnswer encoding m response laws h)
