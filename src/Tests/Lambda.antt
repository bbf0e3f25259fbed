-- ===== src/Tests/Lambda.antt =====
-- The adapter at concrete inputs, with a base64 that marks a text with its first character.
use protosource.Prelude.{String, ◌≡◌, ◌⊎◌, refl, [], ◌∷◌, true}
use protosource.Error.{Error, Result, ok, err, other}
use protosource.Router.Dispatch.{Request, HandlerFunc}
use protosource.Adapter.{ProxyRequest, Base64, decode_request, decode_body, handle}
use protosource.Adapter.Laws.{received, received-handle}

unmark : String → Result String
unmark String.[] = err (other "illegal base64 data")
unmark (String.◌∷◌ c s) = ok s

abbrev marked : Base64
marked = record { encode_to_string = λ s. String.◌∷◌ "=" s; decode_string = unmark }

abbrev upload : ProxyRequest
upload = record {
  http_method = "POST";
  path = "/orders";
  body = "=data";
  is_base64_encoded = true;
  path_parameters = [];
  query_string_parameters = [];
  headers = ("Origin", "https://a.com") ∷ [];
}

abbrev echo : HandlerFunc
echo = λ q. record {
  status_code = 200;
  body = q.body;
  headers = ("Content-Type", "application/protobuf") ∷ [];
  cookies = [];
}

received-handle_example :
    ((r : Request) × (decode_request marked (λ s. s) upload ≡ ok r)
      × (received marked (λ s. s) (handle marked (λ s. s) echo upload) ≡ ok (echo r).body)
      × ((handle marked (λ s. s) echo upload).status_code ≡ 200))
    ⊎ ((e : Error) × (decode_body marked (λ s. s) upload ≡ err e)
        × ((handle marked (λ s. s) echo upload).status_code ≡ 400))
unfolding unmark
received-handle_example = received-handle marked (λ s. s) (λ s. refl) echo upload
