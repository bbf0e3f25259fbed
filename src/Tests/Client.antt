-- ===== src/Tests/Client.antt =====
-- The client of httpclient against a server that sends one number.
use protosource.Prelude.{
  ℕ, String, ◌≡◌, refl, inl, inr, ap, sym, ◌∙◌, true, Option, none, some, [], ◌∷◌, arith, str_eq,
  if◌then◌else◌, Bool-cases,
}
use protosource.Prelude.Dict.{lookup}
use protosource.Error.{Result, ok, err, other}
use protosource.Compress.{Bytes}
use protosource.Repository.Stored.{ok-injective}
use protosource.HttpClient.{
  HttpRequest, HttpResponse, Net, Encoding, WireError, HttpClient, done, no_auth, get_into,
}
use protosource.HttpClient.Negotiation.{IsEncoding, get_into-IsAnswer}

abbrev read_tagged : ℕ → Bytes → Result ℕ
read_tagged tag (t ∷ n ∷ []) = ok n
read_tagged tag _ = err (other "bad message")

-- A number after a tag, which tells the encodings apart.
abbrev numbers : Encoding ℕ
numbers = record {
  marshal_json = λ n. ok (0x7b ∷ n ∷ []);
  marshal_proto = λ n. ok (8 ∷ n ∷ []);
  unmarshal_json = read_tagged 0x7b;
  unmarshal_proto = read_tagged 8;
}

numbers-IsEncoding : IsEncoding numbers
numbers-IsEncoding = record {
  restores_json = λ n bytes h. ap (read_tagged 0x7b) (sym (ok-injective h));
  restores_proto = λ n bytes h. ap (read_tagged 8) (sym (ok-injective h));
}

no_errors : Encoding WireError
no_errors = record {
  marshal_json = λ e. err (other "not used");
  marshal_proto = λ e. err (other "not used");
  unmarshal_json = λ b. err (other "not used");
  unmarshal_proto = λ b. err (other "not used");
}

abbrev type_of : Option String → String
type_of none = ""
type_of (some accept) = accept

abbrev bytes_of : String → Bytes
bytes_of accept = if str_eq accept "application/json" then 0x7b ∷ 7 ∷ [] else 8 ∷ 7 ∷ []

abbrev answered : HttpRequest → HttpResponse
answered r = record {
  status = 200;
  content_type = type_of (lookup "Accept" r.headers);
  body = ok (bytes_of (type_of (lookup "Accept" r.headers)));
}

abbrev server : Net
server = record {
  new_request =
      λ method url body. ok (record { method = method; url = url; headers = []; body = body });
  send = λ r. ok (answered r);
  path_escape = λ s. s;
  encode = λ params. "";
  trim_slashes = λ s. s;
  to_lower = λ s. s;
  has_json = λ s. str_eq s "application/json";
  as_text = λ b. "";
}

abbrev client : HttpClient
client = record { base_url = "http://a"; use_json = true; auth = no_auth "me" }

encoded_as :
    (accept : String)
    → (if str_eq accept "application/json" then numbers.marshal_json 7 else numbers.marshal_proto 7)
      ≡ ok (bytes_of accept)
encoded_as accept = elim (Bool-cases (str_eq accept "application/json")) [
  | inl json ↦ rw json refl
  | inr proto ↦ rw proto refl
]

get_into-IsAnswer_example : get_into server no_errors client numbers "http://a/order/7" ≡ done 7
get_into-IsAnswer_example =
    get_into-IsAnswer server (record { json = refl; protobuf = refl }) no_errors client numbers 7
      "http://a/order/7"
      (record { method = "GET"; url = "http://a/order/7"; headers = []; body = [] }) (λ r. r)
      numbers-IsEncoding refl (λ r. refl) (λ r. refl)
      (λ r accept h. (
        answered r,
        refl,
        record {
          success = omega arith;
          same_type = ap type_of h;
          bytes = bytes_of (type_of (lookup "Accept" r.headers));
          arrived = refl;
          encoded = encoded_as accept ∙ ap (λ o. ok (bytes_of (type_of o))) (sym h);
        },
      ))
