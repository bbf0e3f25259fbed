-- ===== src/Tests/Http.antt =====
-- The adapters of net/http at a concrete input.
use protosource.Prelude.{◌≡◌, refl, [], ◌∷◌}
use protosource.Prelude.Dict.{lookup}
use protosource.Error.{ok}
use protosource.HttpAdapter.{HttpRequest, bearer_token_extractor}
use protosource.HttpAdapter.Laws.{bearer_token_extractor_lem}

abbrev get : HttpRequest
get = record {
  method = "GET";
  url_path = "/orders/7";
  host = "a.com";
  body = ok "";
  path_id = "";
  query = [];
  header = ("Host", "b.com" ∷ []) ∷ ("Authorization", "Bearer me" ∷ []) ∷ [];
}

token_of_get : bearer_token_extractor get ≡ "me"
unfolding lookup
token_of_get = bearer_token_extractor_lem "me" [] get refl
