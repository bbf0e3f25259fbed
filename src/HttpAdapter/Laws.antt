-- ===== src/HttpAdapter/Laws.antt =====
-- What the adapters of net/http pass to a handler.
use Prim.Native.String
use text.Mathlib.TextLemmas.{nil-append, cons-append}
use protosource.Prelude.{String, ◌≡◌, sym, ap, ◌∙◌, List, ◌∷◌, some, eq_refl}
use protosource.Prelude.Dict.{Dict, lookup, lookup-insert}
use protosource.Router.Dispatch.{Router, dispatch, header_or_empty}
use protosource.HttpAdapter.{
  HttpRequest, build_request, wrap, wrap_router, answer, id_params, bearer_token_extractor,
  after_prefix,
}

-- The handler sees the host of the request, whatever its headers say.
pub lookup-build_request :
    (to_lower : String → String) (params : Dict String) (body : String) (r : HttpRequest)
    → lookup "host" (build_request to_lower params body r).headers ≡ some r.host
unfolding build_request
lookup-build_request to_lower params body r = lookup-insert "host" "host" r.host _

-- For a request without an id in its path pattern, the adapter around a router is the adapter
-- around the handler that dispatches on the request's method and path.
pub wrap_router-wrap :
    (to_lower : String → String) (router : Router) (r : HttpRequest)
    → r.path_id ≡ ""
    → wrap_router to_lower router r ≡ wrap to_lower (dispatch router r.method r.url_path) r
unfolding wrap wrap_router
wrap_router-wrap to_lower router r plain =
    ap
      (λ params.
        answer r.body
          (λ body. dispatch router r.method r.url_path (build_request to_lower params body r)))
      (sym (ap id_params plain))

after_prefix-append : (p s : String) → after_prefix p (String.◌++◌ p s) ≡ some s
unfolding after_prefix
after_prefix-append String.[] s = ap some (nil-append s)
after_prefix-append (String.◌∷◌ c p) s =
    ap (after_prefix (String.◌∷◌ c p)) (cons-append c p s)
    ∙ rw (eq_refl (String.◌∷◌ c "")) (after_prefix-append p s)

-- The token after the prefix is the actor, whatever it is.
pub bearer_token_extractor_lem :
    (token : String) (others : List String) (r : HttpRequest)
    → lookup "Authorization" r.header ≡ some (String.◌++◌ "Bearer " token ∷ others)
    → bearer_token_extractor r ≡ token
unfolding bearer_token_extractor
bearer_token_extractor_lem token others r h =
    rw (h, bearer_token_extractor) (ap header_or_empty (after_prefix-append "Bearer " token))
