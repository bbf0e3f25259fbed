-- ===== src/Authz.antt =====
-- authz and authz/allowall: the contract of authorizers, the identity that they leave in a context,
-- and the authorizer that permits every request. A context is the list of its values, the latest
-- first.
use protosource.Prelude.{String, List, [], ◌∷◌, ◌≡◌, refl}
use protosource.Error.{Error, Result, ok, other}
use protosource.Router.Dispatch.{Request}

pub data CtxKey : Type 0 where
  ctx_key_user_id : CtxKey
  ctx_key_jwt : CtxKey

abbrev pub Values : Type 0
Values = List (CtxKey × String)

-- `Authorizer`: the context, the request and the function that the caller must hold.
pub record Authorizer : Type 0 where
  pub authorize : Values → Request → String → Result Values

abbrev pub err_unauthenticated : Error
err_unauthenticated = other "authz: unauthenticated"

abbrev pub err_forbidden : Error
err_forbidden = other "authz: forbidden"

unfoldable pub with_user_id : String → Values → Values
with_user_id user_id ctx = (ctx_key_user_id, user_id) ∷ ctx

unfoldable pub with_jwt : String → Values → Values
with_jwt jwt ctx = (ctx_key_jwt, jwt) ∷ ctx

unfoldable pub user_id_from_context : Values → String
user_id_from_context [] = ""
user_id_from_context ((ctx_key_user_id, v) ∷ ctx) = v
user_id_from_context ((ctx_key_jwt, v) ∷ ctx) = user_id_from_context ctx

unfoldable pub jwt_from_context : Values → String
jwt_from_context [] = ""
jwt_from_context ((ctx_key_jwt, v) ∷ ctx) = v
jwt_from_context ((ctx_key_user_id, v) ∷ ctx) = jwt_from_context ctx

-- allowall.Authorizer
unfoldable pub allow_all : Authorizer
unfolding with_user_id
allow_all = record { authorize = λ ctx request required_function. ok (with_user_id "Unknown" ctx) }

-- It permits every request, under one user's name, and keeps the JWT.
allow_all_lem :
    (ctx : Values) (request : Request) (required_function : String)
    → (after : Values) × (allow_all.authorize ctx request required_function ≡ ok after)
      × (user_id_from_context after ≡ "Unknown")
      × (jwt_from_context after ≡ jwt_from_context ctx)
unfolding allow_all user_id_from_context jwt_from_context
allow_all_lem ctx request required_function = (with_user_id "Unknown" ctx, refl, refl, refl)
