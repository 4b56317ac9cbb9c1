-- ===== src/Op/Issued.antt =====
-- The tokens that the provider has issued: what its endpoint for user information answers them.
pub mod Claims
pub mod Signed
pub mod Access
pub mod Answered
pub mod Kept
pub mod Opaque
pub mod Refused
use go_oidc_middleware.Prelude.{
  ℕ, ◌<◌, ◌≡◌, ◌≢◌, refl, sym, ap, ◌∙◌, subst, Bool, true, false, not, Option, none, some, List, [],
  ◌∷◌, ◌++◌, arith, inl, inr, Option-cases, Bool-cases, length, get_elem?, In, if◌then◌else◌,
}
use go_oidc_middleware.Prelude.Int.{ℤ}
use go_oidc_middleware.Text.{Str, str, is_empty, ◌==◌}
use go_oidc_middleware.Text.Equality.{==_refl, ==_iff}
use go_oidc_middleware.Errors.{Result, ok, err, External, Result-cases}
use go_oidc_middleware.Op.Services.{Services}
use go_oidc_middleware.Op.Action.{
  OpError, not_access_token, Action, continue, ◌>>=◌, from_external, from_keys,
}
use go_oidc_middleware.Op.Keys.{
  JwksHandler, add_all, last_key, get_private_key, get_public_key, get_public_key_set,
}
use go_oidc_middleware.Op.Keys.Aligned.{IsAligned, get_private_key-get_public_key}
use go_oidc_middleware.Op.Tokens.{
  TestUser, OpTest, State, lookup, set_all, access_token_claims, id_token_claims, token_headers,
  unsigned_token, sign_with, new_access_token, new_id_token, new_userinfo_claims,
}
use go_oidc_middleware.Op.UserInfo.{get_user_info_from_jwt_token, text_of}

-- What is documented of the packages jwt and jws. A private claim is one that the package gives no
-- type of its own, such as `id`; `IsTimely` is the validation of the times of a token, and `IsPair`
-- says that the second key is the public key of the first.
pub record IsJwt (s : Services) : Type 1 where
  pub IsTimely : s.Token → s.World → Type 0
  pub IsPair : s.Key → s.Key → Type 0
  pub as_text_text : (t : Str) → s.as_text (s.text t) ≡ some t
  pub token_get_id :
      (k : Str) (v : s.Value) (t t' : s.Token)
      → s.token_set k v t ≡ ok t'
      → s.token_get (str "id") t' ≡ (if str "id" == k then some v else s.token_get (str "id") t)
  pub headers_get_jwt_typ :
      (k : Str) (v : s.Value) (h h' : s.Headers)
      → s.headers_set k v h ≡ ok h'
      → s.headers_get (str "jwt_typ") h'
        ≡ (if str "jwt_typ" == k then some v else s.headers_get (str "jwt_typ") h)
  pub headers_get_kid :
      (k : Str) (v : s.Value) (h h' : s.Headers)
      → s.headers_set k v h ≡ ok h'
      → s.headers_get (str "kid") h'
        ≡ (if str "kid" == k then some v else s.headers_get (str "kid") h)
  -- a signed token has one signature, with the headers given and others of the package
  pub signed_once :
      (t : s.Token) (k : s.Key) (h : s.Headers) (w w' : s.World) (access : Str)
      → s.sign t k h w ≡ (ok access, w')
      → (h' : s.Headers) × (s.jws_parse_string access ≡ ok (h' ∷ []))
        × (s.headers_get (str "jwt_typ") h' ≡ s.headers_get (str "jwt_typ") h)
  -- a token that is signed with the identifier of its key in the headers is verified with a set in
  -- which keys of that identifier exist and all are the public key of that pair
  pub verified :
      (t : s.Token) (k q : s.Key) (qs : List s.Key) (h : s.Headers) (w w' w'' : s.World)
      (access : Str)
      → s.sign t k h w ≡ (ok access, w')
      → s.headers_get (str "kid") h ≡ some (s.text (s.key_id k))
      → In q qs
      → s.key_id k ≡ s.key_id q
      → ((q' : s.Key) → In q' qs → s.key_id k ≡ s.key_id q' → IsPair k q')
      → IsTimely t w''
      → (t' : s.Token) × (s.jwt_parse access (add_all s.crypto qs s.new_set) w'' ≡ ok t')
        × (s.token_get (str "id") t' ≡ s.token_get (str "id") t)
