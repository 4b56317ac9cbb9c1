-- ===== src/Oidc/Accepts.antt =====
-- What each check of oidc.go accepts.
use go_oidc_middleware.Prelude.{◌≡◌, ◌≢◌, ◌↔◌, refl, ◌⊎◌, inl, true, List, [], ◌∷◌, ◌++◌, arith, In}
use go_oidc_middleware.Prelude.Int.{ℤ, ◌+ℤ◌, ◌<ℤ◌, ltb_ℤ_iff}
use go_oidc_middleware.Text.{Str, str}
use go_oidc_middleware.Text.Equality.{==_iff}
use go_oidc_middleware.Text.Prefix.{trim_suffix-byte}
use go_oidc_middleware.Errors.{ok}
use go_oidc_middleware.Platform.{Platform}
use go_oidc_middleware.Oidc.Checks.{
  get_discovery_uri_from_issuer, any_audience, is_token_audience_valid, is_token_expiration_valid,
  is_token_issuer_valid, get_headers_from_token_string, is_token_type_valid,
}
use go_oidc_middleware.Oidc.Signature.{
  get_signature_algorithm, get_signature_algorithm_from_string, get_and_validate_token_from_string,
}

any_audience_iff :
    (required : Str) (audiences : List Str)
    → (any_audience required audiences ≡ true) ↔ In required audiences
unfolding any_audience
any_audience_iff required [] = ((λ h. cc), λ h. elim h [ ])
any_audience_iff required (audience ∷ audiences) =
    ground (arith, ==_iff audience required, any_audience_iff required audiences)

-- An audience is accepted exactly when none is required or the token lists the required one.
pub is_token_audience_valid_iff :
    (required : Str) (audiences : List Str)
    → (is_token_audience_valid required audiences ≡ true)
      ↔ ((required ≡ []) ⊎ In required audiences)
unfolding is_token_audience_valid
is_token_audience_valid_iff [] audiences = ((λ _. inl refl), λ _. refl)
is_token_audience_valid_iff (a ∷ required) audiences =
    ground (arith, any_audience_iff (a ∷ required) audiences)

-- An issuer is accepted exactly when one is required and the token has it.
pub is_token_issuer_valid_iff :
    (required issuer : Str)
    → (is_token_issuer_valid required issuer ≡ true) ↔ ((required ≢ []) × (issuer ≡ required))
unfolding is_token_issuer_valid
is_token_issuer_valid_iff [] issuer = ((λ h. cc), λ h. absurd (h.0 refl))
is_token_issuer_valid_iff (a ∷ required) issuer = ground (arith, ==_iff issuer (a ∷ required))

-- An expiration is accepted exactly when, moved by the allowed drift, it lies after now.
pub is_token_expiration_valid_iff :
    (expiration drift now : ℤ)
    → (is_token_expiration_valid expiration drift now ≡ true) ↔ (now <ℤ expiration +ℤ drift)
unfolding is_token_expiration_valid
is_token_expiration_valid_iff expiration drift now = ltb_ℤ_iff now (expiration +ℤ drift)

-- The discovery address of an issuer that ends in a slash is made without that slash.
pub get_discovery_uri_from_issuer-slash :
    (issuer : Str)
    → get_discovery_uri_from_issuer (issuer ++ str "/")
      ≡ issuer ++ str "/.well-known/openid-configuration"
unfolding get_discovery_uri_from_issuer
get_discovery_uri_from_issuer-slash issuer = rw (trim_suffix-byte issuer b'/')

module _ (p : Platform) where
  open p use {
    Headers, Key, Token, jws_parse_string, header_type, jwt_parse_string, algorithm_accept,
  }

  -- A token type is accepted exactly when none is required or the headers have it.
  pub is_token_type_valid_iff :
      (required : Str) (headers : Headers)
      → (is_token_type_valid p required headers ≡ true)
        ↔ ((required ≡ []) ⊎ (header_type headers ≡ required))
  unfolding is_token_type_valid
  is_token_type_valid_iff [] headers = ((λ _. inl refl), λ _. refl)
  is_token_type_valid_iff (a ∷ required) headers =
      ground (arith, ==_iff (header_type headers) (a ∷ required))

  -- Headers are read exactly from a token string with one signature.
  pub get_headers_from_token_string_iff :
      (token_string : Str) (headers : Headers)
      → (get_headers_from_token_string p token_string ≡ ok headers)
        ↔ (jws_parse_string token_string ≡ ok (headers ∷ []))
  unfolding get_headers_from_token_string
  get_headers_from_token_string_iff token_string headers = ground arith

  -- The algorithm of a key: its own if it names one, else the fallback, else by the key's type.
  abbrev pub AlgorithmOf : Str → Str → Str → Str → Type 0
  AlgorithmOf kty key_alg fallback alg =
      ((key_alg ≢ []) × (algorithm_accept key_alg ≡ ok alg))
      ⊎ ((key_alg ≡ []) × (fallback ≢ []) × (alg ≡ fallback))
      ⊎ ((key_alg ≡ []) × (fallback ≡ []) × (kty ≡ str "RSA") × (alg ≡ str "RS256"))
      ⊎ ((key_alg ≡ []) × (fallback ≡ []) × (kty ≡ str "EC") × (alg ≡ str "ES256"))

  -- The algorithm of a signature is the one the key names, if it is accepted; for a key that names
  -- none it is the fallback, and without a fallback RS256 for RSA and ES256 for EC; in every other
  -- case there is none.
  pub get_signature_algorithm_iff :
      (kty key_alg fallback alg : Str)
      → (get_signature_algorithm p kty key_alg fallback ≡ ok alg)
        ↔ AlgorithmOf kty key_alg fallback alg
  unfolding get_signature_algorithm get_signature_algorithm_from_string
  get_signature_algorithm_iff kty key_alg fallback alg =
      ground (arith, ==_iff kty (str "RSA"), ==_iff kty (str "EC"))

  -- A token is verified exactly when `jwt.ParseString` verifies it.
  pub get_and_validate_token_from_string_iff :
      (token_string : Str) (key : Key) (alg : Str) (token : Token)
      → (get_and_validate_token_from_string p token_string key alg ≡ ok token)
        ↔ (jwt_parse_string token_string alg key ≡ ok token)
  unfolding get_and_validate_token_from_string
  get_and_validate_token_from_string_iff token_string key alg token = ground arith
