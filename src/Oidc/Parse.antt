-- ===== src/Oidc/Parse.antt =====
-- `ParseToken`: from a token string to validated claims.
use go_oidc_middleware.Prelude.{Bool, not, ◌&&◌, none, some, [], if◌then◌else◌}
use go_oidc_middleware.Text.{Str}
use go_oidc_middleware.Errors.{
  Error, external, nil_dereference, unable_to_load_jwks, token_type_required,
  token_algorithm_required, unable_to_get_public_key, token_has_expired, issuer_not_found,
  audience_not_found, unable_to_convert_to_claims, claims_validation, unable_to_convert_token,
  unable_to_marshal, unable_to_unmarshal, Result, ok, err, External, map_err, Exec, ◌>>=◌, ◌>>◌,
  pure, lift, wrap, require,
}
use go_oidc_middleware.Platform.{Platform}
use go_oidc_middleware.KeyHandler.{KeyHandler, get_key, wait_for_update_key_set_and_get_key}
use go_oidc_middleware.Oidc.Checks.{
  get_key_id_from_token_header, get_token_algorithm_from_token_header,
  get_headers_from_token_string, is_token_audience_valid, is_token_expiration_valid,
  is_token_issuer_valid, is_token_type_valid,
}
use go_oidc_middleware.Oidc.Signature.{
  is_signature_verification, get_signature_algorithm, get_and_validate_token_from_string,
}
use go_oidc_middleware.Oidc.Handler.{Handler, HandlerState, load_jwks}

module _ (p : Platform) (T : Type 0) (json_unmarshal : Str → External T) where
  open p use {
    Headers, Key, Token, World, key_type, key_algorithm, token_expiration, token_issuer,
    token_audience, token_as_map, json_marshal, now,
  }

  abbrev pub M : Type 0 → Type 0
  M = Exec (HandlerState p T)

  -- A call of a method of `h.keyHandler`; on a nil pointer it panics.
  unfoldable pub on_key_handler : {A : Type 0} → Exec (KeyHandler p × World) A → M A
  on_key_handler m (h, w) = elim h.key_handler [
    | none ↦ (err nil_dereference, (h, w))
    | some k ↦ let (r, (k', w')) = m (k, w) in (r, (record h { key_handler = some k' }, w'))
  ]

  -- `if h.keyHandler == nil { … loadJwks … }`
  unfoldable pub ensure_key_handler : M Unit
  ensure_key_handler (h, w) = elim h.key_handler [
    | some _ ↦ (ok tt, (h, w))
    | none ↦ wrap unable_to_load_jwks (load_jwks p T) (h, w)
  ]

  -- The key identifier of the token, or none where identifiers are disabled.
  unfoldable pub token_key_id : Bool → Headers → Result Error Str
  token_key_id disabled token_headers =
      if not disabled then get_key_id_from_token_header p token_headers else ok []

  -- The checks of the headers: the key identifier and the algorithm.
  unfoldable pub read_headers : Str → M (Str × Str)
  read_headers token_string (h, w) =
      (do
        token_headers ← lift (get_headers_from_token_string p token_string)
        require (is_token_type_valid p h.required_token_type token_headers)
            (token_type_required h.required_token_type)
        key_id ← lift (token_key_id h.disable_key_id token_headers)
        token_algorithm ← lift (
            map_err token_algorithm_required
              (get_token_algorithm_from_token_header p token_headers))
        pure (key_id, token_algorithm))
        (h, w)

  -- The second attempt, with the key of an updated key set. As in the source, the algorithm is
  -- taken from the key that failed.
  unfoldable pub retry_with_updated_key : Str → Key → M Token
  retry_with_updated_key token_string key (h, w) =
      (do
        updated_key ← on_key_handler (wait_for_update_key_set_and_get_key p)
        alg ← lift (
            get_signature_algorithm p (key_type key) (key_algorithm key)
              h.fallback_signature_algorithm)
        lift (get_and_validate_token_from_string p token_string updated_key alg))
        (h, w)

  -- After the first attempt: the token, an error, or a second attempt.
  unfoldable pub retry_or_return : Str → Key → Result Error Token → M Token
  retry_or_return token_string key (ok token) s = (ok token, s)
  retry_or_return token_string key (err e) (h, w) =
      if h.disable_key_id && is_signature_verification e
      then retry_with_updated_key token_string key (h, w)
      else (err e, (h, w))

  unfoldable pub verify_signature : Str → Key → M Token
  verify_signature token_string key (h, w) =
      (do
        alg ← lift (
            get_signature_algorithm p (key_type key) (key_algorithm key)
              h.fallback_signature_algorithm)
        retry_or_return token_string key
            (get_and_validate_token_from_string p token_string key alg))
        (h, w)

  unfoldable pub jwt_token_to_claims : Token → Result Error T
  jwt_token_to_claims token = elim (token_as_map token) [
    | err text ↦ err (unable_to_convert_token (external text))
    | ok raw_claims ↦ elim (json_marshal raw_claims) [
      | err text ↦ err (unable_to_marshal (external text))
      | ok claims_bytes ↦ elim (json_unmarshal claims_bytes) [
        | err text ↦ err (unable_to_unmarshal (external text))
        | ok claims ↦ ok claims
      ]
    ]
  ]

  unfoldable pub validate_claims : Handler p T → T → Result Error Unit
  validate_claims h claims = elim h.claims_validation_fn [
    | none ↦ ok tt
    | some validate ↦ elim (validate claims) [ none ↦ ok tt | some text ↦ err (external text) ]
  ]

  -- The checks of the claims of a token whose signature is verified.
  unfoldable pub read_claims : Token → M T
  read_claims token (h, w) =
      let (time, w') = now w in
      (do
        require (is_token_expiration_valid (token_expiration token) h.allowed_token_drift time)
            (token_has_expired (token_expiration token))
        require (is_token_issuer_valid h.issuer (token_issuer token))
            (issuer_not_found h.issuer (token_issuer token))
        require (is_token_audience_valid h.required_audience (token_audience token))
            (audience_not_found h.required_audience (token_audience token))
        claims ← lift (map_err unable_to_convert_to_claims (jwt_token_to_claims token))
        lift (map_err claims_validation (validate_claims h claims))
        pure claims)
        (h, w')

  -- `ParseToken` from the line after the loading of the keys
  unfoldable pub parse_loaded : Str → M T
  parse_loaded token_string = do
    (key_id, token_algorithm) ← read_headers token_string
    key ← wrap unable_to_get_public_key (on_key_handler (get_key p key_id token_algorithm))
    token ← verify_signature token_string key
    read_claims token

  unfoldable pub parse_token : Str → M T
  parse_token token_string = do ensure_key_handler; parse_loaded token_string
