-- ===== src/Oidc/Checks.antt =====
-- The checks of oidc.go on the headers and the claims of a token.
use go_oidc_middleware.Prelude.{Bool, true, false, not, List, [], ◌∷◌, ◌++◌, if◌then◌else◌}
use go_oidc_middleware.Prelude.Int.{ℤ, ◌+ℤ◌, ltb_ℤ}
use go_oidc_middleware.Text.{Str, str, is_empty, trim_suffix, ◌==◌}
use go_oidc_middleware.Errors.{
  Error, external, no_key_id_in_header, no_algorithm_in_header, no_type_in_header,
  unable_to_parse_token_string, not_one_signature, Result, ok, err,
}
use go_oidc_middleware.Platform.{Platform}

unfoldable pub get_discovery_uri_from_issuer : Str → Str
get_discovery_uri_from_issuer issuer =
    trim_suffix issuer (str "/") ++ str "/.well-known/openid-configuration"

-- the loop of `isTokenAudienceValid`
unfoldable pub any_audience : Str → List Str → Bool
any_audience required [] = false
any_audience required (audience ∷ audiences) =
    let rest = any_audience required audiences in if audience == required then true else rest

unfoldable pub is_token_audience_valid : Str → List Str → Bool
is_token_audience_valid required audiences =
    if is_empty required then true else any_audience required audiences

-- with the time that `time.Now()` gives
unfoldable pub is_token_expiration_valid : ℤ → ℤ → ℤ → Bool
unfolding ◌+ℤ◌
is_token_expiration_valid expiration allowed_drift now = ltb_ℤ now (expiration +ℤ allowed_drift)

unfoldable pub is_token_issuer_valid : Str → Str → Bool
is_token_issuer_valid required token_issuer =
    if is_empty required then false else token_issuer == required

module _ (p : Platform) where
  open p use {Headers, jws_parse_string, header_key_id, header_algorithm, header_type}

  unfoldable pub get_key_id_from_token_header : Headers → Result Error Str
  get_key_id_from_token_header headers =
      let key_id = header_key_id headers in
      if is_empty key_id then err no_key_id_in_header else ok key_id

  unfoldable pub get_token_algorithm_from_token_header : Headers → Result Error Str
  get_token_algorithm_from_token_header headers =
      let algorithm = header_algorithm headers in
      if is_empty algorithm then err no_algorithm_in_header else ok algorithm

  unfoldable pub get_token_type_from_token_header : Headers → Result Error Str
  get_token_type_from_token_header headers =
      let token_type = header_type headers in
      if is_empty token_type then err no_type_in_header else ok token_type

  abbrev single_signature : List Headers → Result Error Headers
  single_signature (headers ∷ []) = ok headers
  single_signature _ = err not_one_signature

  unfoldable pub get_headers_from_token_string : Str → Result Error Headers
  get_headers_from_token_string token_string = elim (jws_parse_string token_string) [
    | err text ↦ err (unable_to_parse_token_string (external text))
    | ok signatures ↦ single_signature signatures
  ]

  unfoldable pub is_token_type_valid : Str → Headers → Bool
  unfolding get_token_type_from_token_header
  is_token_type_valid required token_headers =
      if is_empty required then true else elim (get_token_type_from_token_header token_headers) [
        | err _ ↦ false
        | ok token_type ↦ if not (token_type == required) then false else true
      ]
