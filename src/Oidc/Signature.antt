-- ===== src/Oidc/Signature.antt =====
-- The algorithm of a signature, and its verification.
use go_oidc_middleware.Prelude.{Bool, true, false, not, if◌then◌else◌}
use go_oidc_middleware.Text.{Str, str, is_empty, contains, ◌==◌}
use go_oidc_middleware.Errors.{
  Error, external, signature_verification, no_signature_algorithm, Result, ok, err, from_external,
}
use go_oidc_middleware.Platform.{Platform}

-- errSignatureVerification.Error()
abbrev pub signature_verification_text : Str
signature_verification_text = str "failed to verify signature"

-- errors.Is(err, errSignatureVerification), for an error that wraps none
abbrev pub is_signature_verification : Error → Bool
is_signature_verification signature_verification = true
is_signature_verification _ = false

module _ (p : Platform) where
  open p use {Key, Token, jwt_parse_string, algorithm_accept}

  unfoldable pub get_signature_algorithm_from_string : Str → Result Error Str
  get_signature_algorithm_from_string s = from_external (algorithm_accept s)

  unfoldable pub get_signature_algorithm : Str → Str → Str → Result Error Str
  get_signature_algorithm kty key_alg fallback_alg =
      if not (is_empty key_alg)
      then get_signature_algorithm_from_string key_alg
      else if not (is_empty fallback_alg)
      then ok fallback_alg
      else if kty == str "RSA"
      then ok (str "RS256")
      else if kty == str "EC"
      then ok (str "ES256")
      else err (no_signature_algorithm kty key_alg fallback_alg)

  unfoldable pub get_and_validate_token_from_string : Str → Key → Str → Result Error Token
  get_and_validate_token_from_string token_string key alg =
      elim (jwt_parse_string token_string alg key) [
        | ok token ↦ ok token
        | err text ↦
            if contains text signature_verification_text
            then err signature_verification
            else err (external text)
      ]
