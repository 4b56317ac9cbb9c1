-- ===== src/Oidc/Claims.antt =====
-- Which claims `ParseToken` returns for a token whose signature is verified.
use go_oidc_middleware.Prelude.{◌≡◌, ◌≢◌, ◌⊎◌, [], arith, In, Option, subst}
use go_oidc_middleware.Prelude.Int.{ℤ, ◌+ℤ◌, ◌<ℤ◌}
use go_oidc_middleware.Text.{Str}
use go_oidc_middleware.Errors.{ok, External}
use go_oidc_middleware.Platform.{Platform}
use go_oidc_middleware.Oidc.Handler.{Handler, HandlerState}
use go_oidc_middleware.Oidc.Parse.{jwt_token_to_claims, validate_claims, read_claims}
use go_oidc_middleware.KeyHandler.{KeyHandler}
use go_oidc_middleware.Oidc.Load.{with_keys}
use go_oidc_middleware.Oidc.Accepts.{
  is_token_audience_valid_iff, is_token_issuer_valid_iff, is_token_expiration_valid_iff,
}

module _ (p : Platform) (T : Type 0) (json_unmarshal : Str → External T) where
  open p use {Token, World, token_expiration, token_issuer, token_audience, now}

  -- Everything that the claims of a token must meet, at a time.
  pub record IsAccepted (h : Handler p T) (time : ℤ) (token : Token) (claims : T) : Type 0 where
    pub unexpired : time <ℤ token_expiration token +ℤ h.allowed_token_drift
    pub issuer_required : h.issuer ≢ []
    pub issued : token_issuer token ≡ h.issuer
    pub meant : (h.required_audience ≡ []) ⊎ In h.required_audience (token_audience token)
    pub converted : jwt_token_to_claims p T json_unmarshal token ≡ ok claims
    pub validated : validate_claims p T json_unmarshal h claims ≡ ok tt

  module _ (token : Token) (claims : T) (h : Handler p T) (w : World) where
    pub read_claims_sound :
        (s : HandlerState p T)
        → read_claims p T json_unmarshal token (h, w) ≡ (ok claims, s)
        → IsAccepted h (now w).0 token claims × (s ≡ (h, (now w).1))
    unfolding read_claims
    read_claims_sound s e = ground (
      arith,
      is_token_expiration_valid_iff (token_expiration token) h.allowed_token_drift (now w).0,
      is_token_issuer_valid_iff h.issuer (token_issuer token),
      is_token_audience_valid_iff h.required_audience (token_audience token),
    )

    -- A token that is unexpired within the drift, of the issuer, for the audience, and whose
    -- claims convert and pass the validation function has its claims returned; the handler is
    -- unchanged.
    pub read_claims_complete :
        IsAccepted h (now w).0 token claims
        → read_claims p T json_unmarshal token (h, w) ≡ (ok claims, (h, (now w).1))
    unfolding read_claims
    read_claims_complete a = ground (
      arith,
      is_token_expiration_valid_iff (token_expiration token) h.allowed_token_drift (now w).0,
      is_token_issuer_valid_iff h.issuer (token_issuer token),
      is_token_audience_valid_iff h.required_audience (token_audience token),
    )

  -- Acceptance does not depend on the key handler and the address of the keys.
  pub IsAccepted-with_keys :
      (h h' : Handler p T) (uri : Str) (k : Option (KeyHandler p)) (time : ℤ) (token : Token)
      (claims : T)
      → h' ≡ with_keys p T h uri k
      → IsAccepted h' time token claims
      → IsAccepted h time token claims
  unfolding validate_claims
  IsAccepted-with_keys h h' uri k time token claims same a =
      let b = subst (λ g. IsAccepted g time token claims) same a in
      record {
        unexpired = b.unexpired;
        issuer_required = b.issuer_required;
        issued = b.issued;
        meant = b.meant;
        converted = b.converted;
        validated = b.validated;
      }
