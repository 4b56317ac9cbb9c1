-- ===== src/Provided/Accepted.antt =====
-- A token that the test provider (optest) issues, in `ParseToken` (internal/oidc/oidc.go).
use go_oidc_middleware.Prelude.{◌≡◌, ◌≢◌, refl, sym, ap, ◌∙◌, ◌⊎◌, inl, inr, false, [], arith}
use go_oidc_middleware.Prelude.Int.{ℤ, ◌+ℤ◌, ◌<ℤ◌}
use go_oidc_middleware.Text.{Str, str}
use go_oidc_middleware.Errors.{ok, External, ok-injective}
use go_oidc_middleware.Platform.{Platform}
use go_oidc_middleware.Oidc.Handler.{Handler}
use go_oidc_middleware.Oidc.Parse.{jwt_token_to_claims, validate_claims}
use go_oidc_middleware.Oidc.Complete.{IsGood}
use go_oidc_middleware.Oidc.Steps.{HasHeaders}
use go_oidc_middleware.Op.Services.{Services}
use go_oidc_middleware.Op.Keys.Single.{IsSingle, get_private_key-IsSingle}
use go_oidc_middleware.Op.Tokens.{
  TestUser, OpTest, State, access_token_claims, token_headers, new_access_token,
}
use go_oidc_middleware.Op.Issued.Signed.{new_access_token-IsSigned}
use go_oidc_middleware.Provided.{Link, IsVerifiable}
use go_oidc_middleware.Provided.Pairs.{IsShownPair}
use go_oidc_middleware.Provided.Claims.{IsPlain, unsigned_token-IsClaimed, unsigned_token-headers}

module _ (s : Services) (p : Platform) (l : Link s p) (T : Type 0) (u : Str → External T) where
  -- A handler whose settings are met by the tokens of a user of the provider.
  pub record IsMeantFor (h : Handler p T) (op : OpTest s) (user : TestUser s) : Type 0 where
    pub issuer : op.options.issuer ≡ h.issuer
    pub issuer_required : h.issuer ≢ []
    pub audience : (h.required_audience ≡ []) ⊎ (user.audience ≡ h.required_audience)
    pub token_type :
        (h.required_token_type ≡ []) ⊎ (user.access_token_key_type ≡ h.required_token_type)
    pub by_id : h.disable_key_id ≡ false

  -- The headers of an access token, for a handler that takes its type.
  pub HasHeaders-issued :
      (v : IsVerifiable s p l) (id : Str) (user : TestUser s) (nonce : Str) (time : ℤ)
      (op : OpTest s) (w : s.World) (access : Str) (st : State s)
      (single : IsSingle s.crypto (IsShownPair s p l) op.jwks)
      → new_access_token s id user nonce time (op, w) ≡ (ok access, st)
      → (h : Handler p T) → h.disable_key_id ≡ false
      → (h.required_token_type ≡ []) ⊎ (user.access_token_key_type ≡ h.required_token_type)
      → HasHeaders p T u h access (s.key_id single.private) (str "ES384")
  HasHeaders-issued v id user nonce time op w access st single issued h by_id token_type =
      let x = new_access_token-IsSigned s id user nonce time op w access st issued in
      let signed_by : x.key ≡ single.private =
        ok-injective
          (sym x.current ∙ get_private_key-IsSingle s.crypto (IsShownPair s p l) op.jwks single) in
      let (kid, typ) =
        unsigned_token-headers s p l v x.key user.access_token_key_type (str "access_token")
          (access_token_claims s op id user nonce time) user.extra_access_token_claims x.token
          x.headers x.unsigned in
      let (h', once, kid', typ', alg) =
        v.headers_read x.token x.key x.headers w x.after access (s.key_id x.key)
          user.access_token_key_type x.signed kid typ in
      record {
        headers = h';
        signed_once = once;
        typed = elim token_type [ inl any ↦ inl any | inr same ↦ inr (typ' ∙ same) ];
        key_id = rw by_id (kid' ∙ ap s.key_id signed_by, single.related.id_given);
        algorithm = alg;
        algorithm_given = ground arith;
      }

  module _ (v : IsVerifiable s p l) (id : Str) (user : TestUser s) (nonce : Str) (time : ℤ)
      (op : OpTest s) (w : s.World) (access : Str) (st : State s)
      (single : IsSingle s.crypto (IsShownPair s p l) op.jwks) (plain : IsPlain s user)
      (issued : new_access_token s id user nonce time (op, w) ≡ (ok access, st)) (h : Handler p T)
      (claims : T) (meant : IsMeantFor h op user)
      (converted : (t : p.Token)
        → p.jwt_parse_string access (str "ES384") (l.key single.public) ≡ ok t
        → jwt_token_to_claims p T u t ≡ ok claims)
      (validated : validate_claims p T u h claims ≡ ok tt) where
    pub IsGood-issued :
        (w' : p.World)
        → (p.now w').0
          <ℤ l.from_unix (s.unix (time +ℤ op.options.token_expiration)) +ℤ h.allowed_token_drift
        → IsGood p T u access h
            (s.key_id single.private)
            (str "ES384")
            (l.key single.public)
            w'
            claims
    IsGood-issued w' unexpired =
        let x = new_access_token-IsSigned s id user nonce time op w access st issued in
        let signed_by : x.key ≡ single.private =
          ok-injective (
            sym x.current ∙ get_private_key-IsSingle s.crypto (IsShownPair s p l) op.jwks single) in
        let claimed =
          unsigned_token-IsClaimed s p l v op id user nonce time plain
            (token_headers s x.key user.access_token_key_type (str "access_token")) x.token
            x.headers x.unsigned in
        let (t', verified, iss, aud, exp) =
          v.verified x.token x.key single.public x.headers w x.after access x.signed
            (rw signed_by single.related.pair) in
        record {
          has_headers =
              HasHeaders-issued v id user nonce time op w access st single issued h meant.by_id
                meant.token_type;
          signature_algorithm = str "ES384";
          of_key =
              inl
                (ground (arith, single.related.algorithm), rw single.related.algorithm v.accepted);
          token = t';
          verified = verified;
          accepted = record {
            unexpired = rw (exp, claimed.expiration) unexpired;
            issuer_required = meant.issuer_required;
            issued = iss ∙ claimed.issuer ∙ meant.issuer;
            meant = elim meant.audience [
              | inl any ↦ inl any
              | inr same ↦ inr (rw (aud, claimed.audience, same) (inl refl))
            ];
            converted = converted t' verified;
            validated = validated;
          };
        }
