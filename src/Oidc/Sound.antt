-- ===== src/Oidc/Sound.antt =====
-- The claims that `ParseToken` of internal/oidc/oidc.go returns, and the token string.
use go_oidc_middleware.Prelude.{◌≡◌, sym, ap, inl, inr, Option, some, Option-cases, subst}
use go_oidc_middleware.Prelude.Int.{ℤ}
use go_oidc_middleware.Text.{Str}
use go_oidc_middleware.Errors.{
  Error, unable_to_get_public_key, unable_to_load_jwks, err-ne-ok, Result, ok, err, >>=-eq-ok,
  continue, wrap, map_err, External,
}
use go_oidc_middleware.Platform.{Platform}
use go_oidc_middleware.KeyHandler.{KeyHandler, get_key}
use go_oidc_middleware.Oidc.Handler.{Handler, HandlerState, load_jwks}
use go_oidc_middleware.Oidc.Load.{
  with_keys, SameSettings, IsHeld, IsWellFormed, Loads, load_jwks-Loads,
}
use go_oidc_middleware.Oidc.Parse.{
  on_key_handler, read_headers, verify_signature, parse_loaded, parse_token,
}
use go_oidc_middleware.Oidc.Keeps.{IsServing}
use go_oidc_middleware.Oidc.Claims.{IsAccepted, IsAccepted-with_keys, read_claims_sound}
use go_oidc_middleware.Oidc.Steps.{HasHeaders, read_headers_sound, get_key_sound}
use go_oidc_middleware.Oidc.Verified.{IsVerified, verify_signature_sound}
use go_oidc_middleware.Oidc.Safety.{parse_token-some, parse_token-none}

module _ (p : Platform) (T : Type 0) (u : Str → External T) where
  open p use {World}

  -- A token string that is authentic for the settings `h`, with its claims, where `h'` is the
  -- handler afterwards: one signature, by a key of the key set of `h'` that the headers choose,
  -- over a token that is unexpired, of the issuer, for the audience, with claims that are valid.
  pub record IsAuthentic (h : Handler p T) (s : Str) (claims : T) (h' : Handler p T) : Type 0 where
    pub kid : Str
    pub alg : Str
    pub token : p.Token
    pub time : ℤ
    pub has_headers : HasHeaders p T u h s kid alg
    pub is_verified : IsVerified p T u h kid alg s token h'
    pub is_accepted : IsAccepted p T u h time token claims

  parse_loaded_sound :
      (s : Str) (h : Handler p T) (w : World) (claims : T) (st : HandlerState p T)
      → IsServing p T h
      → parse_loaded p T u s (h, w) ≡ (ok claims, st)
      → IsAuthentic h s claims st.0
  unfolding parse_loaded
  parse_loaded_sound s h w claims st serving e =
      let ((kid, alg), s1, e1, r1) = >>=-eq-ok (read_headers p T u s) _ (h, w) e in
      let (headers, same1) = read_headers_sound p T u s kid alg h w s1 e1 in
      let (key, s2, e2, r2) =
        >>=-eq-ok (wrap unable_to_get_public_key (on_key_handler p T u (get_key p kid alg))) _ s1
          r1 in
      let holds = get_key_sound p T u kid alg h w key s2 serving (rw same1 at e2) in
      let (token, s3, e3, r3) = >>=-eq-ok (verify_signature p T u s key) _ s2 r2 in
      let verified = verify_signature_sound p T u s kid alg key h s2.0 s2.1 token s3 holds e3 in
      let (accepted, same3) = read_claims_sound p T u token claims s3.0 s3.1 st r3 in
      record {
        kid = kid;
        alg = alg;
        token = token;
        time = (p.now s3.1).0;
        has_headers = headers;
        is_verified =
            subst (IsVerified p T u h kid alg s token)
              (sym (ap (λ (x : HandlerState p T). x.0) same3)) verified;
        is_accepted =
            IsAccepted-with_keys p T u h s3.0 verified.held.uri (some verified.held.key_handler)
              (p.now s3.1).0 token claims verified.held.same accepted;
      }

  HasHeaders-with_keys :
      (h : Handler p T) (uri : Str) (k : Option (KeyHandler p)) (s kid alg : Str)
      → HasHeaders p T u (with_keys p T h uri k) s kid alg
      → HasHeaders p T u h s kid alg
  HasHeaders-with_keys h uri k s kid alg x = record {
    headers = x.headers;
    signed_once = x.signed_once;
    typed = x.typed;
    key_id = x.key_id;
    algorithm = x.algorithm;
    algorithm_given = x.algorithm_given;
  }

  IsVerified-with_keys :
      (h : Handler p T) (uri : Str) (k : Option (KeyHandler p)) (s kid alg : Str) (token : p.Token)
      (h' : Handler p T)
      → IsVerified p T u (with_keys p T h uri k) kid alg s token h'
      → IsVerified p T u h kid alg s token h'
  IsVerified-with_keys h uri k s kid alg token h' x = record {
    key = x.key;
    named_by = x.named_by;
    algorithm = x.algorithm;
    verified = x.verified;
    held = record {
      key_handler = x.held.key_handler;
      key_set = x.held.key_set;
      uri = x.held.uri;
      same = x.held.same;
      holds = x.held.holds;
      ready = x.held.ready;
      flag = x.held.flag;
      chosen = x.held.chosen;
    };
    algorithm_of = x.algorithm_of;
    by_key = x.by_key;
  }

  IsAuthentic-SameSettings :
      (h h1 : Handler p T) (s : Str) (claims : T) (h' : Handler p T)
      → SameSettings p T h h1
      → IsAuthentic h1 s claims h'
      → IsAuthentic h s claims h'
  IsAuthentic-SameSettings h h1 s claims h' same a =
      let b = subst (λ g. IsAuthentic g s claims h') same a in
      record {
        kid = b.kid;
        alg = b.alg;
        token = b.token;
        time = b.time;
        has_headers = HasHeaders-with_keys h h1.jwks_uri h1.key_handler s b.kid b.alg b.has_headers;
        is_verified =
            IsVerified-with_keys h h1.jwks_uri h1.key_handler s b.kid b.alg b.token h'
              b.is_verified;
        is_accepted =
            IsAccepted-with_keys p T u h h1 h1.jwks_uri h1.key_handler b.time b.token claims same
              (subst (λ g. IsAccepted p T u g b.time b.token claims) (sym same) b.is_accepted);
      }

  loaded_sound :
      (s : Str) (h : Handler p T) (out : Result Error Unit × HandlerState p T) (claims : T)
      (st : HandlerState p T)
      → Loads p T h out
      → continue (map_err unable_to_load_jwks out.0) (λ _. parse_loaded p T u s) out.1
        ≡ (ok claims, st)
      → IsAuthentic h s claims st.0
  loaded_sound s h (err x, st1) claims st l e = absurd (err-ne-ok e)
  loaded_sound s h (ok _, (h1, w1)) claims st l e =
      IsAuthentic-SameSettings h h1 s claims st.0 l.same
        (parse_loaded_sound s h1 w1 claims st l.loaded e)

  -- From a handler that is well formed, whether it has loaded its keys or not, claims are returned
  -- only for a token string that is authentic: it has one signature, verified by a key of the key
  -- set held at the end that its headers choose, and its token is unexpired within the drift, of
  -- the issuer and for the audience, and the claims are those of the token and valid.
  pub parse_token-IsAuthentic :
      (s : Str) (h : Handler p T) (w : World) (claims : T) (st : HandlerState p T)
      → IsWellFormed p T h
      → parse_token p T u s (h, w) ≡ (ok claims, st)
      → IsAuthentic h s claims st.0
  parse_token-IsAuthentic s h w claims st wf e = elim (Option-cases h.key_handler) [
    | inl empty ↦
        loaded_sound s h (load_jwks p T (h, w)) claims st (load_jwks-Loads p T h w empty)
          (rw (parse_token-none p T u s h w empty) at e)
    | inr (k, held) ↦
        let (ready, same) = subst (IsHeld p T h.disable_key_id) held wf in
        parse_loaded_sound s h w claims st (k, held, ready, same)
          (rw (parse_token-some p T u s h w k held) at e)
  ]
