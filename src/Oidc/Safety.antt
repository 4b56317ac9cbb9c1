-- ===== src/Oidc/Safety.antt =====
-- What `ParseToken` (internal/oidc/oidc.go) leaves behind, step by step.
use go_oidc_middleware.Prelude.{
  ◌≡◌, refl, sym, inl, inr, Bool, ◌&&◌, none, some, arith, Bool-cases, Option-cases, subst,
}
use go_oidc_middleware.Text.{Str}
use go_oidc_middleware.Errors.{
  Error, IsSafe, unable_to_get_public_key, token_algorithm_required, unable_to_load_jwks,
  token_type_required, Result, ok, err, continue, lift, wrap, require, map_err, External,
}
use go_oidc_middleware.Platform.{Platform}
use go_oidc_middleware.KeyHandler.{
  KeyHandler, first_key, get_key, wait_for_update_key_set_and_get_key_set,
  wait_for_update_key_set_and_get_key,
}
use go_oidc_middleware.KeyHandler.Fetch.{
  IsReady, Updated, wait_for_update_key_set_and_get_key_set-Updated,
}
use go_oidc_middleware.KeyHandler.Serve.{IsReady-Updated}
use go_oidc_middleware.Oidc.Checks.{
  get_key_id_from_token_header, get_token_algorithm_from_token_header,
  get_headers_from_token_string, is_token_type_valid,
}
use go_oidc_middleware.Oidc.Signature.{is_signature_verification, get_signature_algorithm}
use go_oidc_middleware.Oidc.Handler.{Handler, HandlerState, load_jwks}
use go_oidc_middleware.Oidc.Load.{SameSettings, IsHeld, IsWellFormed, Loads, load_jwks-Loads}
use go_oidc_middleware.Oidc.Parse.{
  on_key_handler, ensure_key_handler, token_key_id, read_headers, retry_with_updated_key,
  retry_or_return, verify_signature, jwt_token_to_claims, validate_claims, read_claims,
  parse_loaded, parse_token,
}
use go_oidc_middleware.Oidc.Keeps.{
  IsServing, SameSettings-trans, Kept, Keeps, Keeps-lift, Keeps-pure, Keeps-require, Keeps-bind,
  Keeps-wrap, KeepsReady, Keeps-on_key_handler,
}
use go_oidc_middleware.Oidc.Calls.{
  get_key-KeepsReady, first_key-IsSafe, get_headers_from_token_string-IsSafe,
  token_algorithm-IsSafe, get_signature_algorithm-IsSafe, get_and_validate_token_from_string-IsSafe,
}

module _ (p : Platform) (T : Type 0) (u : Str → External T) where
  open p use {Headers, Key, Token, World, key_type, key_algorithm}

  token_key_id-IsSafe :
      (disabled : Bool) (headers : Headers) → IsSafe (token_key_id p T u disabled headers)
  unfolding token_key_id get_key_id_from_token_header
  token_key_id-IsSafe disabled headers = ground arith

  read_headers-Keeps : (s : Str) → Keeps p T (read_headers p T u s)
  unfolding read_headers
  read_headers-Keeps s = record {
    at = λ h w serving.
        (Keeps-bind p T (lift (get_headers_from_token_string p s)) _
            (Keeps-lift p T _ (get_headers_from_token_string-IsSafe p s))
            λ headers.
              Keeps-bind p T
                (require (is_token_type_valid p h.required_token_type headers)
                  (token_type_required h.required_token_type))
                _ (Keeps-require p T _ _ (λ x. x))
                λ _.
                  Keeps-bind p T (lift (token_key_id p T u h.disable_key_id headers)) _
                    (Keeps-lift p T _ (token_key_id-IsSafe h.disable_key_id headers))
                    λ key_id.
                      Keeps-bind p T
                        (lift (
                          map_err token_algorithm_required
                            (get_token_algorithm_from_token_header p headers)))
                        _ (Keeps-lift p T _ (token_algorithm-IsSafe p headers))
                        λ alg. Keeps-pure p T (key_id, alg)).at
          h w serving;
  }

  wait-KeepsReady : KeepsReady p T u (wait_for_update_key_set_and_get_key p)
  unfolding wait_for_update_key_set_and_get_key
  wait-KeepsReady = record {
    at = λ k w ready.
        after k ready (wait_for_update_key_set_and_get_key_set p (k, w)).0
          (wait_for_update_key_set_and_get_key_set p (k, w)).1
          (wait_for_update_key_set_and_get_key_set-Updated p k w ready.idle);
  }
    where
      after :
          (k : KeyHandler p)
          → IsReady p k
          → (r : Result Error p.KeySet) (s : KeyHandler p × World) → Updated p k r s.0
          → IsReady p (continue r (λ ks. lift (first_key p ks)) s).1.0
            × ((continue r (λ ks. lift (first_key p ks)) s).1.0.disable_key_id ≡ k.disable_key_id)
            × IsSafe (continue r (λ ks. lift (first_key p ks)) s).0
      after k ready (ok ks) s (e, single) =
          (IsReady-Updated p k (ok ks) s.0 ready (e, single), rw e, first_key-IsSafe p ks)
      after k ready (err x) s (e, safe) =
          (IsReady-Updated p k (err x) s.0 ready (e, safe), rw e, safe)

  retry_with_updated_key-Keeps :
      (s : Str) (key : Key) → Keeps p T (retry_with_updated_key p T u s key)
  unfolding retry_with_updated_key
  retry_with_updated_key-Keeps s key = record {
    at = λ h w serving.
        (Keeps-bind p T (on_key_handler p T u (wait_for_update_key_set_and_get_key p)) _
            (Keeps-on_key_handler p T u _ wait-KeepsReady)
            λ updated.
              Keeps-bind p T
                (lift (
                  get_signature_algorithm p (key_type key) (key_algorithm key)
                    h.fallback_signature_algorithm))
                _ (Keeps-lift p T _ (get_signature_algorithm-IsSafe p _ _ _))
                λ alg.
                  Keeps-lift p T _ (get_and_validate_token_from_string-IsSafe p s updated alg)).at
          h w serving;
  }

  retry_or_return-Keeps :
      (s : Str) (key : Key) (r : Result Error Token)
      → IsSafe r
      → Keeps p T (retry_or_return p T u s key r)
  unfolding retry_or_return
  retry_or_return-Keeps s key (ok token) safe = record {
    at = λ h w serving. record { same = refl; serving = serving; safe = tt };
  }
  retry_or_return-Keeps s key (err e) safe = record {
    at = λ h w serving. elim (Bool-cases (h.disable_key_id && is_signature_verification e)) [
      | inl again ↦ simp again ((retry_with_updated_key-Keeps s key).at h w serving)
      | inr final ↦ simp final (record { same = refl; serving = serving; safe = safe })
    ];
  }

  verify_signature-Keeps : (s : Str) (key : Key) → Keeps p T (verify_signature p T u s key)
  unfolding verify_signature
  verify_signature-Keeps s key = record {
    at = λ h w serving.
        (Keeps-bind p T
            (lift (
              get_signature_algorithm p (key_type key) (key_algorithm key)
                h.fallback_signature_algorithm))
            _ (Keeps-lift p T _ (get_signature_algorithm-IsSafe p _ _ _))
            λ alg.
              retry_or_return-Keeps s key _
                (get_and_validate_token_from_string-IsSafe p s key alg)).at
          h w serving;
  }

  state-read_claims :
      (token : Token) (h : Handler p T) (w : World)
      → (read_claims p T u token (h, w)).1 ≡ (h, (p.now w).1)
  unfolding read_claims
  state-read_claims token h w = ground arith

  read_claims-IsSafe :
      (token : Token) (h : Handler p T) (w : World) → IsSafe (read_claims p T u token (h, w)).0
  unfolding read_claims jwt_token_to_claims validate_claims
  read_claims-IsSafe token h w = ground arith

  read_claims-Keeps : (token : Token) → Keeps p T (read_claims p T u token)
  read_claims-Keeps token = record {
    at = λ h w serving.
        let state = state-read_claims token h w in
        record { same = rw state; serving = rw state serving; safe = read_claims-IsSafe token h w };
  }

  -- What a call leaves behind: a handler that is well formed, with the same settings, and no nil
  -- dereference.
  pub record IsSound {A : Type 0} (h : Handler p T) (out : Result Error A × HandlerState p T)
      : Type 0 where
    pub well_formed : IsWellFormed p T out.1.0
    pub same : SameSettings p T h out.1.0
    pub safe : IsSafe out.0

  parse_loaded-Keeps : (s : Str) → Keeps p T (parse_loaded p T u s)
  unfolding parse_loaded
  parse_loaded-Keeps s = Keeps-bind p T (read_headers p T u s) _ (read_headers-Keeps s) λ ka.
      Keeps-bind p T (wrap unable_to_get_public_key (on_key_handler p T u (get_key p ka.0 ka.1))) _
        (Keeps-wrap p T unable_to_get_public_key _ (λ e safe. safe)
          (Keeps-on_key_handler p T u _ (get_key-KeepsReady p T u ka.0 ka.1)))
        λ key.
          Keeps-bind p T (verify_signature p T u s key) _ (verify_signature-Keeps s key)
            read_claims-Keeps

  IsHeld-some : (h : Handler p T) → IsServing p T h → IsWellFormed p T h
  IsHeld-some h (k, held, ready, same) =
      subst (IsHeld p T h.disable_key_id) (sym held) (ready, same)

  IsSound-Kept :
      (h : Handler p T) (out : Result Error T × HandlerState p T) → Kept p T h out → IsSound h out
  IsSound-Kept h out kept = record {
    well_formed = IsHeld-some out.1.0 kept.serving;
    same = kept.same;
    safe = kept.safe;
  }

  IsSound-loaded :
      (s : Str) (h : Handler p T) (out : Result Error Unit × HandlerState p T)
      → Loads p T h out
      → IsSound h (continue (map_err unable_to_load_jwks out.0) (λ _. parse_loaded p T u s) out.1)
  IsSound-loaded s h (ok _, (h', w')) l =
      let kept = (parse_loaded-Keeps s).at h' w' l.loaded in
      IsSound-Kept h (parse_loaded p T u s (h', w')) (record {
        same = SameSettings-trans p T h h' (parse_loaded p T u s (h', w')).1.0 l.same kept.same;
        serving = kept.serving;
        safe = kept.safe;
      })
  IsSound-loaded s h (err e, (h', w')) l = record {
    well_formed = subst (IsHeld p T h'.disable_key_id) (sym l.loaded.0) tt;
    same = l.same;
    safe = l.loaded.1;
  }

  module _ (s : Str) (h : Handler p T) (w : World) where
    pub parse_token-some :
        (k : KeyHandler p)
        → h.key_handler ≡ some k
        → parse_token p T u s (h, w) ≡ parse_loaded p T u s (h, w)
    unfolding parse_token ensure_key_handler
    parse_token-some k held = ground arith

    pub parse_token-none :
        h.key_handler ≡ none
        → parse_token p T u s (h, w)
          ≡ continue
              (map_err unable_to_load_jwks (load_jwks p T (h, w)).0)
              (λ _. parse_loaded p T u s)
              (load_jwks p T (h, w)).1
    unfolding parse_token ensure_key_handler
    parse_token-none empty = ground arith

    -- From a handler that is well formed, any token string leaves one that is well formed, with
    -- the same settings but for the address of the keys and the key handler, and dereferences no
    -- nil, whatever the provider, the token and the callbacks answer.
    pub parse_token-IsSound : IsWellFormed p T h → IsSound h (parse_token p T u s (h, w))
    parse_token-IsSound wf = elim (Option-cases h.key_handler) [
      | inl empty ↦
          rw (parse_token-none empty)
            (IsSound-loaded s h (load_jwks p T (h, w)) (load_jwks-Loads p T h w empty))
      | inr (k, held) ↦
          let (ready, same) = subst (IsHeld p T h.disable_key_id) held wf in
          rw (parse_token-some k held) (
            IsSound-Kept h (parse_loaded p T u s (h, w))
              ((parse_loaded-Keeps s).at h w (k, held, ready, same)))
    ]
