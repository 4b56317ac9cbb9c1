-- ===== src/Oidc/Start.antt =====
-- Making a handler: `NewHandler` of internal/oidc/oidc.go.
use go_oidc_middleware.Errors.{ok-injective, err-apart}
use go_oidc_middleware.Prelude.{
  ◌≡◌, ◌≢◌, refl, sym, ap, ◌∙◌, subst, inl, inr, Bool, true, false, none, List, [], arith,
  Bool-cases,
}
use go_oidc_middleware.Text.{Str, is_empty}
use go_oidc_middleware.Errors.{Error, Result, ok, err, Result-cases, map_err, unable_to_load_jwks}
use go_oidc_middleware.Platform.{Platform}
use go_oidc_middleware.Options.{ClaimsValidationFn, Setter, new}
use go_oidc_middleware.Oidc.Handler.{
  Handler, HandlerState, load_jwks, from_options, default_discovery_uri, accept_fallback, made,
  load_unless_lazy, new_handler,
}
use go_oidc_middleware.Oidc.Signature.{get_signature_algorithm_from_string}
use go_oidc_middleware.Oidc.Load.{IsHeld, IsWellFormed, Loads, load_jwks-Loads}

module _ (p : Platform) (T : Type 0) where
  -- A handler that can serve requests: it is well formed and requires an issuer.
  abbrev pub IsStarted : Handler p T → Type 0
  IsStarted h = IsWellFormed p T h × (h.issuer ≢ [])

  -- A handler with no keys and an issuer.
  abbrev IsFresh : Handler p T → Type 0
  IsFresh h = (h.key_handler ≡ none) × (h.issuer ≢ [])

  default_discovery_uri-IsFresh :
      (h : Handler p T) → IsFresh h → IsFresh (default_discovery_uri p T h)
  unfolding default_discovery_uri
  default_discovery_uri-IsFresh h fresh = elim (Bool-cases (is_empty h.discovery_uri)) [
    | inl missing ↦ rw missing fresh
    | inr given ↦ rw given fresh
  ]

  accept_fallback-IsFresh :
      (fallback : Str) (h h' : Handler p T)
      → IsFresh h
      → accept_fallback p T fallback h ≡ ok h'
      → IsFresh h'
  unfolding accept_fallback
  accept_fallback-IsFresh fallback h h' fresh e = elim (Bool-cases (is_empty fallback)) [
    | inl missing ↦ subst IsFresh (ok-injective (rw missing at e)) fresh
    | inr given ↦ elim (Result-cases (get_signature_algorithm_from_string p fallback)) [
      | inl (alg, accepted) ↦
          subst IsFresh (ok-injective (rw (accepted, accept_fallback) at (rw given at e))) fresh
      | inr (x, refused) ↦ absurd (err-apart (rw (refused, accept_fallback) at (rw given at e)))
    ]
  ]

  made-IsStarted :
      (h : Handler p T) (out : Result Error Unit × HandlerState p T) (h' : Handler p T)
      → IsFresh h
      → Loads p T h out
      → (made p T (map_err unable_to_load_jwks out.0, out.1)).0 ≡ ok h'
      → IsStarted h'
  made-IsStarted h (err e, s) h' fresh l e' = absurd (err-apart e')
  made-IsStarted h (ok _, (g, w)) h' (_, issued) l e' =
      let (k, held, ready, same) = l.loaded in
      let issuer : g.issuer ≡ h.issuer = ap (λ (x : Handler p T). x.issuer) l.same in
      subst IsStarted (ok-injective e') (
        subst (IsHeld p T g.disable_key_id) (sym held) (ready, same),
        λ none_left. issued (sym issuer ∙ none_left),
      )

  load_unless_lazy-IsStarted :
      (lazy : Bool) (r : Result Error (Handler p T)) (w : p.World) (h' : Handler p T)
      → ((h : Handler p T) → r ≡ ok h → IsFresh h)
      → (load_unless_lazy p T lazy r w).0 ≡ ok h'
      → IsStarted h'
  unfolding load_unless_lazy
  load_unless_lazy-IsStarted lazy (err e) w h' fresh e' = absurd (err-apart e')
  load_unless_lazy-IsStarted true (ok h) w h' fresh e' =
      let (empty, issued) = fresh h refl in
      subst IsStarted (ok-injective e') (subst (IsHeld p T h.disable_key_id) (sym empty) tt, issued)
  load_unless_lazy-IsStarted false (ok h) w h' fresh e' =
      made-IsStarted h (load_jwks p T (h, w)) h' (fresh h refl)
        (load_jwks-Loads p T h w (fresh h refl).0) e'

  -- A handler that is made, lazily or not, is well formed and requires an issuer that is not empty.
  pub new_handler-IsStarted :
      (claims_validation_fn : ClaimsValidationFn T) (setters : List (Setter p)) (w : p.World)
      (h : Handler p T)
      → (new_handler p T claims_validation_fn setters w).0 ≡ ok h
      → IsStarted h
  unfolding new_handler
  new_handler-IsStarted claims_validation_fn setters w h e =
      let opts = new p setters in
      let h0 = from_options p T claims_validation_fn opts in
      elim (Bool-cases (is_empty opts.issuer)) [
        | inl missing ↦ absurd (err-apart (rw missing at e))
        | inr given ↦
            load_unless_lazy-IsStarted opts.lazy_load_jwks
              (accept_fallback p T opts.fallback_signature_algorithm (default_discovery_uri p T h0))
              w h
              (λ g.
                accept_fallback-IsFresh opts.fallback_signature_algorithm
                  (default_discovery_uri p T h0) g
                  (default_discovery_uri-IsFresh h0 (refl, ground arith)))
              (rw given at e)
      ]
