-- ===== src/Oidc/Settings.antt =====
-- What a handler that `NewHandler` of internal/oidc/oidc.go has made takes from its options.
use go_oidc_middleware.Prelude.{
  ◌≡◌, ◌≢◌, [], refl, sym, ◌∙◌, subst, inl, inr, Bool, true, false, none, List, Bool-cases,
}
use go_oidc_middleware.Text.{Str, is_empty}
use go_oidc_middleware.Errors.{
  Error, unable_to_load_jwks, Result, ok, err, map_err, Result-cases, ok-injective, err-apart,
}
use go_oidc_middleware.Platform.{Platform}
use go_oidc_middleware.Options.{ClaimsValidationFn, Options, Setter, new}
use go_oidc_middleware.Oidc.Signature.{get_signature_algorithm_from_string}
use go_oidc_middleware.Oidc.Handler.{
  Handler, HandlerState, from_options, default_discovery_uri, accept_fallback, load_jwks, made,
  load_unless_lazy, new_handler,
}
use go_oidc_middleware.Oidc.Start.{new_handler-IsStarted}
use go_oidc_middleware.Oidc.Load.{with_keys, Loads, load_jwks-Loads}

module _ (p : Platform) (T : Type 0) where
  -- The settings by which a handler judges the claims of a token.
  pub record SameJudgement (h h' : Handler p T) : Type 0 where
    pub issuer : h'.issuer ≡ h.issuer
    pub required_audience : h'.required_audience ≡ h.required_audience
    pub required_token_type : h'.required_token_type ≡ h.required_token_type
    pub allowed_token_drift : h'.allowed_token_drift ≡ h.allowed_token_drift
    pub claims_validation_fn : h'.claims_validation_fn ≡ h.claims_validation_fn

  -- The handler has no keys yet.
  abbrev Follows : Handler p T → Handler p T → Type 0
  Follows h h' = (h'.key_handler ≡ none) × SameJudgement h h'

  same : (h : Handler p T) → SameJudgement h h
  same h = record {
    issuer = refl;
    required_audience = refl;
    required_token_type = refl;
    allowed_token_drift = refl;
    claims_validation_fn = refl;
  }

  pub SameJudgement-with_keys :
      (h h' : Handler p T) (uri : Str) (k : _)
      → SameJudgement h h'
      → SameJudgement h (with_keys p T h' uri k)
  SameJudgement-with_keys h h' uri k x = record {
    issuer = x.issuer;
    required_audience = x.required_audience;
    required_token_type = x.required_token_type;
    allowed_token_drift = x.allowed_token_drift;
    claims_validation_fn = x.claims_validation_fn;
  }

  default_discovery_uri-Follows :
      (h : Handler p T) → h.key_handler ≡ none → Follows h (default_discovery_uri p T h)
  unfolding default_discovery_uri
  default_discovery_uri-Follows h empty = elim (Bool-cases (is_empty h.discovery_uri)) [
    | inl missing ↦ rw missing (
      empty,
      record {
        issuer = refl;
        required_audience = refl;
        required_token_type = refl;
        allowed_token_drift = refl;
        claims_validation_fn = refl;
      },
    )
    | inr given ↦ rw given (empty, same h)
  ]

  accept_fallback-Follows :
      (fallback : Str) (h0 h h' : Handler p T)
      → Follows h0 h
      → accept_fallback p T fallback h ≡ ok h'
      → Follows h0 h'
  unfolding accept_fallback
  accept_fallback-Follows fallback h0 h h' (empty, x) e = elim (Bool-cases (is_empty fallback)) [
    | inl missing ↦ subst (Follows h0) (ok-injective (rw missing at e)) (empty, x)
    | inr given ↦ elim (Result-cases (get_signature_algorithm_from_string p fallback)) [
      | inl (alg, accepted) ↦
          subst (Follows h0) (ok-injective (rw (accepted, accept_fallback) at (rw given at e))) (
            empty,
            record {
              issuer = x.issuer;
              required_audience = x.required_audience;
              required_token_type = x.required_token_type;
              allowed_token_drift = x.allowed_token_drift;
              claims_validation_fn = x.claims_validation_fn;
            },
          )
      | inr (text, refused) ↦ absurd (err-apart (rw (refused, accept_fallback) at (rw given at e)))
    ]
  ]

  made-SameJudgement :
      (h0 h : Handler p T) (out : Result Error Unit × HandlerState p T) (h' : Handler p T)
      → SameJudgement h0 h
      → Loads p T h out
      → (made p T (map_err unable_to_load_jwks out.0, out.1)).0 ≡ ok h'
      → SameJudgement h0 h'
  made-SameJudgement h0 h (err e, s) h' x l e' = absurd (err-apart e')
  made-SameJudgement h0 h (ok _, (g, w)) h' x l e' =
      subst (SameJudgement h0) (sym l.same ∙ ok-injective e')
        (SameJudgement-with_keys h0 h g.jwks_uri g.key_handler x)

  load_unless_lazy-SameJudgement :
      (h0 : Handler p T) (lazy : Bool) (r : Result Error (Handler p T)) (w : p.World)
      (h' : Handler p T)
      → ((h : Handler p T) → r ≡ ok h → Follows h0 h)
      → (load_unless_lazy p T lazy r w).0 ≡ ok h'
      → SameJudgement h0 h'
  unfolding load_unless_lazy
  load_unless_lazy-SameJudgement h0 lazy (err e) w h' follows e' = absurd (err-apart e')
  load_unless_lazy-SameJudgement h0 true (ok h) w h' follows e' =
      subst (SameJudgement h0) (ok-injective e') (follows h refl).1
  load_unless_lazy-SameJudgement h0 false (ok h) w h' follows e' =
      let (empty, x) = follows h refl in
      made-SameJudgement h0 h (load_jwks p T (h, w)) h' x (load_jwks-Loads p T h w empty) e'

  pub new_handler-SameJudgement :
      (fn : ClaimsValidationFn T) (setters : List (Setter p)) (w : p.World) (h : Handler p T)
      → (new_handler p T fn setters w).0 ≡ ok h
      → SameJudgement (from_options p T fn (new p setters)) h
  unfolding new_handler
  new_handler-SameJudgement fn setters w h e =
      let opts = new p setters in
      let h0 = from_options p T fn opts in
      elim (Bool-cases (is_empty opts.issuer)) [
        | inl missing ↦ absurd (err-apart (rw missing at e))
        | inr given ↦
            load_unless_lazy-SameJudgement h0 opts.lazy_load_jwks
              (accept_fallback p T opts.fallback_signature_algorithm (default_discovery_uri p T h0))
              w h
              (λ g.
                accept_fallback-Follows opts.fallback_signature_algorithm h0
                  (default_discovery_uri p T h0) g (default_discovery_uri-Follows h0 refl))
              (rw given at e)
      ]

  -- The settings by which a handler judges the claims of a token are the options and the function
  -- given.
  pub record IsJudgedBy (fn : ClaimsValidationFn T) (opts : Options p) (h : Handler p T)
      : Type 0 where
    pub issuer : h.issuer ≡ opts.issuer
    pub issuer_given : h.issuer ≢ []
    pub required_audience : h.required_audience ≡ opts.required_audience
    pub required_token_type : h.required_token_type ≡ opts.required_token_type
    pub allowed_token_drift : h.allowed_token_drift ≡ opts.allowed_token_drift
    pub claims_validation_fn : h.claims_validation_fn ≡ fn

  -- A handler that is made judges the claims of a token by its options: the issuer, which is not
  -- empty, the audience, the token type, the drift and the validation are those given.
  pub new_handler-IsJudgedBy :
      (fn : ClaimsValidationFn T) (setters : List (Setter p)) (w : p.World) (h : Handler p T)
      → (new_handler p T fn setters w).0 ≡ ok h
      → IsJudgedBy fn (new p setters) h
  new_handler-IsJudgedBy fn setters w h e =
      let x = new_handler-SameJudgement fn setters w h e in
      record {
        issuer = x.issuer;
        issuer_given = (new_handler-IsStarted p T fn setters w h e).1;
        required_audience = x.required_audience;
        required_token_type = x.required_token_type;
        allowed_token_drift = x.allowed_token_drift;
        claims_validation_fn = x.claims_validation_fn;
      }
