-- ===== src/Examples/Api/Run.antt =====
-- From the start of examples/api to the claims of a request.
use go_oidc_middleware.Prelude.{
  ◌≡◌, ◌≢◌, refl, sym, ◌∙◌, subst, ◌⊎◌, inl, inr, some, [], In, arith, Option-cases,
}
use go_oidc_middleware.Prelude.Int.{ℤ, pos, ◌+ℤ◌, ◌<ℤ◌}
use go_oidc_middleware.Text.{Str, str}
use go_oidc_middleware.Errors.{Result, ok, err, External, Result-cases, ok-injective}
use go_oidc_middleware.Platform.{Platform}
use go_oidc_middleware.Options.{
  new, with_issuer, with_required_token_type, with_required_audience,
  with_fallback_signature_algorithm,
}
use go_oidc_middleware.Options.TokenStringOptions.{apply_setters}
use go_oidc_middleware.Oidc.Handler.{Handler, HandlerState, from_options, new_handler}
use go_oidc_middleware.Oidc.Load.{IsWellFormed}
use go_oidc_middleware.Oidc.Safety.{parse_token-IsSound}
use go_oidc_middleware.Oidc.Parse.{parse_token}
use go_oidc_middleware.Oidc.Start.{new_handler-IsStarted}
use go_oidc_middleware.Oidc.Settings.{
  SameJudgement, SameJudgement-with_keys, new_handler-SameJudgement,
}
use go_oidc_middleware.Oidc.Sound.{IsAuthentic, parse_token-IsAuthentic}
use go_oidc_middleware.Examples.Runtime.{
  Provider, auth0_provider, azure_ad_provider, cognito_provider, okta_provider, optest_provider,
  read_server, read_provider, RuntimeConfig,
}
use go_oidc_middleware.Examples.Api.{
  ApiError, string_not_empty, ClaimsOf, inputs, claims_validation_fn, opts, Running, run_provider,
  named, run,
}
use go_oidc_middleware.Examples.Api.Admits.{
  client_of, required_of, string_not_empty-In, issuer-given, required-given, validate_claims-client,
  handler_of, get_handler-server,
}
use go_oidc_middleware.Examples.Api.Serves.{Serves, get_handler-Serves}

module _ (p : Platform) (u : (q : Provider) → Str → External (ClaimsOf q))
    (cfg : RuntimeConfig) where
  -- For Auth0 and Azure AD the token is for the audience of the configuration.
  abbrev pub IsMeant : Provider → p.Token → Type 0
  IsMeant auth0_provider token = In cfg.audience (p.token_audience token)
  IsMeant azure_ad_provider token = In cfg.audience (p.token_audience token)
  IsMeant cognito_provider token = Unit
  IsMeant okta_provider token = Unit
  IsMeant optest_provider token = Unit

  -- What the configuration lets in: a token of its issuer, unexpired within ten seconds, with
  -- claims that name the client, or the tenant, that it requires; neither is empty.
  pub record IsAdmitted (q : Provider) (time : ℤ) (token : p.Token) (claims : ClaimsOf q)
      : Type 0 where
    pub unexpired : time <ℤ p.token_expiration token +ℤ pos 10_000_000_000
    pub issued : p.token_issuer token ≡ cfg.issuer
    pub issuer_given : cfg.issuer ≢ []
    pub meant : IsMeant q token
    pub of_client : client_of q claims ≡ required_of q cfg
    pub client_given : required_of q cfg ≢ []

  -- How the server that runs has been chosen and made.
  pub record IsRun (w : p.World) (x : (q : Provider) × Running p (ClaimsOf q)) : Type 0 where
    pub chosen : read_provider cfg.provider ≡ some x.0
    pub filled : string_not_empty (inputs x.0 cfg) ≡ ok tt
    pub made :
        (new_handler p (ClaimsOf x.0) (claims_validation_fn x.0 cfg) (opts p x.0 cfg) w).0
        ≡ ok (handler_of p x.1)
    pub serves : Serves p (u x.0) (opts p x.0 cfg) x.1

  run_provider-IsRun :
      (q : Provider) (w : p.World) (r : Running p (ClaimsOf q))
      → read_provider cfg.provider ≡ some q
      → (run_provider p q (u q) cfg w).0 ≡ ok r
      → IsRun w (q, r)
  unfolding run_provider
  run_provider-IsRun q w r chosen e = elim (Result-cases (string_not_empty (inputs q cfg))) [
    | inr (x, empty) ↦ let refused : err x ≡ ok r = rw (empty, run_provider) at e in absurd (cc)
    | inl (_, filled) ↦ record {
      chosen = chosen;
      filled = filled;
      made =
          get_handler-server p (u q) cfg (claims_validation_fn q cfg) (opts p q cfg) w
            (read_server cfg.server) r refl (rw (filled, run_provider) at e);
      serves =
          get_handler-Serves p (u q) (opts p q cfg) cfg (claims_validation_fn q cfg) w
            (read_server cfg.server) r refl (rw (filled, run_provider) at e);
    }
  ]

  named-IsRun :
      (q : Provider) (w : p.World) (out : Result ApiError (Running p (ClaimsOf q)) × p.World)
      (x : (r : Provider) × Running p (ClaimsOf r))
      → ((r : Running p (ClaimsOf q)) → out.0 ≡ ok r → IsRun w (q, r))
      → (named p q out).0 ≡ ok x
      → IsRun w x
  named-IsRun q w (err y, w') x made e = absurd (cc)
  named-IsRun q w (ok r, w') x made e = subst (IsRun w) (ok-injective e) (made r refl)

  pub run-IsRun :
      (w : p.World) (x : (q : Provider) × Running p (ClaimsOf q))
      → (run p u cfg w).0 ≡ ok x
      → IsRun w x
  unfolding run
  run-IsRun w x e = elim (Option-cases (read_provider cfg.provider)) [
    | inl missing ↦ absurd (ground arith)
    | inr (q, chosen) ↦
        named-IsRun q w (run_provider p q (u q) cfg w) x (λ r. run_provider-IsRun q w r chosen)
          (rw (chosen, run) at e)
  ]

  -- The settings that the options of a provider give.
  judged :
      (q : Provider)
      → ((new p (opts p q cfg)).issuer ≡ cfg.issuer)
        × ((new p (opts p q cfg)).allowed_token_drift ≡ pos 10_000_000_000)
  unfolding new apply_setters with_issuer with_required_token_type with_required_audience
      with_fallback_signature_algorithm
  judged auth0_provider = (refl, refl)
  judged azure_ad_provider = (refl, refl)
  judged cognito_provider = (refl, refl)
  judged okta_provider = (refl, refl)
  judged optest_provider = (refl, refl)

  opts-IsMeant :
      (q : Provider) (token : p.Token)
      → string_not_empty (inputs q cfg) ≡ ok tt
      → ((new p (opts p q cfg)).required_audience ≡ [])
        ⊎ In (new p (opts p q cfg)).required_audience (p.token_audience token)
      → IsMeant q token
  unfolding new apply_setters with_issuer with_required_token_type with_required_audience
      with_fallback_signature_algorithm
  opts-IsMeant auth0_provider token filled (inl missing) = absurd (
      string_not_empty-In (str "audience") cfg.audience (inputs auth0_provider cfg) filled
        (inr (inr (inl refl))) missing)
  opts-IsMeant auth0_provider token filled (inr there) = there
  opts-IsMeant azure_ad_provider token filled (inl missing) = absurd (
      string_not_empty-In (str "audience") cfg.audience (inputs azure_ad_provider cfg) filled
        (inr (inr (inl refl))) missing)
  opts-IsMeant azure_ad_provider token filled (inr there) = there
  opts-IsMeant cognito_provider token filled _ = tt
  opts-IsMeant okta_provider token filled _ = tt
  opts-IsMeant optest_provider token filled _ = tt

  -- A handler that is well formed and judges the claims of a token by the options of the provider.
  abbrev pub Judges : (q : Provider) → Handler p (ClaimsOf q) → Type 0
  Judges q h =
      IsWellFormed p (ClaimsOf q) h
      × SameJudgement p (ClaimsOf q)
          (from_options p (ClaimsOf q) (claims_validation_fn q cfg) (new p (opts p q cfg))) h

  pub run-Judges :
      (w : p.World) (x : (q : Provider) × Running p (ClaimsOf q))
      → IsRun w x
      → Judges x.0 (handler_of p x.1)
  run-Judges w x r =
      let fn = claims_validation_fn x.0 cfg in
      (
        (new_handler-IsStarted p (ClaimsOf x.0) fn (opts p x.0 cfg) w (handler_of p x.1) r.made).0,
        new_handler-SameJudgement p (ClaimsOf x.0) fn (opts p x.0 cfg) w (handler_of p x.1) r.made,
      )

  -- A call of `ParseToken` keeps it so.
  pub parse_token-Judges :
      (q : Provider) (s : Str) (h : Handler p (ClaimsOf q)) (w : p.World)
      → Judges q h
      → Judges q (parse_token p (ClaimsOf q) (u q) s (h, w)).1.0
  parse_token-Judges q s h w (well_formed, judgement) =
      let x = parse_token-IsSound p (ClaimsOf q) (u q) s h w well_formed in
      let h0 = from_options p (ClaimsOf q) (claims_validation_fn q cfg) (new p (opts p q cfg)) in
      let h' = (parse_token p (ClaimsOf q) (u q) s (h, w)).1.0 in
      (
        x.well_formed,
        subst (SameJudgement p (ClaimsOf q) h0) (sym x.same)
            (SameJudgement-with_keys p (ClaimsOf q) h0 h h'.jwks_uri h'.key_handler judgement),
      )

  -- The claims that it returns are admitted.
  pub judged-IsAdmitted :
      (q : Provider) (h : Handler p (ClaimsOf q)) (w1 : p.World)
      → string_not_empty (inputs q cfg) ≡ ok tt
      → Judges q h
      → (s : Str) (claims : ClaimsOf q) (st : HandlerState p (ClaimsOf q))
      → parse_token p (ClaimsOf q) (u q) s (h, w1) ≡ (ok claims, st)
      → (a : IsAuthentic p (ClaimsOf q) (u q) h s claims st.0) × IsAdmitted q a.time a.token claims
  judged-IsAdmitted q h w1 filled (well_formed, same) s claims st parsed =
      let a = parse_token-IsAuthentic p (ClaimsOf q) (u q) s h w1 claims st well_formed parsed in
      let (issuer, drift) = judged q in
      let ok_claims = a.is_accepted in
      (
        a,
        record {
          unexpired =
              subst (λ d. a.time <ℤ p.token_expiration a.token +ℤ d)
                (same.allowed_token_drift ∙ drift) ok_claims.unexpired;
          issued = ok_claims.issued ∙ same.issuer ∙ issuer;
          issuer_given =
              string_not_empty-In (str "issuer") cfg.issuer (inputs q cfg) filled
                (issuer-given q cfg);
          meant = opts-IsMeant q a.token filled (
              subst (λ b. (b ≡ []) ⊎ In b (p.token_audience a.token)) same.required_audience
                ok_claims.meant);
          of_client =
              validate_claims-client p q cfg (u q) h claims (required-given q cfg filled)
                same.claims_validation_fn ok_claims.validated;
          client_given = required-given q cfg filled;
        },
      )

  -- The program of examples/api, when it runs a server, has a configuration with an issuer and a
  -- client (or tenant) that are not empty, and the claims that its handler returns are authentic
  -- and admitted by that configuration: of its issuer, for its audience where it takes one,
  -- unexpired, and of its client.
  pub run-IsAdmitted :
      (w w1 : p.World) (x : (q : Provider) × Running p (ClaimsOf q))
      → (run p u cfg w).0 ≡ ok x
      → (s : Str) (claims : ClaimsOf x.0) (st : HandlerState p (ClaimsOf x.0))
      → parse_token p (ClaimsOf x.0) (u x.0) s (handler_of p x.1, w1) ≡ (ok claims, st)
      → (a : IsAuthentic p (ClaimsOf x.0) (u x.0) (handler_of p x.1) s claims st.0) × IsAdmitted x.0
          a.time a.token claims
  run-IsAdmitted w w1 x e s claims st parsed =
      let r = run-IsRun w x e in
      judged-IsAdmitted x.0 (handler_of p x.1) w1 r.filled (run-Judges w x r) s claims st parsed
