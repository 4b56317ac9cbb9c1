-- ===== src/Examples/Servers/Started.antt =====
-- From the configuration of examples/api to the claims that its server shows.
use go_oidc_middleware.Prelude.{◌≡◌, refl, ap, List, [], ◌∷◌}
use go_oidc_middleware.Text.{Str}
use go_oidc_middleware.Errors.{ok, External}
use go_oidc_middleware.Platform.{Platform}
use go_oidc_middleware.TokenString.{GetHeaderFn}
use go_oidc_middleware.Options.{
  new, with_issuer, with_required_token_type, with_required_audience,
  with_fallback_signature_algorithm, default_claims_context_key_name,
}
use go_oidc_middleware.Options.TokenStringOptions.{apply_setters}
use go_oidc_middleware.Oidc.Handler.{Handler}
use go_oidc_middleware.Oidc.Parse.{parse_token}
use go_oidc_middleware.Oidc.Sound.{IsAuthentic}
use go_oidc_middleware.Examples.Runtime.{
  Provider, auth0_provider, azure_ad_provider, cognito_provider, okta_provider, optest_provider,
  RuntimeConfig,
}
use go_oidc_middleware.Examples.Api.{ClaimsOf, opts, Running, run}
use go_oidc_middleware.Examples.Api.Admits.{handler_of}
use go_oidc_middleware.Examples.Api.Run.{
  IsAdmitted, run-IsRun, Judges, run-Judges, parse_token-Judges, judged-IsAdmitted,
}
use go_oidc_middleware.Examples.Servers.{Frameworks, serve}
use go_oidc_middleware.Examples.Servers.Shows.{Shows, IsFramework, Carries, shown}
use go_oidc_middleware.Examples.Servers.Served.{serve-shown, serve-Shows, serve-keeps}

module _ (p : Platform) (u : (q : Provider) → Str → External (ClaimsOf q))
    (cfg : RuntimeConfig) where
  -- The options of every provider leave the key of the claims as it is.
  pub opts-claims_context_key_name :
      (q : Provider)
      → (new p (opts p q cfg)).claims_context_key_name ≡ default_claims_context_key_name
  unfolding new apply_setters with_issuer with_required_token_type with_required_audience
      with_fallback_signature_algorithm
  opts-claims_context_key_name auth0_provider = refl
  opts-claims_context_key_name azure_ad_provider = refl
  opts-claims_context_key_name cognito_provider = refl
  opts-claims_context_key_name okta_provider = refl
  opts-claims_context_key_name optest_provider = refl

  module _ (w : p.World) (x : (q : Provider) × Running p (ClaimsOf q))
      (started : (run p u cfg w).0 ≡ ok x) (f : Frameworks (ClaimsOf x.0))
      (json_encode : ClaimsOf x.0 → External Unit) where
    -- The handler of the server after requests, each at a state of the world.
    abbrev pub after :
        List (GetHeaderFn × p.World) → Handler p (ClaimsOf x.0) → Handler p (ClaimsOf x.0)
    after [] h = h
    after ((header, w1) ∷ requests) h =
        after requests (serve p f json_encode x.1 header (h, w1)).1.0

    after-Judges :
        (requests : List (GetHeaderFn × p.World)) (h : Handler p (ClaimsOf x.0))
        → Judges p u cfg x.0 h
        → Judges p u cfg x.0 (after requests h)
    after-Judges [] h judges = judges
    after-Judges ((header, w1) ∷ requests) h judges =
        after-Judges requests (serve p f json_encode x.1 header (h, w1)).1.0 (
          serve-keeps p f json_encode (opts p x.0 cfg) (u x.0) (Judges p u cfg x.0)
            (parse_token-Judges p u cfg x.0) header x.1 h w1 (run-IsRun p u cfg w x started).serves
            judges)

    module _ (law : IsFramework f) (requests : List (GetHeaderFn × p.World)) (header : GetHeaderFn)
        (w1 : p.World) where
      -- The handler at a request after others.
      abbrev pub current : Handler p (ClaimsOf x.0)
      current = after requests (handler_of p x.1)

      -- Claims that the server of examples/api shows in answer to a request, after any others, are
      -- those of the token string that the request carries: they are authentic and admitted by the
      -- configuration. The frameworks find in the context of a request what was put there, and
      -- echo shows no claims when it refuses.
      pub run-Shows :
          (claims : ClaimsOf x.0)
          → Shows (serve p f json_encode x.1 header (current, w1)).0 claims
          → (t : Str) × Carries p f (opts p x.0 cfg) header x.1 t
            × ((a : IsAuthentic p
                  (ClaimsOf x.0)
                  (u x.0)
                  current
                  t
                  claims
                  (parse_token p (ClaimsOf x.0) (u x.0) t (current, w1)).1.0)
                × IsAdmitted p u cfg x.0 a.time a.token claims)
      run-Shows claims there =
          let r = run-IsRun p u cfg w x started in
          let (t, carried, parsed) =
            serve-Shows p f law json_encode (opts p x.0 cfg) (u x.0)
              (opts-claims_context_key_name x.0) header x.1 claims (current, w1) r.serves there in
          let st = (parse_token p (ClaimsOf x.0) (u x.0) t (current, w1)).1 in
          (
            t,
            carried,
            judged-IsAdmitted p u cfg x.0 current w1 r.filled
                (after-Judges requests (handler_of p x.1) (run-Judges p u cfg w x r)) t claims st
                (ap (λ out. (out, st)) parsed),
          )

      -- A request that carries a token string that parses, after any others, is answered with its
      -- claims by any of the four servers, where the frameworks find in the context of a request
      -- what was put there.
      pub run-shown :
          (t : Str) (claims : ClaimsOf x.0)
          → Carries p f (opts p x.0 cfg) header x.1 t
          → (parse_token p (ClaimsOf x.0) (u x.0) t (current, w1)).0 ≡ ok claims
          → (serve p f json_encode x.1 header (current, w1)).0 ≡ shown p json_encode x.1 claims
      run-shown t claims carried parsed =
          serve-shown p f law json_encode (opts p x.0 cfg) (u x.0)
            (opts-claims_context_key_name x.0) header x.1 t claims (current, w1)
            (run-IsRun p u cfg w x started).serves carried parsed
