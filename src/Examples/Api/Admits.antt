-- ===== src/Examples/Api/Admits.antt =====
-- The claims that the program of examples/api admits.
use go_oidc_middleware.Prelude.{
  ◌≡◌, ◌≢◌, refl, sym, ap, ◌∙◌, inl, inr, Option, none, some, List, [], ◌∷◌, In, arith, Bool-cases,
  Option-cases,
}
use go_oidc_middleware.Text.{Str, str, is_empty}
use go_oidc_middleware.Text.Equality.{==_iff}
use go_oidc_middleware.Errors.{Error, Result, ok, err, External, ok-injective}
use go_oidc_middleware.Platform.{Platform}
use go_oidc_middleware.Options.{ClaimsValidationFn, Setter}
use go_oidc_middleware.Oidc.Handler.{Handler, new_handler}
use go_oidc_middleware.Oidc.Parse.{validate_claims}
use go_oidc_middleware.Middleware.Http.{new_http}
use go_oidc_middleware.Middleware.Gin.{new_gin}
use go_oidc_middleware.Middleware.Fiber.{new_fiber}
use go_oidc_middleware.Middleware.EchoJwt.{new_echo_jwt}
use go_oidc_middleware.Examples.Runtime.{
  Server, http_server, gin_server, echo_jwt_server, fiber_server, Provider, auth0_provider,
  azure_ad_provider, cognito_provider, okta_provider, optest_provider, read_server, RuntimeConfig,
  required_value, get_auth0_claims_validation_fn, get_azure_ad_claims_validation_fn,
  get_cognito_claims_validation_fn, get_okta_claims_validation_fn, get_optest_claims_validation_fn,
}
use go_oidc_middleware.Examples.Api.{
  string_not_empty, ClaimsOf, inputs, claims_validation_fn, Running, http, gin, echo_jwt, fiber,
  running, get_handler, run,
}

-- The claim that names the client or the tenant, and what the configuration requires it to be.
abbrev pub client_of : (q : Provider) → ClaimsOf q → Str
client_of auth0_provider claims = claims.client_id
client_of azure_ad_provider claims = claims.tenant_id
client_of cognito_provider claims = claims.client_id
client_of okta_provider claims = claims.client_id
client_of optest_provider claims = claims.client_id

abbrev pub required_of : Provider → RuntimeConfig → Str
required_of auth0_provider cfg = cfg.required_auth0_client_id
required_of azure_ad_provider cfg = cfg.required_azure_ad_tenant_id
required_of cognito_provider cfg = cfg.required_cognito_client_id
required_of okta_provider cfg = cfg.required_okta_client_id
required_of optest_provider cfg = cfg.required_optest_client_id

pub string_not_empty-In :
    (k v : Str) (input : List (Str × Str))
    → string_not_empty input ≡ ok tt
    → In (k, v) input
    → v ≢ []
unfolding string_not_empty
string_not_empty-In k v [] e there = absurd there
string_not_empty-In k v ((k', v') ∷ input) e there = elim (Bool-cases (is_empty v')) [
  | inl empty ↦ absurd (ground arith)
  | inr filled ↦
      let rest : string_not_empty input ≡ ok tt = rw filled at e in
      elim there [
        | inl here ↦ let same : v' ≡ v = ap (λ (x : Str × Str). x.1) here in λ empty. ground arith
        | inr later ↦ string_not_empty-In k v input rest later
      ]
]

required_value-none :
    (claim required actual : Str)
    → required_value claim required actual ≡ none
    → required ≢ []
    → actual ≡ required
required_value-none claim required actual e given = ground (arith, ==_iff actual required)

pub issuer-given :
    (q : Provider) (cfg : RuntimeConfig) → In (str "issuer", cfg.issuer) (inputs q cfg)
issuer-given auth0_provider cfg = inl refl
issuer-given azure_ad_provider cfg = inl refl
issuer-given cognito_provider cfg = inl refl
issuer-given okta_provider cfg = inl refl
issuer-given optest_provider cfg = inl refl

pub required-given :
    (q : Provider) (cfg : RuntimeConfig)
    → string_not_empty (inputs q cfg) ≡ ok tt
    → required_of q cfg ≢ []
required-given auth0_provider cfg e =
    string_not_empty-In (str "RequiredAuth0ClientId") _ _ e (inr (inr (inr (inl refl))))
required-given azure_ad_provider cfg e =
    string_not_empty-In (str "RequiredAzureADTenantId") _ _ e (inr (inr (inr (inl refl))))
required-given cognito_provider cfg e =
    string_not_empty-In (str "RequiredCognitoClientId") _ _ e (inr (inr (inl refl)))
required-given okta_provider cfg e =
    string_not_empty-In (str "RequiredOktaClientId") _ _ e (inr (inr (inl refl)))
required-given optest_provider cfg e =
    string_not_empty-In (str "RequiredOPTestClientId") _ _ e (inr (inr (inl refl)))

module _ (p : Platform) where
  validate_claims-some :
      {T : Type 0} (u : Str → External T) (h : Handler p T) (claims : T) (v : T → Option Str)
      → h.claims_validation_fn ≡ some v
      → validate_claims p T u h claims ≡ ok tt
      → v claims ≡ none
  unfolding validate_claims
  validate_claims-some u h claims v fn valid = elim (Option-cases (v claims)) [
    | inl none_wrong ↦ none_wrong
    | inr (text, wrong) ↦ absurd (ground arith)
  ]

  pub validate_claims-client :
      (q : Provider) (cfg : RuntimeConfig) (u : Str → External (ClaimsOf q))
      (h : Handler p (ClaimsOf q)) (claims : ClaimsOf q)
      → required_of q cfg ≢ []
      → h.claims_validation_fn ≡ claims_validation_fn q cfg
      → validate_claims p (ClaimsOf q) u h claims ≡ ok tt
      → client_of q claims ≡ required_of q cfg
  unfolding validate_claims get_auth0_claims_validation_fn get_azure_ad_claims_validation_fn
      get_cognito_claims_validation_fn get_okta_claims_validation_fn get_optest_claims_validation_fn
  validate_claims-client auth0_provider cfg u h claims given fn valid =
      required_value-none (str "azp") _ _ (validate_claims-some u h claims _ fn valid) given
  validate_claims-client azure_ad_provider cfg u h claims given fn valid =
      required_value-none (str "tid") _ _ (validate_claims-some u h claims _ fn valid) given
  validate_claims-client cognito_provider cfg u h claims given fn valid =
      required_value-none (str "client_id") _ _ (validate_claims-some u h claims _ fn valid) given
  validate_claims-client okta_provider cfg u h claims given fn valid =
      required_value-none (str "cid") _ _ (validate_claims-some u h claims _ fn valid) given
  validate_claims-client optest_provider cfg u h claims given fn valid =
      required_value-none (str "client_id") _ _ (validate_claims-some u h claims _ fn valid) given

  abbrev pub handler_of : {T : Type 0} → Running p T → Handler p T
  handler_of (http h serve) = h
  handler_of (gin h serve) = h
  handler_of (echo_jwt h serve) = h
  handler_of (fiber h serve) = h

  running-made :
      {T A : Type 0} (run : Handler p T → A → Running p T)
      (out : Result Error (Handler p T × A) × p.World) (r : Running p T)
      → ((h : Handler p T) (a : A) → handler_of (run h a) ≡ h)
      → (running p run out).0 ≡ ok r
      → (a : A) × (out.0 ≡ ok (handler_of r, a))
  running-made run (err x, w) r keeps e = absurd (cc)
  running-made run (ok (h, a), w) r keeps e =
      (a, ap (λ g. ok (g, a)) (sym (keeps h a) ∙ ap handler_of (ok-injective e)))

  -- The handler that an adapter is made with, with the function that serves with it.
  paired-made :
      {T A : Type 0} (out : Result Error (Handler p T) × p.World) (serve : A) (h : Handler p T)
      (a : A)
      → ◌≡◌ {A = Result Error (Handler p T × A)}
          (elim out.0 as (λ _. Result Error (Handler p T × A) × p.World) [
            | err x ↦ (err x, out.1)
            | ok g ↦ (ok (g, serve), out.1)
          ]).0
          (ok (h, a))
      → out.0 ≡ ok h
  paired-made (err x, w) serve h a e = absurd (cc)
  paired-made (ok g, w) serve h a e = ap ok (ap (λ pair. pair.0) (ok-injective e))

  module _ {T : Type 0} (u : Str → External T) (cfg : RuntimeConfig) (fn : ClaimsValidationFn T)
      (setters : List (Setter p)) (w : p.World) where
    pub get_handler-server :
        (server : Option Server) (r : Running p T)
        → read_server cfg.server ≡ server
        → (get_handler p u cfg fn setters w).0 ≡ ok r
        → (new_handler p T fn setters w).0 ≡ ok (handler_of r)
    unfolding get_handler new_http new_gin new_fiber new_echo_jwt
    get_handler-server none r s e = absurd (ground arith)
    get_handler-server (some http_server) r s e =
        let (a, made) =
          running-made http (new_http p T u fn setters w) r (λ h a. refl)
            (rw (s, get_handler) at e) in
        paired-made (new_handler p T fn setters w) _ (handler_of r) a made
    get_handler-server (some gin_server) r s e =
        let (a, made) =
          running-made gin (new_gin p T u fn setters w) r (λ h a. refl)
            (rw (s, get_handler) at e) in
        paired-made (new_handler p T fn setters w) _ (handler_of r) a made
    get_handler-server (some echo_jwt_server) r s e =
        let (a, made) =
          running-made echo_jwt (new_echo_jwt p T u fn setters w) r (λ h a. refl)
            (rw (s, get_handler) at e) in
        paired-made (new_handler p T fn setters w) _ (handler_of r) a made
    get_handler-server (some fiber_server) r s e =
        let (a, made) =
          running-made fiber (new_fiber p T u fn setters w) r (λ h a. refl)
            (rw (s, get_handler) at e) in
        paired-made (new_handler p T fn setters w) _ (handler_of r) a made
