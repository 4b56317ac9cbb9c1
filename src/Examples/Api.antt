-- ===== src/Examples/Api.antt =====
-- examples/api/main.go: the choice of options, claims and server by the configuration. The servers
-- that then run are left out.
pub mod Admits
pub mod Serves
pub mod Run
use go_oidc_middleware.Prelude.{
  ℕ, Bool, true, false, not, Option, none, some, List, [], ◌∷◌, if◌then◌else◌,
}
use go_oidc_middleware.Text.{Str, str, is_empty}
use go_oidc_middleware.Errors.{Error, Result, ok, err, External}
use go_oidc_middleware.Platform.{Platform}
use go_oidc_middleware.TokenString.{GetHeaderFn}
use go_oidc_middleware.Options.{
  ClaimsValidationFn, Setter, with_issuer, with_required_token_type, with_required_audience,
  with_fallback_signature_algorithm,
}
use go_oidc_middleware.Oidc.Handler.{Handler, HandlerState}
use go_oidc_middleware.Middleware.Http
use go_oidc_middleware.Middleware.Gin
use go_oidc_middleware.Middleware.Fiber
use go_oidc_middleware.Middleware.EchoJwt.{new_echo_jwt}
use go_oidc_middleware.Examples.Runtime.{
  Server, http_server, gin_server, echo_jwt_server, fiber_server, Provider, auth0_provider,
  azure_ad_provider, cognito_provider, okta_provider, optest_provider, read_server, read_provider,
  RuntimeConfig, Auth0Claims, AzureAdClaims, CognitoClaims, OktaClaims, OptestClaims,
  get_auth0_claims_validation_fn, get_azure_ad_claims_validation_fn,
  get_cognito_claims_validation_fn, get_okta_claims_validation_fn, get_optest_claims_validation_fn,
}

pub data ApiError : Type 0 where
  value_is_empty : Str → ApiError
  unknown_provider : Str → ApiError
  unknown_server : Str → ApiError
  -- the panic of `New`
  panicked : Error → ApiError

-- In the order of the list; the source has a map.
unfoldable pub string_not_empty : List (Str × Str) → Result ApiError Unit
string_not_empty [] = ok tt
string_not_empty ((k, v) ∷ input) =
    let rest = string_not_empty input in if is_empty v then err (value_is_empty k) else rest

abbrev pub ClaimsOf : Provider → Type 0
ClaimsOf auth0_provider = Auth0Claims
ClaimsOf azure_ad_provider = AzureAdClaims
ClaimsOf cognito_provider = CognitoClaims
ClaimsOf okta_provider = OktaClaims
ClaimsOf optest_provider = OptestClaims

-- The inputs that `run` wants of each provider.
abbrev pub common_inputs : RuntimeConfig → List (Str × Str) → List (Str × Str)
common_inputs cfg rest =
    (str "issuer", cfg.issuer)
    ∷ (str "fallbackSignatureAlgorithm", cfg.fallback_signature_algorithm)
    ∷ rest

abbrev pub inputs : Provider → RuntimeConfig → List (Str × Str)
inputs auth0_provider cfg = common_inputs cfg (
    (str "audience", cfg.audience)
    ∷ (str "RequiredAuth0ClientId", cfg.required_auth0_client_id)
    ∷ [])
inputs azure_ad_provider cfg = common_inputs cfg (
    (str "audience", cfg.audience)
    ∷ (str "RequiredAzureADTenantId", cfg.required_azure_ad_tenant_id)
    ∷ [])
inputs cognito_provider cfg =
    common_inputs cfg ((str "RequiredCognitoClientId", cfg.required_cognito_client_id) ∷ [])
inputs okta_provider cfg =
    common_inputs cfg ((str "RequiredOktaClientId", cfg.required_okta_client_id) ∷ [])
inputs optest_provider cfg =
    common_inputs cfg ((str "RequiredOPTestClientId", cfg.required_optest_client_id) ∷ [])

abbrev pub claims_validation_fn : (q : Provider) → RuntimeConfig → ClaimsValidationFn (ClaimsOf q)
claims_validation_fn auth0_provider cfg =
    get_auth0_claims_validation_fn cfg.required_auth0_client_id
claims_validation_fn azure_ad_provider cfg =
    get_azure_ad_claims_validation_fn cfg.required_azure_ad_tenant_id
claims_validation_fn cognito_provider cfg =
    get_cognito_claims_validation_fn cfg.required_cognito_client_id
claims_validation_fn okta_provider cfg = get_okta_claims_validation_fn cfg.required_okta_client_id
claims_validation_fn optest_provider cfg =
    get_optest_claims_validation_fn cfg.required_optest_client_id

module _ (p : Platform) where
  abbrev audience_opts : RuntimeConfig → List (Setter p)
  audience_opts cfg =
      with_issuer p cfg.issuer
      ∷ with_required_token_type p (str "JWT")
      ∷ with_required_audience p cfg.audience
      ∷ with_fallback_signature_algorithm p cfg.fallback_signature_algorithm
      ∷ []

  abbrev issuer_opts : RuntimeConfig → List (Setter p)
  issuer_opts cfg =
      with_issuer p cfg.issuer
      ∷ with_fallback_signature_algorithm p cfg.fallback_signature_algorithm
      ∷ []

  abbrev pub opts : Provider → RuntimeConfig → List (Setter p)
  opts auth0_provider cfg = audience_opts cfg
  opts azure_ad_provider cfg = audience_opts cfg
  opts cognito_provider cfg = issuer_opts cfg
  opts okta_provider cfg = issuer_opts cfg
  opts optest_provider cfg = issuer_opts cfg

  -- What the server is run with: the handler, and how the adapter serves with it.
  pub data Running (T : Type 0) : Type 0 where
    http :
        Handler p T
        → (GetHeaderFn → HandlerState p T → List (Http.Event p T) × HandlerState p T)
        → Running T
    gin :
        Handler p T
        → (GetHeaderFn → HandlerState p T → List (Gin.Event p T) × HandlerState p T)
        → Running T
    echo_jwt :
        Handler p T
        → (Str → HandlerState p T → (Result Error T × List p.Effect) × HandlerState p T)
        → Running T
    fiber :
        Handler p T
        → (GetHeaderFn → HandlerState p T → List (Fiber.Event p T) × HandlerState p T)
        → Running T

  abbrev pub running :
      {T A : Type 0}
      → (Handler p T → A → Running T)
      → Result Error (Handler p T × A) × p.World
      → Result ApiError (Running T) × p.World
  running run (err e, w) = (err (panicked e), w)
  running run (ok (h, serve), w) = (ok (run h serve), w)

  unfoldable pub get_handler :
      {T : Type 0}
      → (Str → External T)
      → RuntimeConfig
      → ClaimsValidationFn T
      → List (Setter p)
      → p.World
      → Result ApiError (Running T) × p.World
  get_handler {T} u cfg fn setters w = elim (read_server cfg.server) [
    | none ↦ (err (unknown_server cfg.server), w)
    | some http_server ↦ running http (Http.new_http p T u fn setters w)
    | some gin_server ↦ running gin (Gin.new_gin p T u fn setters w)
    | some echo_jwt_server ↦ running echo_jwt (new_echo_jwt p T u fn setters w)
    | some fiber_server ↦ running fiber (Fiber.new_fiber p T u fn setters w)
  ]

  -- A case of `run`.
  unfoldable pub run_provider :
      (q : Provider)
      → (Str → External (ClaimsOf q))
      → RuntimeConfig
      → p.World
      → Result ApiError (Running (ClaimsOf q)) × p.World
  run_provider q u cfg w = elim (string_not_empty (inputs q cfg)) [
    | err e ↦ (err e, w)
    | ok _ ↦ get_handler u cfg (claims_validation_fn q cfg) (opts q cfg) w
  ]

  abbrev pub named :
      (q : Provider)
      → Result ApiError (Running (ClaimsOf q)) × p.World
      → Result ApiError ((r : Provider) × Running (ClaimsOf r)) × p.World
  named q (err e, w) = (err e, w)
  named q (ok r, w) = (ok (q, r), w)

  unfoldable pub run :
      ((q : Provider) → Str → External (ClaimsOf q))
      → RuntimeConfig
      → p.World
      → Result ApiError ((q : Provider) × Running (ClaimsOf q)) × p.World
  run u cfg w = elim (read_provider cfg.provider) [
    | none ↦ (err (unknown_provider cfg.provider), w)
    | some q ↦ named q (run_provider q (u q) cfg w)
  ]
