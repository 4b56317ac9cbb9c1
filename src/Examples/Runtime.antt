-- ===== src/Examples/Runtime.antt =====
-- examples/shared/runtime.go: the configuration of the example programs and the claims that they
-- validate. The loader of the configuration is an argument.
use go_oidc_middleware.Prelude.{
  ℕ, Bool, true, false, not, ◌&&◌, Option, none, some, List, ◌++◌, if◌then◌else◌,
}
use go_oidc_middleware.Prelude.Int.{ℤ}
use go_oidc_middleware.Text.{Str, str, is_empty, ◌==◌}
use go_oidc_middleware.Errors.{External}
use go_oidc_middleware.Options.{ClaimsValidationFn}
use go_oidc_middleware.Op.Action.{unknown, Action, ◌>>=◌, ◌>>◌, pure, require, from_external}

pub data Server : Type 0 where
  http_server gin_server echo_jwt_server fiber_server : Server

pub data Provider : Type 0 where
  auth0_provider azure_ad_provider cognito_provider okta_provider optest_provider : Provider

-- The constants of the type Server, which is a string; any other text is none of them.
unfoldable pub read_server : Str → Option Server
read_server s =
    if s == str "http"
    then some http_server
    else if s == str "gin"
    then some gin_server
    else if s == str "echojwt"
    then some echo_jwt_server
    else if s == str "fiber"
    then some fiber_server
    else none

unfoldable pub read_provider : Str → Option Provider
read_provider p =
    if p == str "auth0"
    then some auth0_provider
    else if p == str "azuread"
    then some azure_ad_provider
    else if p == str "cognito"
    then some cognito_provider
    else if p == str "okta"
    then some okta_provider
    else if p == str "optest"
    then some optest_provider
    else none

abbrev pub is_known : {A : Type 0} → Option A → Bool
is_known none = false
is_known (some _) = true

pub record RuntimeConfig : Type 0 where
  pub server : Str
  pub provider : Str
  pub address : Str
  pub port : ℕ
  pub issuer : Str
  pub audience : Str
  pub client_id : Str
  pub fallback_signature_algorithm : Str
  pub required_auth0_client_id : Str
  pub required_azure_ad_tenant_id : Str
  pub required_cognito_client_id : Str
  pub required_okta_client_id : Str
  pub required_optest_client_id : Str

-- The two `Validate` methods.
unfoldable pub validate_server : {S : Type 0} → Str → Action S Unit
validate_server s = require (is_known (read_server s)) (unknown s)

unfoldable pub validate_provider : {S : Type 0} → Str → Action S Unit
validate_provider p = require (is_known (read_provider p)) (unknown p)

unfoldable pub new_runtime_config :
    {World : Type 0} → (World → External RuntimeConfig × World) → Action World RuntimeConfig
new_runtime_config load = do
  cfg ← λ w. let out = load w in (from_external out.0, out.1)
  validate_server cfg.server
  validate_provider cfg.provider
  pure cfg

pub record Auth0Claims : Type 0 where
  pub audience : List Str
  pub client_id : Str
  pub expires_at : ℤ
  pub issued_at : ℤ
  pub issuer : Str
  pub scope : Str
  pub subject : Str

pub record AzureAdClaims : Type 0 where
  pub aio : Str
  pub audience : List Str
  pub azp : Str
  pub azpacr : Str
  pub expires_at : ℤ
  pub issued_at : ℤ
  pub idp : Str
  pub issuer : Str
  pub name : Str
  pub not_before : ℤ
  pub oid : Str
  pub preferred_username : Str
  pub rh : Str
  pub scope : Str
  pub subject : Str
  pub tenant_id : Str
  pub uti : Str
  pub token_version : Str

pub record CognitoClaims : Type 0 where
  pub auth_time : ℤ
  pub client_id : Str
  pub event_id : Str
  pub expires_at : ℤ
  pub issued_at : ℤ
  pub issuer : Str
  pub jti : Str
  pub origin_jti : Str
  pub scope : Str
  pub subject : Str
  pub token_use : Str
  pub username : Str
  pub version : ℤ

pub record OktaClaims : Type 0 where
  pub audience : List Str
  pub auth_time : ℤ
  pub client_id : Str
  pub expires_at : ℤ
  pub issued_at : ℤ
  pub issuer : Str
  pub jti : Str
  pub scope : List Str
  pub subject : Str
  pub uid : Str
  pub version : ℤ

pub record OptestClaims : Type 0 where
  pub audience : List Str
  pub expires_at : ℤ
  pub issued_at : ℤ
  pub id : Str
  pub issuer : Str
  pub not_before : ℤ
  pub subject : Str
  pub client_id : Str

-- `required != "" && actual != required`, with the text of the error; `%q` quotes a plain text so
abbrev pub required_value : Str → Str → Str → Option Str
required_value claim required actual =
    if not (is_empty required) && not (actual == required)
    then some (
        claim
        ++ (str " claim is required to be \"" ++ (required ++ (str "\" but was: " ++ actual))))
    else none

unfoldable pub get_auth0_claims_validation_fn : Str → ClaimsValidationFn Auth0Claims
get_auth0_claims_validation_fn required_client_id =
    some λ claims. required_value (str "azp") required_client_id claims.client_id

unfoldable pub get_azure_ad_claims_validation_fn : Str → ClaimsValidationFn AzureAdClaims
get_azure_ad_claims_validation_fn required_tenant_id =
    some λ claims. required_value (str "tid") required_tenant_id claims.tenant_id

unfoldable pub get_cognito_claims_validation_fn : Str → ClaimsValidationFn CognitoClaims
get_cognito_claims_validation_fn required_client_id =
    some λ claims. required_value (str "client_id") required_client_id claims.client_id

unfoldable pub get_okta_claims_validation_fn : Str → ClaimsValidationFn OktaClaims
get_okta_claims_validation_fn required_client_id =
    some λ claims. required_value (str "cid") required_client_id claims.client_id

unfoldable pub get_optest_claims_validation_fn : Str → ClaimsValidationFn OptestClaims
get_optest_claims_validation_fn required_client_id =
    some λ claims. required_value (str "client_id") required_client_id claims.client_id
