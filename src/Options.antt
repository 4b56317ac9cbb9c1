-- ===== src/Options.antt =====
-- options/options.go: the options of the middleware and their setters.
pub mod TokenStringOptions
use go_oidc_middleware.Prelude.{ℕ, Bool, false, Option, none, some, List, [], ◌∷◌, ◌++◌}
use go_oidc_middleware.Prelude.Int.{ℤ, pos}
use go_oidc_middleware.Text.{Str, str}
use go_oidc_middleware.Errors.{Error}
use go_oidc_middleware.Platform.{Platform}
use TokenStringOptions.{TokenStringOption, apply_setters}

abbrev pub ErrorDescription : Type 0
ErrorDescription = Str

abbrev pub get_token_error_description : ErrorDescription
get_token_error_description = str "unable to get token string"

abbrev pub parse_token_error_description : ErrorDescription
parse_token_error_description = str "unable to parse token string"

abbrev pub convert_token_error_description : ErrorDescription
convert_token_error_description = str "unable to convert token to map"

abbrev pub default_claims_context_key_name : Str
default_claims_context_key_name = str "claims"

-- nil, or a function that returns no error for claims that are valid
abbrev pub ClaimsValidationFn : Type 0 → Type 0
ClaimsValidationFn T = Option (T → Option Str)

module _ (p : Platform) where
  open p use {HttpClient, Effect, default_client}

  abbrev pub ErrorHandler : Type 0
  ErrorHandler = ErrorDescription → Error → Effect

  pub record Options : Type 0 where
    pub issuer : Str
    pub discovery_uri : Str
    pub discovery_fetch_timeout : ℤ
    pub jwks_uri : Str
    pub jwks_fetch_timeout : ℤ
    pub jwks_rate_limit : ℕ
    pub fallback_signature_algorithm : Str
    pub allowed_token_drift : ℤ
    pub lazy_load_jwks : Bool
    pub required_token_type : Str
    pub required_audience : Str
    pub disable_key_id : Bool
    pub http_client : HttpClient
    pub token_string : List (List TokenStringOption)
    pub claims_context_key_name : Str
    pub error_handler : Option ErrorHandler

  -- `Option` of the source, a function that changes the options.
  abbrev pub Setter : Type 0
  Setter = Options → Options

  abbrev pub default_options : Options
  default_options = record {
    issuer = [];
    discovery_uri = [];
    discovery_fetch_timeout = pos 5_000_000_000;
    jwks_uri = [];
    jwks_fetch_timeout = pos 5_000_000_000;
    jwks_rate_limit = 1;
    fallback_signature_algorithm = [];
    allowed_token_drift = pos 10_000_000_000;
    lazy_load_jwks = false;
    required_token_type = [];
    required_audience = [];
    disable_key_id = false;
    http_client = default_client;
    token_string = [];
    claims_context_key_name = default_claims_context_key_name;
    error_handler = none;
  }

  unfoldable pub new : List Setter → Options
  unfolding apply_setters
  new setters = apply_setters setters default_options

  unfoldable pub with_issuer : Str → Setter
  with_issuer opt opts = record opts { issuer = opt }

  unfoldable pub with_discovery_uri : Str → Setter
  with_discovery_uri opt opts = record opts { discovery_uri = opt }

  unfoldable pub with_discovery_fetch_timeout : ℤ → Setter
  with_discovery_fetch_timeout opt opts = record opts { discovery_fetch_timeout = opt }

  unfoldable pub with_jwks_uri : Str → Setter
  with_jwks_uri opt opts = record opts { jwks_uri = opt }

  unfoldable pub with_jwks_fetch_timeout : ℤ → Setter
  with_jwks_fetch_timeout opt opts = record opts { jwks_fetch_timeout = opt }

  unfoldable pub with_jwks_rate_limit : ℕ → Setter
  with_jwks_rate_limit opt opts = record opts { jwks_rate_limit = opt }

  unfoldable pub with_fallback_signature_algorithm : Str → Setter
  with_fallback_signature_algorithm opt opts = record opts { fallback_signature_algorithm = opt }

  unfoldable pub with_allowed_token_drift : ℤ → Setter
  with_allowed_token_drift opt opts = record opts { allowed_token_drift = opt }

  unfoldable pub with_lazy_load_jwks : Bool → Setter
  with_lazy_load_jwks opt opts = record opts { lazy_load_jwks = opt }

  unfoldable pub with_required_token_type : Str → Setter
  with_required_token_type opt opts = record opts { required_token_type = opt }

  unfoldable pub with_required_audience : Str → Setter
  with_required_audience opt opts = record opts { required_audience = opt }

  unfoldable pub with_disable_key_id : Bool → Setter
  with_disable_key_id opt opts = record opts { disable_key_id = opt }

  unfoldable pub with_http_client : HttpClient → Setter
  with_http_client opt opts = record opts { http_client = opt }

  -- The source copies the setters before it returns the option; a list is a value here.
  unfoldable pub with_token_string : List TokenStringOption → Setter
  with_token_string setters opts = record opts { token_string = opts.token_string ++ setters ∷ [] }

  unfoldable pub with_claims_context_key_name : Str → Setter
  with_claims_context_key_name opt opts = record opts { claims_context_key_name = opt }

  unfoldable pub with_error_handler : Option ErrorHandler → Setter
  with_error_handler opt opts = record opts { error_handler = opt }
