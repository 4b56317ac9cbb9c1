-- ===== src/Tests/Api.antt =====
-- The program of examples/api with the provider of optest.
use go_oidc_middleware.Prelude.{◌≡◌, refl, false, some, [], ◌∷◌}
use go_oidc_middleware.Prelude.Int.{pos, ◌+ℤ◌}
use go_oidc_middleware.Text.{Str, str, ◌==◌, trim_suffix}
use go_oidc_middleware.Errors.{
  ok, err, External, ◌>>=◌, ◌>>◌, pure, lift, wrap, require, call, map_err, from_external,
}
use go_oidc_middleware.KeyHandler.{
  checked_key_set, store_key_set, update_key_set, new_key_handler, key_fits, find_key_from,
  find_key, get_key_from_id, get_key,
}
use go_oidc_middleware.Options.{new, with_issuer, with_fallback_signature_algorithm}
use go_oidc_middleware.Options.TokenStringOptions.{apply_setters}
use go_oidc_middleware.Oidc.Checks.{
  get_key_id_from_token_header, get_token_algorithm_from_token_header,
  get_token_type_from_token_header, get_headers_from_token_string, any_audience,
  is_token_audience_valid, is_token_expiration_valid, is_token_issuer_valid, is_token_type_valid,
  get_discovery_uri_from_issuer,
}
use go_oidc_middleware.Oidc.Signature.{
  get_signature_algorithm_from_string, get_signature_algorithm, get_and_validate_token_from_string,
}
use go_oidc_middleware.Oidc.Handler.{
  Handler, get_jwks_uri_from_discovery_uri, discover_jwks_uri, init_key_handler, load_jwks,
  default_discovery_uri, accept_fallback, load_unless_lazy, new_handler,
}
use go_oidc_middleware.Oidc.Parse.{
  on_key_handler, ensure_key_handler, token_key_id, read_headers, retry_or_return, verify_signature,
  jwt_token_to_claims, validate_claims, read_claims, parse_loaded, parse_token,
}
use go_oidc_middleware.Middleware.Http.{to_http_handler, new_http}
use go_oidc_middleware.Examples.Runtime.{
  Provider, auth0_provider, azure_ad_provider, cognito_provider, okta_provider, optest_provider,
  read_server, read_provider, RuntimeConfig, OptestClaims, get_optest_claims_validation_fn,
}
use go_oidc_middleware.Examples.Api.{
  string_not_empty, ClaimsOf, claims_validation_fn, opts, Running, http, get_handler, run_provider,
  run,
}
use go_oidc_middleware.Tests.Fixture.{fixture, new_key, world, with_key_set, token_string}

abbrev pub cfg : RuntimeConfig
cfg = record {
  server = str "http";
  provider = str "optest";
  address = str "127.0.0.1";
  port = 8080;
  issuer = str "iss";
  audience = [];
  client_id = [];
  fallback_signature_algorithm = str "RS256";
  required_auth0_client_id = [];
  required_azure_ad_tenant_id = [];
  required_cognito_client_id = [];
  required_okta_client_id = [];
  required_optest_client_id = str "cli";
}

abbrev pub claims : OptestClaims
claims = record {
  audience = str "aud" ∷ [];
  expires_at = pos 100;
  issued_at = pos 0;
  id = str "u";
  issuer = str "iss";
  not_before = pos 0;
  subject = str "u";
  client_id = str "cli";
}

abbrev pub unmarshal : (q : Provider) → Str → External (ClaimsOf q)
unmarshal auth0_provider text = err (str "other claims")
unmarshal azure_ad_provider text = err (str "other claims")
unmarshal cognito_provider text = err (str "other claims")
unmarshal okta_provider text = err (str "other claims")
unmarshal optest_provider text = ok claims

-- The handler of the server: it has discovered the address and fetched the keys.
abbrev pub started : Handler fixture OptestClaims
started = record {
  issuer = str "iss";
  discovery_uri = str "iss/.well-known/openid-configuration";
  discovery_fetch_timeout = pos 5_000_000_000;
  jwks_uri = str "/jwks";
  jwks_fetch_timeout = pos 5_000_000_000;
  jwks_rate_limit = 1;
  fallback_signature_algorithm = str "RS256";
  allowed_token_drift = pos 10_000_000_000;
  required_audience = [];
  required_token_type = [];
  disable_key_id = false;
  http_client = tt;
  key_handler = some (record (with_key_set (new_key ∷ []) 1) { fetch_timeout = pos 5_000_000_000 });
  claims_validation_fn = claims_validation_fn optest_provider cfg;
}

abbrev pub server : (q : Provider) × Running fixture (ClaimsOf q)
server = (
  optest_provider,
  http started (
      to_http_handler fixture (parse_token fixture OptestClaims (unmarshal optest_provider))
        (opts fixture optest_provider cfg)),
)

pub api_run : (run fixture unmarshal cfg world).0 ≡ ok server
unfolding run run_provider get_handler read_server read_provider string_not_empty new_http
    new_handler new apply_setters with_issuer with_fallback_signature_algorithm
    default_discovery_uri accept_fallback load_unless_lazy get_discovery_uri_from_issuer trim_suffix
    get_signature_algorithm_from_string ◌>>=◌ ◌>>◌ pure lift wrap require call map_err from_external
    checked_key_set store_key_set update_key_set new_key_handler get_jwks_uri_from_discovery_uri
    discover_jwks_uri init_key_handler load_jwks ◌==◌
api_run = refl

pub api_parse :
    parse_token fixture OptestClaims (unmarshal optest_provider) token_string (started, world)
    ≡ (ok claims, (started, world))
unfolding ◌>>=◌ ◌>>◌ pure lift wrap require call map_err from_external key_fits find_key_from
    find_key get_key_from_id get_key get_key_id_from_token_header
    get_token_algorithm_from_token_header get_token_type_from_token_header
    get_headers_from_token_string any_audience is_token_audience_valid is_token_expiration_valid
    is_token_issuer_valid is_token_type_valid get_signature_algorithm_from_string
    get_signature_algorithm get_and_validate_token_from_string on_key_handler ensure_key_handler
    token_key_id read_headers retry_or_return verify_signature jwt_token_to_claims validate_claims
    read_claims parse_loaded parse_token get_optest_claims_validation_fn ◌+ℤ◌ ◌==◌
api_parse = refl
