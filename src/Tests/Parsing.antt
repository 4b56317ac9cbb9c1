-- ===== src/Tests/Parsing.antt =====
-- `ParseToken`, from a handler that has loaded no keys.
use go_oidc_middleware.Prelude.{List, false, none}
use go_oidc_middleware.Text.{trim_suffix}
use go_oidc_middleware.Options.{Setter, new, with_issuer, with_lazy_load_jwks}
use go_oidc_middleware.Options.TokenStringOptions.{apply_setters}
use go_oidc_middleware.Oidc.Handler.{
  default_discovery_uri, accept_fallback, load_unless_lazy, new_handler,
}
use go_oidc_middleware.Oidc.Settings.{IsJudgedBy, new_handler-IsJudgedBy}
use go_oidc_middleware.Oidc.Start.{IsStarted, new_handler-IsStarted}
use go_oidc_middleware.Prelude.{◌≡◌, inl, inr, refl, true, some, [], ◌∷◌, arith}
use go_oidc_middleware.Prelude.Int.{pos, ◌+ℤ◌}
use go_oidc_middleware.Text.{Str, str, ◌==◌}
use go_oidc_middleware.Errors.{
  ok, External, ◌>>=◌, ◌>>◌, pure, lift, wrap, require, call, map_err, from_external,
}
use go_oidc_middleware.KeyHandler.{
  checked_key_set, store_key_set, update_key_set, new_key_handler, key_fits, find_key_from,
  find_key, get_key_from_id, get_key,
}
use go_oidc_middleware.Oidc.Checks.{
  get_key_id_from_token_header, get_token_algorithm_from_token_header,
  get_token_type_from_token_header, get_headers_from_token_string, any_audience,
  is_token_audience_valid, is_token_expiration_valid, is_token_issuer_valid, is_token_type_valid,
  get_discovery_uri_from_issuer,
}
use go_oidc_middleware.Oidc.Signature.{
  get_signature_algorithm_from_string, get_signature_algorithm, get_and_validate_token_from_string,
}
use go_oidc_middleware.Oidc.Handler.{
  Handler, get_jwks_uri_from_discovery_uri, discover_jwks_uri, init_key_handler, load_jwks,
}
use go_oidc_middleware.Oidc.Parse.{
  on_key_handler, ensure_key_handler, token_key_id, read_headers, retry_or_return, verify_signature,
  jwt_token_to_claims, validate_claims, read_claims, parse_loaded, parse_token,
}
use go_oidc_middleware.Oidc.Claims.{IsAccepted}
use go_oidc_middleware.Oidc.Load.{Loads, load_jwks-Loads}
use go_oidc_middleware.Oidc.Safety.{IsSound, parse_token-IsSound}
use go_oidc_middleware.Oidc.Sound.{IsAuthentic, parse_token-IsAuthentic}
use go_oidc_middleware.Tests.Fixture.{
  fixture, new_key, world, with_key_set, with_handler, unloaded, token_string,
}

abbrev unmarshal : Str → External Str
unmarshal text = ok text

-- The handler afterwards: it has discovered the address and fetched the keys.
abbrev loaded : Handler fixture Str
loaded = with_handler (str "/jwks") (some (with_key_set (new_key ∷ []) 1))

parse_token_run :
    parse_token fixture Str unmarshal token_string (unloaded, world)
    ≡ (ok (str "{}"), (loaded, world))
unfolding ◌>>=◌ ◌>>◌ pure lift wrap require call map_err from_external checked_key_set store_key_set
    update_key_set new_key_handler key_fits find_key_from find_key get_key_from_id get_key
    get_key_id_from_token_header get_token_algorithm_from_token_header
    get_token_type_from_token_header get_headers_from_token_string any_audience
    is_token_audience_valid is_token_expiration_valid is_token_issuer_valid is_token_type_valid
    get_signature_algorithm_from_string get_signature_algorithm get_and_validate_token_from_string
    get_jwks_uri_from_discovery_uri discover_jwks_uri init_key_handler load_jwks on_key_handler
    ensure_key_handler token_key_id read_headers retry_or_return verify_signature
    jwt_token_to_claims validate_claims read_claims parse_loaded parse_token ◌+ℤ◌ ◌==◌
parse_token_run = refl

parse_token-IsAuthentic_example :
    IsAuthentic fixture Str unmarshal unloaded token_string (str "{}") loaded
parse_token-IsAuthentic_example =
    parse_token-IsAuthentic fixture Str unmarshal token_string unloaded world (str "{}")
      (loaded, world) tt parse_token_run

parse_token-IsSound_example :
    IsSound fixture Str unmarshal unloaded
      (parse_token fixture Str unmarshal token_string (unloaded, world))
parse_token-IsSound_example =
    parse_token-IsSound fixture Str unmarshal token_string unloaded world tt

load_jwks-Loads_example : Loads fixture Str unloaded (load_jwks fixture Str (unloaded, world))
load_jwks-Loads_example = load_jwks-Loads fixture Str unloaded world refl

accepted : IsAccepted fixture Str unmarshal unloaded (pos 50) tt (str "{}")
unfolding jwt_token_to_claims validate_claims ◌+ℤ◌
accepted = record {
  unexpired = omega arith;
  issuer_required = ground arith;
  issued = refl;
  meant = inr (inl refl);
  converted = refl;
  validated = refl;
}

-- `NewHandler` with an issuer, an audience, and keys that are loaded later.
abbrev lazy_setters : List (Setter fixture)
lazy_setters = with_issuer fixture (str "iss") ∷ with_lazy_load_jwks fixture true ∷ []

abbrev lazy_handler : Handler fixture Str
lazy_handler = record {
  issuer = str "iss";
  discovery_uri = str "iss/.well-known/openid-configuration";
  discovery_fetch_timeout = pos 5_000_000_000;
  jwks_uri = [];
  jwks_fetch_timeout = pos 5_000_000_000;
  jwks_rate_limit = 1;
  fallback_signature_algorithm = [];
  allowed_token_drift = pos 10_000_000_000;
  required_audience = [];
  required_token_type = [];
  disable_key_id = false;
  http_client = tt;
  key_handler = none;
  claims_validation_fn = none;
}

new_handler_run : (new_handler fixture Str none lazy_setters world).0 ≡ ok lazy_handler
unfolding new_handler new apply_setters with_issuer with_lazy_load_jwks default_discovery_uri
    accept_fallback load_unless_lazy get_discovery_uri_from_issuer trim_suffix
new_handler_run = refl

new_handler-IsStarted_example : IsStarted fixture Str lazy_handler
new_handler-IsStarted_example =
    new_handler-IsStarted fixture Str none lazy_setters world lazy_handler new_handler_run

new_handler-IsJudgedBy_example : IsJudgedBy fixture Str none (new fixture lazy_setters) lazy_handler
new_handler-IsJudgedBy_example =
    new_handler-IsJudgedBy fixture Str none lazy_setters world lazy_handler new_handler_run
