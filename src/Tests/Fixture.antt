-- ===== src/Tests/Fixture.antt =====
-- A concrete platform. A token string is two bytes, the key identifier and the signature, which is
-- the secret of the key; the provider's keys are part of the world.
use go_oidc_middleware.Prelude.{
  ℕ, false, Option, none, some, List, [], ◌∷◌, length, get_elem?, nat_eq, if◌then◌else◌,
}
use go_oidc_middleware.Prelude.Int.{ℤ, pos}
use go_oidc_middleware.Text.{Str, str}
use go_oidc_middleware.Errors.{ok, err, External, no_key_found}
use go_oidc_middleware.Platform.{Platform}
use go_oidc_middleware.KeyHandler.{KeyHandler}
use go_oidc_middleware.Oidc.Handler.{Handler}

pub record Headers : Type 0 where
  pub kid : Str

pub record Key : Type 0 where
  pub kid : Str
  pub secret : ℕ

pub record World : Type 0 where
  pub clock : ℤ
  pub provider_keys : List Key

abbrev pub parse_jws : Str → External (List Headers)
parse_jws (kid ∷ signature ∷ []) = ok (record { kid = kid ∷ [] } ∷ [])
parse_jws _ = err (str "failed to parse")

abbrev pub verify_jwt : Str → Str → Key → External Unit
verify_jwt (kid ∷ signature ∷ []) alg key =
    if nat_eq signature key.secret then ok tt else err (str "failed to verify signature")
verify_jwt _ alg key = err (str "failed to parse")

abbrev pub fixture : Platform
fixture = record {
  Headers = Headers;
  Key = Key;
  KeySet = List Key;
  Token = Unit;
  RawClaims = Unit;
  jws_parse_string = parse_jws;
  header_key_id = λ h. h.kid;
  header_algorithm = λ _. str "HS256";
  header_type = λ _. str "JWT";
  key_id = λ k. k.kid;
  key_algorithm = λ _. str "HS256";
  key_type = λ _. str "oct";
  set_len = length;
  set_get = get_elem?;
  jwt_parse_string = verify_jwt;
  algorithm_accept = ok;
  token_expiration = λ _. pos 100;
  token_issuer = λ _. str "iss";
  token_audience = λ _. str "aud" ∷ [];
  token_as_map = ok;
  json_marshal = λ _. ok (str "{}");
  World = World;
  HttpClient = Unit;
  HttpRequest = Str;
  HttpResponse = Str;
  Limiter = Unit;
  Effect = Str;
  default_client = tt;
  now = λ w. (w.clock, w);
  jwk_fetch = λ _ _ _ w. (ok w.provider_keys, w);
  http_new_request = ok;
  http_accept_json = λ r. r;
  http_do = λ _ _ r w. (ok r, w);
  read_body = λ r w. (ok r, w);
  close_body = λ _ w. (ok tt, w);
  json_jwks_uri = λ _. ok (str "/jwks");
  limiter_new = λ _ w. (tt, w);
  limiter_take = λ _ w. w;
  receive_key_update = λ w. (err no_key_found, w);
}

abbrev pub old_key : Key
old_key = record { kid = str "1"; secret = 7 }

abbrev pub new_key : Key
new_key = record { kid = str "2"; secret = 8 }

-- The provider has rotated its keys: it shows the new one.
abbrev pub world : World
world = record { clock = pos 50; provider_keys = new_key ∷ [] }

abbrev pub with_key_set : List Key → ℕ → KeyHandler fixture
with_key_set key_set count = record {
  jwks_uri = str "/jwks";
  disable_key_id = false;
  key_set = some key_set;
  fetch_timeout = pos 5;
  key_update_semaphore = 0;
  key_update_count = count;
  key_update_limiter = tt;
  http_client = tt;
}

abbrev pub old_keys : KeyHandler fixture
old_keys = with_key_set (old_key ∷ []) 1

abbrev pub with_handler : Str → Option (KeyHandler fixture) → Handler fixture Str
with_handler jwks_uri key_handler = record {
  issuer = str "iss";
  discovery_uri = str "iss/.well-known/openid-configuration";
  discovery_fetch_timeout = pos 5;
  jwks_uri = jwks_uri;
  jwks_fetch_timeout = pos 5;
  jwks_rate_limit = 1;
  fallback_signature_algorithm = [];
  allowed_token_drift = pos 10;
  required_audience = str "aud";
  required_token_type = str "JWT";
  disable_key_id = false;
  http_client = tt;
  key_handler = key_handler;
  claims_validation_fn = none;
}

abbrev pub unloaded : Handler fixture Str
unloaded = with_handler [] none

-- Signed with the new key.
abbrev pub token_string : Str
token_string = b'2' ∷ 8 ∷ []
