-- ===== src/Tests/Issued.antt =====
-- A token of the test provider in the middleware, after the provider has rotated its keys.
use go_oidc_middleware.Prelude.{ℕ, ◌≡◌, refl, inr, false, some, none, List, [], ◌∷◌, arith}
use go_oidc_middleware.Prelude.Int.{pos, ◌+ℤ◌}
use go_oidc_middleware.Text.{Str, str, ◌==◌}
use go_oidc_middleware.Errors.{
  ok, err, External, unable_to_find_key, unable_to_get_public_key, token_type_required,
}
use go_oidc_middleware.Options.TokenStringOptions.{apply_setters}
use go_oidc_middleware.KeyHandler.{KeyHandler, key_fits, find_key_from, find_key}
use go_oidc_middleware.Oidc.Handler.{Handler}
use go_oidc_middleware.Oidc.Parse.{jwt_token_to_claims, validate_claims, parse_token}
use go_oidc_middleware.Op.Authorizations
use go_oidc_middleware.Op.OpaqueTokens
use go_oidc_middleware.Op.Keys.{
  ◌>>=◌, key_pair, append_pair, add_new_key, new_jwks_handler, get_private_key, rotate_keys,
  remove_oldest_key, get_public_key_set,
}
use go_oidc_middleware.Op.Tokens.{
  TestUser, OpTest, lookup, set_all, unsigned_token, sign_with, new_access_token, new_id_token,
}
use go_oidc_middleware.Op.Provider.{
  default_user, default_options, with_server_url, checked_options, new, rotate, access_token_of,
  token_response, get_token_by_user, auth_header,
}
use go_oidc_middleware.Op.Bearer.{TokenResponse}
use go_oidc_middleware.Op.Events.{rotated, happen, happen_all}
use go_oidc_middleware.Provided.Accepted.{IsMeantFor}
use go_oidc_middleware.Provided.Claims.{IsPlain}
use go_oidc_middleware.Provided.Login.{
  get_token_by_user-parse_token, get_token_by_user-parse_token_rotated, get_token_by_user-GoesOn,
}
use go_oidc_middleware.Provided.Refused.{get_token_by_user-id_token}
use go_oidc_middleware.Provided.Retired.{get_token_by_user-retired}
use go_oidc_middleware.Middleware.Decision.{GoesOn}
use go_oidc_middleware.Options
use go_oidc_middleware.Tests.Joint.{Key, crypto-IsKeyed, Token, write}
use go_oidc_middleware.Tests.Linked.{
  provider, World, middleware, link, link-IsReadable, link-IsVerifiable,
}

abbrev numbered : Str → ℕ → Key
numbered algorithm n = record { kid = n ∷ []; algorithm = algorithm; number = n }

abbrev with_key : ℕ → OpTest provider
with_key n = record {
  server_url = str "http://op";
  options = record (default_options provider) { issuer = str "http://op" };
  jwks = record { private_keys = numbered [] n ∷ []; public_keys = numbered (str "ES384") n ∷ [] };
  opaque_tokens = OpaqueTokens.new_container;
  authorizations = Authorizations.new_container;
}

made : (new provider (str "http://op") [] 5).0 ≡ ok (with_key 5)
unfolding new new_jwks_handler add_new_key append_pair key_pair ◌>>=◌ checked_options
    with_server_url apply_setters lookup ◌==◌
made = refl

past : happen_all provider (rotated ∷ []) (with_key 5, 6) ≡ (with_key 6, 7)
unfolding happen_all happen rotate rotate_keys add_new_key append_pair key_pair ◌>>=◌
    remove_oldest_key
past = refl

abbrev user : TestUser provider
user = default_user provider

abbrev signed : Str → Str
signed typ = write (record {
  token = record {
    issuer = str "http://op";
    audience = str "test-client";
    expiration = pos 3_600_000_000_007;
  };
  headers = record { kid = 6 ∷ []; typ = typ };
  number = 6;
})

abbrev response : TokenResponse
response = record {
  access_token = signed (str "JWT+AT");
  token_type = str "Bearer";
  expires_in = pos 3_600_000_000_000;
  id_token = signed (str "JWT");
  expiry = some (pos 3_600_000_000_008);
}

answered :
    get_token_by_user provider (str "test") [] (with_key 6, 7) ≡ (ok response, (with_key 6, 9))
unfolding get_token_by_user access_token_of token_response new_access_token new_id_token
    unsigned_token set_all sign_with get_private_key lookup ◌==◌ ◌+ℤ◌
answered = refl

plain : IsPlain provider user
unfolding lookup
plain = record { issuer = refl; audience = refl; expiration = refl }

abbrev unmarshal : Str → External Str
unmarshal text = ok text

abbrev holding : List Key → ℕ → KeyHandler middleware
holding key_set count = record {
  jwks_uri = str "/jwks";
  disable_key_id = false;
  key_set = some key_set;
  fetch_timeout = pos 5;
  key_update_semaphore = 0;
  key_update_count = count;
  key_update_limiter = tt;
  http_client = tt;
}

abbrev handler : KeyHandler middleware → Handler middleware Str
handler k = record {
  issuer = str "http://op";
  discovery_uri = str "http://op/.well-known/openid-configuration";
  discovery_fetch_timeout = pos 5;
  jwks_uri = str "/jwks";
  jwks_fetch_timeout = pos 5;
  jwks_rate_limit = 1;
  fallback_signature_algorithm = [];
  allowed_token_drift = pos 10;
  required_audience = str "test-client";
  required_token_type = str "JWT+AT";
  disable_key_id = false;
  http_client = tt;
  key_handler = some k;
  claims_validation_fn = none;
}

meant :
    (k : KeyHandler middleware)
    → IsMeantFor provider middleware link Str unmarshal (handler k) (with_key 6) user
meant k = record {
  issuer = refl;
  issuer_required = ground arith;
  audience = inr refl;
  token_type = inr refl;
  by_id = refl;
}

converted :
    (t : Token) (key : Key)
    → middleware.jwt_parse_string response.access_token (str "ES384") key ≡ ok t
    → jwt_token_to_claims middleware Str unmarshal t ≡ ok (str "{}")
unfolding jwt_token_to_claims
converted t key e = refl

validated :
    (k : KeyHandler middleware)
    → validate_claims middleware Str unmarshal (handler k) (str "{}") ≡ ok tt
unfolding validate_claims
validated k = refl

-- The provider shows the key after its rotation.
abbrev world : World
world = record { clock = pos 50; provider_keys = numbered (str "ES384") 6 ∷ [] }

abbrev current : KeyHandler middleware
current = holding (numbered (str "ES384") 6 ∷ []) 1

abbrev outdated : KeyHandler middleware
outdated = holding (numbered (str "ES384") 5 ∷ []) 1

get_token_by_user-parse_token_example :
    parse_token middleware Str unmarshal response.access_token (handler current, world)
    ≡ (ok (str "{}"), (handler current, world))
unfolding get_public_key_set ◌+ℤ◌ lookup ◌==◌
get_token_by_user-parse_token_example =
    get_token_by_user-parse_token provider middleware link Str unmarshal crypto-IsKeyed
      link-IsReadable link-IsVerifiable (str "http://op") [] 5 6 (with_key 5) (rotated ∷ [])
      (with_key 6) 7 made past (str "test") user [] response (with_key 6, 9) refl refl plain
      answered (handler current) (str "{}") (meant current) converted (validated current) current
      refl refl world refl (omega arith)

missed :
    find_key middleware (numbered (str "ES384") 5 ∷ []) (6 ∷ []) (str "ES384")
    ≡ err (unable_to_find_key (6 ∷ []))
unfolding find_key find_key_from key_fits ◌==◌
missed = refl

get_token_by_user-parse_token_rotated_example :
    parse_token middleware Str unmarshal response.access_token (handler outdated, world)
    ≡ (ok (str "{}"), (handler (holding (numbered (str "ES384") 6 ∷ []) 2), world))
unfolding get_public_key_set get_private_key ◌+ℤ◌ lookup ◌==◌
get_token_by_user-parse_token_rotated_example =
    get_token_by_user-parse_token_rotated provider middleware link Str unmarshal crypto-IsKeyed
      link-IsReadable link-IsVerifiable (str "http://op") [] 5 6 (with_key 5) (rotated ∷ [])
      (with_key 6) 7 made past (str "test") user [] response (with_key 6, 9) refl refl plain
      answered (handler outdated) (str "{}") (meant outdated) converted (validated outdated)
      outdated refl refl world (numbered [] 6) (numbered (str "ES384") 5 ∷ [])
      (unable_to_find_key (6 ∷ [])) refl refl missed refl refl (omega arith)

get_token_by_user-GoesOn_example :
    GoesOn middleware
      (parse_token middleware Str unmarshal)
      []
      (λ _. auth_header response)
      (handler current, world)
      (str "{}")
unfolding get_public_key_set ◌+ℤ◌ lookup ◌==◌ Options.new apply_setters
get_token_by_user-GoesOn_example =
    get_token_by_user-GoesOn provider middleware link Str unmarshal crypto-IsKeyed link-IsReadable
      link-IsVerifiable (str "http://op") [] 5 6 (with_key 5) (rotated ∷ []) (with_key 6) 7 made
      past (str "test") user [] response (with_key 6, 9) refl refl plain answered (handler current)
      (str "{}") (meant current) converted (validated current) current refl refl world []
      (λ _. auth_header response) refl (omega arith) (ground arith) refl refl

get_token_by_user-id_token_example :
    parse_token middleware Str unmarshal response.id_token (handler current, world)
    ≡ (err (token_type_required (str "JWT+AT")), (handler current, world))
unfolding lookup ◌==◌
get_token_by_user-id_token_example =
    get_token_by_user-id_token middleware Str unmarshal provider link link-IsVerifiable (str "test")
      user [] (with_key 6) 7 response (with_key 6, 9) refl refl answered (handler current) current
      world refl (ground arith) (ground arith)

-- Another rotation.
later : happen_all provider (rotated ∷ []) (with_key 6, 9) ≡ (with_key 9, 10)
unfolding happen_all happen rotate rotate_keys add_new_key append_pair key_pair ◌>>=◌
    remove_oldest_key
later = refl

abbrev later_world : World
later_world = record { clock = pos 60; provider_keys = numbered (str "ES384") 9 ∷ [] }

abbrev latest : ℕ → KeyHandler middleware
latest count = holding (numbered (str "ES384") 9 ∷ []) count

get_token_by_user-retired_example :
    parse_token middleware Str unmarshal response.access_token (handler (latest 3), later_world) ≡ (
      err (unable_to_get_public_key (unable_to_find_key (6 ∷ []))),
      (handler (latest 4), later_world),
    )
unfolding get_public_key_set get_private_key lookup ◌==◌
get_token_by_user-retired_example =
    get_token_by_user-retired provider middleware link Str unmarshal crypto-IsKeyed link-IsReadable
      link-IsVerifiable (str "http://op") [] 5 6 (with_key 5) (rotated ∷ []) (rotated ∷ [])
      (with_key 6) (with_key 9) 7 10 made past (str "test") user [] response (with_key 6, 9) refl
      refl answered later (numbered [] 6) (numbered [] 9) refl refl (ground arith)
      (handler (latest 3)) (latest 3) later_world refl refl refl (inr refl) refl refl refl
