-- ===== src/Tests/Rotation.antt =====
-- `ParseToken` of a handler that holds the provider's old keys, or its new ones.
use go_oidc_middleware.Prelude.{◌≡◌, refl, inl, inr, some, [], ◌∷◌, arith}
use go_oidc_middleware.Prelude.Int.{◌+ℤ◌}
use go_oidc_middleware.Text.{Str, str, ◌==◌}
use go_oidc_middleware.Errors.{ok, err, External, unable_to_find_key}
use go_oidc_middleware.KeyHandler.{KeyHandler, key_fits, find_key_from, find_key}
use go_oidc_middleware.Oidc.Handler.{Handler}
use go_oidc_middleware.Oidc.Parse.{jwt_token_to_claims, validate_claims, parse_token}
use go_oidc_middleware.Oidc.Complete.{IsRotated, IsGood, parse_token-known, parse_token-rotated}
use go_oidc_middleware.Tests.Fixture.{
  fixture, old_key, new_key, world, old_keys, with_key_set, with_handler, token_string,
}

abbrev unmarshal : Str → External Str
unmarshal text = ok text

abbrev holding : KeyHandler fixture → Handler fixture Str
holding k = with_handler (str "/jwks") (some k)

abbrev new_keys : KeyHandler fixture
new_keys = with_key_set (new_key ∷ []) 1

good :
    (k : KeyHandler fixture)
    → IsGood fixture Str unmarshal token_string
        (holding k)
        (str "2")
        (str "HS256")
        new_key
        world
        (str "{}")
unfolding validate_claims jwt_token_to_claims ◌+ℤ◌
good k = record {
  has_headers = record {
    headers = record { kid = str "2" };
    signed_once = refl;
    typed = inr refl;
    key_id = (refl, ground arith);
    algorithm = refl;
    algorithm_given = ground arith;
  };
  signature_algorithm = str "HS256";
  of_key = inl (ground arith, refl);
  token = tt;
  verified = refl;
  accepted = record {
    unexpired = omega arith;
    issuer_required = ground arith;
    issued = refl;
    meant = inr (inl refl);
    converted = refl;
    validated = refl;
  };
}

new_found : find_key fixture (new_key ∷ []) (str "2") (str "HS256") ≡ ok new_key
unfolding find_key find_key_from key_fits ◌==◌
new_found = refl

old_missed :
    find_key fixture (old_key ∷ []) (str "2") (str "HS256") ≡ err (unable_to_find_key (str "2"))
unfolding find_key find_key_from key_fits ◌==◌
old_missed = refl

old_keys-IsRotated : IsRotated fixture old_keys world (str "2") (str "HS256") new_key
old_keys-IsRotated = record {
  old = old_key ∷ [];
  held = refl;
  missing = unable_to_find_key (str "2");
  missed = old_missed;
  idle = refl;
  enabled = refl;
  shown = new_key ∷ [];
  fetched = refl;
  found = new_found;
}

parse_token-known_example :
    parse_token fixture Str unmarshal token_string (holding new_keys, world)
    ≡ (ok (str "{}"), (holding new_keys, world))
parse_token-known_example =
    parse_token-known fixture Str unmarshal token_string (holding new_keys) world new_keys (str "2")
      (str "HS256") new_key (str "{}") refl refl (new_key ∷ []) refl refl new_found (good new_keys)

parse_token-rotated_example :
    parse_token fixture Str unmarshal token_string (holding old_keys, world)
    ≡ (ok (str "{}"), (holding (with_key_set (new_key ∷ []) 2), world))
unfolding old_keys-IsRotated
parse_token-rotated_example =
    parse_token-rotated fixture Str unmarshal token_string (holding old_keys) world old_keys
      (str "2") (str "HS256") new_key (str "{}") refl refl old_keys-IsRotated (good old_keys)
