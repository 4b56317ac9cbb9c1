-- ===== src/Tests/Keys.antt =====
-- The key handler.
use go_oidc_middleware.Prelude.{◌≡◌, refl, false, [], ◌∷◌, arith}
use go_oidc_middleware.Text.{str, ◌==◌}
use go_oidc_middleware.Errors.{ok}
use go_oidc_middleware.KeyHandler.{
  find_key, find_key_from, key_fits, get_key, wait_for_update_key_set_and_get_key_set,
}
use go_oidc_middleware.KeyHandler.Find.{Found, find_key-Found}
use go_oidc_middleware.KeyHandler.Fetch.{
  IsReady, Decided, wait_for_update_key_set_and_get_key_set-Decided,
}
use go_oidc_middleware.KeyHandler.Serve.{Serves, get_key-Serves}
use go_oidc_middleware.Tests.Fixture.{fixture, old_key, new_key, world, old_keys}

find_key-Found_example :
    Found fixture
      (old_key ∷ new_key ∷ [])
      (str "2")
      (str "HS256")
      0
      2
      (find_key fixture (old_key ∷ new_key ∷ []) (str "2") (str "HS256"))
find_key-Found_example = find_key-Found fixture (old_key ∷ new_key ∷ []) (str "2") (str "HS256")

old_keys-IsReady : IsReady fixture old_keys
old_keys-IsReady = record {
  key_set = old_key ∷ [];
  held = refl;
  single = λ _. refl;
  idle = refl;
  updated = omega arith;
}

wait_for_update_key_set_and_get_key_set-Decided_example :
    Decided fixture old_keys
      (ok (new_key ∷ []))
      (wait_for_update_key_set_and_get_key_set fixture (old_keys, world)).0
      (wait_for_update_key_set_and_get_key_set fixture (old_keys, world)).1.0
    × ((wait_for_update_key_set_and_get_key_set fixture (old_keys, world)).1.1 ≡ world)
wait_for_update_key_set_and_get_key_set-Decided_example =
    wait_for_update_key_set_and_get_key_set-Decided fixture old_keys world refl

-- The key is not in the key set held, but in the updated one.
get_key-Serves_example :
    Serves fixture false
      (str "2")
      (str "HS256")
      old_keys
      (get_key fixture (str "2") (str "HS256") (old_keys, world))
get_key-Serves_example =
    get_key-Serves fixture (str "2") (str "HS256") old_keys world old_keys-IsReady

old_key_found : find_key fixture (old_key ∷ []) (str "1") (str "HS256") ≡ ok old_key
unfolding find_key find_key_from key_fits ◌==◌
old_key_found = refl
