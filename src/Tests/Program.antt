-- ===== src/Tests/Program.antt =====
-- The program of examples/op.
use go_oidc_middleware.Prelude.{◌≡◌, ◌≢◌, ◌⊎◌, refl, some, [], ◌∷◌}
use go_oidc_middleware.Text.{str, ◌==◌}
use go_oidc_middleware.Errors.{ok}
use go_oidc_middleware.Options.TokenStringOptions.{apply_setters}
use go_oidc_middleware.Op.Authorizations
use go_oidc_middleware.Op.OpaqueTokens
use go_oidc_middleware.Op.Keys.{◌>>=◌, key_pair, append_pair, add_new_key, new_jwks_handler}
use go_oidc_middleware.Op.Options.{
  with_issuer, without_auto_start, with_default_test_user, with_login_prompt, with_test_users,
}
use go_oidc_middleware.Op.Tokens.{OpTest, lookup}
use go_oidc_middleware.Op.Provider.{with_server_url, checked_options, new}
use go_oidc_middleware.Op.Handlers.{Request, route, serve, jwks_route}
use go_oidc_middleware.Examples.Provider.{new_example, of_router, not_found, serve_example}
use go_oidc_middleware.Examples.Provider.Serves.{example_options, serve_example-route}
use go_oidc_middleware.Tests.Linked.{provider}

abbrev op : OpTest provider
op = record {
  server_url = [];
  options = example_options provider;
  jwks = record {
    private_keys = record { kid = 5 ∷ []; algorithm = []; number = 5 } ∷ [];
    public_keys = record { kid = 5 ∷ []; algorithm = str "ES384"; number = 5 } ∷ [];
  };
  opaque_tokens = OpaqueTokens.new_container;
  authorizations = Authorizations.new_container;
}

made : (new_example provider 5).0 ≡ ok op
unfolding new_example new new_jwks_handler add_new_key append_pair key_pair ◌>>=◌ checked_options
    with_server_url apply_setters with_issuer without_auto_start with_default_test_user
    with_login_prompt with_test_users lookup ◌==◌
made = refl

abbrev asked : Request
asked = record { query = λ _. []; parse_form = ok tt; form_value = λ _. []; header = λ _. [] }

serve_example-route_example :
    ((str "/jwks" ≢ str "/userinfo")
      × (serve_example provider (str "/jwks") asked (op, 6) ≡ (
        of_router (some (serve provider jwks_route asked (op, 6)).0),
        (serve provider jwks_route asked (op, 6)).1,
      )))
    ⊎ ((str "/jwks" ≡ str "/userinfo")
        × (serve_example provider (str "/jwks") asked (op, 6) ≡ (not_found, (op, 6))))
unfolding lookup route ◌==◌
serve_example-route_example =
    serve_example-route provider (str "/jwks") jwks_route asked (op, 6) refl
