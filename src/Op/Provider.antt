-- ===== src/Op/Provider.antt =====
-- optest/optest.go: how the provider is made and started, and the tokens it gives to a user.
use go_oidc_middleware.Prelude.{
  Bool, true, false, not, none, some, List, [], ◌∷◌, ◌++◌, if◌then◌else◌,
}
use go_oidc_middleware.Prelude.Int.{ℤ, pos, ◌+ℤ◌}
use go_oidc_middleware.Text.{Str, str, is_empty}
use go_oidc_middleware.Errors.{Result, ok, err}
use go_oidc_middleware.Options.TokenStringOptions.{apply_setters}
use go_oidc_middleware.Op.Services.{Services}
use go_oidc_middleware.Op.Action.{
  OpError, no_test_user_given, no_default_test_user, no_test_user, Action, ◌>>=◌, from_keys,
}
use go_oidc_middleware.Op.Keys.{JwksHandler, new_jwks_handler, rotate_keys}
use go_oidc_middleware.Op.OpaqueTokens
use go_oidc_middleware.Op.Authorizations
use go_oidc_middleware.Op.Options.{
  Options, Setter, AccessTokenType, jwt_access_token_type, opaque_access_token_type,
}
use go_oidc_middleware.Op.Tokens.{
  TestUser, OpTest, State, lookup, read_clock, new_access_token, new_id_token,
  new_opaque_access_token,
}
use go_oidc_middleware.Op.Bearer.{TokenResponse}

module _ (s : Services) where
  open s use {crypto, World, now, seconds}

  abbrev pub default_user : TestUser s
  default_user = record {
    audience = str "test-client";
    subject = str "test";
    name = str "Test Testersson";
    given_name = str "Test";
    family_name = str "Testersson";
    locale = str "en-US";
    email = str "test@testersson.com";
    access_token_key_type = str "JWT+AT";
    id_token_key_type = str "JWT";
    extra_id_token_claims = [];
    extra_access_token_claims = [];
  }

  -- A server that is not started has no address.
  abbrev pub default_options : Options (TestUser s)
  default_options = record {
    issuer = [];
    default_test_user = str "test";
    test_users = (str "test", default_user) ∷ [];
    token_expiration = pos 3_600_000_000_000;
    auto_start = true;
    access_token_type = jwt_access_token_type;
    login_prompt_enabled = false;
  }

  -- `if opts.Issuer == "" { opts.Issuer = srv.URL }`
  unfoldable pub with_server_url : Str → Options (TestUser s) → Options (TestUser s)
  with_server_url url opts = if is_empty opts.issuer then record opts { issuer = url } else opts

  abbrev pub has_users : List (Str × TestUser s) → Bool
  has_users [] = false
  has_users (_ ∷ _) = true

  -- The checks of `New`, and the start; `url` is the address that the server has once started.
  unfoldable pub checked_options :
      Str → Options (TestUser s) → Result OpError (Str × Options (TestUser s))
  checked_options url opts =
      if not (has_users opts.test_users)
      then err no_test_user_given
      else elim (lookup opts.default_test_user opts.test_users) [
        | none ↦ err (no_default_test_user opts.default_test_user)
        | some _ ↦ if opts.auto_start then ok (url, with_server_url url opts) else ok ([], opts)
      ]

  abbrev pub assembled :
      JwksHandler crypto → Result OpError (Str × Options (TestUser s)) → Result OpError (OpTest s)
  assembled jwks (err e) = err e
  assembled jwks (ok (url, opts)) = ok (record {
    server_url = url;
    options = opts;
    jwks = jwks;
    opaque_tokens = OpaqueTokens.new_container;
    authorizations = Authorizations.new_container;
  })

  unfoldable pub new : Str → List (Setter (TestUser s)) → World → Result OpError (OpTest s) × World
  new url setters w =
      let (made, w') = new_jwks_handler crypto w in
      elim made [
        | err e ↦ (err (OpError.key_error e), w')
        | ok jwks ↦
            (assembled jwks (checked_options url (apply_setters setters default_options)), w')
      ]

  unfoldable pub start : Str → OpTest s → OpTest s
  start url op =
      if not op.options.auto_start
      then record op { server_url = url; options = with_server_url url op.options }
      else op

  -- `RotateKeys` of the provider
  unfoldable pub rotate : Action (State s) Unit
  rotate (op, w) =
      let out = rotate_keys crypto (op.jwks, w) in
      (from_keys out.0, (record op { jwks = out.1.0 }, out.1.1))

  unfoldable pub access_token_of :
      AccessTokenType → Str → TestUser s → Str → ℤ → Action (State s) Str
  access_token_of jwt_access_token_type id user nonce time = new_access_token s id user nonce time
  access_token_of opaque_access_token_type id user nonce time =
      new_opaque_access_token s id user nonce

  unfoldable pub token_response : Str → Str → Action (State s) TokenResponse
  token_response access_token id_token (op, w) =
      let out = now w in
      (
        ok (record {
          access_token = access_token;
          token_type = str "Bearer";
          expires_in = seconds op.options.token_expiration;
          id_token = id_token;
          expiry = some (out.0 +ℤ op.options.token_expiration);
        }),
        (op, out.1),
      )

  unfoldable pub get_token_by_user : Str → Str → Action (State s) TokenResponse
  get_token_by_user id nonce (op, w) = elim (lookup id op.options.test_users) [
    | none ↦ (err (no_test_user id), (op, w))
    | some user ↦
        (do
          time ← read_clock s
          access_token ← access_token_of op.options.access_token_type id user nonce time
          id_token ← new_id_token s id user nonce time
          token_response access_token id_token)
          (op, w)
  ]

  unfoldable pub get_token : Action (State s) TokenResponse
  get_token (op, w) = get_token_by_user op.options.default_test_user [] (op, w)

-- `t.SetAuthHeader`: the value of the header Authorization
unfoldable pub auth_header : TokenResponse → Str
auth_header t = t.token_type ++ (str " " ++ t.access_token)
