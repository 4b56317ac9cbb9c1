-- ===== src/Tests/Server.antt =====
-- The provider from its start through requests, with one user.
use go_oidc_middleware.Prelude.{
  ◌≡◌, ◌++◌, inr, refl, some, true, false, List, [], ◌∷◌, arith, if◌then◌else◌,
}
use go_oidc_middleware.Prelude.Int.{pos, ltb_ℤ, ◌+ℤ◌}
use go_oidc_middleware.Text.{Str, str, ◌==◌}
use go_oidc_middleware.Errors.{ok}
use go_oidc_middleware.Options.TokenStringOptions.{apply_setters}
use go_oidc_middleware.Op.Authorizations
use go_oidc_middleware.Op.OpaqueTokens
use go_oidc_middleware.Op.Action.{OpError}
use go_oidc_middleware.Op.Keys.{
  ◌>>=◌, key_pair, append_pair, add_new_key, new_jwks_handler, get_private_key,
}
use go_oidc_middleware.Op.Options.{
  Setter, jwt_access_token_type, with_test_users, with_default_test_user,
}
use go_oidc_middleware.Op.Tokens.{
  TestUser, OpTest, State, lookup, set_all, unsigned_token, sign_with, new_id_token,
}
use go_oidc_middleware.Op.Provider.{
  default_user, with_server_url, checked_options, new, get_token_by_user, auth_header,
}
use go_oidc_middleware.Op.Random.{generate_random_string}
use go_oidc_middleware.Op.Handlers.{
  Request, only_status, show_login_prompt, get_authorization, set_authorization,
  authorization_handler, token_handler, user_info_handler, token_route,
}
use go_oidc_middleware.Op.Once.{token_handler-happen_all}
use go_oidc_middleware.Op.Flow.{IsRedirect, IsAnswer, token_handler-authorization_handler, stored}
use go_oidc_middleware.Op.Events.{request, rotated, happen_all}
use go_oidc_middleware.Op.Valid.{IsValid, new-happen_all-IsValid}
use go_oidc_middleware.Op.Keys.Pair.{key_pair-key_id}
use go_oidc_middleware.Op.Bearer.{TokenResponse}
use go_oidc_middleware.Op.Issued.Refused.{Reason, IsRefusal, user_info_handler-new_id_token}
use go_oidc_middleware.Tests.Provider.{numbered, numbered-IsKeyed, provider}
use go_oidc_middleware.Tests.Services.{services, services-IsJwt}

abbrev pub user : TestUser services
user = default_user services

abbrev setters : List (Setter (TestUser services))
setters =
    with_test_users (TestUser services) ((str "u", user) ∷ [])
    ∷ with_default_test_user (TestUser services) (str "u")
    ∷ []

abbrev pub op : OpTest services
op = record {
  server_url = str "http://op";
  options = record {
    issuer = str "http://op";
    default_test_user = str "u";
    test_users = (str "u", user) ∷ [];
    token_expiration = pos 3_600_000_000_000;
    auto_start = true;
    access_token_type = jwt_access_token_type;
    login_prompt_enabled = false;
  };
  jwks = provider;
  opaque_tokens = OpaqueTokens.new_container;
  authorizations = Authorizations.new_container;
}

new_run : (new services (str "http://op") setters 5).0 ≡ ok op
unfolding new new_jwks_handler add_new_key append_pair key_pair ◌>>=◌ checked_options
    with_server_url apply_setters with_test_users with_default_test_user lookup ◌==◌
new_run = refl

-- The code that is drawn.
abbrev code : Str
code = str "77777777777777777777777777777777"

abbrev pub first : Request
first = record {
  query = λ name. if name == str "redirect_uri" then str "http://client" else [];
  parse_form = ok tt;
  form_value = λ _. [];
  header = λ _. [];
}

abbrev second : Request
second = record first { query = λ _. []; form_value = λ _. code }

abbrev st : State services
st = (op, 5)

generated : generate_random_string services.random_int 32 5 ≡ (ok code, 37)
unfolding generate_random_string
generated = refl

no_prompt : show_login_prompt services first op ≡ false
unfolding show_login_prompt ◌==◌
no_prompt = refl

parsed : services.url_parse (first.query (str "redirect_uri")) ≡ ok (str "http://client")
unfolding ◌==◌
parsed = refl

in_time : ltb_ℤ (pos 37 +ℤ Authorizations.new_container.ttl) (pos 38) ≡ false
unfolding Authorizations.new_container ◌+ℤ◌
in_time = ground arith

in_time' : ltb_ℤ (pos 37 +ℤ Authorizations.new_container.ttl) (pos 39) ≡ false
unfolding Authorizations.new_container ◌+ℤ◌
in_time' = ground arith

token_handler-happen_all_example :
    (token_handler services second (
      happen_all services
        (rotated ∷ request token_route first ∷ [])
        (token_handler services second st).1)).0
    ≡ only_status services 401
token_handler-happen_all_example =
    token_handler-happen_all services code second second st
      (rotated ∷ request token_route first ∷ []) (refl, refl) (refl, refl) (tt, (tt, tt))

new-happen_all-IsValid_example :
    IsValid services
      (λ k q. k.kid ≡ q.kid)
      (happen_all services (rotated ∷ request token_route second ∷ []) (op, 6)).0
new-happen_all-IsValid_example =
    new-happen_all-IsValid services (λ k q. k.kid ≡ q.kid)
      (λ e k q. key_pair-key_id numbered numbered-IsKeyed e k q) (str "http://op") setters 5 6 op
      (rotated ∷ request token_route second ∷ []) new_run

token_handler-authorization_handler_example :
    IsRedirect services (str "http://client") code [] (authorization_handler services first st).0
    × (let looked =
          (get_authorization services code (
            stored services first second op 5 37
              (str "http://client")
              code
              no_prompt
              parsed
              generated)).1 in
        let out = get_token_by_user services (str "u") [] looked in
        let handled = token_handler services second (authorization_handler services first st).1 in
        IsAnswer services out.0 handled.0 × (handled.1 ≡ out.1))
unfolding set_authorization ◌+ℤ◌ ◌==◌
token_handler-authorization_handler_example =
    token_handler-authorization_handler services first second op 5 37 (str "http://client") code
      no_prompt parsed generated (str "u") (refl, refl) (inr (inr (refl, refl, refl))) in_time
      in_time'

-- The tokens of the user, issued at the time 5.
abbrev access_token : Str
access_token = 5 ∷ b'u' ∷ str "access_token"

abbrev id_token : Str
id_token = 5 ∷ b'u' ∷ str "id_token"

id_token_issued : new_id_token services (str "u") user [] (pos 5) st ≡ (ok id_token, st)
unfolding new_id_token unsigned_token set_all sign_with get_private_key ◌==◌
id_token_issued = refl

abbrev bears_id_token : Request
bears_id_token = record first { header = λ _. str "Bearer " ++ id_token }

user_info_handler-new_id_token_example :
    (e : OpError) × Reason services jwt_access_token_type e
    × IsRefusal services e (user_info_handler services bears_id_token (op, 7)).0
unfolding OpaqueTokens.new_container
user_info_handler-new_id_token_example =
    user_info_handler-new_id_token services services-IsJwt (str "u") user [] (pos 5) op 5 id_token
      st bears_id_token (op, 7) id_token_issued (ground arith) refl refl

-- The response for the user, and the state afterwards.
abbrev response : TokenResponse
response = record {
  access_token = access_token;
  token_type = str "Bearer";
  expires_in = pos 3_600_000_000_000;
  id_token = id_token;
  expiry = some (pos 3_600_000_000_006);
}

abbrev third : Request
third = record first { header = λ _. auth_header response }
