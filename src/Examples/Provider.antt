-- ===== src/Examples/Provider.antt =====
-- examples/op/main.go: the test provider as a program. The server that listens is left out.
pub mod Serves
use go_oidc_middleware.Prelude.{
  ℕ, Bool, true, false, if◌then◌else◌, ◌≡◌, ◌≢◌, refl, sym, ap, ◌∙◌, Option, none, some, List, [],
  ◌∷◌, arith, inl, inr, Bool-cases,
}
use go_oidc_middleware.Text.{Str, str, is_empty, ◌==◌}
use go_oidc_middleware.Errors.{Result, ok, err}
use go_oidc_middleware.Options.TokenStringOptions.{apply_setters}
use go_oidc_middleware.Op.Services.{Services}
use go_oidc_middleware.Op.Action.{OpError}
use go_oidc_middleware.Op.Options.{
  Setter, jwt_access_token_type, with_issuer, without_auto_start, with_default_test_user,
  with_login_prompt, with_test_users,
}
use go_oidc_middleware.Op.Tokens.{TestUser, OpTest, State, lookup}
use go_oidc_middleware.Op.Provider.{new, get_token}
use go_oidc_middleware.Op.Bearer.{TokenResponse}
use go_oidc_middleware.Op.Handlers.{Route, Request, Response, route, serve}

module _ (s : Services) where
  open s use {World, Value, text}

  abbrev pub client_claims : List (Str × Value)
  client_claims = (str "client_id", text (str "pkce-cli")) ∷ []

  abbrev pub kalle : TestUser s
  kalle = record {
    audience = str "https://localhost:8081";
    subject = str "test";
    name = str "Kalle Kula";
    given_name = str "Kalle";
    family_name = str "Kula";
    locale = str "sv-SE";
    email = str "foo@bar.net";
    access_token_key_type = str "at+jwt";
    id_token_key_type = str "jwt";
    extra_id_token_claims = client_claims;
    extra_access_token_claims = client_claims;
  }

  abbrev pub foo : TestUser s
  foo = record {
    audience = str "https://localhost:8081";
    subject = str "foo";
    name = str "Foo Bar";
    given_name = str "Foo";
    family_name = str "Bar";
    locale = str "sv-SE";
    email = str "asdfs@foo.se";
    access_token_key_type = str "at+jwt";
    id_token_key_type = str "jwt";
    extra_id_token_claims = client_claims;
    extra_access_token_claims = client_claims;
  }

  abbrev pub setters : List (Setter (TestUser s))
  setters =
      with_issuer (TestUser s) (str "http://localhost:8082")
      ∷ without_auto_start (TestUser s)
      ∷ with_default_test_user (TestUser s) (str "test")
      ∷ with_login_prompt (TestUser s)
      ∷ with_test_users (TestUser s) ((str "test", kalle) ∷ (str "foo", foo) ∷ [])
      ∷ []

  -- The provider of the program; the address is of a server that is not started.
  unfoldable pub new_example : World → Result OpError (OpTest s) × World
  new_example = new s [] setters

  -- What gin answers: an error with its status, a text, the response of the provider's router, or
  -- that there is no such path.
  pub data Answer : Type 0 where
    abort_with_error : ℕ → OpError → Answer
    string : ℕ → Str → Answer
    of_router : Option (Response s) → Answer
    not_found : Answer

  -- The paths that are wrapped for the router of the provider.
  abbrev pub wrapped : List Str
  wrapped =
      str "/.well-known/openid-configuration"
      ∷ str "/authorization"
      ∷ str "/token"
      ∷ str "/jwks"
      ∷ str "/login"
      ∷ []

  abbrev pub test_token : Result OpError TokenResponse → Answer
  test_token (err e) = abort_with_error 500 e
  test_token (ok token) = string 200 token.access_token

  unfoldable pub get_test_token : State s → Answer × State s
  get_test_token st = let out = get_token s st in (test_token out.0, out.1)

  abbrev is_wrapped : Str → List Str → Bool
  is_wrapped path [] = false
  is_wrapped path (p ∷ ps) = let rest = is_wrapped path ps in if path == p then true else rest

  abbrev routed : Option (Route s) → Request → State s → Answer × State s
  routed none r st = (of_router none, st)
  routed (some to) r st = let out = serve s to r st in (of_router (some out.0), out.1)

  -- The program at a path.
  unfoldable pub serve_example : Str → Request → State s → Answer × State s
  serve_example path r st =
      if is_wrapped path wrapped
      then routed (lookup path (route s)) r st
      else if path == str "/get_test_token"
      then get_test_token st
      else (not_found, st)
