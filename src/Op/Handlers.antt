-- ===== src/Op/Handlers.antt =====
-- optest/optest.go: the HTTP handlers of the provider.
use go_oidc_middleware.Prelude.{
  ℕ, Bool, not, ◌&&◌, Option, none, some, List, [], ◌∷◌, ◌++◌, length, ltb, if◌then◌else◌,
}
use go_oidc_middleware.Text.{Str, str, is_empty}
use go_oidc_middleware.Errors.{Result, ok, err, External}
use go_oidc_middleware.TokenString.{GetHeaderFn}
use go_oidc_middleware.Op.Services.{Services}
use go_oidc_middleware.Op.Action.{OpError}
use go_oidc_middleware.Op.Keys.{get_public_key_set}
use go_oidc_middleware.Op.Authorizations
use go_oidc_middleware.Op.Authorizations.{AuthorizationCache}
use go_oidc_middleware.Op.Tokens.{OpTest, State}
use go_oidc_middleware.Op.Provider.{get_token_by_user}
use go_oidc_middleware.Op.UserInfo.{get_user_info_from_token}
use go_oidc_middleware.Op.Random.{generate_random_string}
use go_oidc_middleware.Op.Bearer.{TokenResponse, get_token_string}

pub record Metadata : Type 0 where
  pub issuer : Str
  pub authorization_endpoint : Str
  pub token_endpoint : Str
  pub jwks_uri : Str
  pub response_types_supported : List Str
  pub userinfo_endpoint : Str

-- An HTTP request: a value of the query, of the form, and of a header, by its name.
pub record Request : Type 0 where
  pub query : Str → Str
  pub parse_form : External Unit
  pub form_value : Str → Str
  pub header : GetHeaderFn

module _ (s : Services) where
  open s use {
    crypto, KeySet, World, Value, url_parse, with_query, url_string, now, readings, error_text,
  }

  pub data Body : Type 0 where
    empty : Body
    metadata : Metadata → Body
    login_page : Body
    token : TokenResponse → Body
    key_set : KeySet → Body
    user_info : List (Str × Value) → Body

  pub record Response : Type 0 where
    pub status : ℕ
    pub headers : List (Str × Str)
    pub body : Body

  abbrev pub only_status : ℕ → Response
  only_status status = record { status = status; headers = []; body = empty }

  abbrev pub content_type : Str → List (Str × Str)
  content_type value = (str "Content-Type", value) ∷ []

  unfoldable pub metadata_handler : OpTest s → Response
  metadata_handler op =
      let issuer = op.options.issuer in
      record {
        status = 200;
        headers = content_type (str "application/json");
        body = metadata (record {
          issuer = issuer;
          authorization_endpoint = issuer ++ str "/authorization";
          token_endpoint = issuer ++ str "/token";
          jwks_uri = issuer ++ str "/jwks";
          response_types_supported = str "code" ∷ [];
          userinfo_endpoint = issuer ++ str "/userinfo";
        });
      }

  -- `op.authorizations.set(code, loginHint, nonce)`
  unfoldable pub set_authorization : Str → Str → Str → State s → State s
  set_authorization code login_hint nonce (op, w) =
      let time = now w in
      let clock = readings time.1 in
      (
        record op {
          authorizations =
              Authorizations.set code login_hint nonce time.0 clock.0 op.authorizations;
        },
        clock.1,
      )

  -- The redirect with a code; the values replace the query that the address has.
  abbrev pub redirect : s.Url → Str → Str → Response
  redirect url code state = record {
    status = 302;
    headers =
        (
          str "Location",
          url_string (with_query ((str "code", code) ∷ (str "state", state) ∷ []) url),
        )
        ∷ [];
    body = empty;
  }

  abbrev pub with_code :
      Request → s.Url → OpTest s → Result OpError Str × World → Response × State s
  with_code r url op (err _, w) = (only_status 500, (op, w))
  with_code r url op (ok code, w) = (
    redirect url code (r.query (str "state")),
    set_authorization code (r.query (str "login_hint")) (r.query (str "nonce")) (op, w),
  )

  -- A page with a link for each user, made by a template that does not fail.
  abbrev pub login_handler : Response
  login_handler = record { status = 200; headers = []; body = login_page }

  unfoldable pub show_login_prompt : Request → OpTest s → Bool
  show_login_prompt r op =
      is_empty (r.query (str "login_hint"))
      && (ltb 1 (length op.options.test_users) && op.options.login_prompt_enabled)

  unfoldable pub authorization_handler : Request → State s → Response × State s
  authorization_handler r (op, w) =
      if show_login_prompt r op
      then (login_handler, (op, w))
      else elim (url_parse (r.query (str "redirect_uri"))) [
        | err _ ↦ (only_status 400, (op, w))
        | ok url ↦ with_code r url op (generate_random_string s.random_int 32 w)
      ]

  -- `op.authorizations.get(code)`
  unfoldable pub get_authorization : Str → State s → Option AuthorizationCache × State s
  get_authorization code (op, w) =
      let clock = readings w in
      let out = Authorizations.get code clock.0 op.authorizations in
      (out.0, (record op { authorizations = out.1 }, clock.1))

  -- The user of a code: its login hint, else the one of the query, else the default.
  unfoldable pub user_of : Request → OpTest s → AuthorizationCache → Str
  user_of r op found =
      let named = r.query (str "test_user") in
      if not (is_empty found.login_hint)
      then found.login_hint
      else if not (is_empty named)
      then named
      else op.options.default_test_user

  abbrev pub token_ok_headers : List (Str × Str)
  token_ok_headers =
      (str "Content-Type", str "application/json;charset=UTF-8")
      ∷ (str "Cache-Control", str "no-store")
      ∷ (str "Pragma", str "no-cache")
      ∷ []

  abbrev pub answer : Result OpError TokenResponse → Response
  answer (err _) = only_status 500
  answer (ok response) = record { status = 200; headers = token_ok_headers; body = token response }

  abbrev pub redeem : Request → Option AuthorizationCache → State s → Response × State s
  redeem r none s' = (only_status 401, s')
  redeem r (some found) s' =
      let out = get_token_by_user s (user_of r s'.0 found) found.nonce s' in (answer out.0, out.1)

  unfoldable pub token_handler : Request → State s → Response × State s
  token_handler r st = elim r.parse_form [
    | err _ ↦ (only_status 400, st)
    | ok _ ↦ let out = get_authorization (r.form_value (str "code")) st in redeem r out.0 out.1
  ]

  unfoldable pub jwks_handler : OpTest s → Response
  jwks_handler op = record {
    status = 200;
    headers = content_type (str "application/json");
    body = key_set (get_public_key_set crypto op.jwks);
  }

  abbrev pub unauthorized : Str → Response
  unauthorized description = record {
    status = 401;
    headers =
        (str "Content-Type", str "application/json")
        ∷ (
          str "WWW-Authenticate",
          str "error=\"invalid_token\", error_description=\"" ++ (description ++ str "\""),
        )
        ∷ [];
    body = empty;
  }

  abbrev pub answer_user_info : Result OpError (List (Str × Value)) → Response
  answer_user_info (err e) = unauthorized (error_text e)
  answer_user_info (ok claims) = record {
    status = 200;
    headers = content_type (str "application/json");
    body = user_info claims;
  }

  unfoldable pub user_info_handler : Request → State s → Response × State s
  user_info_handler r st = elim (get_token_string r.header) [
    | err _ ↦ (unauthorized (str "Unable to extract token"), st)
    | ok token_string ↦
        let out = get_user_info_from_token s token_string st in (answer_user_info out.0, out.1)
  ]

  -- `routeHandler`: the handler of a path
  pub data Route : Type 0 where
    metadata_route authorization_route token_route jwks_route user_info_route : Route

  unfoldable pub route : List (Str × Route)
  route =
      (str "/.well-known/openid-configuration", metadata_route)
      ∷ (str "/authorization", authorization_route)
      ∷ (str "/token", token_route)
      ∷ (str "/jwks", jwks_route)
      ∷ (str "/userinfo", user_info_route)
      ∷ []

  unfoldable pub serve : Route → Request → State s → Response × State s
  serve metadata_route r st = (metadata_handler st.0, st)
  serve authorization_route r st = authorization_handler r st
  serve token_route r st = token_handler r st
  serve jwks_route r st = (jwks_handler st.0, st)
  serve user_info_route r st = user_info_handler r st
