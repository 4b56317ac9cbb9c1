-- ===== src/Op/Events.antt =====
-- What can happen to the provider, and what the requests leave as it is.
use go_oidc_middleware.Prelude.{
  ◌≡◌, refl, Option, none, some, List, [], ◌∷◌, arith, inl, inr, Bool-cases,
}
use go_oidc_middleware.Text.{Str, str}
use go_oidc_middleware.Errors.{Result, ok, err, Result-cases}
use go_oidc_middleware.Op.Services.{Services}
use go_oidc_middleware.Op.Action.{OpError}
use go_oidc_middleware.Op.Tokens.{OpTest, State}
use go_oidc_middleware.Op.Provider.{with_server_url, start, rotate}
use go_oidc_middleware.Op.Random.{generate_random_string}
use go_oidc_middleware.Op.Bearer.{get_token_string}
use go_oidc_middleware.Op.Keeps.{get_token_by_user-Keeps, get_user_info_from_token-Keeps}
use go_oidc_middleware.Op.Handlers.{
  Request, redeem, with_code, set_authorization, authorization_handler, show_login_prompt,
  get_authorization, user_of, token_handler, user_info_handler, Route, metadata_route,
  authorization_route, token_route, jwks_route, user_info_route, serve,
}

module _ (s : Services) where
  open s use {crypto, World}

  -- What the requests leave as it is.
  abbrev pub SameSetup : OpTest s → OpTest s → Type 0
  SameSetup op op' = (op'.options ≡ op.options) × (op'.jwks ≡ op.jwks)

  with_code-SameSetup :
      (r : Request) (url : s.Url) (op : OpTest s) (generated : Result OpError Str × World)
      → SameSetup op (with_code s r url op generated).1.0
  unfolding set_authorization
  with_code-SameSetup r url op (ok code, w) = (refl, refl)
  with_code-SameSetup r url op (err e, w) = (refl, refl)

  authorization_handler-SameSetup :
      (r : Request) (st : State s) → SameSetup st.0 (authorization_handler s r st).1.0
  unfolding authorization_handler
  authorization_handler-SameSetup r (op, w) = elim (Bool-cases (show_login_prompt s r op)) [
    | inl prompt ↦ rw prompt (refl, refl)
    | inr no_prompt ↦ elim (Result-cases (s.url_parse (r.query (str "redirect_uri")))) [
      | inl (url, parsed) ↦ rw no_prompt (
          rw (parsed, authorization_handler)
            (with_code-SameSetup r url op (generate_random_string s.random_int 32 w)))
      | inr (e, failed) ↦ rw no_prompt (rw (failed, authorization_handler) (refl, refl))
    ]
  ]

  redeem-SameSetup :
      (r : Request) (found : Option _) (st : State s) → SameSetup st.0 (redeem s r found st).1.0
  redeem-SameSetup r none st = (refl, refl)
  redeem-SameSetup r (some found) st =
      let same = (get_token_by_user-Keeps s (user_of s r st.0 found) found.nonce).at st.0 st.1 in
      (same.0, same.1)

  token_handler-SameSetup : (r : Request) (st : State s) → SameSetup st.0 (token_handler s r st).1.0
  unfolding token_handler get_authorization
  token_handler-SameSetup r st = elim (Result-cases r.parse_form) [
    | inl (_, parsed) ↦
        let found = get_authorization s (r.form_value (str "code")) st in
        rw (parsed, token_handler) (redeem-SameSetup r found.0 found.1)
    | inr (e, failed) ↦ rw (failed, token_handler) (refl, refl)
  ]

  user_info_handler-SameSetup :
      (r : Request) (st : State s) → SameSetup st.0 (user_info_handler s r st).1.0
  unfolding user_info_handler
  user_info_handler-SameSetup r st = elim (Result-cases (get_token_string r.header)) [
    | inl (t, found) ↦
        let same = (get_user_info_from_token-Keeps s t).at st.0 st.1 in
        rw (found, user_info_handler) (same.0, same.1)
    | inr (e, failed) ↦ rw (failed, user_info_handler) (refl, refl)
  ]

  pub serve-SameSetup :
      (route : Route s) (r : Request) (st : State s) → SameSetup st.0 (serve s route r st).1.0
  unfolding serve
  serve-SameSetup metadata_route r st = (refl, refl)
  serve-SameSetup authorization_route r st = authorization_handler-SameSetup r st
  serve-SameSetup token_route r st = token_handler-SameSetup r st
  serve-SameSetup jwks_route r st = (refl, refl)
  serve-SameSetup user_info_route r st = user_info_handler-SameSetup r st

  -- What can happen to a provider: a request, a start, or a rotation of its keys.
  pub data Event : Type 0 where
    request : Route s → Request → Event
    started : Str → Event
    rotated : Event

  unfoldable pub happen : Event → State s → State s
  happen (request route r) st = (serve s route r st).1
  happen (started url) (op, w) = (start s url op, w)
  happen rotated st = (rotate s st).1

  unfoldable pub happen_all : List Event → State s → State s
  unfolding happen
  happen_all [] st = st
  happen_all (e ∷ es) st = happen_all es (happen e st)

  pub start-same :
      (url : Str) (op : OpTest s)
      → ((start s url op).options.test_users ≡ op.options.test_users)
        × ((start s url op).options.default_test_user ≡ op.options.default_test_user)
        × ((start s url op).jwks ≡ op.jwks)
  unfolding start with_server_url
  start-same url op = ground arith
