-- ===== src/Op/Flow.antt =====
-- The authorization code flow of the provider, from the redirect to the token response.
use go_oidc_middleware.Prelude.{
  ◌≡◌, ◌≢◌, ◌⊎◌, inl, inr, refl, false, Option, none, some, [], ◌∷◌, In, arith,
}
use go_oidc_middleware.Prelude.Int.{ℤ, ◌+ℤ◌, ltb_ℤ}
use go_oidc_middleware.Text.{Str, str}
use go_oidc_middleware.Errors.{Result, ok, err}
use go_oidc_middleware.Op.Action.{OpError}
use go_oidc_middleware.Op.Bearer.{TokenResponse}
use go_oidc_middleware.Op.Services.{Services}
use go_oidc_middleware.Op.Authorizations
use go_oidc_middleware.Op.Authorizations.{AuthorizationCache, get-set, get-removes, get-miss}
use go_oidc_middleware.Op.Tokens.{OpTest, State}
use go_oidc_middleware.Op.Provider.{get_token_by_user}
use go_oidc_middleware.Op.Random.{generate_random_string}
use go_oidc_middleware.Op.Keeps.{get_token_by_user-Keeps}
use go_oidc_middleware.Op.Handlers.{
  Request, Response, empty, token, redirect, answer, redeem, set_authorization,
  authorization_handler, show_login_prompt, get_authorization, user_of, token_handler,
}

module _ (s : Services) where
  open s use {World, url_parse, now, readings}

  -- A request whose form can be read, with this code.
  abbrev pub Carries : Str → Request → Type 0
  Carries code r = (r.parse_form ≡ ok tt) × (r.form_value (str "code") ≡ code)

  pub token_handler-carried :
      (code : Str) (r : Request) (st : State s)
      → Carries code r
      → token_handler s r st
        ≡ redeem s r (get_authorization s code st).0 (get_authorization s code st).1
  unfolding token_handler user_of
  token_handler-carried code r st (parsed, carried) = rw (parsed, token_handler) (rw carried refl)

  abbrev pub codes : State s → Authorizations.Container
  codes st = st.0.authorizations

  pub redeem-codes :
      (r : Request) (found : Option AuthorizationCache) (st : State s)
      → codes (redeem s r found st).1 ≡ codes st
  redeem-codes r none st = refl
  redeem-codes r (some found) st =
      ((get_token_by_user-Keeps s (user_of s r st.0 found) found.nonce).at st.0 st.1).2

  pub get_authorization-removes :
      (code : Str) (st : State s) → (codes (get_authorization s code st).1).values code ≡ none
  unfolding get_authorization
  get_authorization-removes code (op, w) = get-removes code (readings w).0 op.authorizations

  pub get_authorization-miss :
      (code : Str) (st : State s)
      → (codes st).values code ≡ none
      → (get_authorization s code st).0 ≡ none
  unfolding get_authorization
  get_authorization-miss code (op, w) missing =
      get-miss code (readings w).0 op.authorizations missing

  -- The clock that the next look-up of a code reads for it.
  abbrev pub clock_of : Str → World → ℤ
  clock_of code w = (readings w).0 code

  -- The time to live of a code that is given out in this state, and the clocks that are read: when
  -- it is stored, and when it is looked up.
  abbrev pub deadline : State s → ℤ
  deadline (op, w) = (now w).0 +ℤ op.authorizations.ttl

  set_authorization-found :
      (code login_hint nonce : Str) (st : State s)
      → ltb_ℤ (deadline st) (clock_of code (now st.1).1) ≡ false
      → ltb_ℤ (deadline st) (clock_of code (set_authorization s code login_hint nonce st).1) ≡ false
      → (get_authorization s code (set_authorization s code login_hint nonce st)).0
        ≡ some (Authorizations.entry code login_hint nonce (deadline st))
  unfolding set_authorization get_authorization
  set_authorization-found code login_hint nonce (op, w) stored looked =
      get-set code login_hint nonce (now w).0 (readings (now w).1).0
        (readings (readings (now w).1).1).0 op.authorizations stored looked

  -- The user of a code: the login hint of the request for it, else the user named by the request
  -- that presents it, else the default user.
  abbrev pub IsChosen : Request → Request → OpTest s → Str → Type 0
  IsChosen r r' op id =
      let hint = r.query (str "login_hint") in
      let named = r'.query (str "test_user") in
      ((hint ≢ []) × (id ≡ hint))
      ⊎ ((hint ≡ []) × (named ≢ []) × (id ≡ named))
      ⊎ ((hint ≡ []) × (named ≡ []) × (id ≡ op.options.default_test_user))

  -- The answer 302 with an address whose query is a code and a state.
  abbrev pub IsRedirect : s.Url → Str → Str → Response s → Type 0
  IsRedirect url code state response =
      (response.status ≡ 302)
      × (response.headers
          ≡ (
            str "Location",
            s.url_string (s.with_query ((str "code", code) ∷ (str "state", state) ∷ []) url),
          )
            ∷ [])
      × (response.body ≡ empty)

  -- The answer 200 with the tokens, which are not to be stored, or 500 with nothing.
  abbrev pub IsAnswer : Result OpError TokenResponse → Response s → Type 0
  IsAnswer (ok tokens) response =
      (response.status ≡ 200)
      × In (str "Cache-Control", str "no-store") response.headers
      × (response.body ≡ token tokens)
  IsAnswer (err e) response = (response.status ≡ 500) × (response.body ≡ empty)

  answer-IsAnswer : (r : Result OpError TokenResponse) → IsAnswer r (answer s r)
  answer-IsAnswer (ok tokens) = (refl, inr (inl refl), refl)
  answer-IsAnswer (err e) = (refl, refl)

  user_of-IsChosen :
      (r r' : Request) (op : OpTest s) (id : Str) (op' : OpTest s) (found : AuthorizationCache)
      → op'.options.default_test_user ≡ op.options.default_test_user
      → found.login_hint ≡ r.query (str "login_hint")
      → IsChosen r r' op id
      → user_of s r' op' found ≡ id
  unfolding user_of
  user_of-IsChosen r r' op id op' found same hint chosen = ground arith

  module _ (r r' : Request) (op : OpTest s) (w w1 : World) (url : s.Url) (code : Str)
      (no_prompt : show_login_prompt s r op ≡ false)
      (parsed : url_parse (r.query (str "redirect_uri")) ≡ ok url)
      (generated : generate_random_string s.random_int 32 w ≡ (ok code, w1)) where
    -- What the provider has stored for a request to the authorization endpoint.
    abbrev pub stored : State s
    stored = set_authorization s code (r.query (str "login_hint")) (r.query (str "nonce")) (op, w1)

    pub authorization_handler-redirects :
        authorization_handler s r (op, w) ≡ (redirect s url code (r.query (str "state")), stored)
    unfolding authorization_handler
    authorization_handler-redirects =
        rw (no_prompt, authorization_handler)
          (rw (parsed, authorization_handler) (rw generated refl))

    -- A request to the authorization endpoint for which no login prompt is shown, with an address
    -- that can be read, is answered 302 with that address, its query replaced by a new code and the
    -- request's state. A request to the token endpoint whose form can be read and carries the code
    -- is then answered with the tokens of the user (the login hint of the first request, else the
    -- user that the second names, else the default) and the nonce of the first, not to be stored,
    -- or with 500 if they cannot be made; if no clock read for the code is past its time to live.
    pub token_handler-authorization_handler :
        (id : Str)
        → Carries code r'
        → IsChosen r r' op id
        → ltb_ℤ (deadline (op, w1)) (clock_of code (now w1).1) ≡ false
        → ltb_ℤ (deadline (op, w1)) (clock_of code stored.1) ≡ false
        → IsRedirect url code (r.query (str "state")) (authorization_handler s r (op, w)).0
          × (let out =
                get_token_by_user s id
                  (r.query (str "nonce"))
                  (get_authorization s code stored).1 in
              let handled = token_handler s r' (authorization_handler s r (op, w)).1 in
              IsAnswer out.0 handled.0 × (handled.1 ≡ out.1))
    unfolding set_authorization get_authorization
    token_handler-authorization_handler id carries chosen in_time in_time' =
        let hint = r.query (str "login_hint") in
        let nonce = r.query (str "nonce") in
        let found = set_authorization-found code hint nonce (op, w1) in_time in_time' in
        let st = (get_authorization s code stored).1 in
        let entry = Authorizations.entry code hint nonce (deadline (op, w1)) in
        let named : user_of s r' st.0 entry ≡ id =
          user_of-IsChosen r r' op id st.0 entry refl refl chosen in
        let out = get_token_by_user s id nonce st in
        (
          rw authorization_handler-redirects (refl, refl, refl),
          rw authorization_handler-redirects (
              rw (token_handler-carried code r' stored carries)
                (rw found (rw named (answer-IsAnswer out.0, refl)))),
        )
