-- ===== src/Op/Once.antt =====
-- An authorization code of the provider through whatever happens to it.
use go_oidc_middleware.Prelude.{
  ◌≡◌, ◌≢◌, refl, ap, none, List, [], ◌∷◌, arith, inl, inr, Bool-cases,
}
use go_oidc_middleware.Text.{Str, str}
use go_oidc_middleware.Text.Equality.{==_iff}
use go_oidc_middleware.Errors.{Result, ok, err, Result-cases}
use go_oidc_middleware.Op.Services.{Services}
use go_oidc_middleware.Op.Action.{OpError}
use go_oidc_middleware.Op.Authorizations
use go_oidc_middleware.Op.Authorizations.{perform, perform-miss}
use go_oidc_middleware.Op.Tokens.{OpTest, State}
use go_oidc_middleware.Op.Provider.{start, rotate}
use go_oidc_middleware.Op.Random.{generate_random_string}
use go_oidc_middleware.Op.Bearer.{get_token_string}
use go_oidc_middleware.Op.Keeps.{get_user_info_from_token-Keeps}
use go_oidc_middleware.Op.Handlers.{
  Request, only_status, with_code, set_authorization, authorization_handler, show_login_prompt,
  get_authorization, token_handler, user_info_handler, metadata_route, authorization_route,
  token_route, jwks_route, user_info_route, serve,
}
use go_oidc_middleware.Op.Events.{Event, request, started, rotated, happen, happen_all}
use go_oidc_middleware.Op.Flow.{
  Carries, codes, token_handler-carried, redeem-codes, get_authorization-removes,
  get_authorization-miss,
}

module _ (s : Services) (code : Str) where
  -- The code has been redeemed, or never given out.
  abbrev IsGone : State s → Type 0
  IsGone st = (codes s st).values code ≡ none

  -- A request to the authorization endpoint that draws another code, if any; or another event.
  abbrev pub Avoids : Event s → State s → Type 0
  Avoids (request authorization_route r) st =
      (generate_random_string s.random_int 32 st.1).0 ≢ ok code
  Avoids (request metadata_route r) st = Unit
  Avoids (request token_route r) st = Unit
  Avoids (request jwks_route r) st = Unit
  Avoids (request user_info_route r) st = Unit
  Avoids (started url) st = Unit
  Avoids rotated st = Unit

  abbrev pub AvoidAll : List (Event s) → State s → Type 0
  AvoidAll [] st = Unit
  AvoidAll (e ∷ es) st = Avoids e st × AvoidAll es (happen s e st)

  set_authorization-IsGone :
      (code' login_hint nonce : Str) (st : State s)
      → code' ≢ code
      → IsGone st
      → IsGone (set_authorization s code' login_hint nonce st)
  unfolding set_authorization perform
  set_authorization-IsGone code' login_hint nonce (op, w) other gone =
      let time = s.now w in
      perform-miss code
        (Authorizations.set_code code' login_hint nonce time.0 (s.readings time.1).0)
        op.authorizations (ground (arith, ==_iff code code', other)) gone

  with_code-IsGone :
      (r : Request) (url : s.Url) (op : OpTest s) (generated : Result OpError Str × s.World)
      → generated.0 ≢ ok code
      → op.authorizations.values code ≡ none
      → IsGone (with_code s r url op generated).1
  with_code-IsGone r url op (err e, w) other gone = gone
  with_code-IsGone r url op (ok code', w) other gone =
      set_authorization-IsGone code' (r.query (str "login_hint")) (r.query (str "nonce")) (op, w)
        (λ same. other (ap ok same)) gone

  authorization_handler-IsGone :
      (r : Request) (st : State s)
      → (generate_random_string s.random_int 32 st.1).0 ≢ ok code
      → IsGone st
      → IsGone (authorization_handler s r st).1
  unfolding authorization_handler
  authorization_handler-IsGone r (op, w) other gone = elim (Bool-cases (show_login_prompt s r op)) [
    | inl prompt ↦ rw prompt gone
    | inr no_prompt ↦ elim (Result-cases (s.url_parse (r.query (str "redirect_uri")))) [
      | inl (url, parsed) ↦ rw no_prompt (
          rw (parsed, authorization_handler)
            (with_code-IsGone r url op (generate_random_string s.random_int 32 w) other gone))
      | inr (e, failed) ↦ rw no_prompt (rw (failed, authorization_handler) gone)
    ]
  ]

  get_authorization-IsGone :
      (code' : Str) (st : State s) → IsGone st → IsGone (get_authorization s code' st).1
  unfolding get_authorization perform
  get_authorization-IsGone code' (op, w) gone =
      perform-miss code (Authorizations.get_code code' (s.readings w).0) op.authorizations tt gone

  token_handler-IsGone : (r : Request) (st : State s) → IsGone st → IsGone (token_handler s r st).1
  unfolding token_handler
  token_handler-IsGone r st gone = elim (Result-cases r.parse_form) [
    | inl (_, parsed) ↦
        let found = get_authorization s (r.form_value (str "code")) st in
        rw (parsed, token_handler)
          (rw (redeem-codes s r found.0 found.1)
            (get_authorization-IsGone (r.form_value (str "code")) st gone))
    | inr (e, failed) ↦ rw (failed, token_handler) gone
  ]

  user_info_handler-IsGone :
      (r : Request) (st : State s) → IsGone st → IsGone (user_info_handler s r st).1
  unfolding user_info_handler
  user_info_handler-IsGone r st gone = elim (Result-cases (get_token_string r.header)) [
    | inl (t, found) ↦
        let same = (get_user_info_from_token-Keeps s t).at st.0 st.1 in
        rw (found, user_info_handler) (rw same.2 gone)
    | inr (e, failed) ↦ rw (failed, user_info_handler) gone
  ]

  happen-IsGone : (e : Event s) (st : State s) → Avoids e st → IsGone st → IsGone (happen s e st)
  unfolding happen serve rotate start
  happen-IsGone (request metadata_route r) st avoids gone = gone
  happen-IsGone (request authorization_route r) st avoids gone =
      authorization_handler-IsGone r st avoids gone
  happen-IsGone (request token_route r) st avoids gone = token_handler-IsGone r st gone
  happen-IsGone (request jwks_route r) st avoids gone = gone
  happen-IsGone (request user_info_route r) st avoids gone = user_info_handler-IsGone r st gone
  happen-IsGone (started url) st avoids gone = ground arith
  happen-IsGone rotated st avoids gone = gone

  happen_all-IsGone :
      (es : List (Event s)) (st : State s)
      → AvoidAll es st
      → IsGone st
      → IsGone (happen_all s es st)
  unfolding happen_all
  happen_all-IsGone [] st avoids gone = gone
  happen_all-IsGone (e ∷ es) st (avoids, later) gone =
      happen_all-IsGone es (happen s e st) later (happen-IsGone e st avoids gone)

  -- A code is good for one request to the token endpoint: whatever that request is answered, and
  -- whatever happens to the provider then (requests, starts and key rotations, of which none draws
  -- the same code again), a later request with the code is answered 401.
  pub token_handler-happen_all :
      (r r' : Request) (st : State s) (es : List (Event s))
      → Carries s code r
      → Carries s code r'
      → AvoidAll es (token_handler s r st).1
      → (token_handler s r' (happen_all s es (token_handler s r st).1)).0 ≡ only_status s 401
  token_handler-happen_all r r' st es carries carries' avoids =
      let found = get_authorization s code st in
      let first : IsGone (token_handler s r st).1 =
        rw (token_handler-carried s code r st carries)
          (rw (redeem-codes s r found.0 found.1) (get_authorization-removes s code st)) in
      let later = happen_all s es (token_handler s r st).1 in
      let second : (get_authorization s code later).0 ≡ none =
        get_authorization-miss s code later
          (happen_all-IsGone es (token_handler s r st).1 avoids first) in
      rw (token_handler-carried s code r' later carries') (rw second refl)

  -- So it is in the very next request with the code.
  token_handler-once :
      (r r' : Request) (st : State s)
      → Carries s code r
      → Carries s code r'
      → (token_handler s r' (token_handler s r st).1).0 ≡ only_status s 401
  unfolding happen_all
  token_handler-once r r' st carries carries' =
      token_handler-happen_all r r' st [] carries carries' tt
