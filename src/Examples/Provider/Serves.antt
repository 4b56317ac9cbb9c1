-- ===== src/Examples/Provider/Serves.antt =====
-- What the program of examples/op serves.
use go_oidc_middleware.Prelude.{
  ◌≡◌, ◌≢◌, ◌⊎◌, refl, sym, ap, ◌∙◌, some, List, [], ◌∷◌, arith, inl, inr, Bool-cases, false,
}
use go_oidc_middleware.Text.{Str, str, is_empty, ◌==◌}
use go_oidc_middleware.Text.Equality.{==_iff}
use go_oidc_middleware.Errors.{ok, ok-injective, Result-cases}
use go_oidc_middleware.Options.TokenStringOptions.{apply_setters}
use go_oidc_middleware.Op.Services.{Services}
use go_oidc_middleware.Op.Keys.{new_jwks_handler}
use go_oidc_middleware.Op.Options.{
  Options, with_issuer, without_auto_start, with_default_test_user, with_login_prompt,
  with_test_users,
}
use go_oidc_middleware.Op.Tokens.{TestUser, OpTest, State, lookup}
use go_oidc_middleware.Op.Provider.{
  with_server_url, checked_options, new, start, rotate, default_options,
}
use go_oidc_middleware.Op.Handlers.{Route, Request, route, serve}
use go_oidc_middleware.Op.Events.{
  serve-SameSetup, Event, request, started, rotated, happen, happen_all,
}
use go_oidc_middleware.Examples.Provider.{
  kalle, foo, setters, new_example, of_router, not_found, serve_example,
}

module _ (s : Services) where
  open s use {World}

  -- The settings of the example.
  abbrev pub example_options : Options (TestUser s)
  example_options = apply_setters (setters s) (default_options s)

  pub new_example-options :
      (w : World) (op : OpTest s) → (new_example s w).0 ≡ ok op → op.options ≡ example_options
  unfolding new_example new apply_setters with_issuer without_auto_start with_default_test_user
      with_login_prompt with_test_users checked_options lookup ◌==◌
  new_example-options w op made = elim (Result-cases (new_jwks_handler s.crypto w).0) [
    | inr (e, failed) ↦ absurd (ground arith)
    | inl (jwks, done) ↦
        sym (ap (λ (o : OpTest s). o.options) (ok-injective (rw (done, new_example, new) at made)))
  ]

  start-options :
      (url : Str) (op : OpTest s)
      → is_empty op.options.issuer ≡ false
      → (start s url op).options ≡ op.options
  unfolding start with_server_url
  start-options url op given = ground arith

  issuer-given :
      (opts : Options (TestUser s)) → opts ≡ example_options → is_empty opts.issuer ≡ false
  unfolding apply_setters with_issuer without_auto_start with_default_test_user with_login_prompt
      with_test_users
  issuer-given opts same = ap (λ (o : Options (TestUser s)). is_empty o.issuer) same

  happen-options :
      (e : Event s) (st : State s)
      → st.0.options ≡ example_options
      → (happen s e st).0.options ≡ example_options
  unfolding happen rotate
  happen-options (request to r) st same = (serve-SameSetup s to r st).0 ∙ same
  happen-options (started url) (op, w) same =
      start-options url op (issuer-given op.options same) ∙ same
  happen-options rotated st same = same

  serve_example-user_info :
      (path : Str) (r : Request) (st : State s)
      → path ≡ str "/userinfo"
      → serve_example s path r st ≡ (not_found, st)
  unfolding serve_example ◌==◌
  serve_example-user_info path r st here = rw here refl

  happen_all-options :
      (es : List (Event s)) (st : State s)
      → st.0.options ≡ example_options
      → (happen_all s es st).0.options ≡ example_options
  unfolding happen_all
  happen_all-options [] st same = same
  happen_all-options (e ∷ es) st same =
      happen_all-options es (happen s e st) (happen-options e st same)

  -- Through any requests, starts and key rotations the program of examples/op keeps its options: its
  -- issuer is http://localhost:8082 whatever the address of the server, and its users are those of
  -- the program.
  pub new_example-happen_all :
      (w w1 : World) (op : OpTest s) (es : List (Event s))
      → (new_example s w).0 ≡ ok op
      → ((happen_all s es (op, w1)).0.options.issuer ≡ str "http://localhost:8082")
        × (lookup (str "test") (happen_all s es (op, w1)).0.options.test_users ≡ some (kalle s))
        × (lookup (str "foo") (happen_all s es (op, w1)).0.options.test_users ≡ some (foo s))
        × ((happen_all s es (op, w1)).0.options.default_test_user ≡ str "test")
  unfolding apply_setters with_issuer without_auto_start with_default_test_user with_login_prompt
      with_test_users lookup ◌==◌
  new_example-happen_all w w1 op es made =
      rw (happen_all-options es (op, w1) (new_example-options w op made)) (refl, refl, refl, refl)

  -- A path of the provider's router is answered by its handler in the program of examples/op, but
  -- for the path of the user information, which the metadata of the provider names: the program
  -- answers that there is no such path.
  pub serve_example-route :
      (path : Str) (to : Route s) (r : Request) (st : State s)
      → lookup path (route s) ≡ some to
      → ((path ≢ str "/userinfo")
          × (serve_example s path r st
              ≡ (of_router (some (serve s to r st).0), (serve s to r st).1)))
        ⊎ ((path ≡ str "/userinfo") × (serve_example s path r st ≡ (not_found, st)))
  unfolding serve_example route lookup
  serve_example-route path to r st found = elim (Bool-cases (path == str "/userinfo")) [
    | inl same ↦
        let here = (==_iff path (str "/userinfo")).0 same in
        inr (here, serve_example-user_info path r st here)
    | inr other ↦
        let elsewhere = ==_iff path (str "/userinfo") in inl (ground arith, ground (arith, other))
  ]
