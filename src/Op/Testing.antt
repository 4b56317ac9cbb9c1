-- ===== src/Op/Testing.antt =====
-- optest/testing.go: the provider for Go tests. An error fails the test that calls; it ends there.
use go_oidc_middleware.Prelude.{List, []}
use go_oidc_middleware.Text.{Str}
use go_oidc_middleware.Errors.{Result, ok, err}
use go_oidc_middleware.Op.Services.{Services}
use go_oidc_middleware.Op.Action.{OpError, Action}
use go_oidc_middleware.Op.Options.{Setter}
use go_oidc_middleware.Op.Tokens.{TestUser, OpTest, State}
use go_oidc_middleware.Op.Provider.{new, start, rotate, get_token, get_token_by_user}
use go_oidc_middleware.Op.Bearer.{TokenResponse}

module _ (s : Services) where
  open s use {World}

  pub record OpTesting : Type 0 where
    pub op : OpTest s

  -- A method of the provider inside.
  abbrev pub of_op : {A : Type 0} → Action (State s) A → Action (OpTesting × World) A
  of_op m (o, w) = let out = m (o.op, w) in (out.0, (record { op = out.1.0 }, out.1.1))

  unfoldable pub new_testing :
      Str → List (Setter (TestUser s)) → World → Result OpError OpTesting × World
  new_testing url setters w =
      let (made, w') = new s url setters w in
      elim made [ err e ↦ (err e, w') | ok op ↦ (ok (record { op = op }), w') ]

  unfoldable pub testing_start : Str → OpTesting → OpTesting
  testing_start url o = record { op = start s url o.op }

  unfoldable pub testing_get_url : OpTesting → Str
  testing_get_url o = o.op.server_url

  unfoldable pub testing_rotate_keys : Action (OpTesting × World) Unit
  testing_rotate_keys = of_op (rotate s)

  unfoldable pub testing_get_token : Action (OpTesting × World) TokenResponse
  testing_get_token = of_op (get_token s)

  unfoldable pub testing_get_token_by_user : Str → Action (OpTesting × World) TokenResponse
  testing_get_token_by_user user_string = of_op (get_token_by_user s user_string [])
