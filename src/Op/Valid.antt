-- ===== src/Op/Valid.antt =====
-- The state of the provider from its start through its operations.
use go_oidc_middleware.Errors.{ok-injective}
use go_oidc_middleware.Prelude.{
  ◌≡◌, refl, subst, some, List, [], ◌∷◌, arith, inl, inr, Option-cases,
}
use go_oidc_middleware.Text.{Str}
use go_oidc_middleware.Errors.{Result, ok, err, Result-cases}
use go_oidc_middleware.Options.TokenStringOptions.{apply_setters}
use go_oidc_middleware.Op.Services.{Services}
use go_oidc_middleware.Op.Action.{OpError}
use go_oidc_middleware.Op.Keys.{JwksHandler, new_jwks_handler}
use go_oidc_middleware.Op.Options.{Options, Setter}
use go_oidc_middleware.Op.Tokens.{TestUser, OpTest, State, lookup}
use go_oidc_middleware.Op.Provider.{
  with_server_url, checked_options, assembled, new, start, rotate, default_options,
}
use go_oidc_middleware.Op.Handlers.{serve}
use go_oidc_middleware.Op.Keys.Single.{
  IsMadePair, IsSingle, new_jwks_handler-IsSingle, rotate_keys-IsSingle,
}
use go_oidc_middleware.Op.Events.{
  SameSetup, serve-SameSetup, start-same, Event, request, started, rotated, happen, happen_all,
}

module _ (s : Services) where
  open s use {crypto, World}

  checked_options-users :
      (url : Str) (opts : Options (TestUser s)) (url' : Str) (opts' : Options (TestUser s))
      → checked_options s url opts ≡ ok (url', opts')
      → (user : TestUser s) × (lookup opts'.default_test_user opts'.test_users ≡ some user)
  unfolding checked_options with_server_url
  checked_options-users url opts url' opts' e =
      elim (Option-cases (lookup opts.default_test_user opts.test_users)) [
        | inl missing ↦ absurd (ground arith)
        | inr (user, found) ↦ (user, ground arith)
      ]

module _ (s : Services) (R : s.crypto.Key → s.crypto.Key → Type 0) where
  open s use {crypto, World}

  -- There is one private key to sign with and one public key, a pair that `addNewKey` has made, and
  -- the default user exists.
  abbrev pub IsValid : OpTest s → Type 0
  IsValid op =
      IsSingle crypto R op.jwks
      × ((user : TestUser s) × (lookup op.options.default_test_user op.options.test_users
            ≡ some user))

  IsValid-SameSetup : (op op' : OpTest s) → SameSetup s op op' → IsValid op → IsValid op'
  IsValid-SameSetup op op' (same, same') (one, (user, found)) =
      (rw same' one, (user, rw same found))

  start-IsValid : (url : Str) (op : OpTest s) → IsValid op → IsValid (start s url op)
  start-IsValid url op (one, (user, found)) =
      let (users, default, keys) = start-same s url op in
      (rw keys one, (user, rw (users, default) found))

  happen-IsValid :
      IsMadePair crypto R → (e : Event s) (st : State s) → IsValid st.0 → IsValid (happen s e st).0
  unfolding happen rotate
  happen-IsValid pairs (request route r) st valid =
      IsValid-SameSetup st.0 (serve s route r st).1.0 (serve-SameSetup s route r st) valid
  happen-IsValid pairs (started url) st valid = start-IsValid url st.0 valid
  happen-IsValid pairs rotated st (one, found) =
      (rotate_keys-IsSingle crypto R pairs st.0.jwks st.1 one, found)

  pub happen_all-IsValid :
      IsMadePair crypto R
      → (es : List (Event s)) (st : State s) → IsValid st.0
      → IsValid (happen_all s es st).0
  unfolding happen_all
  happen_all-IsValid pairs [] st valid = valid
  happen_all-IsValid pairs (e ∷ es) st valid =
      happen_all-IsValid pairs es (happen s e st) (happen-IsValid pairs e st valid)

  assembled-IsValid :
      (jwks : JwksHandler crypto) (r : Result OpError (Str × Options (TestUser s))) (op : OpTest s)
      → IsSingle crypto R jwks
      → ((url : Str) (opts : Options (TestUser s))
          → r ≡ ok (url, opts)
          → (user : TestUser s) × (lookup opts.default_test_user opts.test_users ≡ some user))
      → assembled s jwks r ≡ ok op
      → IsValid op
  assembled-IsValid jwks (err x) op one users e = absurd (ground arith)
  assembled-IsValid jwks (ok (url, opts)) op one users e =
      subst IsValid (ok-injective e) (one, users url opts refl)

  new-IsValid :
      IsMadePair crypto R
      → (url : Str) (setters : List (Setter (TestUser s))) (w : World) (op : OpTest s)
      → (new s url setters w).0 ≡ ok op
      → IsValid op
  unfolding new
  new-IsValid pairs url setters w op e =
      let opts = apply_setters setters (default_options s) in
      elim (Result-cases (new_jwks_handler crypto w).0) [
        | inl (jwks, made) ↦
            assembled-IsValid jwks (checked_options s url opts) op
              (new_jwks_handler-IsSingle crypto R pairs w jwks made)
              (λ url' opts' r. checked_options-users s url opts url' opts' r) (rw (made, new) at e)
        | inr (x, failed) ↦
            let refused : err (OpError.key_error x) ≡ ok op = rw (failed, new) at e in
            absurd (ground arith)
      ]

  -- From the start of a provider on, through any requests, starts and key rotations, whether these
  -- succeed or not, the provider has one private key to sign with and one public key to show, which
  -- are a pair that `addNewKey` has made, and its default user exists.
  pub new-happen_all-IsValid :
      IsMadePair crypto R
      → (url : Str) (setters : List (Setter (TestUser s))) (w w' : World) (op : OpTest s)
        (es : List (Event s))
      → (new s url setters w).0 ≡ ok op
      → IsValid (happen_all s es (op, w')).0
  new-happen_all-IsValid pairs url setters w w' op es e =
      happen_all-IsValid pairs es (op, w') (new-IsValid pairs url setters w op e)
