-- ===== src/Op/Issued/Answered.antt =====
-- From a token response of the provider to the answer of its endpoint for user information.
use go_oidc_middleware.Prelude.{◌≡◌, sym, ap, ◌∙◌, subst, inl, inr, some, List, arith}
use go_oidc_middleware.Prelude.Int.{ℤ}
use go_oidc_middleware.Text.{Str, str}
use go_oidc_middleware.Errors.{ok, ok-injective, Result-cases}
use go_oidc_middleware.Op.Services.{Services}
use go_oidc_middleware.Op.Action.{Action, ◌>>=◌}
use go_oidc_middleware.Op.Action.Bind.{>>=-ok}
use go_oidc_middleware.Op.Options.{jwt_access_token_type}
use go_oidc_middleware.Op.Tokens.{
  TestUser, OpTest, State, lookup, sign_with, new_access_token, new_id_token, new_userinfo_claims,
}
use go_oidc_middleware.Op.Provider.{access_token_of, token_response, get_token_by_user}
use go_oidc_middleware.Op.Bearer.{TokenResponse}

module _ (s : Services) where
  open s use {World, Token, Headers, Key}

  pub new_access_token-same :
      (id : Str) (user : TestUser s) (nonce : Str) (time : ℤ) (op : OpTest s) (w : World)
      → (new_access_token s id user nonce time (op, w)).1.0 ≡ op
  unfolding new_access_token sign_with
  new_access_token-same id user nonce time op w = ground arith

  pub new_id_token-same :
      (id : Str) (user : TestUser s) (nonce : Str) (time : ℤ) (op : OpTest s) (w : World)
      → (new_id_token s id user nonce time (op, w)).1.0 ≡ op
  unfolding new_id_token sign_with
  new_id_token-same id user nonce time op w = ground arith

  pub new_userinfo_claims-found :
      (op : OpTest s) (id : Str) (user : TestUser s)
      → lookup id op.options.test_users ≡ some user
      → (claims : List (Str × s.Value)) × (new_userinfo_claims s op id ≡ ok claims)
  unfolding new_userinfo_claims
  new_userinfo_claims-found op id user found = elim (Result-cases (new_userinfo_claims s op id)) [
    | inl done ↦ done
    | inr (x, failed) ↦ absurd (ground arith)
  ]

  -- What a token response with a JWT for access token has been made of.
  pub record IsResponse (id : Str) (user : TestUser s) (nonce : Str) (op : OpTest s) (w : World)
      (response : TokenResponse) (st : State s) : Type 0 where
    pub issued : State s
    pub access :
        new_access_token s id user nonce (s.now w).0 (op, (s.now w).1)
        ≡ (ok response.access_token, issued)
    pub bearer : response.token_type ≡ str "Bearer"
    pub same : st.0 ≡ op
    pub id_issued : State s
    pub id_token :
        new_id_token s id user nonce (s.now w).0 issued ≡ (ok response.id_token, id_issued)

  pub get_token_by_user-IsResponse :
      (id : Str) (user : TestUser s) (nonce : Str) (op : OpTest s) (w : World)
      (response : TokenResponse) (st : State s)
      → op.options.access_token_type ≡ jwt_access_token_type
      → lookup id op.options.test_users ≡ some user
      → get_token_by_user s id nonce (op, w) ≡ (ok response, st)
      → IsResponse id user nonce op w response st
  unfolding get_token_by_user access_token_of token_response
  get_token_by_user-IsResponse id user nonce op w response st jwt found e =
      let time = (s.now w).0 in
      let w0 = (s.now w).1 in
      let next : Str → Action (State s) TokenResponse = λ access_token.
        new_id_token s id user nonce time >>= λ id_token. token_response s access_token id_token in
      let whole : (access_token_of s op.options.access_token_type id user nonce time >>= next)
            (op, w0)
          ≡ (ok response, st) =
        rw (found, get_token_by_user) at e in
      let e1 =
        subst
          (λ kind.
            (access_token_of s kind id user nonce time >>= next) (op, w0) ≡ (ok response, st))
          jwt whole in
      let (access, made, e2) = >>=-ok (new_access_token s id user nonce time) next (op, w0) e1 in
      let st1 = (new_access_token s id user nonce time (op, w0)).1 in
      let (id_token, made_id, e3) =
        >>=-ok (new_id_token s id user nonce time) (token_response s access) st1 e2 in
      let answered = ok-injective (ap (λ out. out.0) e3) in
      record {
        issued = st1;
        access =
            ap (λ r. (r, st1)) made ∙ ap (λ (t : TokenResponse). (ok t.access_token, st1)) answered;
        bearer = sym (ap (λ (t : TokenResponse). t.token_type) answered);
        same =
            sym (ap (λ out. out.1.0) e3)
            ∙ new_id_token-same id user nonce time st1.0 st1.1
            ∙ new_access_token-same id user nonce time op w0;
        id_issued = (new_id_token s id user nonce time st1).1;
        id_token =
            ap (λ r. (r, (new_id_token s id user nonce time st1).1)) made_id
            ∙ ap (λ (t : TokenResponse). (ok t.id_token, (new_id_token s id user nonce time st1).1))
                answered;
      }
