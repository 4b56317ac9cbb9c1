-- ===== src/Op/Keeps.antt =====
-- What the actions of the provider leave as it is.
use go_oidc_middleware.Prelude.{
  ◌≡◌, refl, ap, ◌∙◌, Option, none, some, arith, inl, inr, Option-cases,
}
use go_oidc_middleware.Prelude.Int.{ℤ}
use go_oidc_middleware.Text.{Str}
use go_oidc_middleware.Errors.{Result, ok, err}
use go_oidc_middleware.Op.Services.{Services}
use go_oidc_middleware.Op.Action.{OpError, Action, continue, ◌>>=◌, lift, pure, from_external}
use go_oidc_middleware.Op.OpaqueTokens.{OpaqueAccessToken}
use go_oidc_middleware.Op.Options.{AccessTokenType, jwt_access_token_type, opaque_access_token_type}
use go_oidc_middleware.Op.Tokens.{
  TestUser, OpTest, State, lookup, sign_with, read_clock, new_access_token, new_id_token,
  read_random, store_opaque_token, new_opaque_access_token,
}
use go_oidc_middleware.Op.Provider.{access_token_of, token_response, get_token_by_user}
use go_oidc_middleware.Op.UserInfo.{
  find_opaque_token, behind, get_user_info_from_jwt_token, user_info_by, get_user_info_from_token,
}

module _ (s : Services) where
  open s use {World}

  -- The action leaves everything of the provider but its opaque tokens.
  abbrev pub SameButTokens : OpTest s → OpTest s → Type 0
  SameButTokens op op' =
      (op'.options ≡ op.options) × (op'.jwks ≡ op.jwks) × (op'.authorizations ≡ op.authorizations)

  pub record Keeps {A : Type 0} (m : Action (State s) A) : Type 0 where
    pub at : (op : OpTest s) (w : World) → SameButTokens op (m (op, w)).1.0

  Keeps-continue :
      {A B : Type 0} (r : Result OpError A) (f : A → Action (State s) B) (op : OpTest s)
      (st : State s)
      → SameButTokens op st.0
      → ((a : A) → Keeps (f a))
      → SameButTokens op (continue r f st).1.0
  Keeps-continue (err e) f op st same keeps = same
  Keeps-continue (ok a) f op st same keeps =
      let next = (keeps a).at st.0 st.1 in (next.0 ∙ same.0, next.1 ∙ same.1, next.2 ∙ same.2)

  pub Keeps-bind :
      {A B : Type 0} (m : Action (State s) A) (f : A → Action (State s) B)
      → Keeps m
      → ((a : A) → Keeps (f a))
      → Keeps (m >>= f)
  Keeps-bind m f keeps rest = record {
    at = λ op w. Keeps-continue (m (op, w)).0 f op (m (op, w)).1 (keeps.at op w) rest;
  }

  pub Keeps-same :
      {A : Type 0} (m : Action (State s) A)
      → ((op : OpTest s) (w : World) → (m (op, w)).1.0 ≡ op)
      → Keeps m
  Keeps-same m same = record {
    at = λ op w. (
      ap (λ (o : OpTest s). o.options) (same op w),
      ap (λ (o : OpTest s). o.jwks) (same op w),
      ap (λ (o : OpTest s). o.authorizations) (same op w),
    );
  }

  module _ (id : Str) (user : TestUser s) (nonce : Str) (time : ℤ) where
    pub new_access_token-Keeps : Keeps (new_access_token s id user nonce time)
    unfolding new_access_token sign_with
    new_access_token-Keeps = Keeps-same (new_access_token s id user nonce time) λ op w. ground arith

    pub new_id_token-Keeps : Keeps (new_id_token s id user nonce time)
    unfolding new_id_token sign_with
    new_id_token-Keeps = Keeps-same (new_id_token s id user nonce time) λ op w. ground arith

  pub new_opaque_access_token-Keeps :
      (id : Str) (user : TestUser s) (nonce : Str) → Keeps (new_opaque_access_token s id user nonce)
  unfolding new_opaque_access_token
  new_opaque_access_token-Keeps id user nonce =
      Keeps-bind (read_random s 64) _ (Keeps-same (read_random s 64) λ op w. refl) λ bytes.
        Keeps-bind (read_clock s) _ (Keeps-same (read_clock s) λ op w. refl) λ time.
          Keeps-bind (new_access_token s id user nonce time) _
            (new_access_token-Keeps id user nonce time)
            λ access_token.
              Keeps-bind (lift (from_external (s.jwt_parse_string access_token))) _
                (Keeps-same (lift (from_external (s.jwt_parse_string access_token))) λ op w. refl)
                λ parsed.
                  Keeps-bind
                    (store_opaque_token s (s.encode_base64 bytes) access_token
                      (s.token_expiration parsed))
                    _ (record { at = λ op w. (refl, refl, refl) })
                    λ _. Keeps-same (pure (s.encode_base64 bytes)) λ op w. refl

  access_token_of-Keeps :
      (kind : AccessTokenType) (id : Str) (user : TestUser s) (nonce : Str) (time : ℤ)
      → Keeps (access_token_of s kind id user nonce time)
  unfolding access_token_of
  access_token_of-Keeps jwt_access_token_type id user nonce time =
      new_access_token-Keeps id user nonce time
  access_token_of-Keeps opaque_access_token_type id user nonce time =
      new_opaque_access_token-Keeps id user nonce

  token_response-Keeps :
      (access_token id_token : Str) → Keeps (token_response s access_token id_token)
  unfolding token_response
  token_response-Keeps access_token id_token = record { at = λ op w. (refl, refl, refl) }

  pub get_token_by_user-Keeps : (id nonce : Str) → Keeps (get_token_by_user s id nonce)
  unfolding get_token_by_user
  get_token_by_user-Keeps id nonce = record {
    at = λ op w. elim (Option-cases (lookup id op.options.test_users)) [
      | inl missing ↦ rw (missing, get_token_by_user) (refl, refl, refl)
      | inr (user, found) ↦
          rw (found, get_token_by_user)
            ((Keeps-bind (read_clock s) _ (Keeps-same (read_clock s) λ op w. refl) λ time.
                Keeps-bind (access_token_of s op.options.access_token_type id user nonce time) _
                  (access_token_of-Keeps op.options.access_token_type id user nonce time)
                  λ access_token.
                    Keeps-bind (new_id_token s id user nonce time) _
                      (new_id_token-Keeps id user nonce time)
                      λ id_token. token_response-Keeps access_token id_token).at
              op w)
    ];
  }

  get_user_info_from_jwt_token-same :
      (t : Str) (st : State s) → (get_user_info_from_jwt_token s t st).1 ≡ st
  unfolding get_user_info_from_jwt_token
  get_user_info_from_jwt_token-same t (op, w) = ground arith

  user_info_by-Keeps : (kind : AccessTokenType) (t : Str) → Keeps (user_info_by s kind t)
  unfolding user_info_by
  user_info_by-Keeps jwt_access_token_type t =
      Keeps-same (get_user_info_from_jwt_token s t)
        λ op w. ap (λ (st : State s). st.0) (get_user_info_from_jwt_token-same t (op, w))
  user_info_by-Keeps opaque_access_token_type t =
      Keeps-bind (find_opaque_token s t) _ (record { at = λ op w. (refl, refl, refl) }) behind-Keeps
    where
      behind-Keeps : (found : Option OpaqueAccessToken) → Keeps (behind s found)
      behind-Keeps none = Keeps-same (behind s none) λ op w. refl
      behind-Keeps (some found) = Keeps-same (behind s (some found)) λ op w.
          ap (λ (st : State s). st.0)
            (get_user_info_from_jwt_token-same found.jwt_access_token (op, w))

  pub get_user_info_from_token-Keeps : (t : Str) → Keeps (get_user_info_from_token s t)
  unfolding get_user_info_from_token
  get_user_info_from_token-Keeps t = record {
    at = λ op w. (user_info_by-Keeps op.options.access_token_type t).at op w;
  }
