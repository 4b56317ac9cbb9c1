-- ===== src/Op/Issued/Signed.antt =====
-- What a token that the provider has issued was made of.
use go_oidc_middleware.Prelude.{◌≡◌, List, arith}
use go_oidc_middleware.Prelude.Int.{ℤ}
use go_oidc_middleware.Text.{Str, str}
use go_oidc_middleware.Errors.{Result, ok, err, External}
use go_oidc_middleware.Op.Services.{Services}
use go_oidc_middleware.Op.Action.{OpError, from_external, from_keys, lift}
use go_oidc_middleware.Op.Keys.{get_private_key}
use go_oidc_middleware.Op.Tokens.{
  TestUser, OpTest, State, access_token_claims, id_token_claims, token_headers, unsigned_token,
  sign_with, new_access_token, new_id_token,
}
use go_oidc_middleware.Op.Action.Bind.{>>=-ok}

module _ (s : Services) where
  open s use {Key, Value, Token, Headers, World, token_set, token_get, headers_set, headers_get}

  -- An issued token: the key that signs it, what is signed, and the signature.
  pub record IsSigned (op : OpTest s) (w : World) (claims extra : List (Str × Value))
      (key_type jwt_type access : Str) : Type 0 where
    pub key : Key
    pub current : get_private_key s.crypto op.jwks ≡ ok key
    pub token : Token
    pub headers : Headers
    pub unsigned :
        unsigned_token s claims extra (token_headers s key key_type jwt_type) ≡ ok (token, headers)
    pub after : World
    pub signed : s.sign token key headers w ≡ (ok access, after)

  from_keys-ok : {A : Type 0} (r : Result _ A) (a : A) → from_keys r ≡ ok a → r ≡ ok a
  from_keys-ok (ok b) a h = ground arith
  from_keys-ok (err e) a h = cc

  sign_with-signed :
      (key : Key) (t : Token) (h : Headers) (op : OpTest s) (w : World) (access : Str)
      (st : State s)
      → sign_with s key (t, h) (op, w) ≡ (ok access, st)
      → s.sign t key h w ≡ (ok access, st.1)
  unfolding sign_with
  sign_with-signed key t h op w access st e = after (s.sign t key h w) e
    where
      after :
          (out : External Str × World)
          → ◌≡◌ {A = Result OpError Str × State s}
              (from_external out.0, (op, out.1))
              (ok access, st)
          → out ≡ (ok access, st.1)
      after (ok a, w1) e' = ground arith
      after (err x, w1) e' = absurd (cc)

  pub new_access_token-IsSigned :
      (id : Str) (user : TestUser s) (nonce : Str) (time : ℤ) (op : OpTest s) (w : World)
      (access : Str) (st : State s)
      → new_access_token s id user nonce time (op, w) ≡ (ok access, st)
      → IsSigned op w
          (access_token_claims s op id user nonce time)
          user.extra_access_token_claims
          user.access_token_key_type
          (str "access_token")
          access
  unfolding new_access_token
  new_access_token-IsSigned id user nonce time op w access st e =
      let (key, current, e1) =
        >>=-ok (lift (from_keys (get_private_key s.crypto op.jwks))) _ (op, w) e in
      let ((t, h), unsigned, e2) =
        >>=-ok
          (lift (
            unsigned_token s (access_token_claims s op id user nonce time)
              user.extra_access_token_claims
              (token_headers s key user.access_token_key_type (str "access_token"))))
          _ (op, w) e1 in
      record {
        key = key;
        current = from_keys-ok (get_private_key s.crypto op.jwks) key current;
        token = t;
        headers = h;
        unsigned = unsigned;
        after = st.1;
        signed = sign_with-signed key t h op w access st e2;
      }

  pub new_id_token-IsSigned :
      (id : Str) (user : TestUser s) (nonce : Str) (time : ℤ) (op : OpTest s) (w : World)
      (access : Str) (st : State s)
      → new_id_token s id user nonce time (op, w) ≡ (ok access, st)
      → IsSigned op w
          (id_token_claims s op id user nonce time)
          user.extra_id_token_claims
          user.id_token_key_type
          (str "id_token")
          access
  unfolding new_id_token
  new_id_token-IsSigned id user nonce time op w access st e =
      let (key, current, e1) =
        >>=-ok (lift (from_keys (get_private_key s.crypto op.jwks))) _ (op, w) e in
      let ((t, h), unsigned, e2) =
        >>=-ok
          (lift (
            unsigned_token s (id_token_claims s op id user nonce time) user.extra_id_token_claims
              (token_headers s key user.id_token_key_type (str "id_token"))))
          _ (op, w) e1 in
      record {
        key = key;
        current = from_keys-ok (get_private_key s.crypto op.jwks) key current;
        token = t;
        headers = h;
        unsigned = unsigned;
        after = st.1;
        signed = sign_with-signed key t h op w access st e2;
      }
