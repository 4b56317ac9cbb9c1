-- ===== src/Op/Issued/Kept.antt =====
-- How the provider makes an opaque access token, and the JWT that it keeps behind it.
use go_oidc_middleware.Prelude.{◌≡◌, sym, ap, ◌∙◌, subst, some}
use go_oidc_middleware.Text.{Str, str}
use go_oidc_middleware.Errors.{Result, ok, err, External, ok-injective}
use go_oidc_middleware.Op.Services.{Services}
use go_oidc_middleware.Op.Action.{OpError, Action, ◌>>=◌, ◌>>◌, pure, lift, from_external}
use go_oidc_middleware.Op.Action.Bind.{>>=-ok}
use go_oidc_middleware.Op.Options.{opaque_access_token_type}
use go_oidc_middleware.Op.Tokens.{
  TestUser, OpTest, State, lookup, read_clock, read_random, store_opaque_token, new_access_token,
  new_opaque_access_token, new_id_token,
}
use go_oidc_middleware.Op.Provider.{access_token_of, token_response, get_token_by_user}
use go_oidc_middleware.Op.Bearer.{TokenResponse}
use go_oidc_middleware.Op.Issued.Answered.{new_id_token-same}

module _ (s : Services) where
  open s use {World, Token, Headers, Key, now, random_read, readings}

  from_external-ok : {A : Type 0} (r : External A) (a : A) → from_external r ≡ ok a → r ≡ ok a
  from_external-ok (ok b) a h = ap ok (ok-injective h)
  from_external-ok (err e) a h = absurd (cc)

  -- The world after the random bytes of an opaque token.
  abbrev pub drawn : World → World
  drawn w = (random_read 64 w).1

  module _ (id : Str) (user : TestUser s) (nonce : Str) (op : OpTest s) (w : World) where
    -- The JWT that the provider keeps behind an opaque token.
    abbrev pub kept : Result OpError Str × State s
    kept = new_access_token s id user nonce (now (drawn w)).0 (op, (now (drawn w)).1)

    -- How an opaque token has been made.
    pub record IsOpaque (opaque : Str) (st : State s) : Type 0 where
      pub access : Str
      pub made : kept.0 ≡ ok access
      pub token : Token
      pub parsed : s.jwt_parse_string access ≡ ok token
      pub stored : (store_opaque_token s opaque access (s.token_expiration token) kept.1).1 ≡ st

    -- What follows a JWT, with the random bytes drawn before.
    abbrev store_and_answer : Str → Str → Token → Action (State s) Str
    store_and_answer bytes access parsed =
        store_opaque_token s (s.encode_base64 bytes) access (s.token_expiration parsed)
        >> pure (s.encode_base64 bytes)

    abbrev keep : Str → Str → Action (State s) Str
    keep bytes access =
        lift (from_external (s.jwt_parse_string access)) >>= store_and_answer bytes access

    pub new_opaque_access_token-IsOpaque :
        (opaque : Str) (st : State s)
        → new_opaque_access_token s id user nonce (op, w) ≡ (ok opaque, st)
        → IsOpaque opaque st
    unfolding new_opaque_access_token
    new_opaque_access_token-IsOpaque opaque st e =
        let whole : (read_random s 64 >>= λ bytes.
        read_clock s >>= λ time. new_access_token s id user nonce time >>= keep bytes)
              (op, w)
            ≡ (ok opaque, st) =
          e in
        let (bytes, _, e1) =
          >>=-ok (read_random s 64)
            (λ bytes. read_clock s >>= λ time. new_access_token s id user nonce time >>= keep bytes)
            (op, w) whole in
        let (access, made, e2) =
          >>=-ok (new_access_token s id user nonce (now (drawn w)).0) (keep bytes)
            (op, (now (drawn w)).1) e1 in
        let (token, parsed, e3) =
          >>=-ok (lift (from_external (s.jwt_parse_string access))) (store_and_answer bytes access)
            kept.1 e2 in
        let answered : s.encode_base64 bytes ≡ opaque = ok-injective (ap (λ out. out.0) e3) in
        record {
          access = access;
          made = made;
          token = token;
          parsed = from_external-ok (s.jwt_parse_string access) token parsed;
          stored =
              ap (λ t. (store_opaque_token s t access (s.token_expiration token) kept.1).1)
                (sym answered)
              ∙ ap (λ out. out.1) e3;
        }

  -- What a token response with an opaque access token has been made of.
  pub record IsOpaqueResponse (id : Str) (user : TestUser s) (nonce : Str) (op : OpTest s)
      (w : World) (response : TokenResponse) (st : State s) : Type 0 where
    pub after : State s
    pub opaque : IsOpaque id user nonce op (now w).1 response.access_token after
    pub bearer : response.token_type ≡ str "Bearer"
    pub same : st.0 ≡ after.0

  pub get_token_by_user-IsOpaqueResponse :
      (id : Str) (user : TestUser s) (nonce : Str) (op : OpTest s) (w : World)
      (response : TokenResponse) (st : State s)
      → op.options.access_token_type ≡ opaque_access_token_type
      → lookup id op.options.test_users ≡ some user
      → get_token_by_user s id nonce (op, w) ≡ (ok response, st)
      → IsOpaqueResponse id user nonce op w response st
  unfolding get_token_by_user access_token_of token_response
  get_token_by_user-IsOpaqueResponse id user nonce op w response st opaque found e =
      let time = (now w).0 in
      let w0 = (now w).1 in
      let next : Str → Action (State s) TokenResponse = λ access_token.
        new_id_token s id user nonce time >>= λ id_token. token_response s access_token id_token in
      let whole : (access_token_of s op.options.access_token_type id user nonce time >>= next)
            (op, w0)
          ≡ (ok response, st) =
        rw (found, get_token_by_user) at e in
      let e1 =
        subst
          (λ kind.
            (access_token_of s kind id user nonce time >>= next) (op, w0) ≡ (ok response, st))
          opaque whole in
      let (access, made, e2) = >>=-ok (new_opaque_access_token s id user nonce) next (op, w0) e1 in
      let st1 = (new_opaque_access_token s id user nonce (op, w0)).1 in
      let (id_token, _, e3) =
        >>=-ok (new_id_token s id user nonce time) (token_response s access) st1 e2 in
      let answered = ok-injective (ap (λ out. out.0) e3) in
      record {
        after = st1;
        opaque = new_opaque_access_token-IsOpaque id user nonce op w0 response.access_token st1 (
            ap (λ r. (r, st1)) made
            ∙ ap (λ (t : TokenResponse). (ok t.access_token, st1)) answered);
        bearer = sym (ap (λ (t : TokenResponse). t.token_type) answered);
        same = sym (ap (λ out. out.1.0) e3) ∙ new_id_token-same s id user nonce time st1.0 st1.1;
      }
