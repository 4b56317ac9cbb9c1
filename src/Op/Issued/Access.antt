-- ===== src/Op/Issued/Access.antt =====
-- Issued tokens at the endpoint for user information.
use go_oidc_middleware.Prelude.{get_elem?-In}
use go_oidc_middleware.Errors.{ok-injective}
use go_oidc_middleware.Prelude.{
  ◌≡◌, refl, sym, ap, ◌∙◌, true, false, none, some, List, [], ◌∷◌, arith, inl, inr, Option-cases,
  length, get_elem?, In,
}
use go_oidc_middleware.Prelude.Int.{ℤ}
use go_oidc_middleware.Text.{Str, str, ◌==◌}
use go_oidc_middleware.Text.Equality.{==_refl}
use go_oidc_middleware.Errors.{ok, err}
use go_oidc_middleware.Op.Services.{Services}
use go_oidc_middleware.Op.Action.{not_access_token, map_error, unable_to_generate_claims}
use go_oidc_middleware.Op.Keys.{last_key, get_private_key, get_public_key, get_public_key_set}
use go_oidc_middleware.Op.Keys.Aligned.{IsAligned, get_private_key-get_public_key}
use go_oidc_middleware.Op.Tokens.{
  TestUser, OpTest, State, lookup, access_token_claims, id_token_claims, token_headers,
  unsigned_token, new_access_token, new_id_token, new_userinfo_claims,
}
use go_oidc_middleware.Op.UserInfo.{get_user_info_from_jwt_token, text_of}
use go_oidc_middleware.Op.Issued.{IsJwt}
use go_oidc_middleware.Op.Issued.Signed.{new_access_token-IsSigned, new_id_token-IsSigned}
use go_oidc_middleware.Op.Issued.Claims.{
  unsigned_token-id, unsigned_token-jwt_typ, unsigned_token-kid,
}

module _ (s : Services) where
  open s use {Key, Value, Token, Headers, World, token_set, token_get, headers_set, headers_get}

  last_key-In : (keys : List Key) (q : Key) → last_key s.crypto keys ≡ ok q → In q keys
  unfolding last_key
  last_key-In [] q h = cc
  last_key-In (k ∷ keys) q h = elim (Option-cases (get_elem? (k ∷ keys) (length keys))) [
    | inl missing ↦ let refused : err _ ≡ ok q = rw (missing, last_key) at h in absurd (cc)
    | inr (q', there) ↦
        let same : q' ≡ q = ground arith in
        get_elem?-In (k ∷ keys) (length keys) q (there ∙ ap some same)
  ]

  -- How a token string with these headers goes on.
  module _ (access : Str) (op : OpTest s) (w : World) (h : Headers) (kind : Str)
      (parsed : s.jws_parse_string access ≡ ok (h ∷ []))
      (typed : headers_get (str "jwt_typ") h ≡ some (s.text kind))
      (as_text : s.as_text (s.text kind) ≡ some kind) where
    get_user_info-refused :
        (kind == str "access_token") ≡ false
        → get_user_info_from_jwt_token s access (op, w) ≡ (err (not_access_token kind), (op, w))
    unfolding get_user_info_from_jwt_token text_of
    get_user_info-refused other = ground arith

    get_user_info-found :
        (t : Token) (id : Str)
        → (kind == str "access_token") ≡ true
        → s.jwt_parse access (get_public_key_set s.crypto op.jwks) w ≡ ok t
        → token_get (str "id") t ≡ some (s.text id)
        → s.as_text (s.text id) ≡ some id
        → get_user_info_from_jwt_token s access (op, w)
          ≡ (map_error unable_to_generate_claims (new_userinfo_claims s op id), (op, w))
    unfolding get_user_info_from_jwt_token text_of
    get_user_info-found t id same verified named id_text = ground arith

  module _ (j : IsJwt s) (id : Str) (user : TestUser s) (nonce : Str) (time : ℤ) (op : OpTest s)
      (w : World) (issued : Str) (st : State s) where
    pub get_user_info_from_jwt_token-new_id_token :
        (op' : OpTest s) (w' : World)
        → new_id_token s id user nonce time (op, w) ≡ (ok issued, st)
        → get_user_info_from_jwt_token s issued (op', w')
          ≡ (err (not_access_token (str "id_token")), (op', w'))
    unfolding ◌==◌
    get_user_info_from_jwt_token-new_id_token op' w' e =
        let i = new_id_token-IsSigned s id user nonce time op w issued st e in
        let (h', parsed, same) = j.signed_once i.token i.key i.headers w i.after issued i.signed in
        let typed =
          unsigned_token-jwt_typ s j (id_token_claims s op id user nonce time)
            user.extra_id_token_claims i.key user.id_token_key_type (str "id_token") i.token
            i.headers i.unsigned in
        get_user_info-refused issued op' w' h' (str "id_token") parsed (same ∙ typed)
          (j.as_text_text (str "id_token")) refl

    -- An access token that the provider has issued to a user, whose extra claims name no other
    -- identifier, gives the information on that user, if the keys of the provider are in step and it
    -- has the same keys and options still, public keys with the identifier of the key it signs with are of
    -- its pair, the token's times are valid, and the libraries set, sign and verify as documented.
    pub get_user_info_from_jwt_token-issued :
        (op' : OpTest s) (w' : World)
        → op'.options ≡ op.options
        → op'.jwks ≡ op.jwks
        → IsAligned s.crypto op.jwks
        → lookup (str "id") user.extra_access_token_claims ≡ none
        → new_access_token s id user nonce time (op, w) ≡ (ok issued, st)
        → ((t : Token) (h : Headers) (key : Key)
            → unsigned_token s
                (access_token_claims s op id user nonce time)
                user.extra_access_token_claims
                (token_headers s key user.access_token_key_type (str "access_token"))
              ≡ ok (t, h)
            → j.IsTimely t w')
        → ((k q : Key)
            → get_private_key s.crypto op.jwks ≡ ok k
            → In q op.jwks.public_keys
            → s.key_id k ≡ s.key_id q
            → j.IsPair k q)
        → get_user_info_from_jwt_token s issued (op', w')
          ≡ (map_error unable_to_generate_claims (new_userinfo_claims s op' id), (op', w'))
    unfolding get_public_key get_public_key_set
    get_user_info_from_jwt_token-issued op' w' same_options same_keys aligned free e timely paired =
        let i = new_access_token-IsSigned s id user nonce time op w issued st e in
        let (h', parsed, same) = j.signed_once i.token i.key i.headers w i.after issued i.signed in
        let typed =
          unsigned_token-jwt_typ s j (access_token_claims s op id user nonce time)
            user.extra_access_token_claims i.key user.access_token_key_type (str "access_token")
            i.token i.headers i.unsigned in
        let (k, q, private, public, ids) =
          get_private_key-get_public_key s.crypto op.jwks aligned in
        let there = last_key-In op.jwks.public_keys q public in
        let named : s.key_id i.key ≡ s.key_id q =
          ap s.key_id (ok-injective (sym i.current ∙ private)) ∙ ids in
        let (t', verified, kept) =
          j.verified i.token i.key q op.jwks.public_keys i.headers w i.after w' issued i.signed
            (unsigned_token-kid s j (access_token_claims s op id user nonce time)
              user.extra_access_token_claims i.key user.access_token_key_type (str "access_token")
              i.token i.headers i.unsigned)
            there named (λ q'. paired i.key q' i.current)
            (timely i.token i.headers i.key i.unsigned) in
        get_user_info-found issued op' w' h' (str "access_token") parsed (same ∙ typed)
          (j.as_text_text (str "access_token")) t' id (==_refl (str "access_token"))
          (rw same_keys verified)
          (kept
            ∙ unsigned_token-id s j op id user nonce time
                (token_headers s i.key user.access_token_key_type (str "access_token")) i.token
                i.headers free i.unsigned)
          (j.as_text_text id)

    -- An access token that the provider has issued to a user, whose extra claims name no other
    -- identifier, gives the information on that user, if the keys of the provider are in step and
    -- have not been rotated since, public keys with the identifier of the key it signs with are of
    -- its pair, the token's times are valid, and the libraries set, sign and verify as documented.
    pub get_user_info_from_jwt_token-new_access_token :
        (w' : World)
        → IsAligned s.crypto op.jwks
        → lookup (str "id") user.extra_access_token_claims ≡ none
        → new_access_token s id user nonce time (op, w) ≡ (ok issued, st)
        → ((t : Token) (h : Headers) (key : Key)
            → unsigned_token s
                (access_token_claims s op id user nonce time)
                user.extra_access_token_claims
                (token_headers s key user.access_token_key_type (str "access_token"))
              ≡ ok (t, h)
            → j.IsTimely t w')
        → ((k q : Key)
            → get_private_key s.crypto op.jwks ≡ ok k
            → In q op.jwks.public_keys
            → s.key_id k ≡ s.key_id q
            → j.IsPair k q)
        → get_user_info_from_jwt_token s issued (op, w')
          ≡ (map_error unable_to_generate_claims (new_userinfo_claims s op id), (op, w'))
    get_user_info_from_jwt_token-new_access_token w' =
        get_user_info_from_jwt_token-issued op w' refl refl
