-- ===== src/Op/Tokens.antt =====
-- optest/token.go: the tokens and the user information that the provider issues.
use go_oidc_middleware.Prelude.{ℕ, Option, none, some, List, [], ◌∷◌, ◌++◌, if◌then◌else◌}
use go_oidc_middleware.Prelude.Int.{ℤ, ◌+ℤ◌}
use go_oidc_middleware.Text.{Str, str, is_empty, ◌==◌}
use go_oidc_middleware.Errors.{Result, ok, err, External}
use go_oidc_middleware.Op.Services.{Services}
use go_oidc_middleware.Op.Action.{
  OpError, no_id, Action, ◌>>=◌, ◌>>◌, pure, lift, from_external, from_keys,
}
use go_oidc_middleware.Op.Keys.{JwksHandler, get_private_key}
use go_oidc_middleware.Op.OpaqueTokens
use go_oidc_middleware.Op.Authorizations
use go_oidc_middleware.Op.Options.{Options}

-- The value of a key in a map, an association list.
unfoldable pub lookup : {V : Type 0} → Str → List (Str × V) → Option V
lookup key [] = none
lookup key ((k, v) ∷ values) = let rest = lookup key values in if key == k then some v else rest

-- `for k, v := range c { err := token.Set(k, v); … }`, in the order of the list
unfoldable pub set_all :
    {V T : Type 0} → (Str → V → T → External T) → List (Str × V) → T → Result OpError T
set_all set [] t = ok t
set_all set ((key, v) ∷ values) t = elim (set key v t) [
  | err text ↦ err (OpError.external text)
  | ok t' ↦ set_all set values t'
]

module _ (s : Services) where
  open s use {
    crypto, Key, World, Value, text, number, Token, new_token, token_set, token_expiration, Headers,
    new_headers, headers_set, sign, jwt_parse_string, now, readings, unix, random_read, key_id,
    encode_base64,
  }

  pub record TestUser : Type 0 where
    pub audience : Str
    pub subject : Str
    pub name : Str
    pub given_name : Str
    pub family_name : Str
    pub locale : Str
    pub email : Str
    pub access_token_key_type : Str
    pub id_token_key_type : Str
    pub extra_id_token_claims : List (Str × Value)
    pub extra_access_token_claims : List (Str × Value)

  -- The server and the router are left out but for the address that the server has.
  pub record OpTest : Type 0 where
    pub server_url : Str
    pub options : Options TestUser
    pub jwks : JwksHandler crypto
    pub opaque_tokens : OpaqueTokens.Container
    pub authorizations : Authorizations.Container

  abbrev pub State : Type 0
  State = OpTest × World

  -- `if nonce != "" { c["nonce"] = nonce }`
  abbrev pub with_nonce : Str → List (Str × Value) → List (Str × Value)
  with_nonce nonce claims =
      if is_empty nonce then claims else claims ++ (str "nonce", text nonce) ∷ []

  -- The claims of both tokens, at a time.
  abbrev pub standard_claims : OpTest → TestUser → ℤ → List (Str × Value)
  standard_claims op user time =
      (str "iss", text op.options.issuer)
      ∷ (str "aud", text user.audience)
      ∷ (str "sub", text user.subject)
      ∷ (str "exp", number (unix (time +ℤ op.options.token_expiration)))
      ∷ (str "nbf", number (unix time))
      ∷ (str "iat", number (unix time))
      ∷ []

  abbrev pub personal_claims : TestUser → List (Str × Value)
  personal_claims user =
      (str "name", text user.name)
      ∷ (str "given_name", text user.given_name)
      ∷ (str "family_name", text user.family_name)
      ∷ (str "locale", text user.locale)
      ∷ (str "email", text user.email)
      ∷ []

  abbrev pub access_token_claims : OpTest → Str → TestUser → Str → ℤ → List (Str × Value)
  access_token_claims op id user nonce time =
      with_nonce nonce (standard_claims op user time ++ (str "id", text id) ∷ [])

  abbrev pub id_token_claims : OpTest → Str → TestUser → Str → ℤ → List (Str × Value)
  id_token_claims op id user nonce time =
      with_nonce nonce
        (standard_claims op user time ++ (personal_claims user ++ (str "id", text id) ∷ []))

  abbrev pub token_headers : Key → Str → Str → List (Str × Value)
  token_headers key key_type jwt_type =
      (str "kid", text (key_id key))
      ∷ (str "typ", text key_type)
      ∷ (str "jwt_typ", text jwt_type)
      ∷ []

  -- A token with its claims and headers, before it is signed.
  unfoldable pub unsigned_token :
      List (Str × Value)
      → List (Str × Value)
      → List (Str × Value)
      → Result OpError (Token × Headers)
  unsigned_token claims extra headers = elim (set_all token_set claims new_token) [
    | err e ↦ err e
    | ok token ↦ elim (set_all token_set extra token) [
      | err e ↦ err e
      | ok token' ↦ elim (set_all headers_set headers new_headers) [
        | err e ↦ err e
        | ok headers' ↦ ok (token', headers')
      ]
    ]
  ]

  -- `jwt.Sign`
  unfoldable pub sign_with : Key → Token × Headers → Action State Str
  sign_with key (token, headers) (op, w) =
      let out = sign token key headers w in (from_external out.0, (op, out.1))

  unfoldable pub new_access_token : Str → TestUser → Str → ℤ → Action State Str
  new_access_token id user nonce time (op, w) =
      (do
        key ← lift (from_keys (get_private_key crypto op.jwks))
        unsigned ← lift (
            unsigned_token (access_token_claims op id user nonce time)
              user.extra_access_token_claims
              (token_headers key user.access_token_key_type (str "access_token")))
        sign_with key unsigned)
        (op, w)

  unfoldable pub new_id_token : Str → TestUser → Str → ℤ → Action State Str
  new_id_token id user nonce time (op, w) =
      (do
        key ← lift (from_keys (get_private_key crypto op.jwks))
        unsigned ← lift (
            unsigned_token (id_token_claims op id user nonce time) user.extra_id_token_claims
              (token_headers key user.id_token_key_type (str "id_token")))
        sign_with key unsigned)
        (op, w)

  -- The extra claims come first: in the source they overwrite the others in the map.
  unfoldable pub new_userinfo_claims : OpTest → Str → Result OpError (List (Str × Value))
  new_userinfo_claims op id = elim (lookup id op.options.test_users) [
    | none ↦ err no_id
    | some user ↦ ok (
        user.extra_id_token_claims
        ++ ((str "iss", text op.options.issuer)
            ∷ (str "aud", text user.audience)
            ∷ (str "sub", text user.subject)
            ∷ (personal_claims user ++ (str "id", text id) ∷ [])))
  ]

  abbrev pub read_clock : Action State ℤ
  read_clock (op, w) = let out = now w in (ok out.0, (op, out.1))

  abbrev pub read_random : ℕ → Action State Str
  read_random n (op, w) = let out = random_read n w in (from_external out.0, (op, out.1))

  abbrev pub store_opaque_token : Str → Str → ℤ → Action State Unit
  store_opaque_token opaque_token access_token expires (op, w) =
      let clock = readings w in
      (
        ok tt,
        (
          record op {
            opaque_tokens =
                OpaqueTokens.set opaque_token access_token expires clock.0 op.opaque_tokens;
          },
          clock.1,
        ),
      )

  unfoldable pub new_opaque_access_token : Str → TestUser → Str → Action State Str
  new_opaque_access_token id user nonce = do
    opaque_token_bytes ← read_random 64
    time ← read_clock
    access_token ← new_access_token id user nonce time
    parsed ← lift (from_external (jwt_parse_string access_token))
    store_opaque_token (encode_base64 opaque_token_bytes) access_token (token_expiration parsed)
    pure (encode_base64 opaque_token_bytes)
