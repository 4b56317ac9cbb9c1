-- ===== src/Op/UserInfo.antt =====
-- optest/optest.go: the user information for an access token.
use go_oidc_middleware.Prelude.{Option, none, some, List, [], ◌∷◌}
use go_oidc_middleware.Text.{Str, str, ◌==◌}
use go_oidc_middleware.Errors.{Result, ok, err}
use go_oidc_middleware.Op.Services.{Services}
use go_oidc_middleware.Op.Action.{
  OpError, unable_to_parse_jws, not_one_signature, no_jwt_typ, jwt_typ_no_text, not_access_token,
  unable_to_parse_token, no_id_claim, id_no_text, unable_to_generate_claims, no_opaque_token,
  Action, ◌>>=◌, ◌>>◌, lift, from_external, map_error, require,
}
use go_oidc_middleware.Op.Keys.{get_public_key_set}
use go_oidc_middleware.Op.OpaqueTokens
use go_oidc_middleware.Op.OpaqueTokens.{OpaqueAccessToken}
use go_oidc_middleware.Op.Options.{AccessTokenType, jwt_access_token_type, opaque_access_token_type}
use go_oidc_middleware.Op.Tokens.{State, new_userinfo_claims}

module _ (s : Services) where
  open s use {
    crypto, Value, as_text, Token, token_get, Headers, headers_get, jws_parse_string, jwt_parse,
    readings,
  }

  abbrev one_signature : Result OpError (List Headers) → Result OpError Headers
  one_signature (ok (headers ∷ [])) = ok headers
  one_signature (ok _) = err not_one_signature
  one_signature (err e) = err e

  -- a value of a map, asserted to be a string
  unfoldable pub text_of : OpError → OpError → Option Value → Result OpError Str
  text_of missing ill_typed none = err missing
  text_of missing ill_typed (some v) = elim (as_text v) [ none ↦ err ill_typed | some t ↦ ok t ]

  unfoldable pub get_user_info_from_jwt_token : Str → Action (State s) (List (Str × Value))
  get_user_info_from_jwt_token token_string (op, w) =
      (do
        headers ← lift (
            one_signature (
              map_error (λ _. unable_to_parse_jws) (from_external (jws_parse_string token_string))))
        jwt_type ← lift (text_of no_jwt_typ jwt_typ_no_text (headers_get (str "jwt_typ") headers))
        require (jwt_type == str "access_token") (not_access_token jwt_type)
        token ← lift (
            map_error unable_to_parse_token
              (from_external (jwt_parse token_string (get_public_key_set crypto op.jwks) w)))
        id ← lift (text_of no_id_claim id_no_text (token_get (str "id") token))
        lift (map_error unable_to_generate_claims (new_userinfo_claims s op id)))
        (op, w)

  -- `op.opaqueTokens.get`
  abbrev pub find_opaque_token : Str → Action (State s) (Option OpaqueAccessToken)
  find_opaque_token token_string (op, w) =
      let clock = readings w in
      let out = OpaqueTokens.get token_string clock.0 op.opaque_tokens in
      (ok out.0, (record op { opaque_tokens = out.1 }, clock.1))

  abbrev pub behind : Option OpaqueAccessToken → Action (State s) (List (Str × Value))
  behind none = lift (err no_opaque_token)
  behind (some t) = get_user_info_from_jwt_token t.jwt_access_token

  unfoldable pub user_info_by : AccessTokenType → Str → Action (State s) (List (Str × Value))
  user_info_by jwt_access_token_type token_string = get_user_info_from_jwt_token token_string
  user_info_by opaque_access_token_type token_string = do
    found ← find_opaque_token token_string
    behind found

  unfoldable pub get_user_info_from_token : Str → Action (State s) (List (Str × Value))
  get_user_info_from_token token_string (op, w) =
      user_info_by op.options.access_token_type token_string (op, w)
