-- ===== src/Op/Issued/Refused.antt =====
-- An ID token of the provider at its endpoint for user information.
use go_oidc_middleware.Prelude.{◌≡◌, ◌≢◌, refl, ap, ◌∙◌, none, [], ◌∷◌, ◌++◌, arith}
use go_oidc_middleware.Prelude.Int.{ℤ}
use go_oidc_middleware.Text.{Str, str}
use go_oidc_middleware.Errors.{ok, err}
use go_oidc_middleware.TokenString.Selection.{get_token_string-bearer}
use go_oidc_middleware.Op.Services.{Services}
use go_oidc_middleware.Op.Expiring.{delete_expired}
use go_oidc_middleware.Op.OpaqueTokens
use go_oidc_middleware.Op.Action.{OpError, not_access_token, no_opaque_token}
use go_oidc_middleware.Op.Options.{AccessTokenType, jwt_access_token_type, opaque_access_token_type}
use go_oidc_middleware.Op.Tokens.{TestUser, OpTest, State, new_id_token}
use go_oidc_middleware.Op.Bearer.{get_token_string}
use go_oidc_middleware.Op.Bearer.Agrees.{get_token_string-agrees}
use go_oidc_middleware.Op.UserInfo.{
  find_opaque_token, behind, user_info_by, get_user_info_from_token,
}
use go_oidc_middleware.Op.Handlers.{Request, empty, Response, answer_user_info, user_info_handler}
use go_oidc_middleware.Op.Issued.{IsJwt}
use go_oidc_middleware.Op.Issued.Access.{get_user_info_from_jwt_token-new_id_token}

module _ (s : Services) where
  -- Why an ID token is refused, by the type of access tokens that the provider issues.
  abbrev pub Reason : AccessTokenType → OpError → Type 0
  Reason jwt_access_token_type e = e ≡ not_access_token (str "id_token")
  Reason opaque_access_token_type e = e ≡ no_opaque_token

  -- The answer 401 with an error and no content.
  abbrev pub IsRefusal : OpError → Response s → Type 0
  IsRefusal e response =
      (response.status ≡ 401)
      × (response.headers
          ≡ (str "Content-Type", str "application/json")
            ∷ (
              str "WWW-Authenticate",
              str "error=\"invalid_token\", error_description=\"" ++ (s.error_text e ++ str "\""),
            )
            ∷ [])
      × (response.body ≡ empty)

  user_info_handler-carried :
      (r : Request) (t : Str) (st : State s)
      → t ≢ []
      → r.header (str "Authorization") ≡ str "Bearer " ++ t
      → (user_info_handler s r st).0
        ≡ answer_user_info s (user_info_by s st.0.options.access_token_type t st).0
  unfolding user_info_handler get_user_info_from_token
  user_info_handler-carried r t st given carried =
      let read : get_token_string r.header ≡ ok t =
        (get_token_string-agrees r.header t).1 (get_token_string-bearer r.header t given carried) in
      rw (read, user_info_handler)

  get-unknown :
      (t : Str) (clock : Str → ℤ) (c : OpaqueTokens.Container)
      → c.values t ≡ none
      → (OpaqueTokens.get t clock c).0 ≡ none
  unfolding OpaqueTokens.get delete_expired
  get-unknown t clock c unknown = ground arith

  user_info_by-unknown :
      (t : Str) (st : State s)
      → st.0.opaque_tokens.values t ≡ none
      → (user_info_by s opaque_access_token_type t st).0 ≡ err no_opaque_token
  unfolding user_info_by
  user_info_by-unknown t st unknown =
      let after = (find_opaque_token s t st).1 in
      ap (λ found. (behind s found after).0)
        (get-unknown t (s.readings st.1).0 st.0.opaque_tokens unknown)

  module _ (j : IsJwt s) (id : Str) (user : TestUser s) (nonce : Str) (time : ℤ) (op : OpTest s)
      (w : s.World) (issued : Str) (after : State s) where
    user_info_by-new_id_token :
        (kind : AccessTokenType) (st : State s)
        → new_id_token s id user nonce time (op, w) ≡ (ok issued, after)
        → st.0.opaque_tokens.values issued ≡ none
        → (e : OpError) × Reason kind e × ((user_info_by s kind issued st).0 ≡ err e)
    unfolding user_info_by
    user_info_by-new_id_token jwt_access_token_type (op', w') made unknown = (
      not_access_token (str "id_token"),
      refl,
      ap (λ out. out.0)
          (get_user_info_from_jwt_token-new_id_token s j id user nonce time op w issued after op' w'
            made),
    )
    user_info_by-new_id_token opaque_access_token_type st made unknown =
        (no_opaque_token, refl, user_info_by-unknown issued st unknown)

    -- An ID token that the provider has issued is no access token at its endpoint for user
    -- information: a request that bears it is answered 401 with no content, at any time and with any
    -- keys, by a provider that issues JWTs (the error names the kind of the token) and by one that
    -- issues opaque access tokens (none is known). The ID token is not empty and is not drawn as an
    -- opaque token, and the libraries set headers and sign as documented.
    pub user_info_handler-new_id_token :
        (r : Request) (st : State s)
        → new_id_token s id user nonce time (op, w) ≡ (ok issued, after)
        → issued ≢ []
        → st.0.opaque_tokens.values issued ≡ none
        → r.header (str "Authorization") ≡ str "Bearer " ++ issued
        → (e : OpError) × Reason st.0.options.access_token_type e
          × IsRefusal e (user_info_handler s r st).0
    user_info_handler-new_id_token r st made given unknown carried =
        let (e, reason, refused) =
          user_info_by-new_id_token st.0.options.access_token_type st made unknown in
        let answered =
          user_info_handler-carried r issued st given carried ∙ ap (answer_user_info s) refused in
        (e, reason, rw answered (refl, refl, refl))
