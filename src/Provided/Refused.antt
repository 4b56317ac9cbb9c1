-- ===== src/Provided/Refused.antt =====
-- An ID token of the test provider (optest) is no access token for `ParseToken`
-- (internal/oidc/oidc.go).
use go_oidc_middleware.Prelude.{◌≡◌, ◌≢◌, refl, sym, ◌∙◌, inl, inr, Bool-cases, some, [], ◌∷◌}
use go_oidc_middleware.Text.{Str, str}
use go_oidc_middleware.Errors.{ok, err, External, token_type_required, continue}
use go_oidc_middleware.Platform.{Platform}
use go_oidc_middleware.KeyHandler.{KeyHandler}
use go_oidc_middleware.Oidc.Handler.{Handler}
use go_oidc_middleware.Oidc.Checks.{is_token_type_valid}
use go_oidc_middleware.Oidc.Accepts.{is_token_type_valid_iff, get_headers_from_token_string_iff}
use go_oidc_middleware.Oidc.Parse.{read_headers, parse_loaded, parse_token}
use go_oidc_middleware.Oidc.Safety.{parse_token-some}
use go_oidc_middleware.Op.Services.{Services}
use go_oidc_middleware.Op.Options.{jwt_access_token_type}
use go_oidc_middleware.Op.Tokens.{TestUser, OpTest, State, lookup, id_token_claims}
use go_oidc_middleware.Op.Provider.{get_token_by_user}
use go_oidc_middleware.Op.Bearer.{TokenResponse}
use go_oidc_middleware.Op.Issued.Signed.{new_id_token-IsSigned}
use go_oidc_middleware.Op.Issued.Answered.{get_token_by_user-IsResponse}
use go_oidc_middleware.Provided.{Link, IsVerifiable}
use go_oidc_middleware.Provided.Claims.{unsigned_token-headers}

module _ (p : Platform) (T : Type 0) (u : Str → External T) where
  -- A token string of another type is refused before any key is looked for.
  parse_token-mistyped :
      (t : Str) (headers : p.Headers) (h : Handler p T) (k : KeyHandler p) (w : p.World)
      → h.key_handler ≡ some k
      → p.jws_parse_string t ≡ ok (headers ∷ [])
      → h.required_token_type ≢ []
      → p.header_type headers ≢ h.required_token_type
      → parse_token p T u t (h, w) ≡ (err (token_type_required h.required_token_type), (h, w))
  unfolding parse_loaded read_headers
  parse_token-mistyped t headers h k w loaded once required other =
      let read = (get_headers_from_token_string_iff p t headers).1 once in
      elim (Bool-cases (is_token_type_valid p h.required_token_type headers)) [
        | inl valid ↦
            let named = (is_token_type_valid_iff p h.required_token_type headers).0 valid in
            absurd (elim named [ inl any ↦ required any | inr same ↦ other same ])
        | inr invalid ↦
            parse_token-some p T u t h w k loaded
            ∙ rw (read, continue) (rw (invalid, continue) refl)
      ]

  -- The ID token of a token response is refused where an access token is wanted: by a handler that
  -- has loaded its key handler before and requires a token type that is not the user's type of ID
  -- tokens, with an error that names the type required, before any key is looked for or fetched; the
  -- handler and the world are unchanged. The provider issues JWTs for access tokens and has the
  -- user, and the libraries set, sign and read the headers of a token as documented.
  pub get_token_by_user-id_token :
      (s : Services) (l : Link s p) (v : IsVerifiable s p l) (id : Str) (user : TestUser s)
      (nonce : Str) (op : OpTest s) (w : s.World) (response : TokenResponse) (st : State s)
      → op.options.access_token_type ≡ jwt_access_token_type
      → lookup id op.options.test_users ≡ some user
      → get_token_by_user s id nonce (op, w) ≡ (ok response, st)
      → (h : Handler p T) (k : KeyHandler p) (w' : p.World) → h.key_handler ≡ some k
      → h.required_token_type ≢ []
      → user.id_token_key_type ≢ h.required_token_type
      → parse_token p T u response.id_token (h, w')
        ≡ (err (token_type_required h.required_token_type), (h, w'))
  get_token_by_user-id_token s l v id user nonce op w response st jwt found answered h k w' loaded
        required other =
      let x = get_token_by_user-IsResponse s id user nonce op w response st jwt found answered in
      let y =
        new_id_token-IsSigned s id user nonce (s.now w).0 x.issued.0 x.issued.1 response.id_token
          x.id_issued x.id_token in
      let (kid, typ) =
        unsigned_token-headers s p l v y.key user.id_token_key_type (str "id_token")
          (id_token_claims s x.issued.0 id user nonce (s.now w).0) user.extra_id_token_claims
          y.token y.headers y.unsigned in
      let (h', once, _, typ', _) =
        v.headers_read y.token y.key y.headers x.issued.1 y.after response.id_token (s.key_id y.key)
          user.id_token_key_type y.signed kid typ in
      parse_token-mistyped response.id_token h' h k w' loaded once required
        (λ same. other (sym typ' ∙ same))
