-- ===== src/Provided/Retired.antt =====
-- A token of the test provider (optest) in `ParseToken` (internal/oidc/oidc.go) after the provider
-- has replaced the key that signed it.
use go_oidc_middleware.Prelude.{◌≡◌, ◌≢◌, refl, sym, ap, ◌∙◌, subst, ◌⊎◌, false, some, List, []}
use go_oidc_middleware.Text.{Str, str}
use go_oidc_middleware.Errors.{
  ok, err, External, ok-injective, continue, unable_to_find_key, unable_to_get_public_key,
}
use go_oidc_middleware.Platform.{Platform}
use go_oidc_middleware.KeyHandler.{KeyHandler, get_key}
use go_oidc_middleware.Oidc.Handler.{Handler}
use go_oidc_middleware.Oidc.Keeps.{on_key_handler-some}
use go_oidc_middleware.Oidc.Parse.{parse_loaded, parse_token}
use go_oidc_middleware.Oidc.Safety.{parse_token-some}
use go_oidc_middleware.Oidc.Steps.{HasHeaders}
use go_oidc_middleware.Oidc.Complete.{updated, get_key-fetched, read_headers_complete}
use go_oidc_middleware.Op.Services.{Services}
use go_oidc_middleware.Op.Keys.{IsKeyed, get_private_key}
use go_oidc_middleware.Op.Keys.Single.{get_private_key-IsSingle}
use go_oidc_middleware.Op.Options.{Setter, jwt_access_token_type}
use go_oidc_middleware.Op.Tokens.{TestUser, OpTest, State, lookup}
use go_oidc_middleware.Op.Provider.{new, get_token_by_user}
use go_oidc_middleware.Op.Bearer.{TokenResponse}
use go_oidc_middleware.Op.Events.{Event, happen_all}
use go_oidc_middleware.Op.Valid.{IsValid, happen_all-IsValid, new-happen_all-IsValid}
use go_oidc_middleware.Op.Issued.Answered.{get_token_by_user-IsResponse}
use go_oidc_middleware.Provided.{Link, IsReadable, IsVerifiable}
use go_oidc_middleware.Provided.Pairs.{IsShownPair, IsShownPair-IsMadePair}
use go_oidc_middleware.Provided.Found.{shown_key_set, find_key-retired}
use go_oidc_middleware.Provided.Accepted.{HasHeaders-issued}

module _ (p : Platform) (T : Type 0) (u : Str → External T) where
  -- A token string whose key is not found, in the key set held or in the one fetched.
  parse_token-unknown :
      (t kid alg : Str) (h : Handler p T) (k : KeyHandler p) (w : p.World) (shown : p.KeySet)
      → h.key_handler ≡ some k
      → h.disable_key_id ≡ false
      → HasHeaders p T u h t kid alg
      → get_key p kid alg (k, w) ≡ (err (unable_to_find_key kid), updated p k w shown)
      → parse_token p T u t (h, w) ≡ (
        err (unable_to_get_public_key (unable_to_find_key kid)),
        (record h { key_handler = some (updated p k w shown).0 }, (updated p k w shown).1),
      )
  unfolding parse_loaded
  parse_token-unknown t kid alg h k w shown loaded enabled headers missing =
      let served = on_key_handler-some p T u (get_key p kid alg) h w k loaded in
      parse_token-some p T u t h w k loaded
      ∙ rw (read_headers_complete p T u t kid alg h w enabled headers, continue)
          (rw (served, continue) (rw (missing, continue) refl))

module _ (s : Services) (p : Platform) (l : Link s p) (T : Type 0) (u : Str → External T)
    (keyed : IsKeyed s.crypto) (readable : IsReadable s p l) (v : IsVerifiable s p l) where
  -- An access token, a JWT, of a provider that was started and anything may have happened to, is
  -- refused once the provider has replaced the key that signed it: by a handler that looks for keys
  -- by identifier, takes the token's type, holds the key set that the provider shows after whatever
  -- has happened since, and fetches the same, when the keys that sign then and at the token's issue
  -- have different identifiers and no update runs. It fetches the key set once and returns the error
  -- that names the key. The libraries read as documented what they write.
  pub get_token_by_user-retired :
      (url : Str) (setters : List (Setter (TestUser s))) (w0 w1 : s.World) (op0 : OpTest s)
      (es es' : List (Event s)) (op op' : OpTest s) (w w2 : s.World)
      → (new s url setters w0).0 ≡ ok op0
      → happen_all s es (op0, w1) ≡ (op, w)
      → (id : Str) (user : TestUser s) (nonce : Str) (response : TokenResponse) (st : State s)
      → op.options.access_token_type ≡ jwt_access_token_type
      → lookup id op.options.test_users ≡ some user
      → get_token_by_user s id nonce (op, w) ≡ (ok response, st)
      → happen_all s es' st ≡ (op', w2)
      → (signer signer' : s.Key) → get_private_key s.crypto op.jwks ≡ ok signer
      → get_private_key s.crypto op'.jwks ≡ ok signer'
      → s.key_id signer ≢ s.key_id signer'
      → (h : Handler p T) (k : KeyHandler p) (w' : p.World) → h.key_handler ≡ some k
      → h.disable_key_id ≡ false
      → k.disable_key_id ≡ false
      → (h.required_token_type ≡ []) ⊎ (user.access_token_key_type ≡ h.required_token_type)
      → k.key_set ≡ some (shown_key_set s p l op'.jwks)
      → k.key_update_semaphore ≡ 0
      → (p.jwk_fetch k.http_client k.jwks_uri k.fetch_timeout
          (p.limiter_take k.key_update_limiter w')).0
        ≡ ok (shown_key_set s p l op'.jwks)
      → let after = updated p k w' (shown_key_set s p l op'.jwks) in
        parse_token p T u response.access_token (h, w') ≡ (
          err (unable_to_get_public_key (unable_to_find_key (s.key_id signer))),
          (record h { key_handler = some after.0 }, after.1),
        )
  get_token_by_user-retired url setters w0 w1 op0 es es' op op' w w2 made past id user nonce
        response st jwt found answered later signer signer' signs signs' other h k w' loaded enabled
        by_id typed held idle fetched =
      let R = IsShownPair s p l in
      let pairs = IsShownPair-IsMadePair s p l keyed readable in
      let x = get_token_by_user-IsResponse s id user nonce op w response st jwt found answered in
      let valid : IsValid s R op =
        subst (IsValid s R) (ap (λ (out : State s). out.0) past)
          (new-happen_all-IsValid s R pairs url setters w0 w1 op0 es made) in
      let valid' : IsValid s R op' =
        subst (IsValid s R) (ap (λ (out : State s). out.0) later)
          (happen_all-IsValid s R pairs es' st (rw x.same valid)) in
      let one = valid.0 in
      let one' = valid'.0 in
      let same : signer ≡ one.private =
        ok-injective (sym signs ∙ get_private_key-IsSingle s.crypto R op.jwks one) in
      let same' : signer' ≡ one'.private =
        ok-injective (sym signs' ∙ get_private_key-IsSingle s.crypto R op'.jwks one') in
      let shown = shown_key_set s p l op'.jwks in
      let kid = s.key_id signer in
      let missed =
        find_key-retired s p l readable op'.jwks one' kid (str "ES384")
          (λ e. other (e ∙ ap s.key_id (sym same'))) in
      let headers =
        HasHeaders-issued s p l T u v id user nonce (s.now w).0 op (s.now w).1 response.access_token
          x.issued one x.access h enabled typed in
      parse_token-unknown p T u response.access_token kid (str "ES384") h k w' shown loaded enabled
        (subst (λ key. HasHeaders p T u h response.access_token (s.key_id key) (str "ES384"))
          (sym same) headers)
        (get_key-fetched p k w' shown idle by_id fetched kid (str "ES384") shown
            (unable_to_find_key kid) held missed
          ∙ ap (λ r. (r, updated p k w' shown)) missed)
