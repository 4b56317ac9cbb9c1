-- ===== src/Provided/Login.antt =====
-- From a running test provider (optest) through a token response to the claims that `ParseToken`
-- (internal/oidc/oidc.go) returns.
use go_oidc_middleware.Prelude.{◌≡◌, ◌≢◌, sym, ap, ◌∙◌, subst, false, some, List, [], ◌++◌}
use go_oidc_middleware.Prelude.Int.{◌+ℤ◌, ◌<ℤ◌}
use go_oidc_middleware.Text.{Str, str}
use go_oidc_middleware.Errors.{Error, ok, err, External, ok-injective}
use go_oidc_middleware.Platform.{Platform}
use go_oidc_middleware.KeyHandler.{KeyHandler, find_key}
use go_oidc_middleware.Oidc.Handler.{Handler}
use go_oidc_middleware.Oidc.Parse.{jwt_token_to_claims, validate_claims, parse_token}
use go_oidc_middleware.Oidc.Complete.{updated, parse_token-known, parse_token-rotated}
use go_oidc_middleware.Op.Services.{Services}
use go_oidc_middleware.Op.Keys.{IsKeyed, get_private_key}
use go_oidc_middleware.Op.Keys.Single.{IsSingle, get_private_key-IsSingle}
use go_oidc_middleware.Op.Options.{Setter, jwt_access_token_type}
use go_oidc_middleware.Op.Tokens.{TestUser, OpTest, State, lookup}
use go_oidc_middleware.Op.Provider.{new, get_token_by_user, auth_header}
use go_oidc_middleware.Op.Bearer.{TokenResponse}
use go_oidc_middleware.Op.Events.{Event, happen_all}
use go_oidc_middleware.Op.Valid.{new-happen_all-IsValid}
use go_oidc_middleware.Op.Issued.Answered.{get_token_by_user-IsResponse}
use go_oidc_middleware.Options
use go_oidc_middleware.TokenString.{GetHeaderFn}
use go_oidc_middleware.TokenString.Selection.{get_token_string-bearer}
use go_oidc_middleware.Middleware.Decision.{GoesOn, Passes-GoesOn}
use go_oidc_middleware.Provided.{Link, IsReadable, IsVerifiable}
use go_oidc_middleware.Provided.Pairs.{IsShownPair, IsShownPair-IsMadePair}
use go_oidc_middleware.Provided.Found.{shown_key_set, find_key-shown}
use go_oidc_middleware.Provided.Claims.{IsPlain}
use go_oidc_middleware.Provided.Accepted.{IsMeantFor, IsGood-issued}

module _ (s : Services) (p : Platform) (l : Link s p) (T : Type 0) (u : Str → External T)
    (keyed : IsKeyed s.crypto) (readable : IsReadable s p l) (v : IsVerifiable s p l) (url : Str)
    (setters : List (Setter (TestUser s))) (w0 w1 : s.World) (op0 : OpTest s) (es : List (Event s))
    (op : OpTest s) (w : s.World) (made : (new s url setters w0).0 ≡ ok op0)
    (past : happen_all s es (op0, w1) ≡ (op, w)) (id : Str) (user : TestUser s) (nonce : Str)
    (response : TokenResponse) (st : State s)
    (jwt : op.options.access_token_type ≡ jwt_access_token_type)
    (found : lookup id op.options.test_users ≡ some user) (plain : IsPlain s user)
    (answered : get_token_by_user s id nonce (op, w) ≡ (ok response, st)) (h : Handler p T)
    (claims : T) (meant : IsMeantFor s p l T u h op user)
    (converted : (t : p.Token) (key : p.Key)
      → p.jwt_parse_string response.access_token (str "ES384") key ≡ ok t
      → jwt_token_to_claims p T u t ≡ ok claims)
    (validated : validate_claims p T u h claims ≡ ok tt) (k : KeyHandler p)
    (loaded : h.key_handler ≡ some k) (by_id : k.disable_key_id ≡ false) where
  running-IsSingle : IsSingle s.crypto (IsShownPair s p l) op.jwks
  running-IsSingle =
      subst (λ (o : OpTest s). IsSingle s.crypto (IsShownPair s p l) o.jwks)
        (ap (λ (out : State s). out.0) past)
        (new-happen_all-IsValid s (IsShownPair s p l) (IsShownPair-IsMadePair s p l keyed readable)
          url setters w0 w1 op0 es made).0

  -- The access token, a JWT, of a token response of the provider, after its start and any requests,
  -- starts and key rotations, is accepted by `ParseToken` with its claims: by a handler that holds
  -- the key set that the provider shows, is set up for the provider's issuer and the user's audience
  -- and token type, and reads its clock before the token expires within the drift; for a user whose
  -- extra claims name none of the claims checked, claims that convert and pass the validation
  -- function, and libraries that read as documented what they write. Nothing is fetched.
  pub get_token_by_user-parse_token :
      (w' : p.World)
      → k.key_set ≡ some (shown_key_set s p l op.jwks)
      → (p.now w').0
        <ℤ l.from_unix (s.unix ((s.now w).0 +ℤ op.options.token_expiration))
          +ℤ h.allowed_token_drift
      → parse_token p T u response.access_token (h, w')
        ≡ (ok claims, (record h { key_handler = some k }, (p.now w').1))
  get_token_by_user-parse_token w' held unexpired =
      let x = get_token_by_user-IsResponse s id user nonce op w response st jwt found answered in
      let one = running-IsSingle in
      parse_token-known p T u response.access_token h w' k (s.key_id one.private) (str "ES384")
        (l.key one.public) claims loaded meant.by_id (shown_key_set s p l op.jwks) by_id held
        (find_key-shown s p l readable op.jwks one)
        (IsGood-issued s p l T u v id user nonce (s.now w).0 op (s.now w).1 response.access_token
          x.issued one plain x.access h claims meant (λ t. converted t (l.key one.public)) validated
          w' unexpired)

  -- The access token, a JWT, of a token response of the provider, after its start and any requests,
  -- starts and key rotations, is accepted with its claims by a handler that holds another key set, of
  -- before a key rotation, in which the search for the key that signs fails, when no update runs and the fetch
  -- gives the key set that the provider shows: after one fetch, with no error in between, and the
  -- handler holds that key set then. The handler is set up for the issuer, the audience and the token
  -- type, its clock after the fetch is before the expiration within the drift, the user's extra
  -- claims name none of the claims checked, the claims convert and pass the validation function, and
  -- the libraries read as documented what they write.
  pub get_token_by_user-parse_token_rotated :
      (w' : p.World) (signer : s.Key) (old : p.KeySet) (missing : Error)
      → get_private_key s.crypto op.jwks ≡ ok signer
      → k.key_set ≡ some old
      → find_key p old (s.key_id signer) (str "ES384") ≡ err missing
      → k.key_update_semaphore ≡ 0
      → (p.jwk_fetch k.http_client k.jwks_uri k.fetch_timeout
          (p.limiter_take k.key_update_limiter w')).0
        ≡ ok (shown_key_set s p l op.jwks)
      → (p.now (updated p k w' (shown_key_set s p l op.jwks)).1).0
        <ℤ l.from_unix (s.unix ((s.now w).0 +ℤ op.options.token_expiration))
          +ℤ h.allowed_token_drift
      → let after = updated p k w' (shown_key_set s p l op.jwks) in
        parse_token p T u response.access_token (h, w')
        ≡ (ok claims, (record h { key_handler = some after.0 }, (p.now after.1).1))
  get_token_by_user-parse_token_rotated w' signer old missing signs held missed idle fetched
        unexpired =
      let x = get_token_by_user-IsResponse s id user nonce op w response st jwt found answered in
      let one = running-IsSingle in
      let shown = shown_key_set s p l op.jwks in
      let same : signer ≡ one.private =
        ok-injective
          (sym signs ∙ get_private_key-IsSingle s.crypto (IsShownPair s p l) op.jwks one) in
      parse_token-rotated p T u response.access_token h w' k (s.key_id one.private) (str "ES384")
        (l.key one.public) claims loaded meant.by_id
        (record {
          old = old;
          held = held;
          missing = missing;
          missed = rw (sym same) missed;
          idle = idle;
          enabled = by_id;
          shown = shown;
          fetched = fetched;
          found = find_key-shown s p l readable op.jwks one;
        })
        (IsGood-issued s p l T u v id user nonce (s.now w).0 op (s.now w).1 response.access_token
          x.issued one plain x.access h claims meant (λ t. converted t (l.key one.public)) validated
          (updated p k w' shown).1 unexpired)

  -- A request that carries the access token, a JWT, of a token response of the provider, after its
  -- start and any requests, starts and key rotations, as `SetAuthHeader` does goes on, with the
  -- claims under the context key, in each of net/http, gin and fiber with the default extraction of token
  -- strings, if the token is not empty: before a handler that holds the key set that the provider
  -- shows, is set up for the issuer, the audience and the token type, and reads its clock before the
  -- expiration within the drift; for a user whose extra claims name none of the claims checked,
  -- claims that convert and pass the validation function, and libraries that read as documented
  -- what they write.
  pub get_token_by_user-GoesOn :
      (w' : p.World) (options : List (Options.Setter p)) (header : GetHeaderFn)
      → k.key_set ≡ some (shown_key_set s p l op.jwks)
      → (p.now w').0
        <ℤ l.from_unix (s.unix ((s.now w).0 +ℤ op.options.token_expiration))
          +ℤ h.allowed_token_drift
      → response.access_token ≢ []
      → (Options.new p options).token_string ≡ []
      → header (str "Authorization") ≡ auth_header response
      → GoesOn p (parse_token p T u) options header (h, w') claims
  unfolding auth_header
  get_token_by_user-GoesOn w' options header held unexpired given default carried =
      let x = get_token_by_user-IsResponse s id user nonce op w response st jwt found answered in
      let bearer : header (str "Authorization") ≡ str "Bearer " ++ response.access_token =
        carried ∙ ap (λ kind. kind ++ (str " " ++ response.access_token)) x.bearer in
      Passes-GoesOn p (parse_token p T u) options header (h, w') claims
        (
          response.access_token,
          rw default (get_token_string-bearer header response.access_token given bearer),
          ap (λ out. out.0) (get_token_by_user-parse_token w' held unexpired),
        )
