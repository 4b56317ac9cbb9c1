-- ===== src/Examples/Pkce.antt =====
-- examples/pkce-cli/main.go: a login with PKCE. The browser, the listening server and the signals are
-- left out; the operations are those of the handlers and of `run` in its order.
pub mod Challenge
use go_oidc_middleware.Prelude.{
  ℕ, zero, suc, ◌≡◌, refl, Bool, true, false, not, Option, none, some, List, [], ◌∷◌, ◌++◌,
  if◌then◌else◌,
}
use go_oidc_middleware.Prelude.Int.{ℤ, pos}
use go_oidc_middleware.Text.{Str, str, is_empty, ◌==◌, trim_suffix}
use go_oidc_middleware.Errors.{Result, ok, err, External}
use go_oidc_middleware.Op.Action.{
  OpError, empty_value, closed_channel, Action, ◌>>=◌, ◌>>◌, pure, lift, from_external, require,
}
use go_oidc_middleware.Op.Random

pub record DiscoveryData : Type 0 where
  pub authorization_endpoint : Str
  pub token_endpoint : Str

-- The packages that the program uses. The world is all that lies outside, the output included.
pub record Client : Type 1 where
  pub World : Type 0
  pub random_int : ℕ → World → External ℕ × World
  pub sha256 : Str → Str
  -- base64.RawURLEncoding.EncodeToString
  pub encode_base64 : Str → Str
  pub Url : Type 0
  pub url_parse : Str → External Url
  -- `url.RawQuery = query.Encode()`
  pub with_query : List (Str × Str) → Url → Url
  pub url_string : Url → Str
  -- url.Values's Encode
  pub encode_values : List (Str × Str) → Str
  pub HttpRequest : Type 0
  pub HttpResponse : Type 0
  pub new_request : Str → Str → Option Str → External HttpRequest
  pub set_header : Str → Str → HttpRequest → HttpRequest
  -- http.DefaultClient.Do, with the time-out of the context in nanoseconds
  pub http_do : ℤ → HttpRequest → World → External HttpResponse × World
  pub read_body : HttpResponse → World → External Str × World
  pub close_body : HttpResponse → World → External Unit × World
  pub unmarshal_discovery : Str → External DiscoveryData
  pub print : Str → World → World
  -- time.Unix(0, 0).Format(time.RFC1123)
  pub epoch : Str

-- url.Values's Set
unfoldable pub set_value : Str → Str → List (Str × Str) → List (Str × Str)
set_value key value [] = (key, value) ∷ []
set_value key value ((k, v) ∷ values) =
    let rest = set_value key value values in
    if key == k then (key, value) ∷ values else (k, v) ∷ rest

-- `for k, v := range extra { values.Set(k, v) }`, in the order of the list
unfoldable pub set_values : List (Str × Str) → List (Str × Str) → List (Str × Str)
set_values [] values = values
set_values ((k, v) ∷ extra) values = set_values extra (set_value k v values)

-- The channel shutdownHttpServerCh is closed or not.
pub record AuthorizationInfo : Type 0 where
  pub authorization_endpoint : Str
  pub token_endpoint : Str
  pub client_id : Str
  pub callback : Str
  pub code_verifier : Str
  pub code_challange : Str
  pub state : Str
  pub response_code : Str
  pub response_state : Str
  pub shutdown_closed : Bool

abbrev pub given : {S : Type 0} → Str → Str → Action S Unit
given value name = require (not (is_empty value)) (empty_value name)

module _ (c : Client) where
  open c use {
    World, random_int, sha256, encode_base64, url_parse, with_query, url_string, encode_values,
    HttpRequest, HttpResponse, new_request, set_header, http_do, read_body, close_body,
    unmarshal_discovery, print, epoch,
  }

  -- `generateRandomString`, the same code as in optest/optest.go
  abbrev pub generate_random_string : ℕ → Action World Str
  generate_random_string n = Random.generate_random_string random_int n

  unfoldable pub generate_code_challenge_s256 : Action World (Str × Str)
  generate_code_challenge_s256 = do
    code_verifier ← generate_random_string 43
    pure (code_verifier, encode_base64 (sha256 code_verifier))

  unfoldable pub generate_state : Action World Str
  generate_state = do
    state_string ← generate_random_string 32
    pure (encode_base64 (sha256 state_string))

  abbrev pub attempt : {A : Type 0} → (World → External A × World) → Action World A
  attempt f w = let out = f w in (from_external out.0, out.1)

  -- `Do`, `io.ReadAll` and `Close`: the body of the response
  unfoldable pub exchange : HttpRequest → Action World Str
  exchange request = do
    response ← attempt (http_do (pos 5_000_000_000) request)
    body ← attempt (read_body response)
    attempt (close_body response)
    pure body

  unfoldable pub get_discovery_data : Str → Action World DiscoveryData
  get_discovery_data issuer = do
    request ← lift (
        from_external (
          new_request (str "GET")
            (trim_suffix issuer (str "/") ++ str "/.well-known/openid-configuration") none))
    body ← exchange (set_header (str "Accept") (str "application/json") request)
    d ← lift (from_external (unmarshal_discovery body))
    given d.authorization_endpoint (str "AuthorizationEndpoint")
    given d.token_endpoint (str "TokenEndpoint")
    pure d

  -- The query of the authorization request.
  unfoldable pub authorization_query :
      Str → Str → Str → Str → Str → List (Str × Str) → List (Str × Str)
  authorization_query client_id code_challenge callback scopes state extra_authz_params =
      set_values extra_authz_params (
        (str "client_id", client_id)
        ∷ (str "code_challenge", code_challenge)
        ∷ (str "code_challenge_method", str "S256")
        ∷ (str "redirect_uri", callback)
        ∷ (str "response_type", str "code")
        ∷ (str "scope", scopes)
        ∷ (str "state", state)
        ∷ [])

  unfoldable pub get_authorization_info :
      Str → Str → Str → Str → List (Str × Str) → Action World AuthorizationInfo
  get_authorization_info callback issuer client_id scopes extra_authz_params = do
    given callback (str "callback")
    given issuer (str "issuer")
    given client_id (str "clientID")
    given scopes (str "scopes")
    code ← generate_code_challenge_s256
    state ← generate_state
    discovery ← get_discovery_data issuer
    authz_url ← lift (from_external (url_parse discovery.authorization_endpoint))
    pure (record {
      authorization_endpoint = url_string (
          with_query (authorization_query client_id code.1 callback scopes state extra_authz_params)
            authz_url);
      token_endpoint = discovery.token_endpoint;
      client_id = client_id;
      callback = callback;
      code_verifier = code.0;
      code_challange = code.1;
      state = state;
      response_code = [];
      response_state = [];
      shutdown_closed = false;
    })

  -- `startHandler` and the headers of `setNoCache`: the status and the headers of the response
  unfoldable pub set_no_cache : List (Str × Str)
  set_no_cache =
      (str "Expires", epoch)
      ∷ (str "Cache-Control", str "no-cache, private, max-age=0")
      ∷ (str "Pragma", str "no-cache")
      ∷ []

  unfoldable pub start_handler : AuthorizationInfo → ℕ × List (Str × Str)
  start_handler a = (301, set_no_cache ++ (str "Location", a.authorization_endpoint) ∷ [])

  -- The deferred `close` panics when the channel is closed already.
  unfoldable pub callback_handler : (Str → Str) → Action AuthorizationInfo (ℕ × List (Str × Str))
  callback_handler query_param a = (
    if a.shutdown_closed then err closed_channel else ok (200, set_no_cache),
    record a {
      response_code = query_param (str "code");
      response_state = query_param (str "state");
      shutdown_closed = true;
    },
  )

  unfoldable pub token_values : AuthorizationInfo → List (Str × Str) → List (Str × Str)
  token_values a extra_token_params = set_values extra_token_params (
      (str "grant_type", str "authorization_code")
      ∷ (str "client_id", a.client_id)
      ∷ (str "code_verifier", a.code_verifier)
      ∷ (str "code", a.response_code)
      ∷ (str "redirect_uri", a.callback)
      ∷ [])

  unfoldable pub get_and_print_token : AuthorizationInfo → List (Str × Str) → Action World Unit
  get_and_print_token a extra_token_params = do
    given a.client_id (str "clientID")
    given a.code_verifier (str "codeVerifier")
    given a.response_code (str "responseCode")
    given a.callback (str "callback")
    request ← lift (
        from_external (
          new_request (str "POST") a.token_endpoint
            (some (encode_values (token_values a extra_token_params)))))
    body ← exchange (
        set_header (str "Content-Type") (str "application/x-www-form-urlencoded") (
          set_header (str "Cache-Control") (str "no-cache")
            (set_header (str "Accept") (str "application/json") request)))
    λ w. (ok tt, print body w)
