-- ===== src/Oidc/Handler.antt =====
-- The state of the handler, how it is made, and how it loads the keys of the provider.
use go_oidc_middleware.Prelude.{
  ℕ, Bool, true, false, not, Option, none, some, List, [], if◌then◌else◌,
}
use go_oidc_middleware.Prelude.Int.{ℤ}
use go_oidc_middleware.Text.{Str, is_empty}
use go_oidc_middleware.Errors.{
  Error, issuer_is_empty, fallback_algorithm_not_accepted, unable_to_load_jwks,
  unable_to_fetch_jwks_uri, unable_to_initialize_key_handler, jwks_uri_is_empty, Result, ok, err,
  from_external, map_err, Exec, ◌>>=◌, ◌>>◌, pure, lift, wrap, require, call,
}
use go_oidc_middleware.Platform.{Platform}
use go_oidc_middleware.Options.{ClaimsValidationFn, Options, Setter, new}
use go_oidc_middleware.KeyHandler.{KeyHandler, new_key_handler}
use go_oidc_middleware.Oidc.Checks.{get_discovery_uri_from_issuer}
use go_oidc_middleware.Oidc.Signature.{get_signature_algorithm_from_string}

-- `getJwksUriFromDiscoveryUri`; the timeout of the context goes with the request
unfoldable pub get_jwks_uri_from_discovery_uri :
    (p : Platform) → p.HttpClient → Str → ℤ → Exec p.World Str
get_jwks_uri_from_discovery_uri p http_client discovery_uri fetch_timeout = do
  req ← lift (from_external (p.http_new_request discovery_uri))
  res ← call (p.http_do http_client fetch_timeout (p.http_accept_json req))
  body_bytes ← call (p.read_body res)
  call (p.close_body res)
  jwks_uri ← lift (from_external (p.json_jwks_uri body_bytes))
  require (not (is_empty jwks_uri)) jwks_uri_is_empty
  pure jwks_uri

module _ (p : Platform) (T : Type 0) where
  open p use {World, HttpClient}

  pub record Handler : Type 0 where
    pub issuer : Str
    pub discovery_uri : Str
    pub discovery_fetch_timeout : ℤ
    pub jwks_uri : Str
    pub jwks_fetch_timeout : ℤ
    pub jwks_rate_limit : ℕ
    pub fallback_signature_algorithm : Str
    pub allowed_token_drift : ℤ
    pub required_audience : Str
    pub required_token_type : Str
    pub disable_key_id : Bool
    pub http_client : HttpClient
    pub key_handler : Option (KeyHandler p)
    pub claims_validation_fn : ClaimsValidationFn T

  abbrev pub HandlerState : Type 0
  HandlerState = Handler × World

  abbrev pub set_jwks_uri : Result Error Str → Handler → World → Result Error Unit × HandlerState
  set_jwks_uri (ok jwks_uri) h w = (ok tt, (record h { jwks_uri = jwks_uri }, w))
  set_jwks_uri (err e) h w = (err e, (h, w))

  -- the first half of `loadJwks`: discovery, unless the address of the keys is known
  unfoldable pub discover_jwks_uri : Exec HandlerState Unit
  discover_jwks_uri (h, w) =
      if is_empty h.jwks_uri
      then (let (found, w') =
            get_jwks_uri_from_discovery_uri p h.http_client h.discovery_uri
              h.discovery_fetch_timeout w in
          set_jwks_uri (map_err (unable_to_fetch_jwks_uri h.discovery_uri) found) h w')
      else (ok tt, (h, w))

  abbrev pub set_key_handler :
      Result Error (KeyHandler p) → Handler → World → Result Error Unit × HandlerState
  set_key_handler (ok key_handler) h w = (ok tt, (record h { key_handler = some key_handler }, w))
  set_key_handler (err e) h w = (err e, (h, w))

  -- the second half of `loadJwks`
  unfoldable pub init_key_handler : Exec HandlerState Unit
  init_key_handler (h, w) =
      let (made, w') =
        new_key_handler p h.http_client h.jwks_uri h.jwks_fetch_timeout h.jwks_rate_limit
          h.disable_key_id w in
      set_key_handler (map_err unable_to_initialize_key_handler made) h w'

  unfoldable pub load_jwks : Exec HandlerState Unit
  load_jwks = do discover_jwks_uri; init_key_handler

  -- The handler before the checks of `NewHandler`.
  abbrev pub from_options : ClaimsValidationFn T → Options p → Handler
  from_options claims_validation_fn opts = record {
    issuer = opts.issuer;
    discovery_uri = opts.discovery_uri;
    discovery_fetch_timeout = opts.discovery_fetch_timeout;
    jwks_uri = opts.jwks_uri;
    jwks_fetch_timeout = opts.jwks_fetch_timeout;
    jwks_rate_limit = opts.jwks_rate_limit;
    fallback_signature_algorithm = [];
    allowed_token_drift = opts.allowed_token_drift;
    required_audience = opts.required_audience;
    required_token_type = opts.required_token_type;
    disable_key_id = opts.disable_key_id;
    http_client = opts.http_client;
    key_handler = none;
    claims_validation_fn = claims_validation_fn;
  }

  unfoldable pub default_discovery_uri : Handler → Handler
  default_discovery_uri h =
      if is_empty h.discovery_uri
      then record h { discovery_uri = get_discovery_uri_from_issuer h.issuer }
      else h

  unfoldable pub accept_fallback : Str → Handler → Result Error Handler
  accept_fallback fallback h =
      if is_empty fallback then ok h else elim (get_signature_algorithm_from_string p fallback) [
        | ok alg ↦ ok (record h { fallback_signature_algorithm = alg })
        | err e ↦ err (fallback_algorithm_not_accepted e)
      ]

  abbrev pub made : Result Error Unit × HandlerState → Result Error Handler × World
  made (ok _, (h, w)) = (ok h, w)
  made (err e, (h, w)) = (err e, w)

  unfoldable pub load_unless_lazy :
      Bool → Result Error Handler → World → Result Error Handler × World
  load_unless_lazy lazy (err e) w = (err e, w)
  load_unless_lazy true (ok h) w = (ok h, w)
  load_unless_lazy false (ok h) w = made (wrap unable_to_load_jwks load_jwks (h, w))

  unfoldable pub new_handler :
      ClaimsValidationFn T → List (Setter p) → World → Result Error Handler × World
  new_handler claims_validation_fn setters w =
      let opts = new p setters in
      let h = from_options claims_validation_fn opts in
      if is_empty h.issuer
      then (err issuer_is_empty, w)
      else load_unless_lazy opts.lazy_load_jwks
          (accept_fallback opts.fallback_signature_algorithm (default_discovery_uri h)) w

  unfoldable pub set_issuer : Str → Handler → Handler
  set_issuer issuer h = record h { issuer = issuer }

  unfoldable pub set_discovery_uri : Str → Handler → Handler
  set_discovery_uri discovery_uri h = record h { discovery_uri = discovery_uri }
