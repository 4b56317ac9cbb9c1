-- ===== src/Platform.antt =====
-- What the program uses and does not implement: the jwx packages (`jwk`, `jws`, `jwt`, `jwa`),
-- HTTP, JSON by reflection, the clock, the rate limiter, and the callbacks' effects. `World` is
-- the state of all that lies outside the process and of the other goroutines.
use go_oidc_middleware.Prelude.{ℕ, Option, List}
use go_oidc_middleware.Prelude.Int.{ℤ}
use go_oidc_middleware.Text.{Str}
use go_oidc_middleware.Errors.{Error, Result, External}

pub record Platform : Type 1 where
  -- github.com/lestrrat-go/jwx
  pub Headers : Type 0
  pub Key : Type 0
  pub KeySet : Type 0
  pub Token : Type 0
  pub RawClaims : Type 0
  -- the protected headers of each signature of jws.ParseString
  pub jws_parse_string : Str → External (List Headers)
  pub header_key_id : Headers → Str
  pub header_algorithm : Headers → Str
  pub header_type : Headers → Str
  pub key_id : Key → Str
  pub key_algorithm : Key → Str
  pub key_type : Key → Str
  pub set_len : KeySet → ℕ
  pub set_get : KeySet → ℕ → Option Key
  -- jwt.ParseString(s, jwt.WithVerify(alg, key))
  pub jwt_parse_string : Str → Str → Key → External Token
  -- alg.Accept(s)
  pub algorithm_accept : Str → External Str
  pub token_expiration : Token → ℤ
  pub token_issuer : Token → Str
  pub token_audience : Token → List Str
  pub token_as_map : Token → External RawClaims
  pub json_marshal : RawClaims → External Str
  -- the world: the network, the clock, other goroutines
  pub World : Type 0
  pub HttpClient : Type 0
  pub HttpRequest : Type 0
  pub HttpResponse : Type 0
  pub Limiter : Type 0
  pub Effect : Type 0
  pub default_client : HttpClient
  pub now : World → ℤ × World
  -- jwk.Fetch with the client and a timeout
  pub jwk_fetch : HttpClient → Str → ℤ → World → External KeySet × World
  pub http_new_request : Str → External HttpRequest
  pub http_accept_json : HttpRequest → HttpRequest
  pub http_do : HttpClient → ℤ → HttpRequest → World → External HttpResponse × World
  pub read_body : HttpResponse → World → External Str × World
  pub close_body : HttpResponse → World → External Unit × World
  -- the field `jwks_uri` of a document, by json.Unmarshal
  pub json_jwks_uri : Str → External Str
  pub limiter_new : ℕ → World → Limiter × World
  pub limiter_take : Limiter → World → World
  -- a receive on `keyUpdateChannel`: what the goroutine that holds the semaphore sends
  pub receive_key_update : World → Result Error KeySet × World
