-- ===== src/Op/Services.antt =====
-- What the provider of optest uses and does not implement: the packages jwt and jws, net/url, the
-- clock and the source of random numbers. The world is that of the crypto packages.
use go_oidc_middleware.Prelude.{ℕ, Option, List}
use go_oidc_middleware.Prelude.Int.{ℤ}
use go_oidc_middleware.Text.{Str}
use go_oidc_middleware.Errors.{External}
use go_oidc_middleware.Op.Keys.{Crypto}
use go_oidc_middleware.Op.Action.{OpError}

pub record Services : Type 1 where
  pub crypto : Crypto
  pub open crypto use {Key, KeySet, World, key_id, new_set}
  -- `interface{}`, with the values that the provider makes and its assertion `.(string)`
  pub Value : Type 0
  pub text : Str → Value
  pub number : ℤ → Value
  pub as_text : Value → Option Str
  pub Token : Type 0
  pub new_token : Token
  pub token_set : Str → Value → Token → External Token
  pub token_get : Str → Token → Option Value
  pub token_expiration : Token → ℤ
  pub Headers : Type 0
  pub new_headers : Headers
  pub headers_set : Str → Value → Headers → External Headers
  pub headers_get : Str → Headers → Option Value
  -- jwt.Sign(token, jwa.ES384, key, jwt.WithHeaders(headers))
  pub sign : Token → Key → Headers → World → External Str × World
  -- the protected headers of each signature of jws.ParseString
  pub jws_parse_string : Str → External (List Headers)
  -- jwt.ParseString, with no verification
  pub jwt_parse_string : Str → External Token
  -- jwt.Parse(…, jwt.WithKeySet(set), jwt.WithValidate(true)), at the time of the world
  pub jwt_parse : Str → KeySet → World → External Token
  pub Url : Type 0
  pub url_parse : Str → External Url
  -- `url.RawQuery = query.Encode()` of a query with these values
  pub with_query : List (Str × Str) → Url → Url
  pub url_string : Url → Str
  -- time.Now(), and its readings in a loop over the keys of a map
  pub now : World → ℤ × World
  pub readings : World → (Str → ℤ) × World
  -- time.Time's Unix, the seconds of an instant
  pub unix : ℤ → ℤ
  -- the number of whole seconds of a duration, int(d.Seconds())
  pub seconds : ℤ → ℤ
  -- the text of an error
  pub error_text : OpError → Str
  -- rand.Int(rand.Reader, big.NewInt(n)) and rand.Read of n bytes
  pub random_int : ℕ → World → External ℕ × World
  pub random_read : ℕ → World → External Str × World
  -- base64.RawURLEncoding.EncodeToString
  pub encode_base64 : Str → Str
