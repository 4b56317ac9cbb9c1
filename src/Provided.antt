-- ===== src/Provided.antt =====
-- The test provider (optest) and the middleware (internal/oidc) together: what the libraries that
-- the one signs with and the other verifies with have to do with each other.
pub mod Pairs
pub mod Found
pub mod Claims
pub mod Accepted
pub mod Login
pub mod Refused
pub mod Retired
use go_oidc_middleware.Prelude.{ℕ, ◌<◌, ◌≡◌, ◌≢◌, false, some, List, [], ◌∷◌, In}
use go_oidc_middleware.Prelude.Int.{ℤ}
use go_oidc_middleware.Text.{Str, str, ◌==◌}
use go_oidc_middleware.Errors.{ok}
use go_oidc_middleware.Platform.{Platform}
use go_oidc_middleware.Op.Services.{Services}
use go_oidc_middleware.Op.Keys.{add_all}

-- How the provider's keys and tokens are read by the middleware.
pub record Link (s : Services) (p : Platform) : Type 1 where
  -- what a key and a key set are, read from their JSON
  pub key : s.Key → p.Key
  pub key_set : s.KeySet → p.KeySet
  -- the second key is the public key of the first
  pub IsPair : s.Key → s.Key → Type 0
  -- jwt.Token's Issuer and Audience
  pub issuer : s.Token → Str
  pub audience : s.Token → List Str
  -- time.Unix of a number of seconds
  pub from_unix : ℤ → ℤ

-- What is documented of jwk: keys keep their identifier and algorithm, and sets their keys.
pub record IsReadable (s : Services) (p : Platform) (l : Link s p) : Type 0 where
  pub listed :
      (qs : List s.Key) (q : s.Key)
      → In q qs
      → (i : ℕ) × (i < p.set_len (l.key_set (add_all s.crypto qs s.new_set)))
        × (p.set_get (l.key_set (add_all s.crypto qs s.new_set)) i ≡ some (l.key q))
  pub only :
      (qs : List s.Key) (i : ℕ) (k : p.Key)
      → p.set_get (l.key_set (add_all s.crypto qs s.new_set)) i ≡ some k
      → (q : s.Key) × In q qs × (k ≡ l.key q)
  pub same_id : (q : s.Key) → p.key_id (l.key q) ≡ s.key_id q
  pub algorithm :
      (alg : Str) (q q' : s.Key)
      → s.crypto.set_algorithm alg q ≡ ok q'
      → p.key_algorithm (l.key q') ≡ alg
  -- a thumbprint is not empty
  pub thumbprint_given : (k : s.Key) (kid : Str) → s.crypto.thumbprint_hex k ≡ ok kid → kid ≢ []
  pub paired :
      (e : s.crypto.EcdsaKey) (k q : s.Key)
      → s.crypto.new_private e ≡ ok k
      → s.crypto.new_public e ≡ ok q
      → l.IsPair k q
  -- a key that is given an identifier or an algorithm is the same key
  pub private_named :
      (kid : Str) (k k' q : s.Key)
      → s.crypto.set_key_id kid k ≡ ok k'
      → l.IsPair k q
      → l.IsPair k' q
  pub public_named :
      (kid : Str) (k q q' : s.Key)
      → s.crypto.set_key_id kid q ≡ ok q'
      → l.IsPair k q
      → l.IsPair k q'
  pub public_algorithm :
      (alg : Str) (k q q' : s.Key)
      → s.crypto.set_algorithm alg q ≡ ok q'
      → l.IsPair k q
      → l.IsPair k q'

-- What is documented of jwt and jws: claims are read as they are set, `typ` is a header as `kid`
-- is, and what jwt.Sign has signed with ES384 is parsed with its headers, and verified by the
-- public key of the pair with its claims.
pub record IsVerifiable (s : Services) (p : Platform) (l : Link s p) : Type 0 where
  pub issuer_set :
      (iss : Str) (t t' : s.Token)
      → s.token_set (str "iss") (s.text iss) t ≡ ok t'
      → l.issuer t' ≡ iss
  pub issuer_kept :
      (k : Str) (v : s.Value) (t t' : s.Token)
      → (str "iss" == k) ≡ false
      → s.token_set k v t ≡ ok t'
      → l.issuer t' ≡ l.issuer t
  pub audience_set :
      (aud : Str) (t t' : s.Token)
      → s.token_set (str "aud") (s.text aud) t ≡ ok t'
      → l.audience t' ≡ aud ∷ []
  pub audience_kept :
      (k : Str) (v : s.Value) (t t' : s.Token)
      → (str "aud" == k) ≡ false
      → s.token_set k v t ≡ ok t'
      → l.audience t' ≡ l.audience t
  pub expiration_set :
      (z : ℤ) (t t' : s.Token)
      → s.token_set (str "exp") (s.number z) t ≡ ok t'
      → s.token_expiration t' ≡ l.from_unix z
  pub expiration_kept :
      (k : Str) (v : s.Value) (t t' : s.Token)
      → (str "exp" == k) ≡ false
      → s.token_set k v t ≡ ok t'
      → s.token_expiration t' ≡ s.token_expiration t
  pub header_set :
      (name value : Str) (h h' : s.Headers)
      → In name (str "kid" ∷ str "typ" ∷ [])
      → s.headers_set name (s.text value) h ≡ ok h'
      → s.headers_get name h' ≡ some (s.text value)
  pub header_kept :
      (name k : Str) (v : s.Value) (h h' : s.Headers)
      → (name == k) ≡ false
      → s.headers_set k v h ≡ ok h'
      → s.headers_get name h' ≡ s.headers_get name h
  pub headers_read :
      (t : s.Token) (k : s.Key) (h : s.Headers) (w w' : s.World) (access kid typ : Str)
      → s.sign t k h w ≡ (ok access, w')
      → s.headers_get (str "kid") h ≡ some (s.text kid)
      → s.headers_get (str "typ") h ≡ some (s.text typ)
      → (h' : p.Headers) × (p.jws_parse_string access ≡ ok (h' ∷ []))
        × (p.header_key_id h' ≡ kid)
        × (p.header_type h' ≡ typ)
        × (p.header_algorithm h' ≡ str "ES384")
  pub verified :
      (t : s.Token) (k q : s.Key) (h : s.Headers) (w w' : s.World) (access : Str)
      → s.sign t k h w ≡ (ok access, w')
      → l.IsPair k q
      → (t' : p.Token) × (p.jwt_parse_string access (str "ES384") (l.key q) ≡ ok t')
        × (p.token_issuer t' ≡ l.issuer t)
        × (p.token_audience t' ≡ l.audience t)
        × (p.token_expiration t' ≡ s.token_expiration t)
  -- `jwa.ES384.Accept("ES384")`
  pub accepted : p.algorithm_accept (str "ES384") ≡ ok (str "ES384")
