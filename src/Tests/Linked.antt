-- ===== src/Tests/Linked.antt =====
-- Concrete services of the test provider and a platform of the middleware that read each other's
-- keys and tokens.
use go_oidc_middleware.Prelude.{
  ℕ, suc, ◌<◌, ◌≡◌, refl, sym, ap, ◌∙◌, inl, inr, none, some, List, [], ◌∷◌, ◌++◌, arith, In,
  length, get_elem?, get_elem?-In, nat_eq, append-nil, append_assoc, if◌then◌else◌,
}
use go_oidc_middleware.Prelude.Int.{ℤ, pos}
use go_oidc_middleware.Text.{Str, str, ◌==◌}
use go_oidc_middleware.Errors.{ok, err, External, no_key_found}
use go_oidc_middleware.Platform.{Platform}
use go_oidc_middleware.Op.Keys.{add_all}
use go_oidc_middleware.Op.Services.{Services}
use go_oidc_middleware.Tests.Services.{Value, services}
use go_oidc_middleware.Tests.Joint.{
  Key, crypto, Token, set_issuer, set_audience, set_expiration, set_kid, set_typ, token_set,
  Headers, headers_set, headers_get, Signed, write, read, read-write,
}
use go_oidc_middleware.Provided.{Link, IsReadable, IsVerifiable}

abbrev pub provider : Services
provider = record services {
  crypto = crypto;
  Value = Value;
  text = Value.text;
  number = Value.number;
  as_text = services.as_text;
  Token = Token;
  new_token = record { issuer = []; audience = []; expiration = pos 0 };
  token_set = token_set;
  token_get = λ _ _. none;
  token_expiration = λ t. t.expiration;
  Headers = Headers;
  new_headers = record { kid = []; typ = [] };
  headers_set = headers_set;
  headers_get = headers_get;
  sign = λ t k h w. (ok (write (record { token = t; headers = h; number = k.number })), w);
  jws_parse_string = λ access. ok ((read access).headers ∷ []);
  jwt_parse_string = λ access. ok (read access).token;
  jwt_parse = λ access _ _. ok (read access).token;
  Url = Str;
  url_parse = ok;
  with_query = λ _ url. url;
  url_string = λ url. url;
  now = λ w. (pos w, suc w);
  readings = λ w. (λ _. pos w, suc w);
  random_int = λ n w. (err (str "no number"), w);
  random_read = λ _ w. (ok (str "bytes"), suc w);
}

-- The network and the clock: the keys that the provider shows, and the time.
pub record World : Type 0 where
  pub clock : ℤ
  pub provider_keys : List Key

abbrev verify_signed : Signed → Key → External Token
verify_signed x key =
    if nat_eq x.number key.number then ok x.token else err (str "failed to verify signature")

abbrev pub middleware : Platform
middleware = record {
  Headers = Headers;
  Key = Key;
  KeySet = List Key;
  Token = Token;
  RawClaims = Token;
  jws_parse_string = λ access. ok ((read access).headers ∷ []);
  header_key_id = λ h. h.kid;
  header_algorithm = λ _. str "ES384";
  header_type = λ h. h.typ;
  key_id = λ k. k.kid;
  key_algorithm = λ k. k.algorithm;
  key_type = λ _. str "EC";
  set_len = length;
  set_get = get_elem?;
  jwt_parse_string = λ access _ key. verify_signed (read access) key;
  algorithm_accept = ok;
  token_expiration = λ t. t.expiration;
  token_issuer = λ t. t.issuer;
  token_audience = λ t. t.audience ∷ [];
  token_as_map = ok;
  json_marshal = λ _. ok (str "{}");
  World = World;
  HttpClient = Unit;
  HttpRequest = Str;
  HttpResponse = Str;
  Limiter = Unit;
  Effect = Str;
  default_client = tt;
  now = λ w. (w.clock, w);
  jwk_fetch = λ _ _ _ w. (ok w.provider_keys, w);
  http_new_request = ok;
  http_accept_json = λ r. r;
  http_do = λ _ _ r w. (ok r, w);
  read_body = λ r w. (ok r, w);
  close_body = λ _ w. (ok tt, w);
  json_jwks_uri = λ _. ok (str "/jwks");
  limiter_new = λ _ w. (tt, w);
  limiter_take = λ _ w. w;
  receive_key_update = λ w. (err no_key_found, w);
}

abbrev pub link : Link provider middleware
link = record {
  key = λ k. k;
  key_set = λ ks. ks;
  IsPair = λ k q. k.number ≡ q.number;
  issuer = λ t. t.issuer;
  audience = λ t. t.audience ∷ [];
  from_unix = λ z. z;
}

add_all-crypto : (qs ks : List Key) → add_all crypto qs ks ≡ ks ++ qs
add_all-crypto [] ks = sym (append-nil ks)
add_all-crypto (q ∷ qs) ks = add_all-crypto qs (ks ++ q ∷ []) ∙ append_assoc ks (q ∷ []) qs

get_elem?-there :
    (qs : List Key) (q : Key) → In q qs → (i : ℕ) × (i < length qs) × (get_elem? qs i ≡ some q)
get_elem?-there [] q there = absurd there
get_elem?-there (a ∷ qs) q (inl same) = (0, omega arith, ap some same)
get_elem?-there (a ∷ qs) q (inr later) =
    let (i, inside, at) = get_elem?-there qs q later in (suc i, omega (arith, inside), at)

pub link-IsReadable : IsReadable provider middleware link
link-IsReadable = record {
  listed = λ qs q there. rw (add_all-crypto qs []) (get_elem?-there qs q there);
  only = λ qs i k at.
      let there : get_elem? qs i ≡ some k = rw (add_all-crypto qs []) at at in
      (k, get_elem?-In qs i k there, refl);
  same_id = λ q. refl;
  algorithm = λ alg q q' e. cc;
  thumbprint_given = λ k kid e empty. cc;
  paired = λ e k q made_k made_q. cc;
  private_named = λ kid k k' q e pair. cc;
  public_named = λ kid k q q' e pair. cc;
  public_algorithm = λ alg k q q' e pair. cc;
}

set_issuer-keeps :
    (v : Value) (t t' : Token)
    → set_issuer v t ≡ ok t'
    → (t'.audience ≡ t.audience) × (t'.expiration ≡ t.expiration)
set_issuer-keeps (Value.text iss) t t' e = (cc, cc)
set_issuer-keeps (Value.number z) t t' e = absurd (cc)

set_audience-keeps :
    (v : Value) (t t' : Token)
    → set_audience v t ≡ ok t'
    → (t'.issuer ≡ t.issuer) × (t'.expiration ≡ t.expiration)
set_audience-keeps (Value.text aud) t t' e = (cc, cc)
set_audience-keeps (Value.number z) t t' e = absurd (cc)

set_expiration-keeps :
    (v : Value) (t t' : Token)
    → set_expiration v t ≡ ok t'
    → (t'.issuer ≡ t.issuer) × (t'.audience ≡ t.audience)
set_expiration-keeps (Value.text exp) t t' e = absurd (cc)
set_expiration-keeps (Value.number z) t t' e = (cc, cc)

set_kid-keeps : (v : Value) (h h' : Headers) → set_kid v h ≡ ok h' → h'.typ ≡ h.typ
set_kid-keeps (Value.text kid) h h' e = cc
set_kid-keeps (Value.number z) h h' e = absurd (cc)

set_typ-keeps : (v : Value) (h h' : Headers) → set_typ v h ≡ ok h' → h'.kid ≡ h.kid
set_typ-keeps (Value.text typ) h h' e = cc
set_typ-keeps (Value.number z) h h' e = absurd (cc)

pub link-IsVerifiable : IsVerifiable provider middleware link
unfolding ◌==◌
link-IsVerifiable = record {
  issuer_set = λ iss t t' e. cc;
  issuer_kept = λ k v t t' other e.
      ground (arith, other, set_audience-keeps v t t', set_expiration-keeps v t t');
  audience_set = λ aud t t' e. cc;
  audience_kept = λ k v t t' other e.
      ground (arith, other, set_issuer-keeps v t t', set_expiration-keeps v t t');
  expiration_set = λ z t t' e. cc;
  expiration_kept =
      λ k v t t' other e. ground (arith, other, set_issuer-keeps v t t', set_audience-keeps v t t');
  header_set = λ name value h h' known e. ground arith;
  header_kept =
      λ name k v h h' other e. ground (arith, other, set_kid-keeps v h h', set_typ-keeps v h h');
  headers_read = λ t k h w w' access kid typ e named typed.
      let x : Signed = record { token = t; headers = h; number = k.number } in
      let is : access ≡ write x = ground arith in
      (
        h,
        ap (λ (out : Signed). ok (out.headers ∷ [])) (ap read is ∙ read-write x),
        ground arith,
        ground arith,
        refl,
      );
  verified = λ t k q h w w' access e pair.
      let x : Signed = record { token = t; headers = h; number = k.number } in
      let is : access ≡ write x = ground arith in
      (
        t,
        ap (λ out. verify_signed out q) (ap read is ∙ read-write x) ∙ ground arith,
        refl,
        refl,
        refl,
      );
  accepted = refl;
}
