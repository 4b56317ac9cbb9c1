-- ===== src/Tests/Services.antt =====
-- Concrete services for the provider. Of a token the claim `id` is kept, one character long, and
-- of its headers `kid` and `jwt_typ`; a token string is the key's identifier, one character too, with both.
use go_oidc_middleware.Prelude.{
  ℕ, suc, ◌≡◌, refl, sym, ap, ◌∙◌, ◌⊎◌, inl, inr, Bool, true, false, Option, none, some, List, [],
  ◌∷◌, ltb, arith, In, if◌then◌else◌,
}
use go_oidc_middleware.Prelude.Int.{ℤ, pos}
use go_oidc_middleware.Text.{Str, str, ◌==◌}
use go_oidc_middleware.Text.Equality.{==_refl}
use go_oidc_middleware.Errors.{ok, err, External}
use go_oidc_middleware.Op.Keys.{add_all}
use go_oidc_middleware.Op.Services.{Services}
use go_oidc_middleware.Op.Random.Drawn.{IsUniform}
use go_oidc_middleware.Op.Issued.{IsJwt}
use go_oidc_middleware.Tests.Provider.{NumberedKey, numbered}

pub data Value : Type 0 where
  text : Str → Value
  number : ℤ → Value

abbrev as_text : Value → Option Str
as_text (text t) = some t
as_text (number z) = none

-- The one key of a map that is kept.
abbrev set_one : Str → Str → Value → Option Value → External (Option Value)
set_one one k v old = ok (if one == k then some v else old)

abbrev get_one : Str → Str → Option Value → Option Value
get_one one k v = if one == k then v else none

abbrev sign_as : Option Value → Str → Option Value → External Str
sign_as (some (text (a ∷ []))) (c ∷ []) (some (text kind)) = ok (c ∷ a ∷ kind)
sign_as _ _ _ = err (str "unsupported")

abbrev parse_jws : Str → External (List (Option Value × Option Value))
parse_jws (c ∷ a ∷ kind) = ok ((some (text (c ∷ [])), some (text kind)) ∷ [])
parse_jws _ = err (str "no token")

abbrev parse_jwt : Str → External (Option Value)
parse_jwt (c ∷ a ∷ kind) = ok (some (text (a ∷ [])))
parse_jwt _ = err (str "no token")

abbrev has_key : Str → List NumberedKey → Bool
has_key kid [] = false
has_key kid (k ∷ ks) = let rest = has_key kid ks in if k.kid == kid then true else rest

abbrev verify_jwt : Str → List NumberedKey → External (Option Value)
verify_jwt (c ∷ a ∷ kind) ks =
    if has_key (c ∷ []) ks then ok (some (text (a ∷ []))) else err (str "no key")
verify_jwt _ ks = err (str "no token")

-- The headers `kid` and `jwt_typ`.
abbrev set_header :
    Str → Value → Option Value × Option Value → External (Option Value × Option Value)
set_header k v (kid, jwt_typ) =
    ok (if str "kid" == k then some v else kid, if str "jwt_typ" == k then some v else jwt_typ)

abbrev get_header : Str → Option Value × Option Value → Option Value
get_header k (kid, jwt_typ) =
    if k == str "kid" then kid else if k == str "jwt_typ" then jwt_typ else none

abbrev pub services : Services
services = record {
  crypto = numbered;
  Value = Value;
  text = text;
  number = number;
  as_text = as_text;
  Token = Option Value;
  new_token = none;
  token_set = set_one (str "id");
  token_get = get_one (str "id");
  token_expiration = λ _. pos 100;
  Headers = Option Value × Option Value;
  new_headers = (none, none);
  headers_set = set_header;
  headers_get = get_header;
  sign = λ t k h w. (sign_as t k.kid h.1, w);
  jws_parse_string = parse_jws;
  jwt_parse_string = parse_jwt;
  jwt_parse = λ t ks _. verify_jwt t ks;
  Url = Str;
  url_parse = ok;
  with_query = λ _ url. url;
  url_string = λ url. url;
  now = λ w. (pos w, suc w);
  readings = λ w. (λ _. pos w, suc w);
  unix = λ time. time;
  seconds = λ duration. duration;
  error_text = λ _. str "error";
  random_int = λ n w. (if ltb 7 n then ok 7 else err (str "no number"), suc w);
  random_read = λ _ w. (ok (str "bytes"), suc w);
  encode_base64 = λ t. t;
}

pub services-IsUniform : IsUniform services.random_int
services-IsUniform = record { below = λ n w i e. ground arith }

-- What is signed.
record IsSignedAs (t : Option Value) (kid : Str) (h : Option Value) (access : Str) : Type 0 where
  c : ℕ
  a : ℕ
  kind : Str
  by : kid ≡ c ∷ []
  token : t ≡ some (text (a ∷ []))
  headers : h ≡ some (text kind)
  is : access ≡ c ∷ a ∷ kind

sign_as-IsSignedAs :
    (t : Option Value) (kid : Str) (h : Option Value) (access : Str)
    → sign_as t kid h ≡ ok access
    → IsSignedAs t kid h access
sign_as-IsSignedAs none kid h access e = absurd (cc)
sign_as-IsSignedAs (some (number z)) kid h access e = absurd (cc)
sign_as-IsSignedAs (some (text [])) kid h access e = absurd (cc)
sign_as-IsSignedAs (some (text (a ∷ b ∷ t))) kid h access e = absurd (cc)
sign_as-IsSignedAs (some (text (a ∷ []))) [] h access e = absurd (cc)
sign_as-IsSignedAs (some (text (a ∷ []))) (c ∷ d ∷ kid) h access e = absurd (cc)
sign_as-IsSignedAs (some (text (a ∷ []))) (c ∷ []) none access e = absurd (cc)
sign_as-IsSignedAs (some (text (a ∷ []))) (c ∷ []) (some (number z)) access e = absurd (cc)
sign_as-IsSignedAs (some (text (a ∷ []))) (c ∷ []) (some (text kind)) access e = record {
  c = c;
  a = a;
  kind = kind;
  by = refl;
  token = refl;
  headers = refl;
  is = ground arith;
}

has_key-add_all :
    (q : NumberedKey) (qs ks : List NumberedKey)
    → In q qs ⊎ (has_key q.kid ks ≡ true)
    → has_key q.kid (add_all numbered qs ks) ≡ true
has_key-add_all q [] ks (inr there) = there
has_key-add_all q [] ks (inl absent) = absurd absent
has_key-add_all q (q' ∷ qs) ks (inl (inl same)) =
    has_key-add_all q qs (q' ∷ ks) (inr (rw (sym same, ==_refl q'.kid) refl))
has_key-add_all q (q' ∷ qs) ks (inl (inr later)) = has_key-add_all q qs (q' ∷ ks) (inl later)
has_key-add_all q (q' ∷ qs) ks (inr there) =
    has_key-add_all q qs (q' ∷ ks) (inr (ground (arith, there)))

pub services-IsJwt : IsJwt services
unfolding ◌==◌
services-IsJwt = record {
  IsTimely = λ _ _. Unit;
  IsPair = λ _ _. Unit;
  as_text_text = λ t. refl;
  token_get_id = λ k v t t' e. ground arith;
  headers_get_jwt_typ = λ k v h h' e. ground arith;
  headers_get_kid = λ k v h h' e. ground arith;
  signed_once = λ t k h w w' access e.
      let x = sign_as-IsSignedAs t k.kid h.1 access (ap (λ r. r.0) e) in
      ((some (text (x.c ∷ [])), h.1), rw (x.is, x.headers) refl, refl);
  verified = λ t k q qs h w w' w'' access e kid there named paired timely.
      let x = sign_as-IsSignedAs t k.kid h.1 access (ap (λ r. r.0) e) in
      let held = has_key-add_all q qs [] (inl there) in
      let by = sym named ∙ x.by in (t, rw (x.is, x.token, sym by) (rw held refl), refl);
}

pub services-IsTimely : (t : services.Token) (w : ℕ) → services-IsJwt.IsTimely t w
unfolding services-IsJwt
services-IsTimely t w = tt

pub services-IsPair : (k q : NumberedKey) → services-IsJwt.IsPair k q
unfolding services-IsJwt
services-IsPair k q = tt
