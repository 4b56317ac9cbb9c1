-- ===== src/Tests/Joint.antt =====
-- Keys and tokens that a test provider and a platform of the middleware share. A token string is the issuer, the audience, the key's identifier, the type and
-- the expiration in a row, with the number of the key at the end.
use go_oidc_middleware.Prelude.{
  ℕ, zero, suc, ◌≡◌, refl, ap, true, Option, none, some, List, [], ◌∷◌, ◌++◌, if◌then◌else◌,
}
use go_oidc_middleware.Prelude.Int.{ℤ, pos, negsuc}
use go_oidc_middleware.Text.{Str, str, ◌==◌}
use go_oidc_middleware.Errors.{ok, err, External}
use go_oidc_middleware.Op.Keys.{Crypto, IsKeyed}
use go_oidc_middleware.Tests.Services.{Value}

-- Keys are numbers, generated in order.
pub record Key : Type 0 where
  pub kid : Str
  pub algorithm : Str
  pub number : ℕ

abbrev pub crypto : Crypto
crypto = record {
  EcdsaKey = ℕ;
  Key = Key;
  KeySet = List Key;
  World = ℕ;
  generate_key = λ n. (ok n, suc n);
  new_private = λ n. ok (record { kid = []; algorithm = []; number = n });
  new_public = λ n. ok (record { kid = []; algorithm = []; number = n });
  is_ecdsa_private = λ _. true;
  is_ecdsa_public = λ _. true;
  thumbprint_hex = λ k. ok (k.number ∷ []);
  set_key_id = λ kid k. ok (record k { kid = kid });
  set_algorithm = λ alg k. ok (record k { algorithm = alg });
  key_id = λ k. k.kid;
  new_set = [];
  set_add = λ k ks. ks ++ k ∷ [];
}

pub crypto-IsKeyed : IsKeyed crypto
crypto-IsKeyed = record { named = λ kid k k' e. cc; kept = λ alg k k' e. cc }

pub record Token : Type 0 where
  pub issuer : Str
  pub audience : Str
  pub expiration : ℤ

pub record Headers : Type 0 where
  pub kid : Str
  pub typ : Str

abbrev pub set_issuer : Value → Token → External Token
set_issuer (Value.text t) token = ok (record token { issuer = t })
set_issuer (Value.number z) token = err (str "invalid issuer")

abbrev pub set_audience : Value → Token → External Token
set_audience (Value.text t) token = ok (record token { audience = t })
set_audience (Value.number z) token = err (str "invalid audience")

abbrev pub set_expiration : Value → Token → External Token
set_expiration (Value.text t) token = err (str "invalid expiration")
set_expiration (Value.number z) token = ok (record token { expiration = z })

abbrev pub token_set : Str → Value → Token → External Token
token_set k v token =
    if str "iss" == k
    then set_issuer v token
    else if str "aud" == k
    then set_audience v token
    else if str "exp" == k
    then set_expiration v token
    else ok token

abbrev pub set_kid : Value → Headers → External Headers
set_kid (Value.text t) h = ok (record h { kid = t })
set_kid (Value.number z) h = err (str "invalid key identifier")

abbrev pub set_typ : Value → Headers → External Headers
set_typ (Value.text t) h = ok (record h { typ = t })
set_typ (Value.number z) h = err (str "invalid type")

abbrev pub headers_set : Str → Value → Headers → External Headers
headers_set k v h =
    if str "kid" == k then set_kid v h else if str "typ" == k then set_typ v h else ok h

abbrev pub headers_get : Str → Headers → Option Value
headers_get k h =
    if k == str "kid"
    then some (Value.text h.kid)
    else if k == str "typ"
    then some (Value.text h.typ)
    else none

-- A text with an end, before other texts.
abbrev pub write_text : Str → Str → Str
write_text [] rest = 0 ∷ rest
write_text (a ∷ t) rest = suc a ∷ write_text t rest

abbrev pub read_text : Str → Str × Str
read_text [] = ([], [])
read_text (zero ∷ rest) = ([], rest)
read_text (suc a ∷ rest) = (a ∷ (read_text rest).0, (read_text rest).1)

read_text-write_text : (t rest : Str) → read_text (write_text t rest) ≡ (t, rest)
read_text-write_text [] rest = refl
read_text-write_text (a ∷ t) rest = ap (λ out. (a ∷ out.0, out.1)) (read_text-write_text t rest)

abbrev pub write_time : ℤ → ℕ → Str
write_time (pos n) key = 0 ∷ n ∷ key ∷ []
write_time (negsuc n) key = 1 ∷ n ∷ key ∷ []

abbrev pub read_time : Str → ℤ × ℕ
read_time (zero ∷ n ∷ key ∷ _) = (pos n, key)
read_time (suc _ ∷ n ∷ key ∷ _) = (negsuc n, key)
read_time _ = (pos 0, 0)

read_time-write_time : (z : ℤ) (key : ℕ) → read_time (write_time z key) ≡ (z, key)
read_time-write_time (pos n) key = refl
read_time-write_time (negsuc n) key = refl

-- What is in a token string.
pub record Signed : Type 0 where
  pub token : Token
  pub headers : Headers
  pub number : ℕ

abbrev pub write : Signed → Str
write x = write_text x.token.issuer (
    write_text x.token.audience (
      write_text x.headers.kid (write_text x.headers.typ (write_time x.token.expiration x.number))))

abbrev pub read : Str → Signed
read t =
    let a = read_text t in
    let b = read_text a.1 in
    let c = read_text b.1 in
    let d = read_text c.1 in
    let e = read_time d.1 in
    record {
      token = record { issuer = a.0; audience = b.0; expiration = e.0 };
      headers = record { kid = c.0; typ = d.0 };
      number = e.1;
    }

pub read-write : (x : Signed) → read (write x) ≡ x
read-write x =
    let z = write_time x.token.expiration x.number in
    let d = write_text x.headers.typ z in
    let c = write_text x.headers.kid d in
    let b = write_text x.token.audience c in
    rw
      (
        read_text-write_text x.token.issuer b,
        read_text-write_text x.token.audience c,
        read_text-write_text x.headers.kid d,
        read_text-write_text x.headers.typ z,
        read_time-write_time x.token.expiration x.number,
      )
      refl
