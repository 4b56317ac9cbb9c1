-- ===== src/Op/Keys/Pair.antt =====
-- The pair of keys that `addNewKey` of optest/jwks.go makes.
use go_oidc_middleware.Prelude.{◌≡◌, refl, sym, ap, ◌∙◌}
use go_oidc_middleware.Text.{Str, str}
use go_oidc_middleware.Errors.{Result, ok, err, External}
use go_oidc_middleware.Op.Keys.{
  Crypto, IsKeyed, KeyError, not_ecdsa_private, not_ecdsa_public, ◌>>=◌, attempt, expect, key_pair,
}

pub >>=-eq-ok' :
    {A B : Type 0}
    → (r : Result KeyError A) (f : A → Result KeyError B) {b : B} → (r >>= f) ≡ ok b
    → (a : A) × (r ≡ ok a) × (f a ≡ ok b)
unfolding ◌>>=◌
>>=-eq-ok' (ok a) f h = (a, refl, h)
>>=-eq-ok' (err e) f h = cc

pub ok-pair :
    {A B : Type 0} {a a' : A} {b b' : B}
    → Path (Result KeyError (A × B)) (ok (a, b)) (ok (a', b'))
    → (a ≡ a') × (b ≡ b')
ok-pair h = (cc, cc)

pub attempt-ok : {A : Type 0} → (r : External A) {a : A} → attempt r ≡ ok a → r ≡ ok a
attempt-ok (ok a) h = cc
attempt-ok (err text) h = cc

module _ (c : Crypto) where
  open c use {Key, key_id}

  -- The steps by which a pair is made.
  pub record IsPairOf (e : c.EcdsaKey) (k q : Key) : Type 0 where
    pub key : Key
    pub private : c.new_private e ≡ ok key
    pub kid : Str
    pub thumbprint : c.thumbprint_hex key ≡ ok kid
    pub named : c.set_key_id kid key ≡ ok k
    pub pub_key : Key
    pub public : c.new_public e ≡ ok pub_key
    pub pub_key' : Key
    pub public_named : c.set_key_id kid pub_key ≡ ok pub_key'
    pub with_algorithm : c.set_algorithm (str "ES384") pub_key' ≡ ok q

  pub key_pair-IsPairOf : (e : c.EcdsaKey) (k q : Key) → key_pair c e ≡ ok (k, q) → IsPairOf e k q
  unfolding key_pair ◌>>=◌
  key_pair-IsPairOf e k q h =
      let (key, private, h1) = >>=-eq-ok' (attempt (c.new_private e)) _ h in
      let (_, _, h2) = >>=-eq-ok' (expect (c.is_ecdsa_private key) not_ecdsa_private) _ h1 in
      let (kid, thumbprint, h3) = >>=-eq-ok' (attempt (c.thumbprint_hex key)) _ h2 in
      let (key', named, h4) = >>=-eq-ok' (attempt (c.set_key_id kid key)) _ h3 in
      let (pub_key, public, h5) = >>=-eq-ok' (attempt (c.new_public e)) _ h4 in
      let (_, _, h6) = >>=-eq-ok' (expect (c.is_ecdsa_public pub_key) not_ecdsa_public) _ h5 in
      let (pub_key', named', h7) = >>=-eq-ok' (attempt (c.set_key_id kid pub_key)) _ h6 in
      let (pub_key'', kept, h8) =
        >>=-eq-ok' (attempt (c.set_algorithm (str "ES384") pub_key')) _ h7 in
      let (same, same') = ok-pair h8 in
      record {
        key = key;
        private = attempt-ok (c.new_private e) private;
        kid = kid;
        thumbprint = attempt-ok (c.thumbprint_hex key) thumbprint;
        named = attempt-ok (c.set_key_id kid key) named ∙ ap ok same;
        pub_key = pub_key;
        public = attempt-ok (c.new_public e) public;
        pub_key' = pub_key';
        public_named = attempt-ok (c.set_key_id kid pub_key) named';
        with_algorithm = attempt-ok (c.set_algorithm (str "ES384") pub_key') kept ∙ ap ok same';
      }

  pub key_pair-key_id :
      IsKeyed c → (e : c.EcdsaKey) (k q : Key) → key_pair c e ≡ ok (k, q) → key_id k ≡ key_id q
  key_pair-key_id keyed e k q h =
      let x = key_pair-IsPairOf e k q h in
      keyed.named x.kid x.key k x.named
      ∙ sym (keyed.named x.kid x.pub_key x.pub_key' x.public_named)
      ∙ sym (keyed.kept (str "ES384") x.pub_key' q x.with_algorithm)
