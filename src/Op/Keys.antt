-- ===== src/Op/Keys.antt =====
-- optest/jwks.go: the signing keys of the provider and their rotation (`RotateKeys` of
-- optest/optest.go). The lock serialises the operations and is left out.
pub mod Pair
pub mod Aligned
pub mod Single
use go_oidc_middleware.Prelude.{
  ℕ, ◌+◌, ◌<◌, ◌≤◌, ◌≡◌, refl, sym, ap, ◌∙◌, Bool, true, false, not, Option, none, some, List, [],
  ◌∷◌, ◌++◌, arith, inl, inr, length, get_elem?, nat_eq, leb, if◌then◌else◌, Bool-cases,
  length-append, ◌-◌, suc, zero,
}
use go_oidc_middleware.Text.{Str, str}
use go_oidc_middleware.Errors.{Result, ok, err, External, Result-cases}

-- The packages crypto, ecdsa and jwk.
pub record Crypto : Type 1 where
  pub EcdsaKey : Type 0
  pub Key : Type 0
  pub KeySet : Type 0
  pub World : Type 0
  pub generate_key : World → External EcdsaKey × World
  pub new_private : EcdsaKey → External Key
  pub new_public : EcdsaKey → External Key
  pub is_ecdsa_private : Key → Bool
  pub is_ecdsa_public : Key → Bool
  -- the thumbprint by SHA-256, printed in hexadecimal
  pub thumbprint_hex : Key → External Str
  pub set_key_id : Str → Key → External Key
  pub set_algorithm : Str → Key → External Key
  pub key_id : Key → Str
  pub new_set : KeySet
  pub set_add : Key → KeySet → KeySet

-- jwk.Key's documented `Set`: the key identifier set is the one read, and setting the algorithm
-- leaves it.
pub record IsKeyed (c : Crypto) : Type 0 where
  pub named : (kid : Str) (k k' : c.Key) → c.set_key_id kid k ≡ ok k' → c.key_id k' ≡ kid
  pub kept : (alg : Str) (k k' : c.Key) → c.set_algorithm alg k ≡ ok k' → c.key_id k' ≡ c.key_id k

pub data KeyError : Type 0 where
  external : Str → KeyError
  not_ecdsa_private : KeyError
  not_ecdsa_public : KeyError
  lengths_differ : ℕ → ℕ → KeyError
  too_few_keys : ℕ → KeyError
  index_out_of_range : KeyError

unfoldable pub ◌>>=◌ :
    {A B : Type 0} → Result KeyError A → (A → Result KeyError B) → Result KeyError B
ok a >>= f = f a
err e >>= f = err e

infixl 50 ◌>>=◌
abbrev pub attempt : {A : Type 0} → External A → Result KeyError A
attempt (ok a) = ok a
attempt (err text) = err (external text)

abbrev pub expect : Bool → KeyError → Result KeyError Unit
expect true e = ok tt
expect false e = err e

module _ (c : Crypto) where
  open c use {
    EcdsaKey, Key, KeySet, World, generate_key, new_private, new_public, is_ecdsa_private,
    is_ecdsa_public, thumbprint_hex, set_key_id, set_algorithm, key_id, new_set, set_add,
  }

  pub record JwksHandler : Type 0 where
    pub private_keys : List Key
    pub public_keys : List Key

  -- `addNewKey` between the generation and the lock: the private and the public key.
  unfoldable pub key_pair : EcdsaKey → Result KeyError (Key × Key)
  key_pair ecdsa_key = do
    key ← attempt (new_private ecdsa_key)
    _ ← expect (is_ecdsa_private key) not_ecdsa_private
    kid ← attempt (thumbprint_hex key)
    key' ← attempt (set_key_id kid key)
    pub_key ← attempt (new_public ecdsa_key)
    _ ← expect (is_ecdsa_public pub_key) not_ecdsa_public
    pub_key' ← attempt (set_key_id kid pub_key)
    pub_key'' ← attempt (set_algorithm (str "ES384") pub_key')
    ok (key', pub_key'')

  unfoldable pub append_pair :
      Result KeyError (Key × Key) → JwksHandler → Result KeyError Unit × JwksHandler
  append_pair (err e) h = (err e, h)
  append_pair (ok (key, pub_key)) h = (
    ok tt,
    record {
      private_keys = h.private_keys ++ key ∷ [];
      public_keys = h.public_keys ++ pub_key ∷ [];
    },
  )

  unfoldable pub add_new_key : JwksHandler × World → Result KeyError Unit × (JwksHandler × World)
  add_new_key (h, w) =
      let (generated, w') = generate_key w in
      let (r, h') = append_pair (attempt generated >>= key_pair) h in (r, (h', w'))

  abbrev pub made :
      Result KeyError Unit × (JwksHandler × World) → Result KeyError JwksHandler × World
  made (ok _, (h, w)) = (ok h, w)
  made (err e, (h, w)) = (err e, w)

  unfoldable pub new_jwks_handler : World → Result KeyError JwksHandler × World
  new_jwks_handler w = made (add_new_key (record { private_keys = []; public_keys = [] }, w))

  -- `keys[1:]`, of a list that is not empty
  abbrev pub tail : List Key → List Key
  tail [] = []
  tail (key ∷ keys) = keys

  unfoldable pub remove_oldest_key : JwksHandler → Result KeyError Unit × JwksHandler
  remove_oldest_key h =
      if not (nat_eq (length h.private_keys) (length h.public_keys))
      then (err (lengths_differ (length h.private_keys) (length h.public_keys)), h)
      else if leb (length h.private_keys) 1
      then (err (too_few_keys (length h.private_keys)), h)
      else (ok tt, record { private_keys = tail h.private_keys; public_keys = tail h.public_keys })

  -- `RotateKeys`
  abbrev pub remove_after :
      Result KeyError Unit × (JwksHandler × World) → Result KeyError Unit × (JwksHandler × World)
  remove_after (err e, s) = (err e, s)
  remove_after (ok _, (h, w)) = let (r, h') = remove_oldest_key h in (r, (h', w))

  unfoldable pub rotate_keys : JwksHandler × World → Result KeyError Unit × (JwksHandler × World)
  rotate_keys s = remove_after (add_new_key s)

  -- `keys[len(keys)-1]`, which panics on an empty list
  unfoldable pub last_key : List Key → Result KeyError Key
  last_key [] = err index_out_of_range
  last_key (key ∷ keys) = elim (get_elem? (key ∷ keys) (length keys)) [
    | none ↦ err index_out_of_range
    | some k ↦ ok k
  ]

  unfoldable pub get_private_key : JwksHandler → Result KeyError Key
  unfolding last_key
  get_private_key h = last_key h.private_keys

  unfoldable pub get_public_key : JwksHandler → Result KeyError Key
  unfolding last_key
  get_public_key h = last_key h.public_keys

  abbrev pub add_all : List Key → KeySet → KeySet
  add_all [] key_set = key_set
  add_all (key ∷ keys) key_set = add_all keys (set_add key key_set)

  unfoldable pub get_public_key_set : JwksHandler → KeySet
  get_public_key_set h = add_all h.public_keys new_set
