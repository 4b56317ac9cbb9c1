-- ===== src/Op/Keys/Single.antt =====
-- The provider signs with one pair of keys at a time (optest/jwks.go).
use go_oidc_middleware.Prelude.{◌≡◌, refl, ap, subst, List, [], ◌∷◌, arith}
use go_oidc_middleware.Errors.{Result, ok, err, ok-injective, err-apart}
use go_oidc_middleware.Op.Keys.{
  Crypto, KeyError, ◌>>=◌, attempt, JwksHandler, key_pair, append_pair, add_new_key, made,
  new_jwks_handler, remove_oldest_key, remove_after, rotate_keys, get_private_key, last_key,
}
use go_oidc_middleware.Op.Keys.Aligned.{IsAligned}
use go_oidc_middleware.Op.Keys.Pair.{>>=-eq-ok'}

module _ (c : Crypto) (R : c.Key → c.Key → Type 0) where
  open c use {Key}

  -- `addNewKey` makes pairs of keys that are so related.
  abbrev pub IsMadePair : Type 0
  IsMadePair = (e : c.EcdsaKey) (k q : Key) → key_pair c e ≡ ok (k, q) → R k q

  -- One private key and one public key, a pair that `addNewKey` has made.
  pub record IsSingle (h : JwksHandler c) : Type 0 where
    pub private : Key
    pub public : Key
    pub signs : h.private_keys ≡ private ∷ []
    pub shown : h.public_keys ≡ public ∷ []
    pub related : R private public

  abbrev single : Key → Key → JwksHandler c
  single k q = record { private_keys = k ∷ []; public_keys = q ∷ [] }

  single-IsSingle : (k q : Key) → R k q → IsSingle (single k q)
  single-IsSingle k q r = record {
    private = k;
    public = q;
    signs = refl;
    shown = refl;
    related = r;
  }

  generated-related :
      IsMadePair
      → (r : Result KeyError c.EcdsaKey) (k q : Key) → (r >>= key_pair c) ≡ ok (k, q)
      → R k q
  generated-related pairs r k q e =
      let (ecdsa_key, _, h) = >>=-eq-ok' r (key_pair c) e in pairs ecdsa_key k q h

  rotated-IsSingle :
      (r : Result KeyError (Key × Key)) (k q : Key) (w : c.World)
      → ((k' q' : Key) → r ≡ ok (k', q') → R k' q')
      → R k q
      → IsSingle
          (remove_after c
            ((append_pair c r (single k q)).0, ((append_pair c r (single k q)).1, w))).1.0
  unfolding append_pair remove_oldest_key
  rotated-IsSingle (err e) k q w pairs r = single-IsSingle k q r
  rotated-IsSingle (ok (k', q')) k q w pairs r = single-IsSingle k' q' (pairs k' q' refl)

  -- A rotation, successful or not, leaves one pair.
  pub rotate_keys-IsSingle :
      IsMadePair
      → (h : JwksHandler c) (w : c.World) → IsSingle h
      → IsSingle (rotate_keys c (h, w)).1.0
  unfolding rotate_keys add_new_key
  rotate_keys-IsSingle pairs h w x =
      let one : single x.private x.public ≡ h =
        ap (λ (keys : List Key × List Key). record { private_keys = keys.0; public_keys = keys.1 })
          (ground (arith, x.signs, x.shown)) in
      subst (λ g. IsSingle (rotate_keys c (g, w)).1.0) one
        (rotated-IsSingle (attempt (c.generate_key w).0 >>= key_pair c) x.private x.public
          (c.generate_key w).1
          (λ k q e. generated-related pairs (attempt (c.generate_key w).0) k q e) x.related)

  appended-IsSingle :
      (r : Result KeyError (Key × Key)) (w : c.World) (h : JwksHandler c)
      → ((k q : Key) → r ≡ ok (k, q) → R k q)
      → (made c (
        (append_pair c r (record { private_keys = []; public_keys = [] })).0,
        ((append_pair c r (record { private_keys = []; public_keys = [] })).1, w),
      )).0
        ≡ ok h
      → IsSingle h
  unfolding append_pair
  appended-IsSingle (err e) w h pairs e' = absurd (err-apart e')
  appended-IsSingle (ok (k, q)) w h pairs e' =
      subst IsSingle (ok-injective e') (single-IsSingle k q (pairs k q refl))

  -- A new handler has one pair.
  pub new_jwks_handler-IsSingle :
      IsMadePair → (w : c.World) (h : JwksHandler c) → (new_jwks_handler c w).0 ≡ ok h → IsSingle h
  unfolding new_jwks_handler add_new_key
  new_jwks_handler-IsSingle pairs w h e =
      appended-IsSingle (attempt (c.generate_key w).0 >>= key_pair c) (c.generate_key w).1 h
        (λ k q e'. generated-related pairs (attempt (c.generate_key w).0) k q e') e

  -- It signs with the private key of the pair.
  pub get_private_key-IsSingle :
      (h : JwksHandler c) (x : IsSingle h) → get_private_key c h ≡ ok x.private
  unfolding get_private_key last_key
  get_private_key-IsSingle h x = rw x.signs refl

  -- With identifiers that agree, the keys are in step.
  pub IsAligned-IsSingle :
      ((k q : Key) → R k q → c.key_id k ≡ c.key_id q)
      → (h : JwksHandler c) → IsSingle h
      → IsAligned c h
  IsAligned-IsSingle named h x =
      rw (x.signs, x.shown) ((named x.private x.public x.related, tt), omega arith)
