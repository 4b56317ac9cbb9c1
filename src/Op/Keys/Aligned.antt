-- ===== src/Op/Keys/Aligned.antt =====
-- The private and the public keys of the provider, side by side (optest/jwks.go).
use go_oidc_middleware.Errors.{ok-injective, err-apart}
use go_oidc_middleware.Prelude.{
  ℕ, zero, suc, ◌<◌, ◌≤◌, ◌≡◌, refl, sym, ap, subst, true, false, some, List, [], ◌∷◌, ◌++◌, arith,
  inl, inr, length, get_elem?, leb, Bool-cases, length-append,
}
use go_oidc_middleware.Errors.{Result, ok, err}
use go_oidc_middleware.Op.Keys.{
  Crypto, IsKeyed, KeyError, ◌>>=◌, attempt, JwksHandler, key_pair, append_pair, add_new_key, made,
  new_jwks_handler, tail, remove_oldest_key, remove_after, rotate_keys, last_key, get_private_key,
  get_public_key,
}
use go_oidc_middleware.Op.Keys.Pair.{>>=-eq-ok', key_pair-key_id}

module _ (c : Crypto) where
  open c use {Key, key_id}

  abbrev pub IsMatched : List Key → List Key → Type 0
  IsMatched [] [] = Unit
  IsMatched [] (q ∷ qs) = ⊥
  IsMatched (k ∷ ks) [] = ⊥
  IsMatched (k ∷ ks) (q ∷ qs) = (key_id k ≡ key_id q) × IsMatched ks qs

  -- Each private key has the key identifier of the public key at its index, and there is one.
  abbrev pub IsAligned : JwksHandler c → Type 0
  IsAligned h = IsMatched h.private_keys h.public_keys × (0 < length h.private_keys)

  IsMatched-append :
      (ks qs : List Key) (k q : Key)
      → IsMatched ks qs
      → key_id k ≡ key_id q
      → IsMatched (ks ++ k ∷ []) (qs ++ q ∷ [])
  IsMatched-append [] [] k q _ e = (e, tt)
  IsMatched-append [] (_ ∷ _) k q m e = absurd m
  IsMatched-append (_ ∷ _) [] k q m e = absurd m
  IsMatched-append (_ ∷ ks) (_ ∷ qs) k q (e', m) e = (e', IsMatched-append ks qs k q m e)

  length-IsMatched : (ks qs : List Key) → IsMatched ks qs → length ks ≡ length qs
  length-IsMatched [] [] _ = refl
  length-IsMatched [] (_ ∷ _) m = absurd m
  length-IsMatched (_ ∷ _) [] m = absurd m
  length-IsMatched (_ ∷ ks) (_ ∷ qs) (_, m) = ap suc (length-IsMatched ks qs m)

  IsMatched-tail : (ks qs : List Key) → IsMatched ks qs → IsMatched (tail c ks) (tail c qs)
  IsMatched-tail [] [] m = tt
  IsMatched-tail [] (_ ∷ _) m = absurd m
  IsMatched-tail (_ ∷ _) [] m = absurd m
  IsMatched-tail (_ ∷ ks) (_ ∷ qs) (_, m) = m

  length-tail : (ks : List Key) → 1 < length ks → 0 < length (tail c ks)
  length-tail [] h = absurd (omega arith)
  length-tail (_ ∷ ks) h = omega arith

  IsAligned-append_pair :
      (r : Result KeyError (Key × Key)) (h : JwksHandler c)
      → ((k q : Key) → r ≡ ok (k, q) → key_id k ≡ key_id q)
      → IsMatched h.private_keys h.public_keys
      → IsMatched (append_pair c r h).1.private_keys (append_pair c r h).1.public_keys
  unfolding append_pair
  IsAligned-append_pair (err e) h same m = m
  IsAligned-append_pair (ok (k, q)) h same m =
      IsMatched-append h.private_keys h.public_keys k q m (same k q refl)

  remove_oldest_key-few :
      (h : JwksHandler c)
      → length h.private_keys ≡ length h.public_keys
      → leb (length h.private_keys) 1 ≡ true
      → (remove_oldest_key c h).1 ≡ h
  unfolding remove_oldest_key
  remove_oldest_key-few h same few = ground arith

  remove_oldest_key-many :
      (h : JwksHandler c)
      → length h.private_keys ≡ length h.public_keys
      → leb (length h.private_keys) 1 ≡ false
      → (remove_oldest_key c h).1
        ≡ record { private_keys = tail c h.private_keys; public_keys = tail c h.public_keys }
  unfolding remove_oldest_key
  remove_oldest_key-many h same many = ground arith

  IsAligned-remove_oldest_key :
      (h : JwksHandler c) → IsAligned h → IsAligned (remove_oldest_key c h).1
  IsAligned-remove_oldest_key h (m, some_key) =
      let same = length-IsMatched h.private_keys h.public_keys m in
      elim (Bool-cases (leb (length h.private_keys) 1)) [
        | inl few ↦ subst IsAligned (sym (remove_oldest_key-few h same few)) (m, some_key)
        | inr many ↦ subst IsAligned (sym (remove_oldest_key-many h same many)) (
          IsMatched-tail h.private_keys h.public_keys m,
          length-tail h.private_keys (ground arith),
        )
      ]

  IsAligned-add_new_key :
      IsKeyed c
      → (h : JwksHandler c) (w : c.World) → IsMatched h.private_keys h.public_keys
      → IsMatched (add_new_key c (h, w)).1.0.private_keys (add_new_key c (h, w)).1.0.public_keys
  unfolding add_new_key
  IsAligned-add_new_key keyed h w m =
      IsAligned-append_pair (attempt (c.generate_key w).0 >>= key_pair c) h
        (λ k q e. made_pair (attempt (c.generate_key w).0) k q e) m
    where
      made_pair :
          (r : Result KeyError c.EcdsaKey) (k q : Key)
          → (r >>= key_pair c) ≡ ok (k, q)
          → key_id k ≡ key_id q
      made_pair r k q e =
          let (ecdsa_key, _, h1) = >>=-eq-ok' r (key_pair c) e in
          key_pair-key_id c keyed ecdsa_key k q h1

  get_elem?-IsMatched :
      (ks qs : List Key) (i : ℕ)
      → IsMatched ks qs
      → i < length ks
      → (k : Key) × (q : Key) × (get_elem? ks i ≡ some k)
        × (get_elem? qs i ≡ some q)
        × (key_id k ≡ key_id q)
  get_elem?-IsMatched [] qs i m h = absurd (omega arith)
  get_elem?-IsMatched (k ∷ ks) [] i m h = absurd m
  get_elem?-IsMatched (k ∷ ks) (q ∷ qs) zero (e, m) h = (k, q, refl, refl, e)
  get_elem?-IsMatched (k ∷ ks) (q ∷ qs) (suc i) (e, m) h =
      get_elem?-IsMatched ks qs i m (omega arith)

  last_key-IsMatched :
      (ks qs : List Key)
      → IsMatched ks qs
      → 0 < length ks
      → (k : Key) × (q : Key) × (last_key c ks ≡ ok k)
        × (last_key c qs ≡ ok q)
        × (key_id k ≡ key_id q)
  unfolding last_key
  last_key-IsMatched [] qs m h = absurd (omega arith)
  last_key-IsMatched (k ∷ ks) [] m h = absurd m
  last_key-IsMatched (k ∷ ks) (q ∷ qs) (e, m) h =
      let (a, b, ea, eb, same) =
        get_elem?-IsMatched (k ∷ ks) (q ∷ qs) (length ks) (e, m) (omega arith) in
      (a, b, ground (arith, ea), ground (arith, eb, length-IsMatched ks qs m), same)

  length-append_pair :
      (r : Result KeyError (Key × Key)) (h : JwksHandler c)
      → length h.private_keys ≤ length (append_pair c r h).1.private_keys
  unfolding append_pair
  length-append_pair (err e) h = omega arith
  length-append_pair (ok (k, q)) h = omega (arith, length-append h.private_keys (k ∷ []))

  IsAligned-remove_after :
      (out : Result KeyError Unit × (JwksHandler c × c.World))
      → IsAligned out.1.0
      → IsAligned (remove_after c out).1.0
  IsAligned-remove_after (err e, s) a = a
  IsAligned-remove_after (ok _, (h, w)) a = IsAligned-remove_oldest_key h a

  -- If a key reads back the identifier that it is set, and keeps it when its algorithm is set,
  -- then a rotation, successful or not, leaves the private and public keys in step, with one to
  -- sign with, where they were so before.
  pub rotate_keys-IsAligned :
      IsKeyed c
      → (h : JwksHandler c) (w : c.World) → IsAligned h
      → IsAligned (rotate_keys c (h, w)).1.0
  unfolding rotate_keys add_new_key
  rotate_keys-IsAligned keyed h w (m, some_key) = IsAligned-remove_after (add_new_key c (h, w)) (
    IsAligned-add_new_key keyed h w m,
    (let r = attempt (c.generate_key w).0 >>= key_pair c in
        let grown = length-append_pair r h in omega (arith, grown)),
  )

  new_jwks_handler-made :
      (out : Result KeyError Unit × (JwksHandler c × c.World)) (h : JwksHandler c)
      → IsMatched out.1.0.private_keys out.1.0.public_keys
      → (out.0 ≡ ok tt → 0 < length out.1.0.private_keys)
      → (made c out).0 ≡ ok h
      → IsAligned h
  new_jwks_handler-made (err e, s) h m grown e' = absurd (err-apart e')
  new_jwks_handler-made (ok _, (h', w)) h m grown e =
      subst IsAligned (ok-injective e) (m, grown refl)

  append_pair-nonempty :
      (r : Result KeyError (Key × Key)) (h : JwksHandler c)
      → (append_pair c r h).0 ≡ ok tt
      → 0 < length (append_pair c r h).1.private_keys
  unfolding append_pair
  append_pair-nonempty (err e) h h' = absurd (err-apart h')
  append_pair-nonempty (ok (k, q)) h _ = omega (arith, length-append h.private_keys (k ∷ []))

  -- Under the same condition on keys, a new handler has its private and public keys in step, and
  -- one to sign with.
  pub new_jwks_handler-IsAligned :
      IsKeyed c → (w : c.World) (h : JwksHandler c) → (new_jwks_handler c w).0 ≡ ok h → IsAligned h
  unfolding new_jwks_handler add_new_key
  new_jwks_handler-IsAligned keyed w h e =
      let empty : JwksHandler c = record { private_keys = []; public_keys = [] } in
      new_jwks_handler-made (add_new_key c (empty, w)) h (IsAligned-add_new_key keyed empty w tt)
        (append_pair-nonempty (attempt (c.generate_key w).0 >>= key_pair c) empty) e

  -- Where the keys are in step, with one to sign with, the current private and public key are
  -- found and have the same identifier.
  pub get_private_key-get_public_key :
      (h : JwksHandler c)
      → IsAligned h
      → (k : Key) × (q : Key) × (get_private_key c h ≡ ok k)
        × (get_public_key c h ≡ ok q)
        × (key_id k ≡ key_id q)
  unfolding get_private_key get_public_key
  get_private_key-get_public_key h (m, some_key) =
      last_key-IsMatched h.private_keys h.public_keys m some_key
