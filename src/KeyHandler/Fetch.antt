-- ===== src/KeyHandler/Fetch.antt =====
-- Updates of the key set by one request: `updateKeySet` and `waitForUpdateKeySetAndGetKeySet` of
-- internal/oidc/keyhandler.go.
use go_oidc_middleware.Prelude.{
  ◌+◌, ◌<◌, ◌≡◌, ◌≢◌, ◌⊎◌, refl, true, some, arith, inl, inr, Bool-cases, ◌&&◌, not, nat_eq,
}
use go_oidc_middleware.Text.{Str}
use go_oidc_middleware.Errors.{
  Error, IsPanic, unable_to_fetch_keys, key_set_not_single, external, Result, ok, err,
}
use go_oidc_middleware.Platform.{Platform}
use go_oidc_middleware.KeyHandler.{
  KeyHandler, checked_key_set, store_key_set, update_key_set, try_acquire, release,
  wait_for_update_key_set_and_get_key_set,
}

module _ (p : Platform) where
  open p use {
    Key, KeySet, World, HttpClient, set_len, set_get, jwk_fetch, limiter_new, limiter_take,
  }

  -- A handler that serves requests: it holds a key set, of one key if key identifiers are
  -- disabled, and nobody is updating it.
  pub record IsReady (h : KeyHandler p) : Type 0 where
    pub key_set : KeySet
    pub held : h.key_set ≡ some key_set
    pub single : h.disable_key_id ≡ true → set_len key_set ≡ 1
    pub idle : h.key_update_semaphore ≡ 0
    pub updated : 0 < h.key_update_count

  -- The settings of a handler, which no operation changes.
  abbrev pub SameSettings : KeyHandler p → KeyHandler p → Type 0
  SameSettings h h' =
      (h'.jwks_uri ≡ h.jwks_uri)
      × (h'.disable_key_id ≡ h.disable_key_id)
      × (h'.fetch_timeout ≡ h.fetch_timeout)

  -- What `updateKeySet` does: on success the fetched set is stored, counted and returned, and it has
  -- one key if key identifiers are disabled; on failure the handler is as before.
  abbrev pub Updated : KeyHandler p → Result Error KeySet → KeyHandler p → Type 0
  Updated h (ok key_set) h' =
      (h' ≡ record h { key_set = some key_set; key_update_count = h.key_update_count + 1 })
      × (h.disable_key_id ≡ true → set_len key_set ≡ 1)
  Updated h (err e) h' = (h' ≡ h) × (¬ IsPanic e)

  Updated-checked :
      (h : KeyHandler p) (fetched : Result Str KeySet)
      → Updated h (checked_key_set p h fetched) (store_key_set p h (checked_key_set p h fetched))
  unfolding checked_key_set store_key_set
  Updated-checked h (err text) = (refl, λ x. x)
  Updated-checked h (ok key_set) =
      elim (Bool-cases (h.disable_key_id && not (nat_eq (set_len key_set) 1))) [
        | inl refused ↦ rw refused (refl, λ x. x)
        | inr accepted ↦ rw accepted (refl, ground arith)
      ]

  pub update_key_set-Updated :
      (h : KeyHandler p) (w : World)
      → Updated h (update_key_set p (h, w)).0 (update_key_set p (h, w)).1.0
  unfolding update_key_set
  update_key_set-Updated h w =
      Updated-checked h (jwk_fetch h.http_client h.jwks_uri h.fetch_timeout w).0

  Updated-release :
      (h : KeyHandler p) (r : Result Error KeySet) (h' : KeyHandler p)
      → h.key_update_semaphore ≡ 0
      → Updated (record h { key_update_semaphore = 1 }) r h'
      → Updated h r (release p h')
  unfolding release
  Updated-release h (ok key_set) h' idle (e, single) = (rw e (ground arith), single)
  Updated-release h (err e) h' idle (e', safe) = (rw e' (ground arith), safe)

  try_acquire-idle :
      (h : KeyHandler p)
      → h.key_update_semaphore ≡ 0
      → try_acquire p h ≡ some (record h { key_update_semaphore = 1 })
  unfolding try_acquire
  try_acquire-idle h idle = rw idle

  pub wait_for_update_key_set_and_get_key_set-Updated :
      (h : KeyHandler p) (w : World)
      → h.key_update_semaphore ≡ 0
      → Updated h
          (wait_for_update_key_set_and_get_key_set p (h, w)).0
          (wait_for_update_key_set_and_get_key_set p (h, w)).1.0
  unfolding wait_for_update_key_set_and_get_key_set
  wait_for_update_key_set_and_get_key_set-Updated h w idle =
      let taken : KeyHandler p = record h { key_update_semaphore = 1 } in
      let w' = limiter_take h.key_update_limiter w in
      rw (try_acquire-idle h idle, wait_for_update_key_set_and_get_key_set)
        (Updated-release h (update_key_set p (taken, w')).0 (update_key_set p (taken, w')).1.0 idle
          (update_key_set-Updated taken w'))

  -- How the answer of one fetch decides what an update returns and what the handler is then.
  abbrev pub Decided :
      KeyHandler p → Result Str KeySet → Result Error KeySet → KeyHandler p → Type 0
  Decided h (err text) result h' =
      (result ≡ err (unable_to_fetch_keys h.jwks_uri (external text))) × (h' ≡ h)
  Decided h (ok key_set) result h' =
      ((h.disable_key_id ≡ true → set_len key_set ≡ 1)
        × (result ≡ ok key_set)
        × (h' ≡ record h { key_set = some key_set; key_update_count = h.key_update_count + 1 }))
      ⊎ ((h.disable_key_id ≡ true)
          × (set_len key_set ≢ 1)
          × (result ≡ err (key_set_not_single (set_len key_set)))
          × (h' ≡ h))

  Decided-checked :
      (h : KeyHandler p) (fetched : Result Str KeySet)
      → h.key_update_semaphore ≡ 0
      → (let taken : KeyHandler p = record h { key_update_semaphore = 1 } in
          let result = checked_key_set p taken fetched in
          Decided h fetched result (release p (store_key_set p taken result)))
  unfolding checked_key_set store_key_set release
  Decided-checked h (err text) idle = (refl, ground arith)
  Decided-checked h (ok key_set) idle =
      elim (Bool-cases (h.disable_key_id && not (nat_eq (set_len key_set) 1))) [
        | inl refused ↦ rw refused (inr (ground arith, ground arith, refl, ground arith))
        | inr accepted ↦ rw accepted (inl (ground arith, refl, ground arith))
      ]

  -- Without another update in progress a request takes its turn at the limiter and fetches the key
  -- set once, from the handler's address. A fetched set that has one key, or any set if key
  -- identifiers are enabled, is returned, stored and counted; another set is an error that tells
  -- its length, and a failed fetch an error that wraps the cause, and then the handler is as
  -- before. The semaphore is free again, and nothing else happens to the world.
  pub wait_for_update_key_set_and_get_key_set-Decided :
      (h : KeyHandler p) (w : World)
      → h.key_update_semaphore ≡ 0
      → (let (fetched, after) =
            jwk_fetch h.http_client h.jwks_uri h.fetch_timeout
              (limiter_take h.key_update_limiter w) in
          let out = wait_for_update_key_set_and_get_key_set p (h, w) in
          Decided h fetched out.0 out.1.0 × (out.1.1 ≡ after))
  unfolding wait_for_update_key_set_and_get_key_set update_key_set
  wait_for_update_key_set_and_get_key_set-Decided h w idle =
      let w' = limiter_take h.key_update_limiter w in
      let fetched = (jwk_fetch h.http_client h.jwks_uri h.fetch_timeout w').0 in
      rw (try_acquire-idle h idle, wait_for_update_key_set_and_get_key_set)
        (Decided-checked h fetched idle, refl)
