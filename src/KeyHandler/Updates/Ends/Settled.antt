-- ===== src/KeyHandler/Updates/Ends/Settled.antt =====
-- What concurrent requests for an update come to when none can take a step.
use go_oidc_middleware.Prelude.{
  ℕ, ◌≤◌, ◌<◌, ◌≡◌, refl, ◌∙◌, ◌⊎◌, inl, inr, Option, none, some, false, [], nat_eq, ltb, arith,
  Bool-cases,
}
use go_oidc_middleware.Platform.{Platform}
use go_oidc_middleware.KeyHandler.{KeyHandler, checked_key_set, try_acquire}
use go_oidc_middleware.KeyHandler.Updates.{
  KeyUpdate, Phase, called, refused, waiting, updating, updated, returning, returned, System, move,
  Step, acquire, refuse, wait, update, start, finish, send, stop, initial,
}
use go_oidc_middleware.KeyHandler.Updates.Exclusion.{Holds}
use go_oidc_middleware.Errors.{err}
use go_oidc_middleware.KeyHandler.Updates.Ends.{IsOf, Run, idle, more, IsStuck}

module _ (p : Platform) where
  move-outside :
      (n i j : ℕ) (phase : Phase p) (phases : ℕ → Phase p)
      → i < n
      → n ≤ j
      → move p i phase phases j ≡ phases j
  unfolding move
  move-outside n i j phase phases inside outside =
      let apart : nat_eq j i ≡ false = ground arith in rw apart refl

  -- The other requests have not started.
  called-Step :
      (n j : ℕ) (s s' : System p) (next : Step p s s')
      → IsOf p n next
      → n ≤ j
      → s'.phases j ≡ s.phases j
  called-Step n j s _ (acquire i h _ _) inside = move-outside n i j updating s.phases inside
  called-Step n j s _ (refuse i _ _) inside = move-outside n i j refused s.phases inside
  called-Step n j s _ (wait i _) inside = move-outside n i j waiting s.phases inside
  called-Step n j s _ (update i fetched _) inside =
      move-outside n i j (updated (checked_key_set p s.handler fetched)) s.phases inside
  called-Step n j s _ (start i r _) inside = move-outside n i j (returning r) s.phases inside
  called-Step n j s _ (finish i r _) inside = move-outside n i j (returned r) s.phases inside
  called-Step n j s _ (send i r _ _) inside = move-outside n i j (returned r) s.phases inside
  called-Step n j s _ (stop _ _ _ _ _) inside = λ _. refl

  called-Run :
      (n j : ℕ) (h : KeyHandler p) (s : System p)
      → Run p n (initial p h) s
      → n ≤ j
      → s.phases j ≡ called
  called-Run n j h _ idle outside = refl
  called-Run n j h _ (more {s'} {s''} run next of_n) outside =
      called-Step n j s' s'' next of_n outside ∙ called-Run n j h s' run outside

  acquire-or-refuse :
      (n i : ℕ) (s : System p)
      → i < n
      → s.phases i ≡ called
      → (acquired : Option (KeyHandler p)) → try_acquire p s.handler ≡ acquired
      → ¬ IsStuck p n s
  acquire-or-refuse n i s inside at (some h) e stuck = stuck _ (acquire i h at e) inside
  acquire-or-refuse n i s inside at none e stuck = stuck _ (refuse i at e) inside

  -- What a request that can take no step has come to.
  settled :
      (n i : ℕ) (s : System p) (phase : Phase p)
      → i < n
      → IsStuck p n s
      → s.phases i ≡ phase
      → ((r : KeyUpdate p) × (s.phases i ≡ returned r)) ⊎ (s.phases i ≡ waiting)
  settled n i s called inside stuck at =
      absurd (acquire-or-refuse n i s inside at (try_acquire p s.handler) refl stuck)
  settled n i s refused inside stuck at = absurd (stuck _ (wait i at) inside)
  settled n i s waiting inside stuck at = inr at
  settled n i s updating inside stuck at = absurd (stuck _ (update i (err []) at) inside)
  settled n i s (updated r) inside stuck at = absurd (stuck _ (start i r at) inside)
  settled n i s (returning r) inside stuck at = absurd (stuck _ (finish i r at) inside)
  settled n i s (returned r) inside stuck at = inl (r, at)

  -- Nobody is between TryAcquire and Release when `n` requests can go no further.
  pub unheld-IsStuck :
      (n : ℕ) (h : KeyHandler p) (s : System p)
      → Run p n (initial p h) s
      → IsStuck p n s
      → (j : ℕ) → ¬ Holds p (s.phases j)
  unheld-IsStuck n h s run stuck j held = elim (Bool-cases (ltb j n)) [
    | inl below ↦
        let inside : j < n = ground arith in
        elim (settled n j s (s.phases j) inside stuck refl) [
          | inl (r, at) ↦ rw at at held
          | inr at ↦ rw at at held
        ]
    | inr not_below ↦ rw (called-Run n j h s run (ground arith)) at held
  ]
