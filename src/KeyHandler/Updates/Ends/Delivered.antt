-- ===== src/KeyHandler/Updates/Ends/Delivered.antt =====
-- Requests that wait while another one updates the key set: the goroutine that
-- `waitForUpdateKeySetAndGetKeySet` of internal/oidc/keyhandler.go starts, and its Release.
use go_oidc_middleware.Prelude.{ℕ, ◌<◌, ◌≡◌, refl, subst, inl, inr, List, [], ◌∷◌, In}
use go_oidc_middleware.Errors.{err}
use go_oidc_middleware.Platform.{Platform}
use go_oidc_middleware.KeyHandler.{KeyHandler}
use go_oidc_middleware.KeyHandler.Updates.{
  KeyUpdate, Phase, called, refused, waiting, updating, updated, returning, returned, System,
  update, start, send, initial, Reachable, here, step,
}
use go_oidc_middleware.KeyHandler.Updates.Exclusion.{Reachable-IsExclusive}
use go_oidc_middleware.KeyHandler.Updates.Results.{IsAmong, Reachable-IsGenuine}
use go_oidc_middleware.KeyHandler.Updates.Ends.{Run, idle, more, IsStuck}
use go_oidc_middleware.KeyHandler.Updates.Ends.Settled.{unheld-IsStuck}
use go_oidc_middleware.KeyHandler.Updates.Ends.Promised.{
  IsUnsent, IsReturned, Promised, Promised-Run,
}

module _ (p : Platform) where
  IsUnsent-unstuck :
      (n j : ℕ) (s : System p) (phase : Phase p)
      → j < n
      → IsStuck p n s
      → s.phases j ≡ phase
      → ¬ IsUnsent p phase
  IsUnsent-unstuck n j s updating inside stuck at x = stuck _ (update j (err []) at) inside
  IsUnsent-unstuck n j s (updated r) inside stuck at x = stuck _ (start j r at) inside
  IsUnsent-unstuck n j s called inside stuck at x = x
  IsUnsent-unstuck n j s refused inside stuck at x = x
  IsUnsent-unstuck n j s waiting inside stuck at x = x
  IsUnsent-unstuck n j s (returning r) inside stuck at x = x
  IsUnsent-unstuck n j s (returned r) inside stuck at x = x

  sending-unstuck :
      (n i : ℕ) (s : System p) (senders : List (KeyUpdate p))
      → i < n
      → IsStuck p n s
      → s.phases i ≡ waiting
      → s.senders ≡ senders
      → senders ≡ []
  sending-unstuck n i s [] inside stuck waits e = refl
  sending-unstuck n i s (r ∷ senders) inside stuck waits e =
      absurd (stuck _ (send i r waits (rw e (inl refl))) inside)

  Promised-IsStuck :
      (n i j : ℕ) (s : System p)
      → i < n
      → j < n
      → IsStuck p n s
      → Promised p i j s.phases s.senders
      → IsReturned p i s.phases
  Promised-IsStuck n i j s inside inside' stuck (inl back) = back
  Promised-IsStuck n i j s inside inside' stuck (inr (waits, inl x)) =
      absurd (IsUnsent-unstuck n j s (s.phases j) inside' stuck refl x)
  Promised-IsStuck n i j s inside inside' stuck (inr (waits, inr x)) =
      absurd (x (sending-unstuck n i s s.senders inside stuck waits refl))

  Run-Run : (n : ℕ) (a b c : System p) → Run p n a b → Run p n b c → Run p n a c
  Run-Run n a b _ run idle = run
  Run-Run n a b _ run (more {s'} {s''} run' next of_n) = more (Run-Run n a b s' run run') next of_n

  Run-Reachable :
      (n : ℕ) (h : KeyHandler p) (s : System p) → Run p n (initial p h) s → Reachable p h s
  Run-Reachable n h _ idle = here
  Run-Reachable n h _ (more {s'} {s''} run next of_n) = step (Run-Reachable n h s' run) next

  free-IsStuck :
      (n : ℕ) (h : KeyHandler p) (s : System p)
      → h.key_update_semaphore ≡ 0
      → Run p n (initial p h) s
      → IsStuck p n s
      → s.handler.key_update_semaphore ≡ 0
  free-IsStuck n h s free run stuck =
      elim (Reachable-IsExclusive p h s free (Run-Reachable n h s run)) [
        | inl (unused, _) ↦ unused
        | inr (_, k, held, _) ↦ absurd (unheld-IsStuck p n h s run stuck k held)
      ]

  -- Of `n` concurrent requests, started with a free semaphore: one that waits while another updates
  -- the key set, or has updated it and not yet started to send, has returned the result of an
  -- update whenever the requests can go no further, in whatever order they went; the semaphore is
  -- free then.
  pub IsStuck-delivered :
      (n i j : ℕ) (h : KeyHandler p) (s s' : System p)
      → h.key_update_semaphore ≡ 0
      → Run p n (initial p h) s
      → i < n
      → j < n
      → s.phases i ≡ waiting
      → IsUnsent p (s.phases j)
      → Run p n s s'
      → IsStuck p n s'
      → ((r : KeyUpdate p) × (s'.phases i ≡ returned r) × In r s'.history)
        × (s'.handler.key_update_semaphore ≡ 0)
  IsStuck-delivered n i j h s s' free before inside inside' waits unsent run stuck =
      let whole = Run-Run n (initial p h) s s' before run in
      let promised = Promised-Run p n i j s s' run (inr (waits, inl unsent)) in
      let (r, back) = Promised-IsStuck n i j s' inside inside' stuck promised in
      let genuine = Reachable-IsGenuine p h s' (Run-Reachable n h s' whole) in
      (
        (r, back, subst (IsAmong p s'.history) back (genuine.carried i)),
        free-IsStuck n h s' free whole stuck,
      )
