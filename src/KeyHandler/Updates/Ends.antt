-- ===== src/KeyHandler/Updates/Ends.antt =====
-- Runs of the steps that some number of concurrent requests for an update take.
pub mod Bounds
pub mod Settled
pub mod Promised
pub mod Delivered
use go_oidc_middleware.Prelude.{
  ℕ, zero, suc, ◌+◌, ◌*◌, ◌≤◌, ◌<◌, ◌≡◌, refl, sym, ap, ◌∙◌, ◌⊎◌, inl, inr, Option, none, some,
  true, false, List, [], ◌∷◌, ◌++◌, length, nat_eq, ltb, arith, Bool-cases,
}
use go_oidc_middleware.Platform.{Platform}
use go_oidc_middleware.KeyHandler.{KeyHandler, checked_key_set, try_acquire}
use go_oidc_middleware.KeyHandler.Updates.{
  KeyUpdate, Phase, called, refused, waiting, updating, updated, returning, returned, System, move,
  Step, acquire, refuse, wait, update, start, finish, send, stop, initial,
}
use go_oidc_middleware.KeyHandler.Updates.Exclusion.{Holds}
use go_oidc_middleware.KeyHandler.Updates.Stranded.{IsStranded}
use go_oidc_middleware.Errors.{err}

module _ (p : Platform) where
  -- The step is one of the first `n` requests or of a goroutine that sends.
  abbrev pub IsOf : (n : ℕ) {s s' : System p} → Step p s s' → Type 0
  IsOf n (acquire i _ _ _) = i < n
  IsOf n (refuse i _ _) = i < n
  IsOf n (wait i _) = i < n
  IsOf n (update i _ _) = i < n
  IsOf n (start i _ _) = i < n
  IsOf n (finish i _ _) = i < n
  IsOf n (send i _ _ _) = i < n
  IsOf n (stop _ _ _ _ _) = Unit

  -- The steps that `n` requests take, in any order.
  pub data Run (n : ℕ) (s : System p) : System p → Type 0 where
    idle : Run n s s
    more : {s' s'' : System p} → Run n s s' → (next : Step p s' s'') → IsOf n next → Run n s s''

  abbrev pub steps : {n : ℕ} {s s' : System p} → Run n s s' → ℕ
  steps idle = 0
  steps (more run next of_n) = suc (steps run)

  -- None of the first `n` requests can take a step.
  abbrev pub IsStuck : ℕ → System p → Type 0
  IsStuck n s = (s' : System p) (next : Step p s s') → ¬ IsOf n next
