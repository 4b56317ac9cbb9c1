-- ===== src/KeyHandler/Updates/Stranded.antt =====
-- Requests that wait when nobody is left to send.
use go_oidc_middleware.Prelude.{
  ℕ, ◌≡◌, ◌≢◌, sym, ap, ◌∙◌, subst, ◌⊎◌, inl, inr, some, List, [], ◌∷◌, ◌++◌, In, nat_eq, arith,
  Bool-cases,
}
use go_oidc_middleware.Platform.{Platform}
use go_oidc_middleware.KeyHandler.{try_acquire}
use go_oidc_middleware.KeyHandler.Updates.{
  Phase, called, refused, waiting, updating, System, move, Step, acquire, refuse, wait, update,
  start, finish, send, stop,
}
use go_oidc_middleware.KeyHandler.Updates.Exclusion.{Holds}

module _ (p : Platform) where
  -- The request waits, no goroutine sends, and no request is between TryAcquire and Release.
  pub record IsStranded (i : ℕ) (s : System p) : Type 0 where
    pub waits : s.phases i ≡ waiting
    pub unsent : s.senders ≡ []
    pub unheld : (j : ℕ) → ¬ Holds p (s.phases j)

  pub move-elsewhere :
      {stay : Phase p} (i j : ℕ) (phase from : Phase p) (phases : ℕ → Phase p)
      → phases j ≡ from
      → from ≢ stay
      → phases i ≡ stay
      → move p j phase phases i ≡ stay
  unfolding move
  move-elsewhere i j phase from phases at other w = elim (Bool-cases (nat_eq i j)) [
    | inl same ↦ let ij : i ≡ j = ground arith in absurd (other (sym at ∙ sym (ap phases ij) ∙ w))
    | inr apart ↦ rw apart w
  ]

  unheld-move :
      (j : ℕ) (phase : Phase p) (phases : ℕ → Phase p)
      → ¬ Holds p phase
      → ((k : ℕ) → ¬ Holds p (phases k))
      → (k : ℕ) → ¬ Holds p (move p j phase phases k)
  unfolding move
  unheld-move j phase phases free unheld k = elim (Bool-cases (nat_eq k j)) [
    | inl same ↦ rw same free
    | inr apart ↦ rw apart (unheld k)
  ]

  []-ne-insert : {A : Type 0} (before after : List A) (a : A) → [] ≢ before ++ a ∷ after
  []-ne-insert [] after a h = cc
  []-ne-insert (b ∷ before) after a h = cc

  -- A request that waits when no goroutine sends and no request updates stays so with every step,
  -- until another request takes the semaphore for an update, and it still waits then.
  pub IsStranded-Step :
      (i : ℕ) (s s' : System p)
      → IsStranded i s
      → Step p s s'
      → IsStranded i s' ⊎ ((s'.phases i ≡ waiting) × (try_acquire p s.handler ≡ some s'.handler))
  IsStranded-Step i s _ x (acquire j h at e) =
      inr (move-elsewhere i j updating called s.phases at (λ c. cc) x.waits, e)
  IsStranded-Step i s _ x (refuse j at e) = inl (record {
    waits = move-elsewhere i j refused called s.phases at (λ c. cc) x.waits;
    unsent = x.unsent;
    unheld = unheld-move j refused s.phases (λ f. f) x.unheld;
  })
  IsStranded-Step i s _ x (wait j at) = inl (record {
    waits = move-elsewhere i j waiting refused s.phases at (λ c. cc) x.waits;
    unsent = x.unsent;
    unheld = unheld-move j waiting s.phases (λ f. f) x.unheld;
  })
  IsStranded-Step i s _ x (update j fetched at) = absurd (x.unheld j (rw at tt))
  IsStranded-Step i s _ x (start j r at) = absurd (x.unheld j (rw at tt))
  IsStranded-Step i s _ x (finish j r at) = absurd (x.unheld j (rw at tt))
  IsStranded-Step i s _ x (send j r at there) = absurd (subst (In r) x.unsent there)
  IsStranded-Step i s _ x (stop before after r e _) =
      absurd ([]-ne-insert before after r (sym x.unsent ∙ e))
