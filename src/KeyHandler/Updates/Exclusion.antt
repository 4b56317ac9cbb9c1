-- ===== src/KeyHandler/Updates/Exclusion.antt =====
-- The semaphore of concurrent updates.
use go_oidc_middleware.Prelude.{some-injective}
use go_oidc_middleware.Prelude.{
  ℕ, ◌≡◌, ◌≢◌, refl, sym, ap, subst, true, ◌∙◌, ◌⊎◌, inl, inr, none, some, List, ◌∷◌, nat_eq, arith,
  Bool-cases,
}
use go_oidc_middleware.Errors.{ok, err}
use go_oidc_middleware.Platform.{Platform}
use go_oidc_middleware.KeyHandler.{KeyHandler, checked_key_set, store_key_set, try_acquire, release}
use go_oidc_middleware.KeyHandler.Updates.{
  KeyUpdate, Phase, called, refused, waiting, updating, updated, returning, returned, System, move,
  Step, acquire, refuse, wait, update, start, finish, send, stop, Reachable, here, step,
}

module _ (p : Platform) where
  -- The request is between TryAcquire and Release.
  abbrev pub Holds : Phase p → Type 0
  Holds called = ⊥
  Holds refused = ⊥
  Holds waiting = ⊥
  Holds updating = Unit
  Holds (updated r) = Unit
  Holds (returning r) = Unit
  Holds (returned r) = ⊥

  -- The semaphore is free and no request holds it, or it is taken and exactly one request does.
  abbrev pub IsExclusive : System p → Type 0
  IsExclusive s =
      ((s.handler.key_update_semaphore ≡ 0) × ((j : ℕ) → ¬ Holds (s.phases j)))
      ⊎ ((s.handler.key_update_semaphore ≡ 1)
          × (i : ℕ) × Holds (s.phases i)
          × ((j : ℕ) → Holds (s.phases j) → j ≡ i))

  move-other :
      (i : ℕ) (phase : Phase p) (phases : ℕ → Phase p) (j : ℕ)
      → ¬ Holds phase
      → Holds (move p i phase phases j)
      → Holds (phases j) × (j ≢ i)
  unfolding move
  move-other i phase phases j free h = elim (Bool-cases (nat_eq j i)) [
    | inl same ↦ absurd (free (rw (same, move) at h))
    | inr other ↦ (rw (other, move) at h, ground arith)
  ]

  move-any :
      (i : ℕ) (phase : Phase p) (phases : ℕ → Phase p) (j : ℕ)
      → Holds (move p i phase phases j)
      → (j ≡ i) ⊎ Holds (phases j)
  unfolding move
  move-any i phase phases j h = elim (Bool-cases (nat_eq j i)) [
    | inl same ↦ inl (ground arith)
    | inr other ↦ inr (rw (other, move) at h)
  ]

  move-kept :
      (i : ℕ) (phase : Phase p) (phases : ℕ → Phase p) (j : ℕ)
      → ¬ Holds (phases i)
      → Holds (phases j)
      → Holds (move p i phase phases j)
  unfolding move
  move-kept i phase phases j free h = elim (Bool-cases (nat_eq j i)) [
    | inl same ↦ let ji : j ≡ i = ground arith in absurd (free (subst (λ k. Holds (phases k)) ji h))
    | inr other ↦ rw other h
  ]

  move-here :
      (i : ℕ) (phase : Phase p) (phases : ℕ → Phase p)
      → Holds phase
      → Holds (move p i phase phases i)
  unfolding move
  move-here i phase phases h = let same : nat_eq i i ≡ true = ground arith in rw same h

  semaphore-store_key_set :
      (h : KeyHandler p) (r : KeyUpdate p)
      → (store_key_set p h r).key_update_semaphore ≡ h.key_update_semaphore
  unfolding store_key_set
  semaphore-store_key_set h (ok key_set) = refl
  semaphore-store_key_set h (err e) = refl

  try_acquire-some :
      (h h' : KeyHandler p)
      → try_acquire p h ≡ some h'
      → (h.key_update_semaphore ≡ 0) × (h'.key_update_semaphore ≡ 1)
  unfolding try_acquire
  try_acquire-some h h' e = elim (Bool-cases (nat_eq h.key_update_semaphore 0)) [
    | inl idle ↦
        let taken : some (record h { key_update_semaphore = 1 }) ≡ some h' = rw idle at e in
        (
          ground arith,
          sym (ap (λ (x : KeyHandler p). x.key_update_semaphore) (some-injective taken)),
        )
    | inr busy ↦ let none_acquired : none ≡ some h' = rw busy at e in absurd (cc)
  ]

  -- A request moves on and does not take the semaphore.
  IsExclusive-free :
      (s : System p) (i : ℕ) (phase : Phase p) (senders history : List (KeyUpdate p))
      → ¬ Holds (s.phases i)
      → ¬ Holds phase
      → IsExclusive s
      → IsExclusive
          (record s { phases = move p i phase s.phases; senders = senders; history = history })
  IsExclusive-free s i phase senders history unheld free (inl (idle, none_holds)) =
      inl (idle, λ j h. none_holds j (move-other i phase s.phases j free h).0)
  IsExclusive-free s i phase senders history unheld free (inr (taken, k, held, unique)) = inr (
    taken,
    k,
    move-kept i phase s.phases k unheld held,
    λ j h. unique j (move-other i phase s.phases j free h).0,
  )

  -- The request that holds the semaphore moves on and keeps it.
  IsExclusive-held :
      (s : System p) (i : ℕ) (phase : Phase p) (h : KeyHandler p)
      (senders history : List (KeyUpdate p))
      → Holds (s.phases i)
      → Holds phase
      → h.key_update_semaphore ≡ s.handler.key_update_semaphore
      → IsExclusive s
      → IsExclusive (record {
        handler = h;
        phases = move p i phase s.phases;
        senders = senders;
        history = history;
      })
  IsExclusive-held s i phase h senders history held still same (inl (idle, none_holds)) =
      absurd (none_holds i held)
  IsExclusive-held s i phase h senders history held still same (inr (taken, k, _, unique)) = inr (
    same ∙ taken,
    i,
    move-here i phase s.phases still,
    λ j hj. elim (move-any i phase s.phases j hj) [
      | inl at_i ↦ at_i
      | inr before ↦ unique j before ∙ sym (unique i held)
    ],
  )

  IsExclusive-acquire :
      (s : System p) (i : ℕ) (h : KeyHandler p)
      → try_acquire p s.handler ≡ some h
      → IsExclusive s
      → IsExclusive (record s { handler = h; phases = move p i updating s.phases })
  IsExclusive-acquire s i h e (inr (taken, _, _, _)) =
      let (idle, _) = try_acquire-some s.handler h e in absurd (omega arith)
  IsExclusive-acquire s i h e (inl (idle, none_holds)) = inr (
    (try_acquire-some s.handler h e).1,
    i,
    move-here i updating s.phases tt,
    λ j hj. elim (move-any i updating s.phases j hj) [
      | inl at_i ↦ at_i
      | inr before ↦ absurd (none_holds j before)
    ],
  )

  IsExclusive-finish :
      (s : System p) (i : ℕ) (r : KeyUpdate p)
      → Holds (s.phases i)
      → IsExclusive s
      → IsExclusive
          (record s { handler = release p s.handler; phases = move p i (returned r) s.phases })
  unfolding release
  IsExclusive-finish s i r held (inl (idle, none_holds)) = absurd (none_holds i held)
  IsExclusive-finish s i r held (inr (taken, k, _, unique)) = inl (
    omega arith,
    λ j hj.
        let (before, other) = move-other i (returned r) s.phases j (λ x. x) hj in
        other (unique j before ∙ sym (unique i held)),
  )

  IsExclusive-Step : (s s' : System p) → Step p s s' → IsExclusive s → IsExclusive s'
  IsExclusive-Step s _ (acquire i h at_call e) x = IsExclusive-acquire s i h e x
  IsExclusive-Step s _ (refuse i at_call e) x =
      IsExclusive-free s i refused s.senders s.history (rw at_call (λ f. f)) (λ f. f) x
  IsExclusive-Step s _ (wait i at_refused) x =
      IsExclusive-free s i waiting s.senders s.history (rw at_refused (λ f. f)) (λ f. f) x
  IsExclusive-Step s _ (update i fetched at_update) x =
      let r = checked_key_set p s.handler fetched in
      IsExclusive-held s i (updated r) (store_key_set p s.handler r) s.senders (r ∷ s.history)
        (rw at_update tt) tt (semaphore-store_key_set s.handler r) x
  IsExclusive-Step s _ (start i r at_start) x =
      IsExclusive-held s i (returning r) s.handler (r ∷ s.senders) s.history (rw at_start tt) tt
        refl x
  IsExclusive-Step s _ (finish i r at_finish) x = IsExclusive-finish s i r (rw at_finish tt) x
  IsExclusive-Step s _ (send i r at_wait _) x =
      IsExclusive-free s i (returned r) s.senders s.history (rw at_wait (λ f. f)) (λ f. f) x
  IsExclusive-Step s _ (stop before after r _ _) x = x

  -- From a handler whose semaphore is free, whatever the order of the steps: the semaphore is free
  -- and no request is between TryAcquire and Release, or it is taken and exactly one request is.
  pub Reachable-IsExclusive :
      (h : KeyHandler p) (s : System p)
      → h.key_update_semaphore ≡ 0
      → Reachable p h s
      → IsExclusive s
  Reachable-IsExclusive h _ idle here = inl (idle, λ j x. x)
  Reachable-IsExclusive h _ idle (step {s} {s'} reached next) =
      IsExclusive-Step s s' next (Reachable-IsExclusive h s idle reached)
