-- ===== src/KeyHandler/Updates/Ends/Promised.antt =====
-- Requests that wait while another one updates the key set: the goroutine that
-- `waitForUpdateKeySetAndGetKeySet` of internal/oidc/keyhandler.go starts, and its Release:
-- what the steps of others do to a request that waits.
use go_oidc_middleware.Prelude.{
  ℕ, ◌≡◌, ◌≢◌, refl, ◌∙◌, subst, ◌⊎◌, inl, inr, true, false, List, [], ◌∷◌, nat_eq, arith,
  Bool-cases,
}
use go_oidc_middleware.Platform.{Platform}
use go_oidc_middleware.KeyHandler.{checked_key_set}
use go_oidc_middleware.KeyHandler.Updates.{
  KeyUpdate, Phase, called, refused, waiting, updating, updated, returning, returned, System, move,
  Step, acquire, refuse, wait, update, start, finish, send, stop,
}
use go_oidc_middleware.KeyHandler.Updates.Stranded.{move-elsewhere}
use go_oidc_middleware.KeyHandler.Updates.Ends.{Run, idle, more}

module _ (p : Platform) where
  -- The request updates the key set, or has done so and not yet started to send.
  abbrev pub IsUnsent : Phase p → Type 0
  IsUnsent updating = Unit
  IsUnsent (updated r) = Unit
  IsUnsent _ = ⊥

  -- The request has returned.
  abbrev pub IsReturned : ℕ → (ℕ → Phase p) → Type 0
  IsReturned i phases = (r : KeyUpdate p) × (phases i ≡ returned r)

  -- The request `i` has returned, or it waits and `j` has yet to send, or some goroutine sends.
  abbrev pub Promised : ℕ → ℕ → (ℕ → Phase p) → List (KeyUpdate p) → Type 0
  Promised i j phases senders =
      IsReturned i phases ⊎ ((phases i ≡ waiting) × (IsUnsent (phases j) ⊎ (senders ≢ [])))

  IsUnsent-move :
      (j k : ℕ) (to from : Phase p) (phases : ℕ → Phase p)
      → phases k ≡ from
      → (IsUnsent from → IsUnsent to)
      → IsUnsent (phases j)
      → IsUnsent (move p k to phases j)
  unfolding move
  IsUnsent-move j k to from phases at still x = elim (Bool-cases (nat_eq j k)) [
    | inl same ↦
        let jk : j ≡ k = ground arith in
        let moved : IsUnsent to =
          still (subst IsUnsent at (subst (λ l. IsUnsent (phases l)) jk x)) in
        rw same moved
    | inr other ↦ rw other x
  ]

  -- Another request moves on, and no goroutine stops.
  Promised-move :
      (i j k : ℕ) (to from : Phase p) (phases : ℕ → Phase p) (senders : List (KeyUpdate p))
      → phases k ≡ from
      → from ≢ waiting
      → ((r : KeyUpdate p) → from ≢ returned r)
      → (IsUnsent from → IsUnsent to)
      → Promised i j phases senders
      → Promised i j (move p k to phases) senders
  Promised-move i j k to from phases senders at not_waits not_back still (inl (r, back)) =
      inl (r, move-elsewhere p i k to from phases at (not_back r) back)
  Promised-move i j k to from phases senders at not_waits not_back still (inr (waits, inl x)) =
      inr (
        move-elsewhere p i k to from phases at not_waits waits,
        inl (IsUnsent-move j k to from phases at still x),
      )
  Promised-move i j k to from phases senders at not_waits not_back still (inr (waits, inr x)) =
      inr (move-elsewhere p i k to from phases at not_waits waits, inr x)

  Promised-start :
      (i j k : ℕ) (r : KeyUpdate p) (phases : ℕ → Phase p) (senders : List (KeyUpdate p))
      → phases k ≡ updated r
      → Promised i j phases senders
      → Promised i j (move p k (returning r) phases) (r ∷ senders)
  Promised-start i j k r phases senders at (inl (r', back)) =
      inl (r', move-elsewhere p i k (returning r) (updated r) phases at (λ c. cc) back)
  Promised-start i j k r phases senders at (inr (waits, _)) =
      inr (move-elsewhere p i k (returning r) (updated r) phases at (λ c. cc) waits, inr (λ c. cc))

  move-same :
      (i k : ℕ) (phase : Phase p) (phases : ℕ → Phase p)
      → nat_eq i k ≡ true
      → move p k phase phases i ≡ phase
  unfolding move
  move-same i k phase phases same = rw same refl

  move-apart :
      (i k : ℕ) (phase : Phase p) (phases : ℕ → Phase p)
      → nat_eq i k ≡ false
      → move p k phase phases i ≡ phases i
  unfolding move
  move-apart i k phase phases apart = rw apart refl

  Promised-send :
      (i j k : ℕ) (r : KeyUpdate p) (phases : ℕ → Phase p) (senders : List (KeyUpdate p))
      → phases k ≡ waiting
      → Promised i j phases senders
      → Promised i j (move p k (returned r) phases) senders
  Promised-send i j k r phases senders at x = elim (Bool-cases (nat_eq i k)) [
    | inl same ↦ inl (r, move-same i k (returned r) phases same)
    | inr apart ↦
        let kept = move-apart i k (returned r) phases apart in
        elim x [
          | inl (r', back) ↦ inl (r', kept ∙ back)
          | inr (waits, inl u) ↦
              inr (kept ∙ waits, inl (IsUnsent-move j k (returned r) waiting phases at (λ c. c) u))
          | inr (waits, inr more_send) ↦ inr (kept ∙ waits, inr more_send)
        ]
  ]

  Promised-Step :
      (i j : ℕ) (s s' : System p)
      → Step p s s'
      → Promised i j s.phases s.senders
      → Promised i j s'.phases s'.senders
  Promised-Step i j s _ (acquire k h at _) =
      Promised-move i j k updating called s.phases s.senders at (λ c. cc) (λ r c. cc)
        (λ c. absurd c)
  Promised-Step i j s _ (refuse k at _) =
      Promised-move i j k refused called s.phases s.senders at (λ c. cc) (λ r c. cc) (λ c. c)
  Promised-Step i j s _ (wait k at) =
      Promised-move i j k waiting refused s.phases s.senders at (λ c. cc) (λ r c. cc) (λ c. c)
  Promised-Step i j s _ (update k fetched at) =
      Promised-move i j k (updated (checked_key_set p s.handler fetched)) updating s.phases
        s.senders at (λ c. cc) (λ r c. cc) (λ c. c)
  Promised-Step i j s _ (start k r at) = Promised-start i j k r s.phases s.senders at
  Promised-Step i j s _ (finish k r at) =
      Promised-move i j k (returned r) (returning r) s.phases s.senders at (λ c. cc) (λ r' c. cc)
        (λ c. c)
  Promised-Step i j s _ (send k r at _) = Promised-send i j k r s.phases s.senders at
  Promised-Step i j s _ (stop before after r e none_waits) =
      λ x. elim x [ inl back ↦ inl back | inr (waits, _) ↦ absurd (none_waits i waits) ]

  pub Promised-Run :
      (n i j : ℕ) (s s' : System p)
      → Run p n s s'
      → Promised i j s.phases s.senders
      → Promised i j s'.phases s'.senders
  Promised-Run n i j s _ idle x = x
  Promised-Run n i j s _ (more {s'} {s''} run next of_n) x =
      Promised-Step i j s' s'' next (Promised-Run n i j s s' run x)
