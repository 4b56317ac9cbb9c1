-- ===== src/KeyHandler/Updates/Ends/Bounds.antt =====
-- How many steps concurrent requests for an update take.
use go_oidc_middleware.Prelude.{
  ℕ, zero, suc, ◌+◌, ◌*◌, ◌≤◌, ◌<◌, ◌≡◌, refl, ap, ◌∙◌, inl, inr, false, List, [], ◌∷◌, ◌++◌,
  length, nat_eq, arith, Bool-cases,
}
use go_oidc_middleware.Platform.{Platform}
use go_oidc_middleware.KeyHandler.{KeyHandler, checked_key_set}
use go_oidc_middleware.KeyHandler.Updates.{
  Phase, called, refused, waiting, updating, updated, returning, returned, System, move, Step,
  acquire, refuse, wait, update, start, finish, send, stop, initial,
}
use go_oidc_middleware.KeyHandler.Updates.Ends.{IsOf, Run, idle, more, steps}

module _ (p : Platform) where
  -- A bound of the steps that a request has left, those of the goroutine it starts included.
  abbrev left : Phase p → ℕ
  left called = 5
  left refused = 2
  left waiting = 1
  left updating = 4
  left (updated r) = 3
  left (returning r) = 1
  left (returned r) = 0

  abbrev total : ℕ → (ℕ → Phase p) → ℕ
  total zero phases = 0
  total (suc n) phases = total n phases + left (phases n)

  abbrev measure : ℕ → System p → ℕ
  measure n s = total n s.phases + length s.senders

  total-move-outside :
      (n i : ℕ) (phase : Phase p) (phases : ℕ → Phase p)
      → n ≤ i
      → total n (move p i phase phases) ≡ total n phases
  unfolding move
  total-move-outside zero i phase phases outside = refl
  total-move-outside (suc n) i phase phases outside =
      let rest = total-move-outside n i phase phases (omega arith) in
      let apart : nat_eq n i ≡ false = ground arith in rw apart (rw rest refl)

  total-move :
      (n i : ℕ) (phase : Phase p) (phases : ℕ → Phase p)
      → i < n
      → total n (move p i phase phases) + left (phases i) ≡ total n phases + left phase
  unfolding move
  total-move zero i phase phases inside = absurd (omega arith)
  total-move (suc n) i phase phases inside = elim (Bool-cases (nat_eq n i)) [
    | inl same ↦
        let at_n : i ≡ n = ground arith in
        let before = total-move-outside n i phase phases (omega arith) in
        let same_left = ap (λ j. left (phases j)) at_n in rw same (omega (arith, before, same_left))
    | inr apart ↦ let before = total-move n i phase phases (ground arith) in rw apart (omega arith)
  ]

  length-insert :
      {A : Type 0} (before after : List A) (a : A)
      → length (before ++ a ∷ after) ≡ suc (length (before ++ after))
  length-insert [] after a = refl
  length-insert (b ∷ before) after a = ap suc (length-insert before after a)

  measure-move :
      (n i : ℕ) (from phase : Phase p) (s : System p)
      → i < n
      → s.phases i ≡ from
      → total n (move p i phase s.phases) + left from ≡ total n s.phases + left phase
  measure-move n i from phase s inside at = rw at at (total-move n i phase s.phases inside)

  measure-Step :
      (n : ℕ) (s s' : System p) (next : Step p s s') → IsOf p n next → measure n s' < measure n s
  measure-Step n s _ (acquire i h at_call e) inside =
      let moved = measure-move n i called updating s inside at_call in omega arith
  measure-Step n s _ (refuse i at_call e) inside =
      let moved = measure-move n i called refused s inside at_call in omega arith
  measure-Step n s _ (wait i at_refused) inside =
      let moved = measure-move n i refused waiting s inside at_refused in omega arith
  measure-Step n s _ (update i fetched at_update) inside =
      let moved =
        measure-move n i updating (updated (checked_key_set p s.handler fetched)) s inside
          at_update in
      omega arith
  measure-Step n s _ (start i r at_start) inside =
      let moved = measure-move n i (updated r) (returning r) s inside at_start in omega arith
  measure-Step n s _ (finish i r at_finish) inside =
      let moved = measure-move n i (returning r) (returned r) s inside at_finish in omega arith
  measure-Step n s _ (send i r at_wait there) inside =
      let moved = measure-move n i waiting (returned r) s inside at_wait in omega arith
  measure-Step n s _ (stop before after r e _) inside =
      let inserted = ap length e ∙ length-insert before after r in omega arith

  measure-Run :
      (n : ℕ) (s s' : System p) (run : Run p n s s') → steps p run + measure n s' ≤ measure n s
  measure-Run n s _ idle = omega arith
  measure-Run n s _ (more {s'} {s''} run next of_n) =
      let before = measure-Run n s s' run in
      let decrease = measure-Step n s' s'' next of_n in omega arith

  total-initial : (n : ℕ) → total n (λ _. called) ≡ 5 * n
  total-initial zero = refl
  total-initial (suc n) = let before = total-initial n in omega arith

  -- Concurrent requests for an update cannot go on for ever: in whatever order, `n` requests take
  -- at most 5 steps each, those of the goroutines they start included.
  pub steps-initial :
      (n : ℕ) (h : KeyHandler p) (s : System p) (run : Run p n (initial p h) s)
      → steps p run ≤ 5 * n
  steps-initial n h s run =
      let bounded = measure-Run n (initial p h) s run in let whole = total-initial n in omega arith
