-- ===== src/Tests/Delivered.antt =====
-- Two requests of which the second waits in time: it finds the semaphore taken, and comes to the
-- receive before the first one starts to send.
use go_oidc_middleware.Prelude.{
  ℕ, ◌≤◌, ◌≡◌, ◌≢◌, refl, ◌⊎◌, inl, inr, List, [], ◌∷◌, ◌++◌, In, nat_eq, arith, Bool-cases,
}
use go_oidc_middleware.Errors.{ok}
use go_oidc_middleware.KeyHandler.Updates.{
  KeyUpdate, Phase, called, refused, waiting, updating, updated, returning, returned, move, acquire,
  refuse, wait, update, start, finish, send, stop, initial,
}
use go_oidc_middleware.KeyHandler.Updates.Ends.{Run, idle, more, IsStuck}
use go_oidc_middleware.KeyHandler.Updates.Ends.Delivered.{IsStuck-delivered}
use go_oidc_middleware.Tests.Fixture.{fixture, new_key, old_keys}
use go_oidc_middleware.Tests.Updates.{
  taken, result, stored, free, S, second_refused, acquired_first, refused_second,
}

abbrev second_waiting : S
second_waiting = record second_refused { phases = move fixture 1 waiting second_refused.phases }

abbrev fetched : S
fetched = record {
  handler = stored;
  phases = move fixture 0 (updated result) second_waiting.phases;
  senders = [];
  history = result ∷ [];
}

abbrev started : S
started = record fetched {
  phases = move fixture 0 (returning result) fetched.phases;
  senders = result ∷ [];
}

abbrev sent : S
sent = record started { phases = move fixture 1 (returned result) started.phases }

abbrev finished : S
finished = record sent { handler = free; phases = move fixture 0 (returned result) sent.phases }

abbrev stopped : S
stopped = record finished { senders = [] }

before : Run fixture 2 (initial fixture old_keys) second_waiting
unfolding move
before =
    more
      (more (more idle (acquire 0 taken refl acquired_first) (omega arith))
        (refuse 1 refl refused_second) (omega arith))
      (wait 1 refl) (omega arith)

-- The two requests have returned, and the others have not started.
at_end : (j : ℕ) → (finished.phases j ≡ returned result) ⊎ ((finished.phases j ≡ called) × (2 ≤ j))
unfolding move
at_end j = elim (Bool-cases (nat_eq j 0)) [
  | inl first ↦ inl (rw first refl)
  | inr later ↦ elim (Bool-cases (nat_eq j 1)) [
    | inl second ↦ inl (rw later (rw second refl))
    | inr third ↦ inr (rw later (rw third refl), ground arith)
  ]
]

none_waits : (j : ℕ) → finished.phases j ≢ waiting
none_waits j at = elim (at_end j) [ inl back ↦ cc | inr (fresh, _) ↦ cc ]

none_moves :
    (j : ℕ) (phase : Phase fixture)
    → phase ≢ returned result
    → phase ≢ called
    → finished.phases j ≢ phase
none_moves j phase back fresh at = elim (at_end j) [
  | inl x ↦ absurd (back (cc))
  | inr (x, _) ↦ absurd (fresh (cc))
]

none_starts : (j : ℕ) → finished.phases j ≡ called → 2 ≤ j
none_starts j at = elim (at_end j) [ inl back ↦ cc | inr (_, outside) ↦ outside ]

after : Run fixture 2 second_waiting stopped
unfolding move
after =
    more
      (more
        (more
          (more (more idle (update 0 (ok (new_key ∷ [])) refl) (omega arith)) (start 0 result refl)
            (omega arith))
          (send 1 result refl (inl refl)) (omega arith))
        (finish 0 result refl) (omega arith))
      (stop [] [] result refl none_waits) tt

stopped-IsStuck : IsStuck fixture 2 stopped
stopped-IsStuck _ (acquire i h at e) inside = let outside = none_starts i at in absurd (omega arith)
stopped-IsStuck _ (refuse i at e) inside = let outside = none_starts i at in absurd (omega arith)
stopped-IsStuck _ (wait i at) inside = none_moves i refused (λ c. cc) (λ c. cc) at
stopped-IsStuck _ (update i fetched at) inside = none_moves i updating (λ c. cc) (λ c. cc) at
stopped-IsStuck _ (start i r at) inside = none_moves i (updated r) (λ c. cc) (λ c. cc) at
stopped-IsStuck _ (finish i r at) inside = none_moves i (returning r) (λ c. cc) (λ c. cc) at
stopped-IsStuck _ (send i r at there) inside = there
stopped-IsStuck _ (stop before after r e _) inside = empty_apart before after r e
  where
    empty_apart :
        (before after : List (KeyUpdate fixture)) (r : KeyUpdate fixture)
        → stopped.senders ≢ before ++ r ∷ after
    empty_apart [] after r h = cc
    empty_apart (b ∷ before) after r h = cc

second_in_time : second_waiting.phases 1 ≡ waiting
unfolding move
second_in_time = refl

IsStuck-delivered_example :
    ((r : KeyUpdate fixture) × (stopped.phases 1 ≡ returned r) × In r stopped.history)
    × (stopped.handler.key_update_semaphore ≡ 0)
unfolding move
IsStuck-delivered_example =
    IsStuck-delivered fixture 2 1 0 old_keys second_waiting stopped refl before (omega arith)
      (omega arith) refl tt after stopped-IsStuck
