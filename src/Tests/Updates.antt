-- ===== src/Tests/Updates.antt =====
-- Two requests of which the second waits in vain: it finds the semaphore taken, and comes to the
-- receive after the goroutine that sends has found no receiver.
use go_oidc_middleware.Prelude.{
  ℕ, ◌≡◌, ◌≢◌, refl, ◌⊎◌, inl, inr, none, some, [], ◌∷◌, nat_eq, Bool-cases,
}
use go_oidc_middleware.Errors.{ok}
use go_oidc_middleware.KeyHandler.{KeyHandler, checked_key_set, store_key_set, try_acquire, release}
use go_oidc_middleware.KeyHandler.Updates.{
  KeyUpdate, called, refused, waiting, updating, updated, returning, returned, System, move, Step,
  acquire, refuse, wait, update, start, finish, stop, initial, Reachable, here, step,
}
use go_oidc_middleware.KeyHandler.Updates.Exclusion.{Holds, IsExclusive, Reachable-IsExclusive}
use go_oidc_middleware.KeyHandler.Updates.Results.{IsGenuine, Reachable-IsGenuine}
use go_oidc_middleware.KeyHandler.Updates.Stranded.{IsStranded, IsStranded-Step}
use go_oidc_middleware.Tests.Fixture.{fixture, new_key, old_keys}

abbrev pub taken : KeyHandler fixture
taken = record old_keys { key_update_semaphore = 1 }

abbrev pub result : KeyUpdate fixture
result = checked_key_set fixture taken (ok (new_key ∷ []))

abbrev pub stored : KeyHandler fixture
stored = store_key_set fixture taken result

abbrev pub free : KeyHandler fixture
free = release fixture stored

abbrev pub S : Type 0
S = System fixture

abbrev pub acquired : S
acquired = record (initial fixture old_keys) {
  handler = taken;
  phases = move fixture 0 updating (λ _. called);
}

abbrev pub second_refused : S
second_refused = record acquired { phases = move fixture 1 refused acquired.phases }

abbrev pub fetched : S
fetched = record {
  handler = stored;
  phases = move fixture 0 (updated result) second_refused.phases;
  senders = [];
  history = result ∷ [];
}

abbrev pub started : S
started = record fetched {
  phases = move fixture 0 (returning result) fetched.phases;
  senders = result ∷ [];
}

abbrev pub stopped : S
stopped = record started { senders = [] }

abbrev pub finished : S
finished = record stopped {
  handler = free;
  phases = move fixture 0 (returned result) stopped.phases;
}

abbrev pub stranded : S
stranded = record finished { phases = move fixture 1 waiting finished.phases }

pub no_receiver : (i : ℕ) → started.phases i ≢ waiting
unfolding move
no_receiver i h = elim (Bool-cases (nat_eq i 0)) [
  | inl first ↦ cc (rw first at h)
  | inr other ↦ elim (Bool-cases (nat_eq i 1)) [
    | inl second ↦ cc (rw second at (rw other at h))
    | inr third ↦ cc (rw third at (rw other at h))
  ]
]

pub acquired_first : try_acquire fixture old_keys ≡ some taken
unfolding try_acquire
acquired_first = refl

pub refused_second : try_acquire fixture taken ≡ none
unfolding try_acquire
refused_second = refl

pub first_updating : second_refused.phases 0 ≡ updating
unfolding move
first_updating = refl

pub stranded-Reachable : Reachable fixture old_keys stranded
unfolding move
stranded-Reachable =
    step
      (step
        (step
          (step
            (step
              (step (step here (acquire 0 taken refl acquired_first))
                (refuse 1 refl refused_second))
              (update 0 (ok (new_key ∷ [])) first_updating))
            (start 0 result refl))
          (stop [] [] result refl no_receiver))
        (finish 0 result refl))
      (wait 1 refl)

pub stranded-unheld : (j : ℕ) → ¬ Holds fixture (stranded.phases j)
unfolding move
stranded-unheld j h = elim (Bool-cases (nat_eq j 1)) [
  | inl second ↦ rw second at h
  | inr other ↦ elim (Bool-cases (nat_eq j 0)) [
    | inl first ↦ rw first at (rw other at h)
    | inr third ↦ rw third at (rw other at h)
  ]
]

stranded-IsStranded : IsStranded fixture 1 stranded
unfolding move
stranded-IsStranded = record { waits = refl; unsent = refl; unheld = stranded-unheld }

-- A third request takes the semaphore.
abbrev third_taken : KeyHandler fixture
third_taken = record free { key_update_semaphore = 1 }

abbrev third_acquired : S
third_acquired = record stranded {
  handler = third_taken;
  phases = move fixture 2 updating stranded.phases;
}

third-Step : Step fixture stranded third_acquired
unfolding move try_acquire release store_key_set checked_key_set
third-Step = acquire 2 third_taken refl refl

Reachable-IsExclusive_example : IsExclusive fixture stranded
Reachable-IsExclusive_example =
    Reachable-IsExclusive fixture old_keys stranded refl stranded-Reachable

Reachable-IsGenuine_example : IsGenuine fixture old_keys stranded
Reachable-IsGenuine_example = Reachable-IsGenuine fixture old_keys stranded stranded-Reachable

IsStranded-Step_example :
    IsStranded fixture 1 third_acquired
    ⊎ ((third_acquired.phases 1 ≡ waiting) × (try_acquire fixture free ≡ some third_taken))
IsStranded-Step_example =
    IsStranded-Step fixture 1 stranded third_acquired stranded-IsStranded third-Step
