-- ===== src/KeyHandler/Updates.antt =====
-- Concurrent requests for an update of the key set: `waitForUpdateKeySetAndGetKeySet` of
-- internal/oidc/keyhandler.go with its semaphore, its unbuffered channel, and the goroutine that
-- sends the result to the requests that wait. A step is one action of one goroutine. Cancellation
-- and the order in which a channel serves its receivers are left open.
pub mod Exclusion
pub mod Results
pub mod Stranded
pub mod Ends
use go_oidc_middleware.Prelude.{
  ℕ, ◌≡◌, ◌≢◌, Option, none, some, List, [], ◌∷◌, ◌++◌, In, nat_eq, if◌then◌else◌,
}
use go_oidc_middleware.Text.{Str}
use go_oidc_middleware.Errors.{Error, Result, ok, err}
use go_oidc_middleware.Platform.{Platform}
use go_oidc_middleware.KeyHandler.{KeyHandler, checked_key_set, store_key_set, try_acquire, release}

module _ (p : Platform) where
  abbrev pub KeyUpdate : Type 0
  KeyUpdate = Result Error p.KeySet

  -- Where a request is in the function.
  pub data Phase : Type 0 where
    called : Phase
    refused : Phase
    waiting : Phase
    updating : Phase
    updated : KeyUpdate → Phase
    returning : KeyUpdate → Phase
    returned : KeyUpdate → Phase

  -- The requests are numbered. `senders` are the goroutines that send, by what they send; `history`
  -- are the results of all updates, the latest first.
  pub record System : Type 0 where
    pub handler : KeyHandler p
    pub phases : ℕ → Phase
    pub senders : List KeyUpdate
    pub history : List KeyUpdate

  unfoldable pub move : ℕ → Phase → (ℕ → Phase) → ℕ → Phase
  move i phase phases j = if nat_eq j i then phase else phases j

  pub data Step (s : System) : System → Type 0 where
    -- TryAcquire takes the semaphore
    acquire :
        (i : ℕ) (h : KeyHandler p)
        → s.phases i ≡ called
        → try_acquire p s.handler ≡ some h
        → Step s (record s { handler = h; phases = move i updating s.phases })
    -- TryAcquire does not
    refuse :
        (i : ℕ)
        → s.phases i ≡ called
        → try_acquire p s.handler ≡ none
        → Step s (record s { phases = move i refused s.phases })
    -- the request comes to the receive
    wait : (i : ℕ) → s.phases i ≡ refused → Step s (record s { phases = move i waiting s.phases })
    -- updateKeySet, with what the fetch answers
    update :
        (i : ℕ) (fetched : Result Str p.KeySet)
        → s.phases i ≡ updating
        → Step s (record s {
          handler = store_key_set p s.handler (checked_key_set p s.handler fetched);
          phases = move i (updated (checked_key_set p s.handler fetched)) s.phases;
          history = checked_key_set p s.handler fetched ∷ s.history;
        })
    -- `go func(res keyUpdate) { … }(result)`
    start :
        (i : ℕ) (r : KeyUpdate)
        → s.phases i ≡ updated r
        → Step s (record s { phases = move i (returning r) s.phases; senders = r ∷ s.senders })
    -- the return, with the deferred Release
    finish :
        (i : ℕ) (r : KeyUpdate)
        → s.phases i ≡ returning r
        → Step s (record s { handler = release p s.handler; phases = move i (returned r) s.phases })
    -- a send meets a receive
    send :
        (i : ℕ) (r : KeyUpdate)
        → s.phases i ≡ waiting
        → In r s.senders
        → Step s (record s { phases = move i (returned r) s.phases })
    -- no request waits: the default case
    stop :
        (before after : List KeyUpdate) (r : KeyUpdate)
        → s.senders ≡ before ++ r ∷ after
        → ((i : ℕ) → s.phases i ≢ waiting)
        → Step s (record s { senders = before ++ after })

  -- The requests have been called, and none has started.
  abbrev pub initial : KeyHandler p → System
  initial h = record { handler = h; phases = λ _. called; senders = []; history = [] }

  pub data Reachable (h : KeyHandler p) : System → Type 0 where
    here : Reachable h (initial h)
    step : {s s' : System} → Reachable h s → Step s s' → Reachable h s'
