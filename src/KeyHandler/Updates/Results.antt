-- ===== src/KeyHandler/Updates/Results.antt =====
-- What concurrent requests for an update return.
use go_oidc_middleware.Prelude.{some-injective}
use go_oidc_middleware.Prelude.{
  ℕ, ◌+◌, ◌≡◌, refl, sym, ap, ◌∙◌, subst, inl, inr, Option, none, some, List, [], ◌∷◌, ◌++◌, In,
  nat_eq, arith, Bool-cases,
}
use go_oidc_middleware.Errors.{ok, err}
use go_oidc_middleware.Platform.{Platform}
use go_oidc_middleware.KeyHandler.{KeyHandler, checked_key_set, store_key_set, try_acquire, release}
use go_oidc_middleware.KeyHandler.Updates.{
  KeyUpdate, Phase, called, refused, waiting, updating, updated, returning, returned, System, move,
  Step, acquire, refuse, wait, update, start, finish, send, stop, Reachable, here, step,
}

In-insert :
    {A : Type 0} (a x : A) (before after : List A)
    → In a (before ++ after)
    → In a (before ++ x ∷ after)
In-insert a x [] after h = inr h
In-insert a x (b ∷ before) after (inl e) = inl e
In-insert a x (b ∷ before) after (inr h) = inr (In-insert a x before after h)

module _ (p : Platform) where
  -- The result that a request carries, if it has one.
  abbrev pub IsAmong : List (KeyUpdate p) → Phase p → Type 0
  IsAmong history called = Unit
  IsAmong history refused = Unit
  IsAmong history waiting = Unit
  IsAmong history updating = Unit
  IsAmong history (updated r) = In r history
  IsAmong history (returning r) = In r history
  IsAmong history (returned r) = In r history

  -- The key set that a history of updates leaves, after `first`, and how often it has changed.
  abbrev pub latest : Option p.KeySet → List (KeyUpdate p) → Option p.KeySet
  latest first [] = first
  latest first (ok key_set ∷ history) = some key_set
  latest first (err e ∷ history) = latest first history

  abbrev pub successes : List (KeyUpdate p) → ℕ
  successes [] = 0
  successes (ok key_set ∷ history) = successes history + 1
  successes (err e ∷ history) = successes history

  -- Every result that a request has or a goroutine sends is that of an update, and the key set held
  -- is that of the latest update that succeeded; the counter counts these.
  pub record IsGenuine (h : KeyHandler p) (s : System p) : Type 0 where
    pub carried : (i : ℕ) → IsAmong s.history (s.phases i)
    pub sent : (r : KeyUpdate p) → In r s.senders → In r s.history
    pub current : s.handler.key_set ≡ latest h.key_set s.history
    pub counted : s.handler.key_update_count ≡ h.key_update_count + successes s.history

  IsAmong-later :
      (r : KeyUpdate p) (history : List (KeyUpdate p)) (phase : Phase p)
      → IsAmong history phase
      → IsAmong (r ∷ history) phase
  IsAmong-later r history called x = tt
  IsAmong-later r history refused x = tt
  IsAmong-later r history waiting x = tt
  IsAmong-later r history updating x = tt
  IsAmong-later r history (updated _) x = inr x
  IsAmong-later r history (returning _) x = inr x
  IsAmong-later r history (returned _) x = inr x

  IsAmong-move :
      (history : List (KeyUpdate p)) (i : ℕ) (phase : Phase p) (phases : ℕ → Phase p)
      → IsAmong history phase
      → ((j : ℕ) → IsAmong history (phases j))
      → (j : ℕ) → IsAmong history (move p i phase phases j)
  unfolding move
  IsAmong-move history i phase phases now before j = elim (Bool-cases (nat_eq j i)) [
    | inl same ↦ rw same now
    | inr other ↦ rw other (before j)
  ]

  try_acquire-keeps :
      (h h' : KeyHandler p)
      → try_acquire p h ≡ some h'
      → (h'.key_set ≡ h.key_set) × (h'.key_update_count ≡ h.key_update_count)
  unfolding try_acquire
  try_acquire-keeps h h' e = elim (Bool-cases (nat_eq h.key_update_semaphore 0)) [
    | inl idle ↦
        let taken : some (record h { key_update_semaphore = 1 }) ≡ some h' = rw idle at e in
        (
          sym (ap (λ (x : KeyHandler p). x.key_set) (some-injective taken)),
          sym (ap (λ (x : KeyHandler p). x.key_update_count) (some-injective taken)),
        )
    | inr busy ↦ let none_acquired : none ≡ some h' = rw busy at e in absurd (cc)
  ]

  store_key_set-latest :
      (h h0 : KeyHandler p) (r : KeyUpdate p) (history : List (KeyUpdate p))
      → h.key_set ≡ latest h0.key_set history
      → h.key_update_count ≡ h0.key_update_count + successes history
      → ((store_key_set p h r).key_set ≡ latest h0.key_set (r ∷ history))
        × ((store_key_set p h r).key_update_count ≡ h0.key_update_count + successes (r ∷ history))
  unfolding store_key_set
  store_key_set-latest h h0 (ok key_set) history e n = (refl, omega arith)
  store_key_set-latest h h0 (err x) history e n = (e, n)

  In-carried :
      (h : KeyHandler p) (s : System p) (i : ℕ) (phase : Phase p)
      → s.phases i ≡ phase
      → IsGenuine h s
      → IsAmong s.history phase
  In-carried h s i phase e g = subst (IsAmong s.history) e (g.carried i)

  IsGenuine-Step :
      (h : KeyHandler p) (s s' : System p) → Step p s s' → IsGenuine h s → IsGenuine h s'
  unfolding release
  IsGenuine-Step h s _ (acquire i h' at_call e) g =
      let (same_set, same_count) = try_acquire-keeps s.handler h' e in
      record {
        carried = IsAmong-move s.history i updating s.phases tt g.carried;
        sent = g.sent;
        current = same_set ∙ g.current;
        counted = same_count ∙ g.counted;
      }
  IsGenuine-Step h s _ (refuse i at_call e) g = record {
    carried = IsAmong-move s.history i refused s.phases tt g.carried;
    sent = g.sent;
    current = g.current;
    counted = g.counted;
  }
  IsGenuine-Step h s _ (wait i at_refused) g = record {
    carried = IsAmong-move s.history i waiting s.phases tt g.carried;
    sent = g.sent;
    current = g.current;
    counted = g.counted;
  }
  IsGenuine-Step h s _ (update i fetched at_update) g =
      let r = checked_key_set p s.handler fetched in
      let (set', count') = store_key_set-latest s.handler h r s.history g.current g.counted in
      record {
        carried =
            IsAmong-move (r ∷ s.history) i (updated r) s.phases (inl refl)
              λ j. IsAmong-later r s.history (s.phases j) (g.carried j);
        sent = λ x there. inr (g.sent x there);
        current = set';
        counted = count';
      }
  IsGenuine-Step h s _ (start i r at_start) g =
      let carried_r = In-carried h s i (updated r) at_start g in
      record {
        carried = IsAmong-move s.history i (returning r) s.phases carried_r g.carried;
        sent = λ x there. elim there [
          | inl same ↦ subst (λ y. In y s.history) same carried_r
          | inr before ↦ g.sent x before
        ];
        current = g.current;
        counted = g.counted;
      }
  IsGenuine-Step h s _ (finish i r at_finish) g = record {
    carried =
        IsAmong-move s.history i (returned r) s.phases (In-carried h s i (returning r) at_finish g)
          g.carried;
    sent = g.sent;
    current = g.current;
    counted = g.counted;
  }
  IsGenuine-Step h s _ (send i r at_wait there) g = record {
    carried = IsAmong-move s.history i (returned r) s.phases (g.sent r there) g.carried;
    sent = g.sent;
    current = g.current;
    counted = g.counted;
  }
  IsGenuine-Step h s _ (stop before after r e _) g = record {
    carried = g.carried;
    sent = λ x there. g.sent x (rw e (In-insert x r before after there));
    current = g.current;
    counted = g.counted;
  }

  -- Whatever the order of the steps, every result that a request returns or a goroutine sends is
  -- that of an update some request has made; the key set held is that of the latest update that
  -- succeeded, or the first one if none did, and the counter has counted these.
  pub Reachable-IsGenuine : (h : KeyHandler p) (s : System p) → Reachable p h s → IsGenuine h s
  Reachable-IsGenuine h _ here = record {
    carried = λ i. tt;
    sent = λ r x. absurd x;
    current = refl;
    counted = omega arith;
  }
  Reachable-IsGenuine h _ (step {s} {s'} reached next) =
      IsGenuine-Step h s s' next (Reachable-IsGenuine h s reached)
