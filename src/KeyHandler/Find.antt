-- ===== src/KeyHandler/Find.antt =====
-- The search for a key: `findKey` of internal/oidc/keyhandler.go.
use go_oidc_middleware.Prelude.{
  ℕ, zero, suc, ◌+◌, ◌≤◌, ◌<◌, ◌≡◌, ◌↔◌, refl, ◌⊎◌, true, false, some, [], arith, inl, inr,
  Option-cases, Bool-cases, subst,
}
use native.Mathlib.Decide.{dec_le}
use go_oidc_middleware.Text.{Str}
use go_oidc_middleware.Text.Equality.{==_iff}
use go_oidc_middleware.Errors.{Error, unable_to_find_key, Result, ok, err}
use go_oidc_middleware.Platform.{Platform}
use go_oidc_middleware.KeyHandler.{key_fits, find_key_from, find_key}

module _ (p : Platform) where
  open p use {Key, KeySet, key_id, key_algorithm, set_len, set_get}

  -- The key has the identifier, and its algorithm is empty or the token's.
  abbrev pub Fits : Str → Str → Key → Type 0
  Fits kid alg key = (key_id key ≡ kid) × ((key_algorithm key ≡ []) ⊎ (key_algorithm key ≡ alg))

  key_fits_iff : (kid alg : Str) (key : Key) → (key_fits p kid alg key ≡ true) ↔ Fits kid alg key
  unfolding key_fits
  key_fits_iff kid alg key = ground (arith, ==_iff (key_id key) kid, ==_iff (key_algorithm key) alg)

  -- No key in the range of indices fits.
  abbrev pub NoneFits : KeySet → Str → Str → ℕ → ℕ → Type 0
  NoneFits key_set kid alg from to =
      (j : ℕ) (k : Key) → from ≤ j → j < to → set_get key_set j ≡ some k → ¬ Fits kid alg k

  -- `key` is the first key that fits among the indices of a range.
  pub record First (key_set : KeySet) (kid alg : Str) (from to : ℕ) (key : Key) : Type 0 where
    pub index : ℕ
    pub after_start : from ≤ index
    pub before_end : index < to
    pub there : set_get key_set index ≡ some key
    pub fits : Fits kid alg key
    pub first : NoneFits key_set kid alg from index

  module _ (key_set : KeySet) (kid alg : Str) where
    NoneFits-cons :
        {from to : ℕ}
        → ((k : Key) → set_get key_set from ≡ some k → ¬ Fits kid alg k)
        → NoneFits key_set kid alg (suc from) to
        → NoneFits key_set kid alg from to
    NoneFits-cons {from} here later j k lo hi e = elim (dec_le (suc from) j) [
      | yes above ↦ later j k above hi e
      | no same ↦
          let at : j ≡ from = omega arith in here k (subst (λ i. set_get key_set i ≡ some k) at e)
    ]

    First-cons :
        {from to : ℕ} {key : Key}
        → ((k : Key) → set_get key_set from ≡ some k → ¬ Fits kid alg k)
        → First key_set kid alg (suc from) to key
        → First key_set kid alg from to key
    First-cons here f = record {
      index = f.index;
      after_start = omega (arith, f.after_start);
      before_end = f.before_end;
      there = f.there;
      fits = f.fits;
      first = NoneFits-cons here f.first;
    }

    -- The first key that fits in a range, or the error that there is none.
    abbrev pub Found : ℕ → ℕ → Result Error Key → Type 0
    Found i to (ok key) = First key_set kid alg i to key
    Found i to (err e) = (e ≡ unable_to_find_key kid) × NoneFits key_set kid alg i to

    Found-cons :
        (i to : ℕ) (r : Result Error Key)
        → ((k : Key) → set_get key_set i ≡ some k → ¬ Fits kid alg k)
        → Found (suc i) to r
        → Found i to r
    Found-cons i to (ok key) here f = First-cons here f
    Found-cons i to (err e) here (same, f) = (same, NoneFits-cons here f)

    unfit_at :
        (i : ℕ) (key k : Key)
        → set_get key_set i ≡ some key
        → key_fits p kid alg key ≡ false
        → set_get key_set i ≡ some k
        → ¬ Fits kid alg k
    unfit_at i key k there unfit there' f = let fits = (key_fits_iff kid alg k).1 f in ground arith

    find_key_from-Found :
        (rounds i to : ℕ) → to ≡ i + rounds → Found i to (find_key_from p rounds i key_set kid alg)
    unfolding find_key_from
    find_key_from-Found zero i to e = (refl, λ j k lo hi there. absurd (omega arith))
    find_key_from-Found (suc rounds) i to e =
        let rest = find_key_from p rounds (suc i) key_set kid alg in
        let later : Found (suc i) to rest = find_key_from-Found rounds (suc i) to (omega arith) in
        elim (Option-cases (set_get key_set i)) [
          | inl missing ↦ rw (missing, find_key_from) (Found-cons i to rest (λ k there _. cc) later)
          | inr (key, there) ↦ elim (Bool-cases (key_fits p kid alg key)) [
            | inr unfit ↦
                rw (there, find_key_from)
                  (rw unfit
                    (Found-cons i to rest (λ k there'. unfit_at i key k there unfit there') later))
            | inl fits ↦
                rw (there, find_key_from)
                  (rw fits (record {
                    index = i;
                    after_start = omega arith;
                    before_end = omega arith;
                    there = there;
                    fits = (key_fits_iff kid alg key).0 fits;
                    first = λ j k lo hi there'. absurd (omega arith);
                  }))
          ]
        ]

  -- The key found is the first of the set that has the identifier, and whose algorithm is empty or
  -- the token's; an error names the identifier, and then no key of the set is such a key.
  pub find_key-Found :
      (key_set : KeySet) (kid alg : Str)
      → Found key_set kid alg 0 (set_len key_set) (find_key p key_set kid alg)
  unfolding find_key
  find_key-Found key_set kid alg =
      find_key_from-Found key_set kid alg (set_len key_set) 0 (set_len key_set) (omega arith)
