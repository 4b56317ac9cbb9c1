-- ===== src/Op/Random.antt =====
-- `generateRandomString` of optest/optest.go, over a source of random numbers.
pub mod Drawn
use go_oidc_middleware.Prelude.{
  ℕ, zero, suc, ◌<◌, ◌≤◌, ◌≡◌, refl, Option, none, some, List, [], ◌∷◌, arith, length, get_elem?,
  All, In, inl, inr,
}
use go_oidc_middleware.Text.{Str, str}
use go_oidc_middleware.Errors.{Result, ok, err, External}
use go_oidc_middleware.Op.Action.{
  OpError, index_out_of_range, Action, ◌>>=◌, pure, lift, from_external,
}

abbrev pub letters : Str
letters = str "0123456789ABCDEFGHIJKLMNOPQRSTUVWXYZabcdefghijklmnopqrstuvwxyz-"

-- `letters[i]`; out of range it panics
abbrev pub letter : ℕ → Result OpError ℕ
letter i = elim (get_elem? letters i) [ none ↦ err index_out_of_range | some c ↦ ok c ]

module _ {World : Type 0} (random_int : ℕ → World → External ℕ × World) where
  abbrev pub random_below : ℕ → Action World ℕ
  random_below n w = let out = random_int n w in (from_external out.0, out.1)

  -- With the rounds that are left. `make([]byte, n)` is filled from the front.
  unfoldable pub generate_random_string : ℕ → Action World Str
  generate_random_string zero = pure []
  generate_random_string (suc n) = do
    num ← random_below (length letters)
    c ← lift (letter num)
    rest ← generate_random_string n
    pure (c ∷ rest)
