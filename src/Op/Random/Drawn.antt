-- ===== src/Op/Random/Drawn.antt =====
-- The texts that `generateRandomString` of optest/optest.go draws.
use go_oidc_middleware.Prelude.{get_elem?-In, get_elem?-inside}
use go_oidc_middleware.Prelude.{
  ℕ, zero, suc, ◌<◌, ◌≡◌, ◌≢◌, refl, ap, ◌∷◌, arith, length, All, In, inl, inr,
}
use go_oidc_middleware.Text.{Str}
use go_oidc_middleware.Errors.{Result, ok, err, External, Result-cases}
use go_oidc_middleware.Op.Action.{OpError, index_out_of_range, continue}
use go_oidc_middleware.Op.Random.{letters, letter, generate_random_string}

-- rand.Int's documented range.
pub record IsUniform {World : Type 0} (random_int : ℕ → World → External ℕ × World) : Type 0 where
  pub below : (n : ℕ) (w : World) (i : ℕ) → (random_int n w).0 ≡ ok i → i < n

-- A text of a length, of these letters only; or an error that is no panic.
abbrev pub IsDrawn : ℕ → Result OpError Str → Type 0
IsDrawn n (ok t) = (length t ≡ n) × All (λ c. In c letters) t
IsDrawn n (err e) = e ≢ index_out_of_range

module _ {World : Type 0} (random_int : ℕ → World → External ℕ × World) where
  letter-inside : (i : ℕ) → i < length letters → (c : ℕ) × (letter i ≡ ok c) × In c letters
  letter-inside i h =
      let (c, there) = get_elem?-inside letters i h in
      (c, rw (there, letter), get_elem?-In letters i c there)

  -- After a letter is drawn.
  IsDrawn-cons :
      (n : ℕ) (c : ℕ) (r : Result OpError Str) (w : World)
      → In c letters
      → IsDrawn n r
      → IsDrawn (suc n) (continue r (λ rest w'. (ok (c ∷ rest), w')) w).0
  IsDrawn-cons n c (ok t) w there (len, drawn) = (ap suc len, (there, drawn))
  IsDrawn-cons n c (err e) w there safe = safe

  generate_random_string-suc :
      (n i c : ℕ) (w : World)
      → (random_int (length letters) w).0 ≡ ok i
      → letter i ≡ ok c
      → (generate_random_string random_int (suc n) w).0
        ≡ (continue
            (generate_random_string random_int n (random_int (length letters) w).1).0
            (λ rest w'. (ok (c ∷ rest), w'))
            (generate_random_string random_int n (random_int (length letters) w).1).1).0
  unfolding generate_random_string
  generate_random_string-suc n i c w drawn here = rw (drawn, continue) (rw (here, continue) refl)

  generate_random_string-failed :
      (n : ℕ) (w : World) (text : Str)
      → (random_int (length letters) w).0 ≡ err text
      → (generate_random_string random_int (suc n) w).0 ≡ err (OpError.external text)
  unfolding generate_random_string
  generate_random_string-failed n w text failed = rw (failed, continue) refl

  pub generate_random_string-IsDrawn :
      IsUniform random_int
      → (n : ℕ) (w : World) → IsDrawn n (generate_random_string random_int n w).0
  unfolding generate_random_string
  generate_random_string-IsDrawn uniform zero w = (refl, tt)
  generate_random_string-IsDrawn uniform (suc n) w =
      elim (Result-cases (random_int (length letters) w).0) [
        | inl (i, drawn) ↦
            let (c, here, there) = letter-inside i (uniform.below (length letters) w i drawn) in
            let w' = (random_int (length letters) w).1 in
            rw (generate_random_string-suc n i c w drawn here) (
              IsDrawn-cons n c (generate_random_string random_int n w').0
                (generate_random_string random_int n w').1 there
                (generate_random_string-IsDrawn uniform n w'))
        | inr (text, failed) ↦ rw (generate_random_string-failed n w text failed) (ground arith)
      ]
