-- ===== src/Op/Action/Bind.antt =====
-- What an action in sequence has done when it succeeds.
use go_oidc_middleware.Prelude.{◌≡◌, refl, Bool, true, false}
use go_oidc_middleware.Errors.{Result, ok, err}
use go_oidc_middleware.Op.Action.{OpError, Action, continue, ◌>>=◌, ◌>>◌, require}

module _ {S A B : Type 0} where
  continue-ok :
      (out : Result OpError A × S) (f : A → Action S B) {b : B} {st' : S}
      → continue out.0 f out.1 ≡ (ok b, st')
      → (a : A) × (out.0 ≡ ok a) × (f a out.1 ≡ (ok b, st'))
  continue-ok (ok a, st1) f h = (a, refl, h)
  continue-ok (err e, st1) f h = absurd (cc)

  -- The first action has succeeded, and the second with its result.
  pub >>=-ok :
      (m : Action S A) (f : A → Action S B) (st : S) {b : B} {st' : S}
      → (m >>= f) st ≡ (ok b, st')
      → (a : A) × ((m st).0 ≡ ok a) × (f a (m st).1 ≡ (ok b, st'))
  >>=-ok m f st h = continue-ok (m st) f h

-- A condition that is required holds, and leaves the state to the rest.
pub require-ok :
    {S B : Type 0} (b : Bool) (x : OpError) (k : Action S B) (st : S) {a : B} {st' : S}
    → (require b x >> k) st ≡ (ok a, st')
    → k st ≡ (ok a, st')
require-ok true x k st h = h
require-ok false x k st h = absurd (cc)
