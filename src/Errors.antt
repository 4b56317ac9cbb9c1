-- ===== src/Errors.antt =====
-- The errors of the program as values, one constructor for each place that makes one, and the two
-- shapes of a call that can fail: a result, and an action that passes a state on.
use go_oidc_middleware.Prelude.{ℕ, ◌≡◌, refl, ◌⊎◌, inl, inr, List, Bool, true, false, ap, arith}
use go_oidc_middleware.Prelude.Int.{ℤ}
use go_oidc_middleware.Text.{Str}

pub data Error : Type 0 where
  -- an error of a package or a callback, known by its text `err.Error()`
  external : Str → Error
  -- a nil pointer is dereferenced: a panic, not an error value
  nil_dereference : Error
  -- internal/oidc/tokenstring.go
  header_empty : Str → Error
  header_lacks_prefix : Str → Str → Error
  header_empty_after_prefix : Str → Error
  no_token_in_list : Error
  post_extraction_empty : Error
  unable_to_extract_token : Error → Error
  unable_to_extract_token_nil : Error
  -- internal/oidc/keyhandler.go
  unable_to_fetch_keys : Str → Error → Error
  key_set_not_single : ℕ → Error
  no_key_found : Error
  unable_to_update_key_set : Str → Error → Error
  unable_to_find_key : Str → Error
  -- internal/oidc/oidc.go
  signature_verification : Error
  issuer_is_empty : Error
  fallback_algorithm_not_accepted : Error → Error
  unable_to_load_jwks : Error → Error
  unable_to_fetch_jwks_uri : Str → Error → Error
  unable_to_initialize_key_handler : Error → Error
  jwks_uri_is_empty : Error
  token_type_required : Str → Error
  token_algorithm_required : Error → Error
  unable_to_get_public_key : Error → Error
  token_has_expired : ℤ → Error
  issuer_not_found : Str → Str → Error
  audience_not_found : Str → List Str → Error
  unable_to_convert_to_claims : Error → Error
  claims_validation : Error → Error
  unable_to_convert_token : Error → Error
  unable_to_marshal : Error → Error
  unable_to_unmarshal : Error → Error
  no_key_id_in_header : Error
  no_algorithm_in_header : Error
  no_type_in_header : Error
  unable_to_parse_token_string : Error → Error
  not_one_signature : Error
  no_signature_algorithm : Str → Str → Str → Error

-- A panic, at any depth: where a call that panics is wrapped, Go would unwind at once.
abbrev pub IsPanic : Error → Type 0
IsPanic nil_dereference = Unit
IsPanic (unable_to_extract_token e) = IsPanic e
IsPanic (unable_to_fetch_keys _ e) = IsPanic e
IsPanic (unable_to_update_key_set _ e) = IsPanic e
IsPanic (fallback_algorithm_not_accepted e) = IsPanic e
IsPanic (unable_to_load_jwks e) = IsPanic e
IsPanic (unable_to_fetch_jwks_uri _ e) = IsPanic e
IsPanic (unable_to_initialize_key_handler e) = IsPanic e
IsPanic (token_algorithm_required e) = IsPanic e
IsPanic (unable_to_get_public_key e) = IsPanic e
IsPanic (unable_to_convert_to_claims e) = IsPanic e
IsPanic (claims_validation e) = IsPanic e
IsPanic (unable_to_convert_token e) = IsPanic e
IsPanic (unable_to_marshal e) = IsPanic e
IsPanic (unable_to_unmarshal e) = IsPanic e
IsPanic (unable_to_parse_token_string e) = IsPanic e
IsPanic _ = ⊥

-- What Go returns as `(value, err)`: the value if `err == nil`, or the error.
pub data Result {ℓ} (E A : Type ℓ) : Type ℓ where
  ok : A → Result E A
  err : E → Result E A

-- A call of a package, a callback or the standard library: it fails with a text.
abbrev pub External : Type 0 → Type 0
External A = Result Str A

-- The error of a failing call, wrapped by the caller.
abbrev pub map_err : {A E F : Type 0} → (E → F) → Result E A → Result F A
map_err f (ok a) = ok a
map_err f (err e) = err (f e)

abbrev pub from_external : {A : Type 0} → External A → Result Error A
from_external (ok a) = ok a
from_external (err text) = err (external text)

pub Result-cases :
    {E A : Type 0} (r : Result E A) → ((a : A) × (r ≡ ok a)) ⊎ ((e : E) × (r ≡ err e))
Result-cases (ok a) = inl (a, refl)
Result-cases (err e) = inr (e, refl)

-- An error that is no nil dereference, or a value.
abbrev pub IsSafe : {A : Type 0} → Result Error A → Type 0
IsSafe (ok _) = Unit
IsSafe (err e) = ¬ IsPanic e

pub IsSafe-map_err :
    {A : Type 0} (f : Error → Error) (r : Result Error A)
    → ((e : Error) → ¬ IsPanic e → ¬ IsPanic (f e))
    → IsSafe r
    → IsSafe (map_err f r)
IsSafe-map_err f (ok a) keep safe = tt
IsSafe-map_err f (err e) keep safe = keep e safe

-- An action on a state. What was written before an error stays written.
abbrev pub Exec : Type 0 → Type 0 → Type 0
Exec S A = S → Result Error A × S

module _ {S A B : Type 0} where
  abbrev pub continue : Result Error A → (A → Exec S B) → Exec S B
  continue (ok a) f s = f a s
  continue (err e) f s = (err e, s)

  infixl 10 ◌>>=◌
  abbrev pub ◌>>=◌ : Exec S A → (A → Exec S B) → Exec S B
  ◌>>=◌ m f s = continue (m s).0 f (m s).1

abbrev pub pure : {S A : Type 0} → A → Exec S A
pure a s = (ok a, s)

abbrev pub lift : {S A : Type 0} → Result Error A → Exec S A
lift r s = (r, s)

-- The error of an action, wrapped by the caller.
abbrev pub wrap : {S A : Type 0} → (Error → Error) → Exec S A → Exec S A
wrap f m s = (map_err f (m s).0, (m s).1)

module _ {S B : Type 0} where
  infixl 10 ◌>>◌
  abbrev pub ◌>>◌ : Exec S Unit → Exec S B → Exec S B
  ◌>>◌ m k = m >>= λ _. k

-- `if !test { return err }`
abbrev pub require : {S : Type 0} → Bool → Error → Exec S Unit
require true e s = (ok tt, s)
require false e s = (err e, s)

-- A call of the platform that acts on its world.
abbrev pub call : {W A : Type 0} → (W → External A × W) → Exec W A
call m w = (from_external (m w).0, (m w).1)

-- A successful bind has a successful first part.
pub >>=-eq-ok :
    {S A B : Type 0} (m : Exec S A) (f : A → Exec S B) (s : S) {b : B} {s' : S}
    → (m >>= f) s ≡ (ok b, s')
    → (a : A) × (s1 : S) × (m s ≡ (ok a, s1)) × (f a s1 ≡ (ok b, s'))
>>=-eq-ok {S} {A} {B} m f s {b} {s'} h = split (m s) refl h
  where
    split :
        (out : Result Error A × S)
        → m s ≡ out
        → continue out.0 f out.1 ≡ (ok b, s')
        → (a : A) × (s1 : S) × (m s ≡ (ok a, s1)) × (f a s1 ≡ (ok b, s'))
    split (ok a, s1) e h = (a, s1, e, h)
    split (err x, s1) e h = cc (ap (λ (o : Result Error B × S). o.0) h)

pub err-injective : {E A : Type 0} {x y : E} → ◌≡◌ {A = Result E A} (err x) (err y) → x ≡ y
err-injective e = ground arith

pub ok-injective : {E A : Type 0} {a b : A} → ◌≡◌ {A = Result E A} (ok a) (ok b) → a ≡ b
ok-injective e = ground arith

-- A result is not an error and a value.
pub err-apart : {E A : Type 0} {e : E} {a : A} → ◌≡◌ {A = Result E A} (err e) (ok a) → ⊥
err-apart e = cc

pub map_err-ok :
    {A E F : Type 0} (f : E → F) (r : Result E A) (a : A) → map_err f r ≡ ok a → r ≡ ok a
map_err-ok f (ok b) a e = ground arith
map_err-ok f (err x) a e = cc

abbrev pub Outcome : Type 0 → Type 0 → Type 0
Outcome S A = Result Error A × S

-- The parts of an equation between outcomes.
module _ {S A : Type 0} where
  pub err-ne-ok : {e : Error} {a : A} {s t : S} → ◌≡◌ {A = Outcome S A} (err e, s) (ok a, t) → ⊥
  err-ne-ok h = cc (ap (λ (o : Outcome S A). o.0) h)

  pub outcome-result : {m n : Outcome S A} → m ≡ n → m.0 ≡ n.0
  outcome-result h = ap (λ (o : Outcome S A). o.0) h

  pub outcome-state : {m n : Outcome S A} → m ≡ n → m.1 ≡ n.1
  outcome-state h = ap (λ (o : Outcome S A). o.1) h
