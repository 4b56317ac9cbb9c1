-- ===== src/Op/Action.antt =====
-- The errors of the provider and of the example programs, and their actions: a state is passed on,
-- and a call can fail.
pub mod Bind
use go_oidc_middleware.Prelude.{Bool, true, false}
use go_oidc_middleware.Text.{Str}
use go_oidc_middleware.Errors.{Result, ok, err, External}
use go_oidc_middleware.Op.Keys.{KeyError}

pub data OpError : Type 0 where
  external : Str → OpError
  key_error : KeyError → OpError
  no_test_user_given : OpError
  no_default_test_user : Str → OpError
  no_test_user : Str → OpError
  no_id : OpError
  unable_to_parse_jws : OpError
  not_one_signature : OpError
  no_jwt_typ : OpError
  jwt_typ_no_text : OpError
  not_access_token : Str → OpError
  unable_to_parse_token : OpError → OpError
  no_id_claim : OpError
  id_no_text : OpError
  unable_to_generate_claims : OpError → OpError
  no_opaque_token : OpError
  -- a value that is empty, of this name
  empty_value : Str → OpError
  unknown : Str → OpError
  -- panics
  closed_channel : OpError
  index_out_of_range : OpError

abbrev pub Action : Type 0 → Type 0 → Type 0
Action S A = S → Result OpError A × S

abbrev pub continue : {S A B : Type 0} → Result OpError A → (A → Action S B) → Action S B
continue (ok a) f s = f a s
continue (err e) f s = (err e, s)

infixl 5 ◌>>=◌ ◌>>◌
abbrev pub ◌>>=◌ : {S A B : Type 0} → Action S A → (A → Action S B) → Action S B
◌>>=◌ m f s = continue (m s).0 f (m s).1

abbrev pub ◌>>◌ : {S B : Type 0} → Action S (Unit {0}) → Action S B → Action S B
m >> k = m >>= λ _. k

abbrev pub pure : {S A : Type 0} → A → Action S A
pure a s = (ok a, s)

abbrev pub lift : {S A : Type 0} → Result OpError A → Action S A
lift r s = (r, s)

abbrev pub from_external : {A : Type 0} → External A → Result OpError A
from_external (ok a) = ok a
from_external (err text) = err (external text)

abbrev pub from_keys : {A : Type 0} → Result KeyError A → Result OpError A
from_keys (ok a) = ok a
from_keys (err e) = err (key_error e)

abbrev pub map_error : {A : Type 0} → (OpError → OpError) → Result OpError A → Result OpError A
map_error f (ok a) = ok a
map_error f (err e) = err (f e)

abbrev pub require : {S : Type 0} → Bool → OpError → Action S (Unit {0})
require true e s = (ok tt, s)
require false e s = (err e, s)
