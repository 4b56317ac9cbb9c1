-- ===== src/Op/OpaqueTokens.antt =====
-- optest/opaque_access_token.go: the access tokens behind the opaque ones.
use go_oidc_middleware.Prelude.{◌≡◌, refl, false, Option, none, some, List, [], ◌∷◌, All}
use go_oidc_middleware.Prelude.Int.{ℤ, ltb_ℤ}
use go_oidc_middleware.Text.{Str, ◌==◌}
use go_oidc_middleware.Text.Equality.{==_refl}
use go_oidc_middleware.Op.Expiring.{Values, put, delete_expired}

pub record OpaqueAccessToken : Type 0 where
  pub jwt_access_token : Str
  pub expires : ℤ

pub record Container : Type 0 where
  pub values : Values OpaqueAccessToken

unfoldable pub new_container : Container
new_container = record { values = λ _. none }

abbrev pub entry : Str → ℤ → OpaqueAccessToken
entry jwt_access_token expires = record { jwt_access_token = jwt_access_token; expires = expires }

unfoldable pub set : Str → Str → ℤ → (Str → ℤ) → Container → Container
unfolding put delete_expired
set opaque_token jwt_access_token expires clock c = record c {
  values =
      delete_expired (λ (e : OpaqueAccessToken). e.expires) clock
        (put opaque_token (some (entry jwt_access_token expires)) c.values);
}

unfoldable pub get : Str → (Str → ℤ) → Container → Option OpaqueAccessToken × Container
unfolding delete_expired
get opaque_token clock c =
    let values = delete_expired (λ (e : OpaqueAccessToken). e.expires) clock c.values in
    (values opaque_token, record c { values = values })

pub data Operation : Type 0 where
  set_token : Str → Str → ℤ → (Str → ℤ) → Operation
  get_token : Str → (Str → ℤ) → Operation

unfoldable pub perform : Operation → Container → Container
unfolding set get
perform (set_token opaque_token jwt_access_token expires clock) c =
    set opaque_token jwt_access_token expires clock c
perform (get_token opaque_token clock) c = (get opaque_token clock c).1

unfoldable pub perform_all : List Operation → Container → Container
unfolding perform
perform_all [] c = c
perform_all (o ∷ os) c = perform_all os (perform o c)

-- The operation sets another token, and no clock it reads for this one is past the time.
abbrev pub Spares : Str → ℤ → Operation → Type 0
Spares t expires (set_token t' jwt expires' clock) =
    ((t == t') ≡ false) × (ltb_ℤ expires (clock t) ≡ false)
Spares t expires (get_token t' clock) = ltb_ℤ expires (clock t) ≡ false

set-hit :
    (t jwt : Str) (expires : ℤ) (clock : Str → ℤ) (c : Container)
    → ltb_ℤ expires (clock t) ≡ false
    → (set t jwt expires clock c).values t ≡ some (entry jwt expires)
unfolding set put delete_expired
set-hit t jwt expires clock c h = rw (==_refl t, put, delete_expired) (rw h refl)

perform-hit :
    (t jwt : Str) (expires : ℤ) (o : Operation) (c : Container)
    → Spares t expires o
    → c.values t ≡ some (entry jwt expires)
    → (perform o c).values t ≡ some (entry jwt expires)
unfolding perform set get put delete_expired
perform-hit t jwt expires (set_token t' jwt' expires' clock) c (other, live) h =
    rw (other, put, delete_expired) (rw (h, delete_expired) (rw live refl))
perform-hit t jwt expires (get_token t' clock) c live h = rw (h, delete_expired) (rw live refl)

perform_all-hit :
    (t jwt : Str) (expires : ℤ) (os : List Operation) (c : Container)
    → All (Spares t expires) os
    → c.values t ≡ some (entry jwt expires)
    → (perform_all os c).values t ≡ some (entry jwt expires)
unfolding perform_all
perform_all-hit t jwt expires [] c _ h = h
perform_all-hit t jwt expires (o ∷ os) c (spared, rest) h =
    perform_all-hit t jwt expires os (perform o c) rest (perform-hit t jwt expires o c spared h)

get-hit :
    (t jwt : Str) (expires : ℤ) (clock : Str → ℤ) (c : Container)
    → ltb_ℤ expires (clock t) ≡ false
    → c.values t ≡ some (entry jwt expires)
    → (get t clock c).0 ≡ some (entry jwt expires)
unfolding get delete_expired
get-hit t jwt expires clock c live h = rw (h, delete_expired) (rw live refl)

-- An opaque token gives the access token and expiry it was set with, after any operations that do
-- not set it again, if no clock read for it is past its expiry.
pub get-kept :
    (t jwt : Str) (expires : ℤ) (clock clock' : Str → ℤ) (os : List Operation) (c : Container)
    → ltb_ℤ expires (clock t) ≡ false
    → All (Spares t expires) os
    → ltb_ℤ expires (clock' t) ≡ false
    → (get t clock' (perform_all os (set t jwt expires clock c))).0 ≡ some (entry jwt expires)
get-kept t jwt expires clock clock' os c live spared live' =
    get-hit t jwt expires clock' (perform_all os (set t jwt expires clock c)) live' (
      perform_all-hit t jwt expires os (set t jwt expires clock c) spared
        (set-hit t jwt expires clock c live))
