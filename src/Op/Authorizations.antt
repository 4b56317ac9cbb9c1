-- ===== src/Op/Authorizations.antt =====
-- optest/authorization_cache.go: the authorization codes that the provider has given out.
use go_oidc_middleware.Prelude.{◌≡◌, refl, false, Option, none, some, List, [], ◌∷◌, arith, All}
use go_oidc_middleware.Prelude.Int.{ℤ, ◌+ℤ◌, pos, ltb_ℤ}
use go_oidc_middleware.Text.{Str, ◌==◌}
use go_oidc_middleware.Text.Equality.{==_refl}
use go_oidc_middleware.Op.Expiring.{Values, put, delete_expired}

pub record AuthorizationCache : Type 0 where
  pub code : Str
  pub login_hint : Str
  pub nonce : Str
  pub expires : ℤ

pub record Container : Type 0 where
  pub values : Values AuthorizationCache
  pub ttl : ℤ

unfoldable pub new_container : Container
new_container = record { values = λ _. none; ttl = pos 10_000_000_000 }

abbrev pub entry : Str → Str → Str → ℤ → AuthorizationCache
entry code login_hint nonce expires = record {
  code = code;
  login_hint = login_hint;
  nonce = nonce;
  expires = expires;
}

-- `now` is the reading before the loop, `clock` the readings in it.
unfoldable pub set : Str → Str → Str → ℤ → (Str → ℤ) → Container → Container
unfolding put delete_expired
set code login_hint nonce now clock c = record c {
  values =
      delete_expired (λ (e : AuthorizationCache). e.expires) clock
        (put code (some (entry code login_hint nonce (now +ℤ c.ttl))) c.values);
}

unfoldable pub get : Str → (Str → ℤ) → Container → Option AuthorizationCache × Container
unfolding put delete_expired
get code clock c =
    let values = delete_expired (λ (e : AuthorizationCache). e.expires) clock c.values in
    (values code, record c { values = put code none values })

-- The operations of the provider on the container.
pub data Operation : Type 0 where
  set_code : Str → Str → Str → ℤ → (Str → ℤ) → Operation
  get_code : Str → (Str → ℤ) → Operation

unfoldable pub perform : Operation → Container → Container
unfolding set get
perform (set_code code login_hint nonce now clock) c = set code login_hint nonce now clock c
perform (get_code code clock) c = (get code clock c).1

unfoldable pub perform_all : List Operation → Container → Container
unfolding perform
perform_all [] c = c
perform_all (o ∷ os) c = perform_all os (perform o c)

-- The operation does not give out this code.
abbrev pub Spares : Str → Operation → Type 0
Spares code (set_code code' login_hint nonce now clock) = (code == code') ≡ false
Spares code (get_code code' clock) = Unit

pub get-miss :
    (code : Str) (clock : Str → ℤ) (c : Container)
    → c.values code ≡ none
    → (get code clock c).0 ≡ none
unfolding get delete_expired
get-miss code clock c h = ground arith

pub get-removes :
    (code : Str) (clock : Str → ℤ) (c : Container) → (get code clock c).1.values code ≡ none
unfolding get put
get-removes code clock c = rw (==_refl code)

pub perform-miss :
    (code : Str) (o : Operation) (c : Container)
    → Spares code o
    → c.values code ≡ none
    → (perform o c).values code ≡ none
unfolding perform set get put delete_expired
perform-miss code (set_code code' login_hint nonce now clock) c other h = ground arith
perform-miss code (get_code code' clock) c _ h = ground arith

perform_all-miss :
    (code : Str) (os : List Operation) (c : Container)
    → All (Spares code) os
    → c.values code ≡ none
    → (perform_all os c).values code ≡ none
unfolding perform_all
perform_all-miss code [] c _ h = h
perform_all-miss code (o ∷ os) c (spared, rest) h =
    perform_all-miss code os (perform o c) rest (perform-miss code o c spared h)

-- A code is redeemed once: after `get` has seen it, `get` does not find it again, whatever
-- operations come between that do not give out the same code.
pub get-once :
    (code : Str) (clock clock' : Str → ℤ) (os : List Operation) (c : Container)
    → All (Spares code) os
    → (get code clock' (perform_all os (get code clock c).1)).0 ≡ none
get-once code clock clock' os c spared =
    get-miss code clock' (perform_all os (get code clock c).1)
      (perform_all-miss code os (get code clock c).1 spared (get-removes code clock c))

-- A code that was given out is redeemed for its login hint and nonce, whatever the container held,
-- if no clock read for it in the two calls is past its time to live.
pub get-set :
    (code login_hint nonce : Str) (now : ℤ) (clock clock' : Str → ℤ) (c : Container)
    → ltb_ℤ (now +ℤ c.ttl) (clock code) ≡ false
    → ltb_ℤ (now +ℤ c.ttl) (clock' code) ≡ false
    → (get code clock' (set code login_hint nonce now clock c)).0
      ≡ some (entry code login_hint nonce (now +ℤ c.ttl))
unfolding get set put delete_expired
get-set code login_hint nonce now clock clock' c h h' =
    rw (==_refl code, set, delete_expired, put) (rw (h, delete_expired) (rw h' refl))
