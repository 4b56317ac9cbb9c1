-- ===== src/Op/Expiring.antt =====
-- The Go maps of optest/authorization_cache.go and optest/opaque_access_token.go: a map is a
-- function, and `clock k` is the reading of time.Now() when the loop comes to the key `k`, so that
-- no order of iteration is chosen.
use go_oidc_middleware.Prelude.{Option, none, some, if◌then◌else◌}
use go_oidc_middleware.Prelude.Int.{ℤ, ltb_ℤ}
use go_oidc_middleware.Text.{Str, ◌==◌}

abbrev pub Values : Type 0 → Type 0
Values E = Str → Option E

unfoldable pub put : {E : Type 0} → Str → Option E → Values E → Values E
put key e values k = if k == key then e else values k

-- `for k := range c.values { if c.values[k].expires.Before(time.Now()) { delete(c.values, k) } }`
unfoldable pub delete_expired : {E : Type 0} → (E → ℤ) → (Str → ℤ) → Values E → Values E
delete_expired expires clock values k = elim (values k) [
  | none ↦ none
  | some e ↦ if ltb_ℤ (expires e) (clock k) then none else some e
]
