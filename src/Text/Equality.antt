-- ===== src/Text/Equality.antt =====
-- `==` on texts decides equality.
use go_oidc_middleware.Prelude.{◌≡◌, refl, ◌↔◌, true, [], ◌∷◌, arith}
use go_oidc_middleware.Text.{Str, ◌==◌}

==_sound : (s t : Str) → (s == t) ≡ true → s ≡ t
unfolding ◌==◌
==_sound [] [] h = refl
==_sound [] (b ∷ t) h = cc
==_sound (a ∷ s) [] h = cc
==_sound (a ∷ s) (b ∷ t) h = ground (arith, ==_sound s t)

pub ==_refl : (s : Str) → (s == s) ≡ true
unfolding ◌==◌
==_refl [] = refl
==_refl (a ∷ s) = ground (arith, ==_refl s)

pub ==_iff : (s t : Str) → ((s == t) ≡ true) ↔ (s ≡ t)
==_iff s t = (==_sound s t, λ e. subst_eq e)
  where
    subst_eq : s ≡ t → (s == t) ≡ true
    subst_eq e = rw (← e) (==_refl s)
