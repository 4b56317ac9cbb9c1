-- ===== src/Text/Prefix.antt =====
-- Prefixes and suffixes.
use go_oidc_middleware.Prelude.{◌≡◌, refl, ◌≢◌, none, some, [], ◌∷◌, ◌++◌, arith}
use go_oidc_middleware.Text.{Str, after_prefix, trim_suffix, ◌==◌}

pub after_prefix-append : (p s : Str) → after_prefix p (p ++ s) ≡ some s
unfolding after_prefix
after_prefix-append [] s = refl
after_prefix-append (a ∷ p) s = ground (arith, after_prefix-append p s)

pub append-after_prefix : (p s rest : Str) → after_prefix p s ≡ some rest → s ≡ p ++ rest
unfolding after_prefix
append-after_prefix [] s rest h = ground arith
append-after_prefix (a ∷ p) [] rest h = cc
append-after_prefix (a ∷ p) (b ∷ s) rest h = ground (arith, append-after_prefix p s rest)

-- A prefix of a text is a prefix of every longer one.
pub after_prefix-longer :
    (p s t rest : Str) → after_prefix p s ≡ some rest → after_prefix p (s ++ t) ≡ some (rest ++ t)
unfolding after_prefix
after_prefix-longer [] s t rest h = ground arith
after_prefix-longer (a ∷ p) [] t rest h = cc
after_prefix-longer (a ∷ p) (b ∷ s) t rest h = ground (arith, after_prefix-longer p s t rest)

pub after_prefix-nil : (p : Str) → p ≢ [] → after_prefix p [] ≡ none
unfolding after_prefix
after_prefix-nil [] h = absurd (h refl)
after_prefix-nil (a ∷ p) h = refl

-- The text without its suffix, for a text that ends in it and is not the suffix of itself twice.
pub trim_suffix-byte : (s : Str) (c : _) → trim_suffix (s ++ c ∷ []) (c ∷ []) ≡ s
unfolding trim_suffix ◌==◌
trim_suffix-byte [] c = ground arith
trim_suffix-byte (a ∷ []) c = ground (arith, trim_suffix-byte [] c)
trim_suffix-byte (a ∷ b ∷ s) c = ground (arith, trim_suffix-byte (b ∷ s) c)
