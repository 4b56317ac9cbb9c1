-- ===== src/Text.antt =====
-- Go's `string` as a sequence of bytes, and the functions of the package `strings` that the
-- program calls: `HasPrefix`, `TrimPrefix`, `TrimSuffix`, `Contains`, `SplitN`, and `==`.
pub mod Equality
pub mod Prefix
pub mod Split
use Prim.Native.Char.{code}
use Prim.Native.String
use go_oidc_middleware.Prelude.{
  ℕ, zero, suc, String, Bool, true, false, ◌&&◌, Option, none, some, List, [], ◌∷◌, ◌++◌, nat_eq,
  if◌then◌else◌,
}

abbrev pub Str : Type 0
Str = List ℕ

-- The bytes of an ASCII literal.
abbrev pub str : String → Str
str String.[] = []
str (String.◌∷◌ c s) = code c ∷ str s

-- s == ""
abbrev pub is_empty : Str → Bool
is_empty [] = true
is_empty (_ ∷ _) = false

infix 50 ◌==◌
unfoldable pub ◌==◌ : Str → Str → Bool
[] == [] = true
[] == (_ ∷ _) = false
(_ ∷ _) == [] = false
(a ∷ s) == (b ∷ t) = nat_eq a b && (s == t)

-- What follows the prefix `p`, if the text begins with it.
unfoldable pub after_prefix : Str → Str → Option Str
after_prefix [] s = some s
after_prefix (_ ∷ _) [] = none
after_prefix (a ∷ p) (b ∷ s) = let rest = after_prefix p s in if nat_eq a b then rest else none

-- strings.HasPrefix(s, prefix)
unfoldable pub has_prefix : Str → Str → Bool
unfolding after_prefix
has_prefix s prefix = elim (after_prefix prefix s) [ none ↦ false | some _ ↦ true ]

-- strings.TrimPrefix(s, prefix)
unfoldable pub trim_prefix : Str → Str → Str
unfolding after_prefix
trim_prefix s prefix = elim (after_prefix prefix s) [ none ↦ s | some rest ↦ rest ]

-- strings.TrimSuffix(s, suffix)
unfoldable pub trim_suffix : Str → Str → Str
unfolding ◌==◌
trim_suffix [] suffix = []
trim_suffix (a ∷ s) suffix = if (a ∷ s) == suffix then [] else a ∷ trim_suffix s suffix

abbrev push_front : ℕ → Option (Str × Str) → Option (Str × Str)
push_front a none = none
push_front a (some (before, after)) = some (a ∷ before, after)

-- The texts before and after the first occurrence of `sep`.
unfoldable pub cut : Str → Str → Option (Str × Str)
unfolding after_prefix
cut sep [] = elim (after_prefix sep []) [ none ↦ none | some rest ↦ some ([], rest) ]
cut sep (a ∷ s) = elim (after_prefix sep (a ∷ s)) [
  | none ↦ push_front a (cut sep s)
  | some rest ↦ some ([], rest)
]

-- strings.Contains(s, sep)
unfoldable pub contains : Str → Str → Bool
unfolding cut
contains s sep = elim (cut sep s) [ none ↦ false | some _ ↦ true ]

-- The loop of `strings.SplitN`: at most `n` cuts, and the rest as the last piece.
unfoldable pub split_cuts : ℕ → Str → Str → List Str
unfolding cut
split_cuts zero sep s = s ∷ []
split_cuts (suc n) sep s = elim (cut sep s) [
  | none ↦ s ∷ []
  | some (before, after) ↦ before ∷ split_cuts n sep after
]

-- strings.SplitN(s, sep, n) for a separator that is not empty
unfoldable pub split_n : Str → Str → ℕ → List Str
unfolding split_cuts
split_n s sep zero = []
split_n s sep (suc n) = split_cuts n sep s
