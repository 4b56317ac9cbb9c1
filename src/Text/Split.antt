-- ===== src/Text/Split.antt =====
-- Cutting and splitting.
use go_oidc_middleware.Prelude.{
  ℕ, zero, suc, ◌≡◌, ◌≢◌, ◌≤◌, refl, ap, sym, ◌∙◌, none, some, List, [], ◌∷◌, ◌++◌, arith,
  Option-cases, true, length, In, All, inl, inr, ◌+◌,
}
use go_oidc_middleware.Text.{Str, after_prefix, cut, contains, split_cuts}
use go_oidc_middleware.Text.Prefix.{append-after_prefix, after_prefix-longer, after_prefix-nil}

-- A cut puts the text back together around the separator.
pub append-cut :
    (sep s before after : Str) → cut sep s ≡ some (before, after) → s ≡ before ++ (sep ++ after)
unfolding cut
append-cut sep [] before after h = ground (arith, append-after_prefix sep [] after)
append-cut sep (a ∷ s) before after h = elim (Option-cases (cut sep s)) [
  | inl missed ↦ ground (arith, append-after_prefix sep (a ∷ s) after)
  | inr ((b, r), found) ↦
      ground (arith, append-cut sep s b r, append-after_prefix sep (a ∷ s) after)
]

-- The text before the first occurrence of a separator holds no occurrence.
pub cut-before :
    (sep s before after : Str) → sep ≢ [] → cut sep s ≡ some (before, after) → cut sep before ≡ none
unfolding cut
cut-before sep [] before after ne h = ground (arith, after_prefix-nil sep ne)
cut-before sep (a ∷ s) before after ne h = elim (Option-cases (after_prefix sep (a ∷ s))) [
  | inr (rest, here) ↦ ground (arith, after_prefix-nil sep ne)
  | inl later ↦ elim (Option-cases (cut sep s)) [
    | inl missed ↦ ground arith
    | inr ((b, r), found) ↦
        let whole : s ≡ b ++ (sep ++ r) = append-cut sep s b r found in
        let first : before ≡ a ∷ b = ground arith in
        rw first (elim (Option-cases (after_prefix sep (a ∷ b))) [
          | inl none_here ↦ rw (none_here, cut) (rw (cut-before sep s b r ne found))
          | inr (rest, here) ↦
              absurd (ground (arith, after_prefix-longer sep (a ∷ b) (sep ++ r) rest here, whole))
        ])
  ]
]

-- A separator of one byte cuts a text at the first such byte.
pub cut-byte : (c : ℕ) (s t : Str) → ¬ In c s → cut (c ∷ []) (s ++ c ∷ t) ≡ some (s, t)
unfolding cut after_prefix
cut-byte c [] t h = ground arith
cut-byte c (a ∷ s) t h = ground (arith, cut-byte c s t (λ i. h (inr i)))

pub cut-byte_none : (c : ℕ) (s : Str) → ¬ In c s → cut (c ∷ []) s ≡ none
unfolding cut after_prefix
cut-byte_none c [] h = refl
cut-byte_none c (a ∷ s) h = ground (arith, cut-byte_none c s (λ i. h (inr i)))

abbrev pub join : Str → List Str → Str
join sep [] = []
join sep (s ∷ []) = s
join sep (s ∷ t ∷ ss) = s ++ (sep ++ join sep (t ∷ ss))

join-cons : (sep s : Str) (ss : List Str) → ss ≢ [] → join sep (s ∷ ss) ≡ s ++ (sep ++ join sep ss)
join-cons sep s [] h = absurd (h refl)
join-cons sep s (t ∷ ss) h = refl

split_cuts-ne-nil : (n : ℕ) (sep s : Str) → split_cuts n sep s ≢ []
unfolding split_cuts
split_cuts-ne-nil zero sep s = ground arith
split_cuts-ne-nil (suc n) sep s = ground arith

-- The pieces of a split, joined again, are the text.
pub join-split_cuts : (n : ℕ) (sep s : Str) → join sep (split_cuts n sep s) ≡ s
unfolding split_cuts
join-split_cuts zero sep s = refl
join-split_cuts (suc n) sep s = elim (Option-cases (cut sep s)) [
  | inl missed ↦ rw (missed, split_cuts)
  | inr ((b, r), found) ↦
      rw (found, split_cuts)
        (join-cons sep b (split_cuts n sep r) (split_cuts-ne-nil n sep r)
          ∙ (ap (λ t. b ++ (sep ++ t)) (join-split_cuts n sep r)
              ∙ sym (append-cut sep s b r found)))
]

pub length-split_cuts : (n : ℕ) (sep s : Str) → length (split_cuts n sep s) ≤ n + 1
unfolding split_cuts
length-split_cuts zero sep s = omega arith
length-split_cuts (suc n) sep s = elim (Option-cases (cut sep s)) [
  | inl missed ↦ rw (missed, split_cuts) (omega arith)
  | inr ((b, r), found) ↦ rw (found, split_cuts) (omega (arith, length-split_cuts n sep r))
]

-- Texts without the byte `c`, joined by it, are split into themselves if there are few enough.
pub split_cuts-join :
    (n c : ℕ) (s : Str) (ss : List Str)
    → length ss ≤ n
    → All (λ t. ¬ In c t) (s ∷ ss)
    → split_cuts n (c ∷ []) (join (c ∷ []) (s ∷ ss)) ≡ s ∷ ss
unfolding split_cuts
split_cuts-join zero c s [] h free = refl
split_cuts-join zero c s (t ∷ ss) h free = absurd (omega arith)
split_cuts-join (suc n) c s [] h (free, _) = rw (cut-byte_none c s free, split_cuts)
split_cuts-join (suc n) c s (t ∷ ss) h (free, rest) =
    rw (cut-byte c s (join (c ∷ []) (t ∷ ss)) free, split_cuts)
      (ap (λ l. s ∷ l) (split_cuts-join n c t ss (omega arith) rest))

pub contains-byte : (c : ℕ) (s t : Str) → ¬ In c s → contains (s ++ c ∷ t) (c ∷ []) ≡ true
unfolding contains
contains-byte c s t h = rw (cut-byte c s t h, contains)
