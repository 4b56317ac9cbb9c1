-- ===== src/TokenString/Chosen.antt =====
-- Which set of options gives the token string of `GetTokenString`, told without its loop.
use go_oidc_middleware.Prelude.{
  ◌≡◌, ◌≢◌, ◌↔◌, refl, Option, none, some, List, [], ◌∷◌, ◌++◌, arith, inl, inr, ◌⊎◌, All, subst,
}
use go_oidc_middleware.Text.{Str}
use go_oidc_middleware.Errors.{External, ok, Result-cases}
use go_oidc_middleware.Options.TokenStringOptions.{TokenStringOption, new_token_string}
use go_oidc_middleware.TokenString.{
  GetHeaderFn, get_token_string_with, return, post_extraction, round, get_token_string,
}
use go_oidc_middleware.TokenString.Selection.{
  get_token_string_with-ne-nil, Round-cases, IsSkipped, Selected, get_token_string-Selected,
}

-- What the callback of a set of options makes of the text that was extracted.
abbrev pub IsPost : Option (Str → External Str) → Str → Str → Type 0
IsPost none extracted token = token ≡ extracted
IsPost (some f) extracted token = (f extracted ≡ ok token) × (token ≢ [])

post_extraction_iff :
    (f : Option (Str → External Str)) (extracted token : Str)
    → (post_extraction f extracted ≡ return token) ↔ IsPost f extracted token
unfolding post_extraction
post_extraction_iff none extracted token = (λ h. cc, λ h. cc)
post_extraction_iff (some f) extracted token = elim (Result-cases (f extracted)) [
  | inl (t, made) ↦ (λ h. ground (arith, made), λ h. ground (arith, made))
  | inr (e, failed) ↦ (λ h. ground (arith, failed), λ h. ground (arith, failed))
]

module _ (get_header_fn : GetHeaderFn) where
  -- A set of options gives a token: a text is extracted from the header that it names, and its
  -- callback, if it has one, makes the token of it, which is not empty.
  abbrev pub Gives : List TokenStringOption → Str → Type 0
  Gives setters token =
      let opts = new_token_string setters in
      (extracted : Str) × (get_token_string_with get_header_fn opts ≡ ok extracted)
      × IsPost opts.post_extraction_fn extracted token

  abbrev pub GivesNone : List TokenStringOption → Type 0
  GivesNone setters = (token : Str) → ¬ Gives setters token

  -- The first set that gives a token, and the token.
  pub record IsFirst (opts : List (List TokenStringOption)) (token : Str) : Type 0 where
    pub before : List (List TokenStringOption)
    pub chosen : List TokenStringOption
    pub after : List (List TokenStringOption)
    pub listed : opts ≡ before ++ chosen ∷ after
    pub missed : All GivesNone before
    pub given : Gives chosen token

  Gives-round :
      (setters : List TokenStringOption) (token : Str)
      → round get_header_fn setters ≡ return token
      → Gives setters token
  unfolding round
  Gives-round setters token h =
      let opts = new_token_string setters in
      elim (Result-cases (get_token_string_with get_header_fn opts)) [
        | inl (extracted, found) ↦ (
          extracted,
          found,
          (post_extraction_iff opts.post_extraction_fn extracted token).0 (ground (arith, found)),
        )
        | inr (e, failed) ↦ absurd (ground (arith, failed))
      ]

  round-Gives :
      (setters : List TokenStringOption) (token : Str)
      → Gives setters token
      → round get_header_fn setters ≡ return token
  unfolding round
  round-Gives setters token (extracted, found, post) =
      let opts = new_token_string setters in
      let some_text = get_token_string_with-ne-nil get_header_fn opts extracted found in
      let posted = (post_extraction_iff opts.post_extraction_fn extracted token).1 post in
      ground (arith, found, some_text, posted)

  GivesNone-IsSkipped :
      (setters : List TokenStringOption) → IsSkipped get_header_fn setters → GivesNone setters
  GivesNone-IsSkipped setters (e, missed) token gives =
      let given = round-Gives setters token gives in cc

  IsSkipped-GivesNone :
      (setters : List TokenStringOption) → GivesNone setters → IsSkipped get_header_fn setters
  IsSkipped-GivesNone setters misses = elim (Round-cases (round get_header_fn setters)) [
    | inl (t, found) ↦ absurd (misses t (Gives-round setters t found))
    | inr missed ↦ missed
  ]

  -- `All` along an implication.
  all :
      {P Q : List TokenStringOption → Type 0}
      → ((x : List TokenStringOption) → P x → Q x)
      → (xs : List (List TokenStringOption)) → All P xs
      → All Q xs
  all f [] _ = tt
  all f (x ∷ xs) (p, ps) = (f x p, all f xs ps)

  IsFirst-Selected :
      (opts : List (List TokenStringOption)) (token : Str)
      → Selected get_header_fn opts token
      → IsFirst opts token
  IsFirst-Selected opts token s = record {
    before = s.before;
    chosen = s.chosen;
    after = s.after;
    listed = s.listed;
    missed = all GivesNone-IsSkipped s.before s.skipped;
    given = Gives-round s.chosen token s.given;
  }

  Selected-IsFirst :
      (opts : List (List TokenStringOption)) (token : Str)
      → IsFirst opts token
      → Selected get_header_fn opts token
  Selected-IsFirst opts token s = record {
    before = s.before;
    chosen = s.chosen;
    after = s.after;
    listed = s.listed;
    skipped = all IsSkipped-GivesNone s.before s.missed;
    given = round-Gives s.chosen token s.given;
  }

  single :
      (setters : List TokenStringOption) (token : Str)
      → IsFirst (setters ∷ []) token
      → Gives setters token
  single setters token x = at x.before x.listed
    where
      at :
          (before : List (List TokenStringOption))
          → setters ∷ [] ≡ before ++ x.chosen ∷ x.after
          → Gives setters token
      at [] e =
          let same : x.chosen ≡ setters = ground arith in
          subst (λ chosen. Gives chosen token) same x.given
      at (b ∷ []) e = absurd (ground arith)
      at (b ∷ b' ∷ before) e = absurd (ground arith)

  nothing : (token : Str) → ¬ IsFirst [] token
  nothing token x = ne x.before x.listed
    where
      ne : (before : List (List TokenStringOption)) → [] ≢ before ++ x.chosen ∷ x.after
      ne [] = ground arith
      ne (b ∷ before) = ground arith

  -- With sets of options a token string is returned exactly when some set gives it and no earlier
  -- set gives one; without any, exactly when the default set gives it. A set gives what is
  -- extracted by it, or what its callback makes of that unless it fails or makes the empty text.
  pub get_token_string_iff :
      (opts : List (List TokenStringOption)) (token : Str)
      → (get_token_string get_header_fn opts ≡ ok token)
        ↔ (((opts ≡ []) × Gives [] token) ⊎ IsFirst opts token)
  get_token_string_iff [] token =
      let whole = get_token_string-Selected get_header_fn [] token in
      (
        λ h. inl (refl, single [] token (IsFirst-Selected ([] ∷ []) token (whole.0 h))),
        λ x. elim x [
          | inl (_, given) ↦ whole.1 (
              Selected-IsFirst ([] ∷ []) token (record {
                before = [];
                chosen = [];
                after = [];
                listed = refl;
                missed = tt;
                given = given;
              }))
          | inr other ↦ absurd (nothing token other)
        ],
      )
  get_token_string_iff (setters ∷ opts) token =
      let whole = get_token_string-Selected get_header_fn (setters ∷ opts) token in
      (
        λ h. inr (IsFirst-Selected (setters ∷ opts) token (whole.0 h)),
        λ x. elim x [
          | inl (empty, _) ↦ absurd (ground arith)
          | inr first ↦ whole.1 (Selected-IsFirst (setters ∷ opts) token first)
        ],
      )
