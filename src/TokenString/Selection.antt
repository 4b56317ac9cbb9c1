-- ===== src/TokenString/Selection.antt =====
-- Which of several sets of options gives the token: the loop of `GetTokenString`.
use go_oidc_middleware.Prelude.{
  ◌≡◌, ◌≢◌, ◌↔◌, refl, ap, ◌&&◌, not, Option, none, some, List, [], ◌∷◌, ◌++◌, arith, inl, inr, ◌⊎◌,
  Bool-cases, All,
}
use go_oidc_middleware.Text.{Str, str, is_empty, contains, split_n}
use go_oidc_middleware.Errors.{Error, ok, err, Result-cases, unable_to_extract_token}
use go_oidc_middleware.Options.TokenStringOptions.{
  TokenStringOptions, TokenStringOption, new_token_string, default_token_string,
}
use go_oidc_middleware.TokenString.{
  GetHeaderFn, max_list_separator_slices, get_token_string_with, Round, return, next,
  post_extraction, round, try_each, or_default, get_token_string,
}
use go_oidc_middleware.TokenString.Prefixed.{
  get_token_string_with-append, get_token_from_string_iff, get_token_from_list_sound,
}

pub get_token_string_with-ne-nil :
    (get_header_fn : GetHeaderFn) (opts : TokenStringOptions) (token : Str)
    → get_token_string_with get_header_fn opts ≡ ok token
    → token ≢ []
unfolding get_token_string_with
get_token_string_with-ne-nil get_header_fn opts token h =
    let header = get_header_fn opts.header_name in
    let listed =
      get_token_from_list_sound opts (split_n header opts.list_separator max_list_separator_slices)
        token in
    let single = (get_token_from_string_iff opts header token).0 in
    elim (Bool-cases (not (is_empty opts.list_separator) && contains header opts.list_separator)) [
      | inl many ↦ (listed (ground arith)).1
      | inr one ↦ (single (ground arith)).1
    ]

pub Round-cases : (r : Round) → ((t : Str) × (r ≡ return t)) ⊎ ((e : Option Error) × (r ≡ next e))
Round-cases (return t) = inl (t, refl)
Round-cases (next e) = inr (e, refl)

or_default-ne-nil : (opts : List (List TokenStringOption)) → or_default opts ≢ []
or_default-ne-nil [] = ground arith
or_default-ne-nil (setters ∷ opts) = ground arith

module _ (get_header_fn : GetHeaderFn) where
  -- These options give no token.
  abbrev pub IsSkipped : List TokenStringOption → Type 0
  IsSkipped setters = (e : Option Error) × (round get_header_fn setters ≡ next e)

  -- The first options that give a token, and the token.
  pub record Selected (opts_list : List (List TokenStringOption)) (token : Str) : Type 0 where
    pub before : List (List TokenStringOption)
    pub chosen : List TokenStringOption
    pub after : List (List TokenStringOption)
    pub listed : opts_list ≡ before ++ chosen ∷ after
    pub skipped : All IsSkipped before
    pub given : round get_header_fn chosen ≡ return token

  try_each_sound :
      (opts_list : List (List TokenStringOption)) (e : Option Error) (token : Str)
      → try_each get_header_fn opts_list e ≡ ok token
      → Selected opts_list token
  unfolding try_each
  try_each_sound [] none token h = cc
  try_each_sound [] (some e) token h = cc
  try_each_sound (setters ∷ opts_list) e token h =
      elim (Round-cases (round get_header_fn setters)) [
        | inl (t, found) ↦ record {
          before = [];
          chosen = setters;
          after = opts_list;
          listed = refl;
          skipped = tt;
          given = ground arith;
        }
        | inr (e', missed) ↦
            let s = try_each_sound opts_list e' token (rw (missed, try_each) at h) in
            record {
              before = setters ∷ s.before;
              chosen = s.chosen;
              after = s.after;
              listed = ap (λ l. setters ∷ l) s.listed;
              skipped = ((e', missed), s.skipped);
              given = s.given;
            }
      ]

  try_each_complete :
      (before after : List (List TokenStringOption)) (chosen : List TokenStringOption)
      (e : Option Error) (token : Str)
      → All IsSkipped before
      → round get_header_fn chosen ≡ return token
      → try_each get_header_fn (before ++ chosen ∷ after) e ≡ ok token
  unfolding try_each
  try_each_complete [] after chosen e token _ h = rw (h, try_each)
  try_each_complete (setters ∷ before) after chosen e token ((e', missed), skipped) h =
      rw (missed, try_each) (try_each_complete before after chosen e' token skipped h)

  -- A set of options that gives no token leaves an error behind.
  round-ne-next_none : (setters : List TokenStringOption) → round get_header_fn setters ≢ next none
  unfolding round post_extraction
  round-ne-next_none setters h =
      let opts = new_token_string setters in
      elim (Result-cases (get_token_string_with get_header_fn opts)) [
        | inl (t, found) ↦
            ground (arith, found, get_token_string_with-ne-nil get_header_fn opts t found)
        | inr (e, failed) ↦ ground arith
      ]

  -- The error of the last set of options, after all of them have given none.
  pub record Exhausted (opts_list : List (List TokenStringOption)) (e : Error) : Type 0 where
    pub before : List (List TokenStringOption)
    pub last : List TokenStringOption
    pub listed : opts_list ≡ before ++ last ∷ []
    pub skipped : All IsSkipped before
    pub failed : round get_header_fn last ≡ next (some e)

  try_each-Exhausted :
      (opts_list : List (List TokenStringOption)) (first : Option Error) (e : Error)
      → opts_list ≢ []
      → try_each get_header_fn opts_list first ≡ err e
      → (cause : Error) × (e ≡ unable_to_extract_token cause) × Exhausted opts_list cause
  unfolding try_each
  try_each-Exhausted [] first e ne h = absurd (ne refl)
  try_each-Exhausted (setters ∷ []) first e ne h =
      elim (Round-cases (round get_header_fn setters)) [
        | inl (t, found) ↦ cc (rw (found, try_each) at h)
        | inr (none, missed) ↦ absurd (round-ne-next_none setters missed)
        | inr (some cause, missed) ↦ (
          cause,
          ground arith,
          record { before = []; last = setters; listed = refl; skipped = tt; failed = missed },
        )
      ]
  try_each-Exhausted (setters ∷ setters' ∷ opts_list) first e ne h =
      elim (Round-cases (round get_header_fn setters)) [
        | inl (t, found) ↦ cc (rw (found, try_each) at h)
        | inr (e', missed) ↦
            let (cause, same, x) =
              try_each-Exhausted (setters' ∷ opts_list) e' e (ground arith)
                (rw (missed, try_each) at h) in
            (
              cause,
              same,
              record {
                before = setters ∷ x.before;
                last = x.last;
                listed = ap (λ l. setters ∷ l) x.listed;
                skipped = ((e', missed), x.skipped);
                failed = x.failed;
              },
            )
      ]

  pub get_token_string-Selected :
      (opts : List (List TokenStringOption)) (token : Str)
      → (get_token_string get_header_fn opts ≡ ok token) ↔ Selected (or_default opts) token
  unfolding get_token_string
  get_token_string-Selected opts token = (try_each_sound (or_default opts) none token, λ s. back s)
    where
      back : Selected (or_default opts) token → get_token_string get_header_fn opts ≡ ok token
      back s =
          rw s.listed (try_each_complete s.before s.after s.chosen none token s.skipped s.given)

  -- An error of the extraction wraps the error of the last set of options, and never nil.
  pub get_token_string-Exhausted :
      (opts : List (List TokenStringOption)) (e : Error)
      → get_token_string get_header_fn opts ≡ err e
      → (cause : Error) × (e ≡ unable_to_extract_token cause) × Exhausted (or_default opts) cause
  unfolding get_token_string
  get_token_string-Exhausted opts e h =
      try_each-Exhausted (or_default opts) none e (or_default-ne-nil opts) h

  round-ne-nil :
      (setters : List TokenStringOption) (token : Str)
      → round get_header_fn setters ≡ return token
      → token ≢ []
  unfolding round post_extraction
  round-ne-nil setters token h = ground arith

  -- No empty token string is returned, whatever the headers, the options and their callbacks.
  pub get_token_string-ne-nil :
      (opts : List (List TokenStringOption)) (token : Str)
      → get_token_string get_header_fn opts ≡ ok token
      → token ≢ []
  get_token_string-ne-nil opts token h =
      let s = (get_token_string-Selected opts token).0 h in round-ne-nil s.chosen token s.given

-- With no options a token string that is not empty and follows "Bearer " in the header
-- Authorization is the one returned.
pub get_token_string-bearer :
    (get_header_fn : GetHeaderFn) (token : Str)
    → token ≢ []
    → get_header_fn (str "Authorization") ≡ str "Bearer " ++ token
    → get_token_string get_header_fn [] ≡ ok token
unfolding get_token_string try_each round new_token_string post_extraction
get_token_string-bearer get_header_fn token h e =
    ground (arith, get_token_string_with-append get_header_fn default_token_string token refl h e)
