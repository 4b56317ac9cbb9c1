-- ===== src/TokenString/Prefixed.antt =====
-- A token behind its prefix: `getTokenFromString`, `getTokenFromList` and `getTokenString`.
use go_oidc_middleware.Prelude.{
  ℕ, ◌≤◌, ◌≡◌, ◌≢◌, ◌↔◌, refl, ap, ◌∙◌, true, List, [], ◌∷◌, ◌++◌, arith, inl, inr, Option-cases,
  length, length-append, In, All,
}
use go_oidc_middleware.Text.{Str, after_prefix, contains, split_n}
use go_oidc_middleware.Text.Prefix.{after_prefix-append, append-after_prefix}
use go_oidc_middleware.Text.Split.{join, split_cuts-join, contains-byte}
use go_oidc_middleware.Errors.{ok, Result-cases}
use go_oidc_middleware.Options.TokenStringOptions.{TokenStringOptions}
use go_oidc_middleware.TokenString.{
  GetHeaderFn, get_token_from_string, get_token_from_list, get_token_string_with,
  max_list_separator_slices,
}

append-ne-nil : (p t : Str) → t ≢ [] → p ++ t ≢ []
append-ne-nil [] t h = h
append-ne-nil (a ∷ p) t h = ground arith

-- A header value that is the prefix and a token gives the token.
pub get_token_from_string-append :
    (opts : TokenStringOptions) (token : Str)
    → token ≢ []
    → get_token_from_string (opts.token_prefix ++ token) opts ≡ ok token
unfolding get_token_from_string
get_token_from_string-append opts token h =
    ground
      (arith, after_prefix-append opts.token_prefix token, append-ne-nil opts.token_prefix token h)

get_token_from_string_sound :
    (opts : TokenStringOptions) (value token : Str)
    → get_token_from_string value opts ≡ ok token
    → (value ≡ opts.token_prefix ++ token) × (token ≢ [])
unfolding get_token_from_string
get_token_from_string_sound opts value token h =
    elim (Option-cases (after_prefix opts.token_prefix value)) [
      | inl missed ↦ ground arith
      | inr (rest, found) ↦ ground (arith, append-after_prefix opts.token_prefix value rest found)
    ]

-- A header value gives a token exactly when it is the prefix and that token, which is not empty.
pub get_token_from_string_iff :
    (opts : TokenStringOptions) (value token : Str)
    → (get_token_from_string value opts ≡ ok token)
      ↔ ((value ≡ opts.token_prefix ++ token) × (token ≢ []))
get_token_from_string_iff opts value token =
    (get_token_from_string_sound opts value token, λ (e, h). back e h)
  where
    back :
        value ≡ opts.token_prefix ++ token
        → token ≢ []
        → get_token_from_string value opts ≡ ok token
    back e h = rw e (get_token_from_string-append opts token h)

-- No token comes from this header value.
abbrev pub IsRefused : TokenStringOptions → Str → Type 0
IsRefused opts value = (token : Str) → get_token_from_string value opts ≢ ok token

get_token_from_list_first :
    (opts : TokenStringOptions) (before after : List Str) (token : Str)
    → All (IsRefused opts) before
    → token ≢ []
    → get_token_from_list (before ++ (opts.token_prefix ++ token) ∷ after) opts ≡ ok token
unfolding get_token_from_list
get_token_from_list_first opts [] after token refused h =
    rw (get_token_from_string-append opts token h, get_token_from_list) (ground arith)
get_token_from_list_first opts (value ∷ before) after token (r, refused) h =
    elim (Result-cases (get_token_from_string value opts)) [
      | inl (t, e) ↦ absurd (r t e)
      | inr (e, failed) ↦
          rw (failed, get_token_from_list)
            (get_token_from_list_first opts before after token refused h)
    ]

-- A token found in a list stands, behind the prefix, in one of its values.
pub get_token_from_list_sound :
    (opts : TokenStringOptions) (values : List Str) (token : Str)
    → get_token_from_list values opts ≡ ok token
    → In (opts.token_prefix ++ token) values × (token ≢ [])
unfolding get_token_from_list
get_token_from_list_sound opts [] token h = cc
get_token_from_list_sound opts (value ∷ values) token h =
    elim (Result-cases (get_token_from_string value opts)) [
      | inr (e, failed) ↦
          let (i, ne) = get_token_from_list_sound opts values token (ground arith) in (inr i, ne)
      | inl (t, found) ↦
          let (whole, ne) = get_token_from_string_sound opts value t found in
          let same : t ≡ token = ground arith in
          (inl (whole ∙ ap (λ u. opts.token_prefix ++ u) same), rw (← same) ne)
    ]

-- A header that lists between 2 and 20 values, joined by a separator of one byte that none of them
-- holds, is read value by value.
get_token_string_with-join :
    (get_header_fn : GetHeaderFn) (opts : TokenStringOptions) (c : ℕ) (values : List Str)
    → opts.list_separator ≡ c ∷ []
    → 2 ≤ length values
    → length values ≤ max_list_separator_slices
    → All (λ v. ¬ In c v) values
    → get_header_fn opts.header_name ≡ join (c ∷ []) values
    → get_token_string_with get_header_fn opts ≡ get_token_from_list values opts
get_token_string_with-join get_header_fn opts c [] sep many few free e = absurd (omega arith)
get_token_string_with-join get_header_fn opts c (v ∷ []) sep many few free e = absurd (omega arith)
get_token_string_with-join get_header_fn opts c (v ∷ w ∷ values) sep many few free e =
    let header = get_header_fn opts.header_name in
    let found : contains header (c ∷ []) ≡ true =
      rw e (contains-byte c v (join (c ∷ []) (w ∷ values)) free.0) in
    let split : split_n header (c ∷ []) max_list_separator_slices ≡ v ∷ w ∷ values =
      unfold split_n in rw e (split_cuts-join 19 c v (w ∷ values) (omega arith) free) in
    let full : header ≢ [] =
      rw e (append-ne-nil v (c ∷ join (c ∷ []) (w ∷ values)) (ground arith)) in
    unfold get_token_string_with in ground (arith, found, split, full, sep)

length-before :
    (before after : List Str) (v : Str) → before ++ after ≢ [] → 2 ≤ length (before ++ v ∷ after)
length-before [] [] v h = absurd (h refl)
length-before [] (w ∷ after) v h = omega arith
length-before (u ∷ before) after v h = omega (arith, length-append before (v ∷ after))

-- A header that lists 2 to 20 values, joined by a separator of one byte that none of them holds,
-- gives the token of the first value that has the prefix and more.
pub get_token_string_with-first :
    (get_header_fn : GetHeaderFn) (opts : TokenStringOptions) (c : ℕ) (before after : List Str)
    (token : Str)
    → opts.list_separator ≡ c ∷ []
    → before ++ after ≢ []
    → length (before ++ (opts.token_prefix ++ token) ∷ after) ≤ max_list_separator_slices
    → All (λ v. ¬ In c v) (before ++ (opts.token_prefix ++ token) ∷ after)
    → All (IsRefused opts) before
    → token ≢ []
    → get_header_fn opts.header_name
      ≡ join (c ∷ []) (before ++ (opts.token_prefix ++ token) ∷ after)
    → get_token_string_with get_header_fn opts ≡ ok token
get_token_string_with-first get_header_fn opts c before after token sep many few free refused h e =
    let values = before ++ (opts.token_prefix ++ token) ∷ after in
    get_token_string_with-join get_header_fn opts c values sep
      (length-before before after (opts.token_prefix ++ token) many) few free e
    ∙ get_token_from_list_first opts before after token refused h

-- With no separator the token is what follows the prefix in the header.
pub get_token_string_with-append :
    (get_header_fn : GetHeaderFn) (opts : TokenStringOptions) (token : Str)
    → opts.list_separator ≡ []
    → token ≢ []
    → get_header_fn opts.header_name ≡ opts.token_prefix ++ token
    → get_token_string_with get_header_fn opts ≡ ok token
unfolding get_token_string_with
get_token_string_with-append get_header_fn opts token sep h e =
    ground
      (arith, e, append-ne-nil opts.token_prefix token h, get_token_from_string-append opts token h)
