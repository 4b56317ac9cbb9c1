-- ===== src/TokenString.antt =====
-- internal/oidc/tokenstring.go: the token string of a request.
pub mod Prefixed
pub mod Selection
pub mod Chosen
use go_oidc_middleware.Prelude.{
  ℕ, Bool, true, false, not, ◌&&◌, Option, none, some, List, [], ◌∷◌, if◌then◌else◌,
}
use go_oidc_middleware.Text.{Str, is_empty, has_prefix, trim_prefix, contains, split_n}
use go_oidc_middleware.Errors.{
  Error, external, header_empty, header_lacks_prefix, header_empty_after_prefix, no_token_in_list,
  post_extraction_empty, unable_to_extract_token, unable_to_extract_token_nil, Result, ok, err,
  External,
}
use go_oidc_middleware.Options.TokenStringOptions.{
  TokenStringOptions, TokenStringOption, new_token_string,
}

-- the value of a header, by its name
abbrev pub GetHeaderFn : Type 0
GetHeaderFn = Str → Str

abbrev pub max_list_separator_slices : ℕ
max_list_separator_slices = 20

unfoldable pub get_token_from_string : Str → TokenStringOptions → Result Error Str
unfolding has_prefix trim_prefix
get_token_from_string header_value opts =
    if is_empty header_value
    then err (header_empty opts.header_name)
    else if not (has_prefix header_value opts.token_prefix)
    then err (header_lacks_prefix opts.header_name opts.token_prefix)
    else let token = trim_prefix header_value opts.token_prefix in
      if is_empty token then err (header_empty_after_prefix opts.header_name) else ok token

unfoldable pub get_token_from_list : List Str → TokenStringOptions → Result Error Str
get_token_from_list [] opts = err no_token_in_list
get_token_from_list (header_value ∷ header_values) opts =
    let rest = get_token_from_list header_values opts in
    elim (get_token_from_string header_value opts) [
      | ok token ↦ if not (is_empty token) then ok token else rest
      | err _ ↦ rest
    ]

-- `getTokenString`: the token by one set of options
unfoldable pub get_token_string_with : GetHeaderFn → TokenStringOptions → Result Error Str
get_token_string_with get_header_fn opts =
    let header_value = get_header_fn opts.header_name in
    if is_empty header_value
    then err (header_empty opts.header_name)
    else if not (is_empty opts.list_separator) && contains header_value opts.list_separator
    then get_token_from_list (split_n header_value opts.list_separator max_list_separator_slices)
        opts
    else get_token_from_string header_value opts

-- One round of the loop of `GetTokenString`: it returns a token, or goes on with `err` as it is.
pub data Round : Type 0 where
  return : Str → Round
  next : Option Error → Round

unfoldable pub post_extraction : Option (Str → External Str) → Str → Round
post_extraction none token_string = return token_string
post_extraction (some f) token_string = elim (f token_string) [
  | err text ↦ next (some (external text))
  | ok token_string' ↦
      if is_empty token_string' then next (some post_extraction_empty) else return token_string'
]

unfoldable pub round : GetHeaderFn → List TokenStringOption → Round
round get_header_fn setters =
    let opts = new_token_string setters in
    elim (get_token_string_with get_header_fn opts) [
      | err e ↦ next (some e)
      | ok token_string ↦
          if not (is_empty token_string)
          then post_extraction opts.post_extraction_fn token_string
          else next none
    ]

abbrev give_up : Option Error → Result Error Str
give_up none = err unable_to_extract_token_nil
give_up (some e) = err (unable_to_extract_token e)

-- the loop, with the variable `err`
unfoldable pub try_each :
    GetHeaderFn → List (List TokenStringOption) → Option Error → Result Error Str
try_each get_header_fn [] e = give_up e
try_each get_header_fn (setters ∷ opts_list) e = elim (round get_header_fn setters) [
  | return token_string ↦ ok token_string
  | next e' ↦ try_each get_header_fn opts_list e'
]

abbrev pub or_default : List (List TokenStringOption) → List (List TokenStringOption)
or_default [] = [] ∷ []
or_default (setters ∷ opts_list) = setters ∷ opts_list

-- `GetTokenString`
unfoldable pub get_token_string : GetHeaderFn → List (List TokenStringOption) → Result Error Str
get_token_string get_header_fn token_string_opts =
    try_each get_header_fn (or_default token_string_opts) none
