-- ===== src/Tests/Tokens.antt =====
-- The extraction of the token string.
use go_oidc_middleware.Op.Bearer
use go_oidc_middleware.Op.Bearer.Agrees.{get_token_string-agrees}
use go_oidc_middleware.Prelude.{List, ◌⊎◌, ◌≡◌, ◌↔◌, refl, none, [], ◌∷◌, arith, In, All}
use go_oidc_middleware.Text.{str, after_prefix, has_prefix, trim_prefix, cut, contains}
use go_oidc_middleware.Errors.{Error, ok, err, header_empty, unable_to_extract_token}
use go_oidc_middleware.Options.TokenStringOptions.{
  TokenStringOptions, TokenStringOption, apply_setters, new_token_string,
}
use go_oidc_middleware.TokenString.{
  GetHeaderFn, get_token_from_string, get_token_string_with, post_extraction, round, try_each,
  or_default, get_token_string,
}
use go_oidc_middleware.TokenString.Prefixed.{IsRefused}
use go_oidc_middleware.TokenString.Chosen.{Gives, IsFirst, get_token_string_iff}
use go_oidc_middleware.TokenString.Selection.{
  Exhausted, get_token_string-Exhausted, get_token_string-bearer,
}

-- A request with the header `Authorization: Bearer abc` only, and one with no headers.
abbrev bearer_request : GetHeaderFn
bearer_request name = elim name [ [] ↦ [] | a ∷ rest ↦ str "Bearer abc" ]

abbrev empty_request : GetHeaderFn
empty_request name = []

bearer_run : get_token_string bearer_request [] ≡ ok (str "abc")
unfolding get_token_string try_each round new_token_string apply_setters post_extraction
    get_token_string_with get_token_from_string has_prefix trim_prefix after_prefix contains cut
bearer_run = refl

get_token_string-bearer_example : get_token_string bearer_request [] ≡ ok (str "abc")
get_token_string-bearer_example =
    get_token_string-bearer bearer_request (str "abc") (ground arith) refl

abbrev no_options : List (List TokenStringOption)
no_options = []

get_token_string_iff_example : (get_token_string bearer_request no_options ≡ ok (str "abc")) ↔ (
    ((no_options ≡ []) × Gives bearer_request [] (str "abc"))
    ⊎ IsFirst bearer_request no_options (str "abc"))
get_token_string_iff_example = get_token_string_iff bearer_request no_options (str "abc")

empty_run :
    get_token_string empty_request []
    ≡ err (unable_to_extract_token (header_empty (str "Authorization")))
unfolding get_token_string try_each round new_token_string apply_setters post_extraction
    get_token_string_with
empty_run = refl

get_token_string-Exhausted_example :
    (cause : Error) × (unable_to_extract_token (header_empty (str "Authorization"))
      ≡ unable_to_extract_token cause)
    × Exhausted empty_request (or_default []) cause
get_token_string-Exhausted_example =
    get_token_string-Exhausted empty_request []
      (unable_to_extract_token (header_empty (str "Authorization"))) empty_run

-- `Sec-WebSocket-Protocol: foo,jwt.abc`
abbrev listed : TokenStringOptions
listed = record {
  header_name = str "Sec-WebSocket-Protocol";
  token_prefix = str "jwt.";
  list_separator = str ",";
  post_extraction_fn = none;
}

abbrev listed_request : GetHeaderFn
listed_request name = str "foo,jwt.abc"

separator_free : All (λ v. ¬ In b',' v) (str "foo" ∷ str "jwt.abc" ∷ [])
separator_free = (ground arith, (ground arith, tt))

foo-IsRefused : All (IsRefused listed) (str "foo" ∷ [])
unfolding get_token_from_string has_prefix trim_prefix after_prefix
foo-IsRefused = ((λ token h. cc), tt)

get_token_string-agrees_example :
    (Bearer.get_token_string bearer_request ≡ ok (str "abc"))
    ↔ (get_token_string bearer_request [] ≡ ok (str "abc"))
get_token_string-agrees_example = get_token_string-agrees bearer_request (str "abc")
