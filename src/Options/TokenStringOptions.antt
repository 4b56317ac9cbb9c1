-- ===== src/Options/TokenStringOptions.antt =====
-- options/tokenstring.go: how the token is extracted from a request.
use go_oidc_middleware.Prelude.{Option, none, List, [], ◌∷◌}
use go_oidc_middleware.Text.{Str, str}
use go_oidc_middleware.Errors.{External}

pub record TokenStringOptions : Type 0 where
  pub header_name : Str
  pub token_prefix : Str
  pub list_separator : Str
  -- nil or a function; it sees the token only
  pub post_extraction_fn : Option (Str → External Str)

abbrev pub TokenStringOption : Type 0
TokenStringOption = TokenStringOptions → TokenStringOptions

abbrev pub default_token_string : TokenStringOptions
default_token_string = record {
  header_name = str "Authorization";
  token_prefix = str "Bearer ";
  list_separator = [];
  post_extraction_fn = none;
}

-- `for _, setter := range setters { setter(opts) }`
unfoldable pub apply_setters : {A : Type 0} → List (A → A) → A → A
apply_setters [] opts = opts
apply_setters (setter ∷ setters) opts = apply_setters setters (setter opts)

unfoldable pub new_token_string : List TokenStringOption → TokenStringOptions
unfolding apply_setters
new_token_string setters = apply_setters setters default_token_string

unfoldable pub with_token_string_header_name : Str → TokenStringOption
with_token_string_header_name opt opts = record opts { header_name = opt }

unfoldable pub with_token_string_token_prefix : Str → TokenStringOption
with_token_string_token_prefix opt opts = record opts { token_prefix = opt }

unfoldable pub with_token_string_list_separator : Str → TokenStringOption
with_token_string_list_separator opt opts = record opts { list_separator = opt }

unfoldable pub with_token_string_post_extraction_fn :
    Option (Str → External Str) → TokenStringOption
with_token_string_post_extraction_fn opt opts = record opts { post_extraction_fn = opt }
