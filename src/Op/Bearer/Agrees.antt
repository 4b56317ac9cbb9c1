-- ===== src/Op/Bearer/Agrees.antt =====
-- The extraction of the test provider beside that of the middleware with no options.
use go_oidc_middleware.Prelude.{◌≡◌, ◌↔◌, [], arith}
use go_oidc_middleware.Text.{Str, str}
use go_oidc_middleware.Errors.{ok}
use go_oidc_middleware.Options.TokenStringOptions.{
  default_token_string, new_token_string, apply_setters,
}
use go_oidc_middleware.TokenString
use go_oidc_middleware.TokenString.{
  GetHeaderFn, get_token_from_string, get_token_string_with, post_extraction, round, try_each,
}
use go_oidc_middleware.TokenString.Prefixed.{get_token_from_string_iff}
use go_oidc_middleware.TokenString.Selection.{get_token_string-bearer}
use go_oidc_middleware.Op.Bearer
use go_oidc_middleware.Op.Bearer.{header_empty, no_bearer_prefix, empty_after_prefix}

module _ (get_header_fn : GetHeaderFn) (token : Str) where
  bearer-single : (Bearer.get_token_string get_header_fn ≡ ok token) ↔ (
      get_token_from_string (get_header_fn (str "Authorization")) default_token_string ≡ ok token)
  unfolding Bearer.get_token_string get_token_from_string
  bearer-single = ground arith

  default-single :
      TokenString.get_token_string get_header_fn [] ≡ ok token
      → get_token_from_string (get_header_fn (str "Authorization")) default_token_string ≡ ok token
  unfolding TokenString.get_token_string try_each round new_token_string apply_setters
      post_extraction get_token_string_with
  default-single h = ground arith

  -- The test provider reads the same token from a request as the middleware with no options.
  pub get_token_string-agrees :
      (Bearer.get_token_string get_header_fn ≡ ok token)
      ↔ (TokenString.get_token_string get_header_fn [] ≡ ok token)
  get_token_string-agrees =
      let iff =
        get_token_from_string_iff default_token_string (get_header_fn (str "Authorization"))
          token in
      (
        (λ h.
            let (value, given) = iff.0 (bearer-single.0 h) in
            get_token_string-bearer get_header_fn token given value),
        λ h. bearer-single.1 (default-single h),
      )
