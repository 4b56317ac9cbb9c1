-- ===== src/Op/Bearer.antt =====
-- optest/optest.go: the token of a request for user information, and whether a token response is
-- still valid.
pub mod Agrees
use go_oidc_middleware.Prelude.{Bool, false, not, ◌&&◌, Option, none, some, if◌then◌else◌}
use go_oidc_middleware.Prelude.Int.{ℤ, negsuc, ◌+ℤ◌, ltb_ℤ}
use go_oidc_middleware.Text.{Str, str, is_empty, has_prefix, trim_prefix}
use go_oidc_middleware.Errors.{Result, ok, err}
use go_oidc_middleware.TokenString.{GetHeaderFn}

pub data BearerError : Type 0 where
  header_empty : BearerError
  no_bearer_prefix : BearerError
  empty_after_prefix : BearerError

unfoldable pub get_token_string : GetHeaderFn → Result BearerError Str
get_token_string get_header_fn =
    let header_value = get_header_fn (str "Authorization") in
    let token = trim_prefix header_value (str "Bearer ") in
    if is_empty header_value
    then err header_empty
    else if not (has_prefix header_value (str "Bearer "))
    then err no_bearer_prefix
    else if is_empty token
    then err empty_after_prefix
    else ok token

-- `Expiry` is none for the zero time.
pub record TokenResponse : Type 0 where
  pub access_token : Str
  pub token_type : Str
  pub expires_in : ℤ
  pub id_token : Str
  pub expiry : Option ℤ

unfoldable pub expired : TokenResponse → ℤ → Bool
expired t now = elim t.expiry [
  | none ↦ false
  | some expiry ↦ ltb_ℤ (expiry +ℤ negsuc 9_999_999_999) now
]

-- A nil response is none.
unfoldable pub valid : Option TokenResponse → ℤ → Bool
unfolding expired
valid none now = false
valid (some t) now = not (is_empty t.access_token) && not (expired t now)
