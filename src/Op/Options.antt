-- ===== src/Op/Options.antt =====
-- optest/options.go
use go_oidc_middleware.Prelude.{Bool, true, false, List}
use go_oidc_middleware.Prelude.Int.{ℤ}
use go_oidc_middleware.Text.{Str}

pub data AccessTokenType : Type 0 where
  jwt_access_token_type : AccessTokenType
  opaque_access_token_type : AccessTokenType

-- `TestUser` is the type of a test user.
pub record Options (TestUser : Type 0) : Type 0 where
  pub issuer : Str
  pub default_test_user : Str
  pub test_users : List (Str × TestUser)
  pub token_expiration : ℤ
  pub auto_start : Bool
  pub access_token_type : AccessTokenType
  pub login_prompt_enabled : Bool

abbrev pub Setter : Type 0 → Type 0
Setter TestUser = Options TestUser → Options TestUser

module _ (TestUser : Type 0) where
  unfoldable pub with_issuer : Str → Setter TestUser
  with_issuer opt opts = record opts { issuer = opt }

  unfoldable pub with_default_test_user : Str → Setter TestUser
  with_default_test_user opt opts = record opts { default_test_user = opt }

  unfoldable pub with_test_users : List (Str × TestUser) → Setter TestUser
  with_test_users opt opts = record opts { test_users = opt }

  unfoldable pub with_token_expiration : ℤ → Setter TestUser
  with_token_expiration opt opts = record opts { token_expiration = opt }

  unfoldable pub without_auto_start : Setter TestUser
  without_auto_start opts = record opts { auto_start = false }

  unfoldable pub with_opaque_access_tokens : Setter TestUser
  with_opaque_access_tokens opts = record opts { access_token_type = opaque_access_token_type }

  unfoldable pub with_login_prompt : Setter TestUser
  with_login_prompt opts = record opts { login_prompt_enabled = true }
