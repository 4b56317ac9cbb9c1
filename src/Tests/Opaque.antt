-- ===== src/Tests/Opaque.antt =====
-- A token response with an opaque access token.
use go_oidc_middleware.Prelude.{some, ◌∷◌}
use go_oidc_middleware.Prelude.Int.{pos}
use go_oidc_middleware.Text.{Str, str}
use go_oidc_middleware.Op.OpaqueTokens
use go_oidc_middleware.Op.Options.{opaque_access_token_type}
use go_oidc_middleware.Op.Tokens.{OpTest, State}
use go_oidc_middleware.Op.Provider.{auth_header}
use go_oidc_middleware.Op.Bearer.{TokenResponse}
use go_oidc_middleware.Op.Handlers.{Request}
use go_oidc_middleware.Tests.Services.{services}
use go_oidc_middleware.Tests.Server.{op, first}

abbrev opaque_op : OpTest services
opaque_op = record op {
  options = record op.options { access_token_type = opaque_access_token_type };
}

-- The JWT behind the opaque token, and the response.
abbrev access_token : Str
access_token = 5 ∷ b'u' ∷ str "access_token"

abbrev response : TokenResponse
response = record {
  access_token = str "bytes";
  token_type = str "Bearer";
  expires_in = pos 3_600_000_000_000;
  id_token = 5 ∷ b'u' ∷ str "id_token";
  expiry = some (pos 3_600_000_000_009);
}

abbrev st : State services
st = (
  record opaque_op {
    opaque_tokens =
        OpaqueTokens.set (str "bytes") access_token (pos 100) (λ _. pos 8)
          OpaqueTokens.new_container;
  },
  10,
)

abbrev asked : Request
asked = record first { header = λ _. auth_header response }
