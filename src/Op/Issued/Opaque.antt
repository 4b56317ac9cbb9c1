-- ===== src/Op/Issued/Opaque.antt =====
-- From a token response with an opaque access token to the answer of the provider's endpoint for
-- user information.
use go_oidc_middleware.Op.Services.{Services}
use go_oidc_middleware.Op.OpaqueTokens
