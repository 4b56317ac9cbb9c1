-- ===== src/Tests/Requests.antt =====
-- A request through the adapters of net/http, gin and fiber.
use go_oidc_middleware.Prelude.{◌⊎◌, ℕ, suc, some, List, [], ◌∷◌}
use go_oidc_middleware.Text.{Str, str}
use go_oidc_middleware.Errors.{Error, Exec, ok}
use go_oidc_middleware.Options.{ErrorDescription, Setter, with_error_handler}
use go_oidc_middleware.TokenString.{GetHeaderFn}
use go_oidc_middleware.Middleware.Decision.{Passes, Fails, answered, GoesOn, Refuses}
use go_oidc_middleware.Tests.Fixture.{fixture}

-- A parser that counts its calls and accepts every token string, with itself for claims.
abbrev parse_any : Str → Exec ℕ Str
parse_any t n = (ok t, suc n)

abbrev setters : List (Setter fixture)
setters = with_error_handler fixture (some λ description e. description) ∷ []

abbrev bearer_request : GetHeaderFn
bearer_request name = str "Bearer abc"

abbrev empty_request : GetHeaderFn
empty_request name = []

answered_example :
    ((claims : Str) × Passes fixture parse_any setters bearer_request 0 claims
      × GoesOn fixture parse_any setters bearer_request 0 claims)
    ⊎ ((status : ℕ) × (description : ErrorDescription) × (e : Error) × Fails fixture parse_any
          setters bearer_request 0 status description e
        × Refuses fixture parse_any setters bearer_request 0 status description e)
answered_example = answered fixture parse_any setters bearer_request 0
