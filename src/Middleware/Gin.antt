-- ===== src/Middleware/Gin.antt =====
-- oidcgin/gin.go
use go_oidc_middleware.Prelude.{ℕ, Option, none, some, List, [], ◌∷◌, ◌++◌}
use go_oidc_middleware.Text.{Str}
use go_oidc_middleware.Errors.{Error, Result, ok, err, Exec}
use go_oidc_middleware.Platform.{Platform}
use go_oidc_middleware.Errors.{External}
use go_oidc_middleware.Oidc.Handler.{Handler, new_handler}
use go_oidc_middleware.Oidc.Parse.{parse_token}
use go_oidc_middleware.Options.{ClaimsValidationFn}
use go_oidc_middleware.Options.{
  ErrorDescription, ErrorHandler, Options, Setter, new, get_token_error_description,
  parse_token_error_description,
}
use go_oidc_middleware.TokenString.{GetHeaderFn, get_token_string}

-- `c.AbortWithError`, `c.Set`, `c.Next`, and the error handler
pub data Event (p : Platform) (T : Type 0) : Type 0 where
  handle_error : p.Effect → Event p T
  abort_with_error : ℕ → Error → Event p T
  set : Str → T → Event p T
  next : Event p T

module _ (p : Platform) {T : Type 0} where
  abbrev pub handled : Option (ErrorHandler p) → ErrorDescription → Error → List (Event p T)
  handled none description e = []
  handled (some handler) description e = handle_error (handler description e) ∷ []

  unfoldable pub on_error :
      Option (ErrorHandler p) → ℕ → ErrorDescription → Error → List (Event p T)
  on_error error_handler status_code description e =
      handled error_handler description e ++ abort_with_error status_code e ∷ []

  abbrev respond : Options p → Result Error T → List (Event p T)
  respond opts (ok claims) = set opts.claims_context_key_name claims ∷ next ∷ []
  respond opts (err e) = on_error opts.error_handler 401 parse_token_error_description e

  unfoldable pub to_gin_handler :
      {S : Type 0} → (Str → Exec S T) → List (Setter p) → GetHeaderFn → S → List (Event p T) × S
  to_gin_handler parse_token setters get_header_fn s =
      let opts = new p setters in
      elim (get_token_string get_header_fn opts.token_string) [
        | err e ↦ (on_error opts.error_handler 400 get_token_error_description e, s)
        | ok token_string ↦ let out = parse_token token_string s in (respond opts out.0, out.1)
      ]

-- `New`: the handler and the function that serves with it, or a panic with the error.
unfoldable pub new_gin :
    (p : Platform) (T : Type 0) (json_unmarshal : Str → External T)
    → ClaimsValidationFn T
    → List (Setter p)
    → p.World
    → Result Error (
        Handler p T
        × (GetHeaderFn → Handler p T × p.World → List (Event p T) × (Handler p T × p.World)))
      × p.World
new_gin p T json_unmarshal claims_validation_fn setters w =
    let (made, w') = new_handler p T claims_validation_fn setters w in
    elim made [
      | err e ↦ (err e, w')
      | ok h ↦ (ok (h, to_gin_handler p (parse_token p T json_unmarshal) setters), w')
    ]
