-- ===== src/Middleware/EchoJwt.antt =====
-- oidcechojwt/echo_jwt.go: echo extracts the token string; the error handler runs before the return
use go_oidc_middleware.Prelude.{Option, none, some, List, [], ◌∷◌}
use go_oidc_middleware.Text.{Str}
use go_oidc_middleware.Errors.{Error, Result, ok, err, Exec}
use go_oidc_middleware.Platform.{Platform}
use go_oidc_middleware.Errors.{External}
use go_oidc_middleware.Oidc.Handler.{Handler, new_handler}
use go_oidc_middleware.Oidc.Parse.{parse_token}
use go_oidc_middleware.Options.{ClaimsValidationFn}
use go_oidc_middleware.Options.{
  ErrorDescription, ErrorHandler, Setter, new, parse_token_error_description,
}

module _ (p : Platform) where
  -- the effects of the error handler
  unfoldable pub on_error : Option (ErrorHandler p) → ErrorDescription → Error → List p.Effect
  on_error none description e = []
  on_error (some handler) description e = handler description e ∷ []

  abbrev effects : {T : Type 0} → Option (ErrorHandler p) → Result Error T → List p.Effect
  effects error_handler (ok claims) = []
  effects error_handler (err e) = on_error error_handler parse_token_error_description e

  unfoldable pub to_echo_jwt_parse_token_func :
      {T S : Type 0}
      → (Str → Exec S T)
      → List (Setter p)
      → Str
      → S
      → (Result Error T × List p.Effect) × S
  to_echo_jwt_parse_token_func parse_token setters auth s =
      let opts = new p setters in
      let out = parse_token auth s in ((out.0, effects opts.error_handler out.0), out.1)

-- `New`: the handler and the function for echo, or a panic with the error.
unfoldable pub new_echo_jwt :
    (p : Platform) (T : Type 0) (json_unmarshal : Str → External T)
    → ClaimsValidationFn T
    → List (Setter p)
    → p.World
    → Result Error (
        Handler p T
        × (Str
            → Handler p T × p.World
            → (Result Error T × List p.Effect) × (Handler p T × p.World)))
      × p.World
new_echo_jwt p T json_unmarshal claims_validation_fn setters w =
    let (made, w') = new_handler p T claims_validation_fn setters w in
    elim made [
      | err e ↦ (err e, w')
      | ok h ↦ (ok (h, to_echo_jwt_parse_token_func p (parse_token p T json_unmarshal) setters), w')
    ]
