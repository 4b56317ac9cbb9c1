-- ===== src/Middleware/TokenHandler.antt =====
-- oidctoken/token.go: the handler for a middleware of one's own
use go_oidc_middleware.Prelude.{List}
use go_oidc_middleware.Text.{Str}
use go_oidc_middleware.Errors.{Error, Result, ok, err, Exec, External}
use go_oidc_middleware.Platform.{Platform}
use go_oidc_middleware.Options.{ClaimsValidationFn, Options, Setter, new}
use go_oidc_middleware.Oidc.Handler.{Handler, HandlerState, new_handler}
use go_oidc_middleware.Oidc.Parse.{parse_token}
use go_oidc_middleware.TokenString.{GetHeaderFn, get_token_string}
use go_oidc_middleware.Options.TokenStringOptions.{TokenStringOption}

module _ (p : Platform) (T : Type 0) (json_unmarshal : Str → External T) where
  -- The method value `oidcHandler.ParseToken` closes over the handler, which the state holds.
  pub record TokenHandler : Type 0 where
    pub parse_token_func : Str → Exec (HandlerState p T) T
    pub token_options : Options p

  unfoldable pub new_token_handler :
      ClaimsValidationFn T
      → List (Setter p)
      → p.World
      → Result Error (TokenHandler × Handler p T) × p.World
  new_token_handler claims_validation_fn setters w =
      let (made, w') = new_handler p T claims_validation_fn setters w in
      elim made [
        | err e ↦ (err e, w')
        | ok h ↦ (
          ok (
            record {
              parse_token_func = parse_token p T json_unmarshal;
              token_options = new p setters;
            },
            h,
          ),
          w',
        )
      ]

  -- `ParseToken` of the token handler
  unfoldable pub token_handler_parse_token : TokenHandler → Str → Exec (HandlerState p T) T
  token_handler_parse_token t token_string s =
      let out = t.parse_token_func token_string s in
      elim out.0 [ err e ↦ (err e, out.1) | ok claims ↦ (ok claims, out.1) ]

-- `GetTokenString`
unfoldable pub token_handler_get_token_string :
    GetHeaderFn → List (List TokenStringOption) → Result Error Str
token_handler_get_token_string get_header_fn setters = get_token_string get_header_fn setters
