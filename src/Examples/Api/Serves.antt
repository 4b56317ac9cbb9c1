-- ===== src/Examples/Api/Serves.antt =====
-- With which function of its adapter a server of examples/api serves.
use go_oidc_middleware.Prelude.{◌≡◌, refl, subst, Option, none, some, List, arith}
use go_oidc_middleware.Text.{Str}
use go_oidc_middleware.Errors.{Result, Error, ok, err, ok-injective, External}
use go_oidc_middleware.Platform.{Platform}
use go_oidc_middleware.Options.{ClaimsValidationFn, Setter}
use go_oidc_middleware.Oidc.Handler.{Handler, new_handler}
use go_oidc_middleware.Oidc.Parse.{parse_token}
use go_oidc_middleware.Middleware.Http.{to_http_handler, new_http}
use go_oidc_middleware.Middleware.Gin.{to_gin_handler, new_gin}
use go_oidc_middleware.Middleware.Fiber.{to_fiber_handler, new_fiber}
use go_oidc_middleware.Middleware.EchoJwt.{to_echo_jwt_parse_token_func, new_echo_jwt}
use go_oidc_middleware.Examples.Runtime.{
  Server, http_server, gin_server, echo_jwt_server, fiber_server, read_server, RuntimeConfig,
}
use go_oidc_middleware.Examples.Api.{Running, http, gin, echo_jwt, fiber, running, get_handler}

module _ (p : Platform) {T : Type 0} (u : Str → External T) (setters : List (Setter p)) where
  -- A server that serves with `ParseToken` behind the adapter of its framework.
  abbrev pub Serves : Running p T → Type 0
  Serves (http h f) = f ≡ to_http_handler p (parse_token p T u) setters
  Serves (gin h f) = f ≡ to_gin_handler p (parse_token p T u) setters
  Serves (echo_jwt h f) = f ≡ to_echo_jwt_parse_token_func p (parse_token p T u) setters
  Serves (fiber h f) = f ≡ to_fiber_handler p (parse_token p T u) setters

  -- The result of an adapter's `New` that has not panicked.
  running-Serves :
      {A : Type 0} (run : Handler p T → A → Running p T) (serve : A)
      (out : Result Error (Handler p T) × p.World) (r : Running p T)
      → ((h : Handler p T) → Serves (run h serve))
      → (running p run (elim out.0 as (λ _. Result Error (Handler p T × A) × p.World) [
        | err x ↦ (err x, out.1)
        | ok g ↦ (ok (g, serve), out.1)
      ])).0
        ≡ ok r
      → Serves r
  running-Serves run serve (err x, w) r serves e = absurd (cc)
  running-Serves run serve (ok h, w) r serves e = subst Serves (ok-injective e) (serves h)

  module _ (cfg : RuntimeConfig) (fn : ClaimsValidationFn T) (w : p.World) where
    pub get_handler-Serves :
        (server : Option Server) (r : Running p T)
        → read_server cfg.server ≡ server
        → (get_handler p u cfg fn setters w).0 ≡ ok r
        → Serves r
    unfolding get_handler new_http new_gin new_fiber new_echo_jwt
    get_handler-Serves none r s e = absurd (ground arith)
    get_handler-Serves (some http_server) r s e =
        running-Serves http _ (new_handler p T fn setters w) r (λ h. refl)
          (rw (s, get_handler) at e)
    get_handler-Serves (some gin_server) r s e =
        running-Serves gin _ (new_handler p T fn setters w) r (λ h. refl) (rw (s, get_handler) at e)
    get_handler-Serves (some echo_jwt_server) r s e =
        running-Serves echo_jwt _ (new_handler p T fn setters w) r (λ h. refl)
          (rw (s, get_handler) at e)
    get_handler-Serves (some fiber_server) r s e =
        running-Serves fiber _ (new_handler p T fn setters w) r (λ h. refl)
          (rw (s, get_handler) at e)
