-- ===== src/Examples/Servers.antt =====
-- examples/shared/server_http.go, server_gin.go, server_fiber.go and server_echo_jwt.go: the
-- handlers that show the claims, and how the servers run them behind the adapters. The listening
-- and the shutdown of the servers are left out.
pub mod Shows
pub mod Served
pub mod Started
use go_oidc_middleware.Prelude.{ℕ, Option, none, some, List, [], ◌∷◌, ◌++◌, if◌then◌else◌}
use go_oidc_middleware.Text.{Str, str, ◌==◌}
use go_oidc_middleware.Errors.{Error, Result, ok, err, External}
use go_oidc_middleware.Platform.{Platform}
use go_oidc_middleware.TokenString.{GetHeaderFn}
use go_oidc_middleware.Options.{default_claims_context_key_name}
use go_oidc_middleware.Oidc.Handler.{HandlerState}
use go_oidc_middleware.Middleware.Http
use go_oidc_middleware.Middleware.Gin
use go_oidc_middleware.Middleware.Fiber
use go_oidc_middleware.Examples.Api.{Running, http, gin, echo_jwt, fiber}

-- `interface{}`: a value of the type T, or of another type.
pub data Interface (T : Type 0) : Type 0 where
  of_type : T → Interface T
  of_other : Interface T

-- `v.(T)` of a value, or of nil
abbrev pub assert : {T : Type 0} → Option (Interface T) → Option T
assert none = none
assert (some (of_type claims)) = some claims
assert (some of_other) = none

-- What a server writes: a header, a status, the claims in JSON, the claims in JSON with a status,
-- or an error of the framework with its status.
pub data Answer (T : Type 0) : Type 0 where
  set_header : Str → Str → Answer T
  write_header : ℕ → Answer T
  encode : T → Answer T
  json : ℕ → T → Answer T
  http_error : ℕ → Str → Answer T

-- The context of a request in a framework, and the extraction of a token string by the JWT
-- middleware of echo, with what it answers without one and to an error of the parse function.
pub record Frameworks (T : Type 0) : Type 1 where
  pub Context : Type 0
  pub empty : Context
  pub put : Str → T → Context → Context
  pub get : Str → Context → Option (Interface T)
  pub echo_auth : GetHeaderFn → Option Str
  pub echo_no_auth : List (Answer T)
  pub echo_refuses : Error → List (Answer T)

module _ {T : Type 0} (json_encode : T → External Unit) where
  -- `json.NewEncoder(w).Encode(claims)`, and the status after an error
  abbrev after_encode : External Unit → List (Answer T)
  after_encode (ok _) = []
  after_encode (err _) = write_header 500 ∷ []

  abbrev http_claims : Option T → List (Answer T)
  http_claims none = write_header 401 ∷ []
  http_claims (some claims) =
      set_header (str "Content-Type") (str "application/json")
      ∷ encode claims
      ∷ after_encode (json_encode claims)

  -- with `r.Context().Value`
  unfoldable pub new_http_claims_handler : (Str → Option (Interface T)) → List (Answer T)
  new_http_claims_handler value = http_claims (assert (value default_claims_context_key_name))

module _ {T : Type 0} where
  -- with `c.Get`; a value that is not found is none
  unfoldable pub new_gin_claims_handler : (Str → Option (Interface T)) → List (Answer T)
  new_gin_claims_handler get = elim (get (str "claims")) [
    | none ↦ write_header 401 ∷ []
    | some claims_value ↦ elim (assert (some claims_value)) [
      | none ↦ write_header 401 ∷ []
      | some claims ↦ json 200 claims ∷ []
    ]
  ]

  -- with `c.Locals`; fiber answers JSON with the status 200
  unfoldable pub new_fiber_claims_handler : (Str → Option (Interface T)) → List (Answer T)
  new_fiber_claims_handler locals = elim (assert (locals (str "claims"))) [
    | none ↦ write_header 401 ∷ []
    | some claims ↦ json 200 claims ∷ []
  ]

  -- with echo's `c.Get`
  unfoldable pub new_echo_jwt_claims_handler : (Str → Option (Interface T)) → List (Answer T)
  new_echo_jwt_claims_handler get = elim (assert (get (str "user"))) [
    | none ↦ http_error 401 (str "invalid token") ∷ []
    | some claims ↦ json 200 claims ∷ []
  ]

module _ (p : Platform) {T : Type 0} (f : Frameworks T) (json_encode : T → External Unit) where
  open f use {Context, empty, put, get}

  -- The answers of the adapter for net/http, which serves with the claims handler.
  abbrev pub http_answers : List (Http.Event p T) → List (Answer T)
  http_answers [] = []
  http_answers (Http.handle_error effect ∷ es) = http_answers es
  http_answers (Http.write_header status ∷ es) = write_header status ∷ http_answers es
  http_answers (Http.serve_http key claims ∷ es) =
      new_http_claims_handler json_encode (λ k. get k (put key claims empty)) ++ http_answers es

  -- `r.Use(oidcHandler)`, then the claims handler as the next one
  abbrev pub gin_answers : Context → List (Gin.Event p T) → List (Answer T)
  gin_answers c [] = []
  gin_answers c (Gin.handle_error effect ∷ es) = gin_answers c es
  gin_answers c (Gin.abort_with_error status e ∷ es) = write_header status ∷ gin_answers c es
  gin_answers c (Gin.set key claims ∷ es) = gin_answers (put key claims c) es
  gin_answers c (Gin.next ∷ es) = new_gin_claims_handler (λ k. get k c) ++ gin_answers c es

  -- `app.Use(oidcHandler)`, then the claims handler as the next one
  abbrev pub fiber_answers : Context → List (Fiber.Event p T) → List (Answer T)
  fiber_answers c [] = []
  fiber_answers c (Fiber.handle_error effect ∷ es) = fiber_answers c es
  fiber_answers c (Fiber.send_status status ∷ es) = write_header status ∷ fiber_answers c es
  fiber_answers c (Fiber.locals key claims ∷ es) = fiber_answers (put key claims c) es
  fiber_answers c (Fiber.next ∷ es) = new_fiber_claims_handler (λ k. get k c) ++ fiber_answers c es

  -- echo keeps what the parse function returns under its own key.
  abbrev pub echo_jwt_answers : Result Error T → List (Answer T)
  echo_jwt_answers (ok claims) =
      new_echo_jwt_claims_handler (λ k. get k (put (str "user") claims empty))
  echo_jwt_answers (err e) = f.echo_refuses e

  abbrev pub echo_jwt_serve :
      (Str → HandlerState p T → (Result Error T × List p.Effect) × HandlerState p T)
      → Option Str
      → HandlerState p T
      → List (Answer T) × HandlerState p T
  echo_jwt_serve parse_token none st = (f.echo_no_auth, st)
  echo_jwt_serve parse_token (some auth) st =
      let out = parse_token auth st in (echo_jwt_answers out.0.0, out.1)

  -- The four servers, at a request for "/".
  unfoldable pub serve :
      Running p T → GetHeaderFn → HandlerState p T → List (Answer T) × HandlerState p T
  serve (http h oidc_handler) header st =
      let out = oidc_handler header st in (http_answers out.0, out.1)
  serve (gin h oidc_handler) header st =
      let out = oidc_handler header st in (gin_answers empty out.0, out.1)
  serve (fiber h oidc_handler) header st =
      let out = oidc_handler header st in (fiber_answers empty out.0, out.1)
  serve (echo_jwt h parse_token) header st = echo_jwt_serve parse_token (f.echo_auth header) st
