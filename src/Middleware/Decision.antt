-- ===== src/Middleware/Decision.antt =====
-- When a request goes on to the next handler, and what a refused one is answered.
use go_oidc_middleware.Prelude.{◌≡◌, refl, ℕ, List, [], ◌∷◌, ◌++◌, ◌⊎◌, inl, inr}
use go_oidc_middleware.Text.{Str}
use go_oidc_middleware.Errors.{Error, ok, err, Exec, Result-cases}
use go_oidc_middleware.Platform.{Platform}
use go_oidc_middleware.Options.{
  ErrorDescription, Setter, new, get_token_error_description, parse_token_error_description,
}
use go_oidc_middleware.TokenString.{GetHeaderFn, get_token_string}
use go_oidc_middleware.Middleware.Http
use go_oidc_middleware.Middleware.Http.{to_http_handler}
use go_oidc_middleware.Middleware.Gin
use go_oidc_middleware.Middleware.Gin.{to_gin_handler}
use go_oidc_middleware.Middleware.Fiber
use go_oidc_middleware.Middleware.Fiber.{to_fiber_handler}

module _ (p : Platform) {T S : Type 0} (parse_token : Str → Exec S T) (setters : List (Setter p))
    (get_header_fn : GetHeaderFn) where
  -- The request carries a token string that parses to the claims.
  abbrev pub Passes : S → T → Type 0
  Passes s claims =
      (t : Str) × (get_token_string get_header_fn (new p setters).token_string ≡ ok t)
      × ((parse_token t s).0 ≡ ok claims)

  -- The request is refused: no token string (400), or one that does not parse (401).
  abbrev pub Fails : S → ℕ → ErrorDescription → Error → Type 0
  Fails s status description e =
      ((status ≡ 400)
        × (description ≡ get_token_error_description)
        × (get_token_string get_header_fn (new p setters).token_string ≡ err e))
      ⊎ ((status ≡ 401)
          × (description ≡ parse_token_error_description)
          × ((t : Str) × (get_token_string get_header_fn (new p setters).token_string ≡ ok t)
              × ((parse_token t s).0 ≡ err e)))

  -- How the three frameworks go on with claims under the context key: the next handler runs last.
  pub record GoesOn (s : S) (claims : T) : Type 0 where
    pub http :
        (to_http_handler p parse_token setters get_header_fn s).0
        ≡ Http.serve_http (new p setters).claims_context_key_name claims ∷ []
    pub gin :
        (to_gin_handler p parse_token setters get_header_fn s).0
        ≡ Gin.set (new p setters).claims_context_key_name claims ∷ Gin.next ∷ []
    pub fiber :
        (to_fiber_handler p parse_token setters get_header_fn s).0
        ≡ Fiber.locals (new p setters).claims_context_key_name claims ∷ Fiber.next ∷ []

  -- How they refuse with a status: the error handler runs first, and no next handler runs.
  pub record Refuses (s : S) (status : ℕ) (description : ErrorDescription) (e : Error)
      : Type 0 where
    pub http :
        (to_http_handler p parse_token setters get_header_fn s).0
        ≡ Http.handled p (new p setters).error_handler description e
          ++ Http.write_header status ∷ []
    pub gin :
        (to_gin_handler p parse_token setters get_header_fn s).0
        ≡ Gin.handled p (new p setters).error_handler description e
          ++ Gin.abort_with_error status e ∷ []
    pub fiber :
        (to_fiber_handler p parse_token setters get_header_fn s).0
        ≡ Fiber.handled p (new p setters).error_handler description e
          ++ Fiber.send_status status ∷ []

  -- A request that passes goes on in all three frameworks, with its claims under the context key.
  pub Passes-GoesOn : (s : S) (claims : T) → Passes s claims → GoesOn s claims
  unfolding to_http_handler to_gin_handler to_fiber_handler
  Passes-GoesOn s claims (t, found, parsed) = record {
    http = rw (found, to_http_handler) (rw parsed refl);
    gin = rw (found, to_gin_handler) (rw parsed refl);
    fiber = rw (found, to_fiber_handler) (rw parsed refl);
  }

  -- A request that fails is refused in all three frameworks with the same status, 400 without a
  -- token string and 401 with one that does not parse, after the error handler.
  pub Fails-Refuses :
      (s : S) (status : ℕ) (description : ErrorDescription) (e : Error)
      → Fails s status description e
      → Refuses s status description e
  unfolding to_http_handler to_gin_handler to_fiber_handler Http.on_error Gin.on_error
      Fiber.on_error
  Fails-Refuses s status description e (inl (is_400, same, missing)) = record {
    http = rw (missing, to_http_handler) (rw (is_400, same) refl);
    gin = rw (missing, to_gin_handler) (rw (is_400, same) refl);
    fiber = rw (missing, to_fiber_handler) (rw (is_400, same) refl);
  }
  Fails-Refuses s status description e (inr (is_401, same, (t, found, failed))) = record {
    http = rw (found, to_http_handler) (rw (failed, is_401, same) refl);
    gin = rw (found, to_gin_handler) (rw (failed, is_401, same) refl);
    fiber = rw (found, to_fiber_handler) (rw (failed, is_401, same) refl);
  }

  -- Every request is answered in all three frameworks: it has claims and goes on with them, or it is
  -- refused for the error that it fails with.
  pub answered :
      (s : S)
      → ((claims : T) × Passes s claims × GoesOn s claims)
        ⊎ ((status : ℕ) × (description : ErrorDescription) × (e : Error) × Fails s status
              description e
            × Refuses s status description e)
  answered s = elim (Result-cases (get_token_string get_header_fn (new p setters).token_string)) [
    | inr (e, missing) ↦
        let fails : Fails s 400 get_token_error_description e = inl (refl, refl, missing) in
        inr (
          400,
          get_token_error_description,
          e,
          fails,
          Fails-Refuses s 400 get_token_error_description e fails,
        )
    | inl (t, found) ↦ elim (Result-cases (parse_token t s).0) [
      | inl (claims, parsed) ↦
          inl (claims, (t, found, parsed), Passes-GoesOn s claims (t, found, parsed))
      | inr (e, failed) ↦
          let fails : Fails s 401 parse_token_error_description e =
            inr (refl, refl, (t, found, failed)) in
          inr (
            401,
            parse_token_error_description,
            e,
            fails,
            Fails-Refuses s 401 parse_token_error_description e fails,
          )
    ]
  ]
