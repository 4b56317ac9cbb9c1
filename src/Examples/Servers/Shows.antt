-- ===== src/Examples/Servers/Shows.antt =====
-- Which claims the servers of examples/api show.
use go_oidc_middleware.Prelude.{
  ℕ, ◌≡◌, refl, ap, ◌⊎◌, inl, inr, Option, none, some, List, [], ◌∷◌, ◌++◌, arith, append-nil,
}
use go_oidc_middleware.Text.{Str, str}
use go_oidc_middleware.Errors.{Error, ok, err, External}
use go_oidc_middleware.Platform.{Platform}
use go_oidc_middleware.TokenString.{GetHeaderFn, get_token_string}
use go_oidc_middleware.Options.{
  ErrorHandler, ErrorDescription, Setter, new, default_claims_context_key_name,
}
use go_oidc_middleware.Middleware.Http
use go_oidc_middleware.Middleware.Http.{to_http_handler}
use go_oidc_middleware.Middleware.Gin
use go_oidc_middleware.Middleware.Gin.{to_gin_handler}
use go_oidc_middleware.Middleware.Fiber
use go_oidc_middleware.Middleware.Fiber.{to_fiber_handler}
use go_oidc_middleware.Examples.Api.{Running, http, gin, echo_jwt, fiber}
use go_oidc_middleware.Examples.Servers.{
  Interface, of_type, Answer, set_header, write_header, encode, json, http_error, Frameworks,
  after_encode, new_http_claims_handler, new_gin_claims_handler, new_fiber_claims_handler,
  new_echo_jwt_claims_handler, http_answers, gin_answers, fiber_answers, echo_jwt_answers,
}

-- An answer in which claims are written.
abbrev Writes : {T : Type 0} → Answer T → T → Type 0
Writes (set_header key value) claims = ⊥
Writes (write_header status) claims = ⊥
Writes (encode shown) claims = shown ≡ claims
Writes (json status shown) claims = shown ≡ claims
Writes (http_error status text) claims = ⊥

abbrev pub Shows : {T : Type 0} → List (Answer T) → T → Type 0
Shows [] claims = ⊥
Shows (a ∷ answers) claims = Writes a claims ⊎ Shows answers claims

-- What is documented of the frameworks: a value put under a key is found there, and echo's JWT
-- middleware does not call the claims handler when it refuses.
pub record IsFramework {T : Type 0} (f : Frameworks T) : Type 0 where
  pub put_get :
      (k : Str) (claims : T) (c : f.Context) → f.get k (f.put k claims c) ≡ some (of_type claims)
  pub no_auth : (claims : T) → ¬ Shows f.echo_no_auth claims
  pub refuses : (e : Error) (claims : T) → ¬ Shows (f.echo_refuses e) claims

module _ (p : Platform) {T : Type 0} where
  -- The answer that shows the claims, in each server.
  abbrev pub shown : (T → External Unit) → Running p T → T → List (Answer T)
  shown json_encode (http h g) claims =
      set_header (str "Content-Type") (str "application/json")
      ∷ encode claims
      ∷ after_encode json_encode (json_encode claims)
  shown json_encode (gin h g) claims = json 200 claims ∷ []
  shown json_encode (fiber h g) claims = json 200 claims ∷ []
  shown json_encode (echo_jwt h g) claims = json 200 claims ∷ []

  -- The token string that a request carries to a server.
  abbrev pub Carries : Frameworks T → List (Setter p) → GetHeaderFn → Running p T → Str → Type 0
  Carries f setters header (http h g) t =
      get_token_string header (new p setters).token_string ≡ ok t
  Carries f setters header (gin h g) t = get_token_string header (new p setters).token_string ≡ ok t
  Carries f setters header (fiber h g) t =
      get_token_string header (new p setters).token_string ≡ ok t
  Carries f setters header (echo_jwt h g) t = f.echo_auth header ≡ some t

module _ (p : Platform) {T : Type 0} (f : Frameworks T) (law : IsFramework f)
    (json_encode : T → External Unit) where
  after_encode-quiet : (r : External Unit) (c : T) → ¬ Shows (after_encode json_encode r) c
  after_encode-quiet (ok _) c there = there
  after_encode-quiet (err x) c there = elim there [ inl a ↦ a | inr b ↦ b ]

  -- It shows no others.
  pub shown-Shows :
      (r : Running p T) (claims c : T) → Shows (shown p json_encode r claims) c → claims ≡ c
  shown-Shows (http h g) claims c (inl there) = absurd there
  shown-Shows (http h g) claims c (inr (inl same)) = same
  shown-Shows (http h g) claims c (inr (inr there)) =
      absurd (after_encode-quiet (json_encode claims) c there)
  shown-Shows (gin h g) claims c there = elim there [ inl same ↦ same | inr b ↦ absurd b ]
  shown-Shows (fiber h g) claims c there = elim there [ inl same ↦ same | inr b ↦ absurd b ]
  shown-Shows (echo_jwt h g) claims c there = elim there [ inl same ↦ same | inr b ↦ absurd b ]

  -- A single status shows none.
  pub status-quiet : (status : ℕ) (c : T) → ¬ Shows (write_header status ∷ []) c
  status-quiet status c there = elim there [ inl a ↦ a | inr b ↦ b ]

  gin_claims-shown :
      (get : Str → Option (Interface T)) (claims : T)
      → get (str "claims") ≡ some (of_type claims)
      → new_gin_claims_handler get ≡ json 200 claims ∷ []
  unfolding new_gin_claims_handler
  gin_claims-shown get claims e = ground arith

  fiber_claims-shown :
      (get : Str → Option (Interface T)) (claims : T)
      → get (str "claims") ≡ some (of_type claims)
      → new_fiber_claims_handler get ≡ json 200 claims ∷ []
  unfolding new_fiber_claims_handler
  fiber_claims-shown get claims e = ground arith

  echo_claims-shown :
      (get : Str → Option (Interface T)) (claims : T)
      → get (str "user") ≡ some (of_type claims)
      → new_echo_jwt_claims_handler get ≡ json 200 claims ∷ []
  unfolding new_echo_jwt_claims_handler
  echo_claims-shown get claims e = ground arith

  pub gin-shown :
      (c : f.Context) (claims : T)
      → gin_answers p f json_encode c
          (Gin.set default_claims_context_key_name claims ∷ Gin.next ∷ [])
        ≡ json 200 claims ∷ []
  gin-shown c claims =
      ap (λ answers. answers ++ [])
        (gin_claims-shown (λ k. f.get k (f.put (str "claims") claims c)) claims
          (law.put_get (str "claims") claims c))

  pub fiber-shown :
      (c : f.Context) (claims : T)
      → fiber_answers p f json_encode c
          (Fiber.locals default_claims_context_key_name claims ∷ Fiber.next ∷ [])
        ≡ json 200 claims ∷ []
  fiber-shown c claims =
      ap (λ answers. answers ++ [])
        (fiber_claims-shown (λ k. f.get k (f.put (str "claims") claims c)) claims
          (law.put_get (str "claims") claims c))

  pub http-shown :
      (claims : T)
      → http_answers p f json_encode (Http.serve_http default_claims_context_key_name claims ∷ [])
        ≡ set_header (str "Content-Type") (str "application/json")
          ∷ encode claims
          ∷ after_encode json_encode (json_encode claims)
  unfolding new_http_claims_handler
  http-shown claims = rw (law.put_get (str "claims") claims f.empty) (
      append-nil (
        set_header (str "Content-Type") (str "application/json")
        ∷ encode claims
        ∷ after_encode json_encode (json_encode claims)))

  pub echo-shown :
      (claims : T) → echo_jwt_answers p f json_encode (ok claims) ≡ json 200 claims ∷ []
  echo-shown claims =
      echo_claims-shown (λ k. f.get k (f.put (str "user") claims f.empty)) claims
        (law.put_get (str "user") claims f.empty)

  pub http-refused :
      (eh : Option (ErrorHandler p)) (d : ErrorDescription) (e : Error) (status : ℕ)
      → http_answers p f json_encode (Http.handled p eh d e ++ Http.write_header status ∷ [])
        ≡ write_header status ∷ []
  http-refused none d e status = refl
  http-refused (some g) d e status = refl

  pub gin-refused :
      (eh : Option (ErrorHandler p)) (d : ErrorDescription) (e : Error) (status : ℕ)
      → gin_answers p f json_encode f.empty
          (Gin.handled p eh d e ++ Gin.abort_with_error status e ∷ [])
        ≡ write_header status ∷ []
  gin-refused none d e status = refl
  gin-refused (some g) d e status = refl

  pub fiber-refused :
      (eh : Option (ErrorHandler p)) (d : ErrorDescription) (e : Error) (status : ℕ)
      → fiber_answers p f json_encode f.empty
          (Fiber.handled p eh d e ++ Fiber.send_status status ∷ [])
        ≡ write_header status ∷ []
  fiber-refused none d e status = refl
  fiber-refused (some g) d e status = refl
