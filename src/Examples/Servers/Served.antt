-- ===== src/Examples/Servers/Served.antt =====
-- From a request to a server of examples/api to the claims that it shows.
use go_oidc_middleware.Prelude.{
  ℕ, ◌≡◌, refl, ap, ◌∙◌, subst, inl, inr, Option, none, some, List, [], ◌∷◌,
}
use go_oidc_middleware.Text.{Str}
use go_oidc_middleware.Errors.{Error, ok, External, Result-cases}
use go_oidc_middleware.Platform.{Platform}
use go_oidc_middleware.TokenString.{GetHeaderFn, get_token_string}
use go_oidc_middleware.Options.{ErrorDescription, Setter, new, default_claims_context_key_name}
use go_oidc_middleware.Oidc.Handler.{Handler, HandlerState}
use go_oidc_middleware.Oidc.Parse.{parse_token}
use go_oidc_middleware.Middleware.Http.{to_http_handler}
use go_oidc_middleware.Middleware.Gin.{to_gin_handler}
use go_oidc_middleware.Middleware.Fiber.{to_fiber_handler}
use go_oidc_middleware.Middleware.EchoJwt.{to_echo_jwt_parse_token_func}
use go_oidc_middleware.Middleware.Decision.{GoesOn, Refuses, Passes, Passes-GoesOn, answered}
use go_oidc_middleware.Examples.Api.{Running, http, gin, echo_jwt, fiber}
use go_oidc_middleware.Examples.Api.Serves.{Serves}
use go_oidc_middleware.Examples.Servers.{
  Answer, write_header, json, Frameworks, echo_jwt_answers, echo_jwt_serve, serve,
}
use go_oidc_middleware.Examples.Servers.Shows.{
  Shows, IsFramework, Carries, shown, shown-Shows, status-quiet, gin-shown, fiber-shown, http-shown,
  echo-shown, http-refused, gin-refused, fiber-refused,
}

module _ (p : Platform) {T : Type 0} (f : Frameworks T) (law : IsFramework f)
    (json_encode : T → External Unit) where
  module _ (setters : List (Setter p)) (u : Str → External T)
      (named : (new p setters).claims_context_key_name ≡ default_claims_context_key_name)
      (header : GetHeaderFn) where
    -- The claims of the token string are shown when it parses.
    pub serve-shown :
        (r : Running p T) (t : Str) (claims : T) (st : HandlerState p T)
        → Serves p u setters r
        → Carries p f setters header r t
        → (parse_token p T u t st).0 ≡ ok claims
        → (serve p f json_encode r header st).0 ≡ shown p json_encode r claims
    unfolding serve to_echo_jwt_parse_token_func
    serve-shown (http h g) t claims st serves found parsed =
        let on = Passes-GoesOn p (parse_token p T u) setters header st claims (t, found, parsed) in
        rw (serves, on.http, named) (http-shown p f law json_encode claims)
    serve-shown (gin h g) t claims st serves found parsed =
        let on = Passes-GoesOn p (parse_token p T u) setters header st claims (t, found, parsed) in
        rw (serves, on.gin, named) (gin-shown p f law json_encode f.empty claims)
    serve-shown (fiber h g) t claims st serves found parsed =
        let on = Passes-GoesOn p (parse_token p T u) setters header st claims (t, found, parsed) in
        rw (serves, on.fiber, named) (fiber-shown p f law json_encode f.empty claims)
    serve-shown (echo_jwt h g) t claims st serves found parsed =
        rw (serves, found, parsed) (echo-shown p f law json_encode claims)

    -- The token string that a request carries, with the claims that it parses to.
    abbrev pub Parses : Running p T → HandlerState p T → T → Type 0
    Parses r st c = (t : Str) × Carries p f setters header r t × ((parse_token p T u t st).0 ≡ ok c)

    -- From an adapter for one of the three frameworks: claims that pass are shown and no others.
    adapter-Shows :
        (r : Running p T) (c : T) (st : HandlerState p T) (answers : List (Answer T))
        → ((claims : T)
            → GoesOn p (parse_token p T u) setters header st claims
            → answers ≡ shown p json_encode r claims)
        → ((status : ℕ) (d : ErrorDescription) (e : Error)
            → Refuses p (parse_token p T u) setters header st status d e
            → answers ≡ write_header status ∷ [])
        → Shows answers c
        → Passes p (parse_token p T u) setters header st c
    adapter-Shows r c st answers going refusing there =
        elim (answered p (parse_token p T u) setters header st) [
          | inl (claims, passes, on) ↦
              let same =
                shown-Shows p f law json_encode r claims c
                  (subst (λ out. Shows out c) (going claims on) there) in
              subst (Passes p (parse_token p T u) setters header st) same passes
          | inr (status, d, e, fails, refuses) ↦ absurd (
              status-quiet p f law json_encode status c
                (subst (λ out. Shows out c) (refusing status d e refuses) there))
        ]

    echo_jwt-Shows :
        (auth : Option Str) (c : T) (st : HandlerState p T)
        → Shows
            (echo_jwt_serve p f json_encode
              (to_echo_jwt_parse_token_func p (parse_token p T u) setters)
              auth
              st).0
            c
        → (t : Str) × (auth ≡ some t) × ((parse_token p T u t st).0 ≡ ok c)
    unfolding to_echo_jwt_parse_token_func
    echo_jwt-Shows none c st there = absurd (law.no_auth c there)
    echo_jwt-Shows (some t) c st there = elim (Result-cases (parse_token p T u t st).0) [
      | inl (claims, parsed) ↦
          let on : Shows (json 200 claims ∷ []) c =
            subst (λ out. Shows out c)
              (ap (echo_jwt_answers p f json_encode) parsed ∙ echo-shown p f law json_encode claims)
              there in
          elim on [ inl same ↦ (t, refl, parsed ∙ ap ok same) | inr b ↦ absurd b ]
      | inr (e, failed) ↦ absurd (
          law.refuses e c
            (subst (λ out. Shows out c) (ap (echo_jwt_answers p f json_encode) failed) there))
    ]

    -- Claims that a server shows are those that the token string of the request parses to.
    pub serve-Shows :
        (r : Running p T) (c : T) (st : HandlerState p T)
        → Serves p u setters r
        → Shows (serve p f json_encode r header st).0 c
        → Parses r st c
    unfolding serve
    serve-Shows (http h g) c st serves there =
        adapter-Shows (http h g) c st (serve p f json_encode (http h g) header st).0
          (λ claims on. rw (serves, on.http, named) (http-shown p f law json_encode claims))
          (λ status d e off.
            rw (serves, off.http)
              (http-refused p f law json_encode (new p setters).error_handler d e status))
          there
    serve-Shows (gin h g) c st serves there =
        adapter-Shows (gin h g) c st (serve p f json_encode (gin h g) header st).0
          (λ claims on. rw (serves, on.gin, named) (gin-shown p f law json_encode f.empty claims))
          (λ status d e off.
            rw (serves, off.gin)
              (gin-refused p f law json_encode (new p setters).error_handler d e status))
          there
    serve-Shows (fiber h g) c st serves there =
        adapter-Shows (fiber h g) c st (serve p f json_encode (fiber h g) header st).0
          (λ claims on.
            rw (serves, on.fiber, named) (fiber-shown p f law json_encode f.empty claims))
          (λ status d e off.
            rw (serves, off.fiber)
              (fiber-refused p f law json_encode (new p setters).error_handler d e status))
          there
    serve-Shows (echo_jwt h g) c st serves there =
        echo_jwt-Shows (f.echo_auth header) c st (rw serves at there)

-- What a call of `ParseToken` keeps, the service of a request keeps.
module _ (p : Platform) {T : Type 0} (f : Frameworks T) (json_encode : T → External Unit)
    (setters : List (Setter p)) (u : Str → External T) (P : Handler p T → Type 0)
    (keeps : (t : Str) (h : Handler p T) (w : p.World) → P h → P (parse_token p T u t (h, w)).1.0)
    (header : GetHeaderFn) where
  echo_jwt-keeps :
      (auth : Option Str) (h : Handler p T) (w : p.World)
      → P h
      → P
          (echo_jwt_serve p f json_encode
            (to_echo_jwt_parse_token_func p (parse_token p T u) setters)
            auth
            (h, w)).1.0
  unfolding to_echo_jwt_parse_token_func
  echo_jwt-keeps none h w kept = kept
  echo_jwt-keeps (some t) h w kept = keeps t h w kept

  pub serve-keeps :
      (r : Running p T) (h : Handler p T) (w : p.World)
      → Serves p u setters r
      → P h
      → P (serve p f json_encode r header (h, w)).1.0
  unfolding serve to_http_handler to_gin_handler to_fiber_handler
  serve-keeps (http g _) h w serves kept =
      elim (Result-cases (get_token_string header (new p setters).token_string)) [
        | inl (t, found) ↦ rw serves (rw (found, to_http_handler) (keeps t h w kept))
        | inr (e, missing) ↦ rw serves (rw (missing, to_http_handler) kept)
      ]
  serve-keeps (gin g _) h w serves kept =
      elim (Result-cases (get_token_string header (new p setters).token_string)) [
        | inl (t, found) ↦ rw serves (rw (found, to_gin_handler) (keeps t h w kept))
        | inr (e, missing) ↦ rw serves (rw (missing, to_gin_handler) kept)
      ]
  serve-keeps (fiber g _) h w serves kept =
      elim (Result-cases (get_token_string header (new p setters).token_string)) [
        | inl (t, found) ↦ rw serves (rw (found, to_fiber_handler) (keeps t h w kept))
        | inr (e, missing) ↦ rw serves (rw (missing, to_fiber_handler) kept)
      ]
  serve-keeps (echo_jwt g _) h w serves kept =
      rw serves (echo_jwt-keeps (f.echo_auth header) h w kept)
