-- ===== src/Tests/Shown.antt =====
-- Requests to the server of examples/api.
use go_oidc_middleware.Prelude.{
  ◌≡◌, refl, arith, ap, inl, inr, Option, none, some, List, [], ◌∷◌, ◌++◌, if◌then◌else◌,
}
use go_oidc_middleware.Text.{Str, str, ◌==◌}
use go_oidc_middleware.Text.Equality.{==_refl}
use go_oidc_middleware.Errors.{ok, External}
use go_oidc_middleware.TokenString.{
  GetHeaderFn, get_token_string_with, post_extraction, round, try_each, get_token_string,
}
use go_oidc_middleware.TokenString.Selection.{get_token_string-bearer}
use go_oidc_middleware.Options.{new, with_issuer, with_fallback_signature_algorithm}
use go_oidc_middleware.Options.TokenStringOptions.{apply_setters, new_token_string}
use go_oidc_middleware.Middleware.Http.{to_http_handler}
use go_oidc_middleware.Oidc.Parse.{parse_token}
use go_oidc_middleware.Oidc.Sound.{IsAuthentic}
use go_oidc_middleware.Examples.Runtime.{OptestClaims, optest_provider}
use go_oidc_middleware.Examples.Api.{opts}
use go_oidc_middleware.Examples.Api.Run.{IsAdmitted}
use go_oidc_middleware.Examples.Servers.{
  Interface, of_type, write_header, set_header, encode, Frameworks, serve,
}
use go_oidc_middleware.Examples.Servers.Shows.{IsFramework, Shows, Carries}
use go_oidc_middleware.Examples.Servers.Started.{after, run-Shows, run-shown}
use go_oidc_middleware.Tests.Fixture.{fixture, World, world, token_string}
use go_oidc_middleware.Tests.Api.{cfg, claims, unmarshal, started, server, api_run, api_parse}

-- Contexts are lists of values with their keys.
abbrev value_of : Str → List (Str × OptestClaims) → Option (Interface OptestClaims)
value_of k [] = none
value_of k ((key, c) ∷ context) =
    let rest = value_of k context in if k == key then some (of_type c) else rest

abbrev frameworks : Frameworks OptestClaims
frameworks = record {
  Context = List (Str × OptestClaims);
  empty = [];
  put = λ key c context. (key, c) ∷ context;
  get = value_of;
  echo_auth = λ header. none;
  echo_no_auth = write_header 400 ∷ [];
  echo_refuses = λ e. write_header 401 ∷ [];
}

frameworks-IsFramework : IsFramework frameworks
frameworks-IsFramework = record {
  put_get = λ k c context. rw (==_refl k) refl;
  no_auth = λ c there. elim there [ inl a ↦ a | inr b ↦ b ];
  refuses = λ e c there. elim there [ inl a ↦ a | inr b ↦ b ];
}

abbrev json_encode : OptestClaims → External Unit
json_encode c = ok tt

abbrev header : GetHeaderFn
header name = str "Bearer " ++ token_string

-- A request without a token string, before.
abbrev requests : List (GetHeaderFn × World)
requests = ((λ _. []), world) ∷ []

still_started :
    after fixture unmarshal cfg world server api_run frameworks json_encode requests started
    ≡ started
unfolding serve to_http_handler new apply_setters with_issuer with_fallback_signature_algorithm
    get_token_string try_each round new_token_string post_extraction get_token_string_with
still_started = refl

carried : Carries fixture frameworks (opts fixture optest_provider cfg) header server.1 token_string
unfolding new apply_setters with_issuer with_fallback_signature_algorithm
carried = get_token_string-bearer header token_string (ground arith) refl

parsed :
    (parse_token fixture OptestClaims (unmarshal optest_provider) token_string (
      after fixture unmarshal cfg world server api_run frameworks json_encode requests started,
      world,
    )).0
    ≡ ok claims
parsed = rw still_started (ap (λ out. out.0) api_parse)

run-shown_example :
    (serve fixture frameworks json_encode server.1 header (
      after fixture unmarshal cfg world server api_run frameworks json_encode requests started,
      world,
    )).0
    ≡ set_header (str "Content-Type") (str "application/json") ∷ encode claims ∷ []
run-shown_example =
    run-shown fixture unmarshal cfg world server api_run frameworks json_encode
      frameworks-IsFramework requests header world token_string claims carried parsed

shows :
    Shows
      (serve fixture frameworks json_encode server.1 header (
        after fixture unmarshal cfg world server api_run frameworks json_encode requests started,
        world,
      )).0
      claims
shows =
    rw
      (run-shown fixture unmarshal cfg world server api_run frameworks json_encode
        frameworks-IsFramework requests header world token_string claims carried parsed)
      (inr (inl refl))

run-Shows_example :
    let h =
      after fixture unmarshal cfg world server api_run frameworks json_encode requests started in
    (t : Str) × Carries fixture frameworks (opts fixture optest_provider cfg) header server.1 t
    × ((a : IsAuthentic fixture OptestClaims
          (unmarshal optest_provider)
          h
          t
          claims
          (parse_token fixture OptestClaims (unmarshal optest_provider) t (h, world)).1.0)
        × IsAdmitted fixture unmarshal cfg optest_provider a.time a.token claims)
run-Shows_example =
    run-Shows fixture unmarshal cfg world server api_run frameworks json_encode
      frameworks-IsFramework requests header world claims shows
