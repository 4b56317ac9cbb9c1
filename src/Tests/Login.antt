-- ===== src/Tests/Login.antt =====
-- A login of examples/pkce-cli, from its start to the callback.
use go_oidc_middleware.Prelude.{
  ℕ, suc, ◌≡◌, refl, false, List, [], ◌∷◌, ◌++◌, ltb, arith, if◌then◌else◌,
}
use go_oidc_middleware.Text.{Str, str, ◌==◌, trim_suffix}
use go_oidc_middleware.Errors.{ok, err}
use go_oidc_middleware.Op.Tokens.{lookup}
use go_oidc_middleware.Op.Random.{generate_random_string}
use go_oidc_middleware.Op.Random.Drawn.{IsUniform}
use go_oidc_middleware.Examples.Pkce.{
  Client, AuthorizationInfo, exchange, generate_code_challenge_s256, generate_state,
  get_discovery_data, get_authorization_info, callback_handler, token_values,
}
use go_oidc_middleware.Examples.Pkce.Challenge.{IsBound, get_authorization_info-IsBound}

-- The world is how many numbers have been drawn; a URL is its text with the values of the query.
abbrev client : Client
client = record {
  World = ℕ;
  random_int = λ n w. (if ltb 7 n then ok 7 else err (str "no number"), suc w);
  sha256 = λ t. str "sha" ++ t;
  encode_base64 = λ t. t;
  Url = Str × List (Str × Str);
  url_parse = λ t. ok (t, []);
  with_query = λ values url. (url.0, values);
  url_string = λ url. url.0;
  encode_values = λ _. str "values";
  HttpRequest = Str;
  HttpResponse = Str;
  new_request = λ method url body. ok url;
  set_header = λ _ _ r. r;
  http_do = λ _ r w. (ok r, w);
  read_body = λ r w. (ok r, w);
  close_body = λ _ w. (ok tt, w);
  unmarshal_discovery = λ _. ok (record {
    authorization_endpoint = str "http://op/authorization";
    token_endpoint = str "http://op/token";
  });
  print = λ _ w. w;
  epoch = str "Thu, 01 Jan 1970 00:00:00 UTC";
}

client-IsUniform : IsUniform client.random_int
client-IsUniform = record { below = λ n w i e. ground arith }

abbrev verifier : Str
verifier = str "7777777777777777777777777777777777777777777"

abbrev info : AuthorizationInfo
info = record {
  authorization_endpoint = str "http://op/authorization";
  token_endpoint = str "http://op/token";
  client_id = str "client";
  callback = str "http://localhost/callback";
  code_verifier = verifier;
  code_challange = str "sha" ++ verifier;
  state = str "sha77777777777777777777777777777777";
  response_code = [];
  response_state = [];
  shutdown_closed = false;
}

abbrev extra : List (Str × Str)
extra = (str "prompt", str "login") ∷ []

login_run :
    get_authorization_info client
      (str "http://localhost/callback")
      (str "http://op")
      (str "client")
      (str "openid")
      extra
      0
    ≡ (ok info, 75)
unfolding get_authorization_info generate_code_challenge_s256 generate_state get_discovery_data
    exchange generate_random_string trim_suffix
login_run = refl

get_authorization_info-IsBound_example :
    IsBound client
      (str "http://localhost/callback")
      info
      (str "code")
      (token_values client (callback_handler client (λ name. name) info).1 [])
unfolding lookup ◌==◌
get_authorization_info-IsBound_example =
    get_authorization_info-IsBound client client-IsUniform (str "http://localhost/callback")
      (str "http://op") (str "client") (str "openid") extra [] (refl, refl, refl, refl) (refl, refl)
      (λ name. name) 0 75 info login_run
