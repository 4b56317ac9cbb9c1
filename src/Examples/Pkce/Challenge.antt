-- ===== src/Examples/Pkce/Challenge.antt =====
-- The challenge and the verifier of a login of examples/pkce-cli/main.go.
use go_oidc_middleware.Prelude.{
  ◌≡◌, refl, sym, ap, ◌∙◌, subst, false, not, none, some, List, [], ◌∷◌, inl, inr, Bool-cases,
}
use go_oidc_middleware.Text.{Str, str, is_empty, ◌==◌}
use go_oidc_middleware.Text.Equality.{==_iff}
use go_oidc_middleware.Errors.{ok, err, ok-injective, Result-cases}
use go_oidc_middleware.Op.Action.{empty_value, lift, from_external}
use go_oidc_middleware.Op.Action.Bind.{>>=-ok, require-ok}
use go_oidc_middleware.Op.Tokens.{lookup}
use go_oidc_middleware.Op.Random.Drawn.{IsUniform, IsDrawn, generate_random_string-IsDrawn}
use go_oidc_middleware.Examples.Pkce.{
  Client, AuthorizationInfo, set_value, set_values, generate_random_string,
  generate_code_challenge_s256, generate_state, get_discovery_data, authorization_query,
  get_authorization_info, callback_handler, token_values,
}

set_value-other :
    (key k v : Str) (values : List (Str × Str))
    → (key == k) ≡ false
    → lookup key (set_value k v values) ≡ lookup key values
unfolding set_value lookup
set_value-other key k v [] other = rw other refl
set_value-other key k v ((k', v') ∷ values) other = elim (Bool-cases (k == k')) [
  | inl same ↦
      let other' : (key == k') ≡ false = ap (◌==◌ key) (sym ((==_iff k k').0 same)) ∙ other in
      rw (same, other, other') refl
  | inr apart ↦ rw apart (rw (set_value-other key k v values other) refl)
]

-- Extra parameters of other names leave a value.
set_values-other :
    (key : Str) (extra values : List (Str × Str))
    → lookup key extra ≡ none
    → lookup key (set_values extra values) ≡ lookup key values
unfolding set_values lookup
set_values-other key [] values spared = refl
set_values-other key ((k, v) ∷ extra) values spared = elim (Bool-cases (key == k)) [
  | inl same ↦ let found : some v ≡ none = rw same at spared in absurd (cc)
  | inr apart ↦
      set_values-other key extra (set_value k v values) (rw apart at spared)
      ∙ set_value-other key k v values apart
]

module _ (c : Client) where
  open c use {World, Url, random_int, sha256, encode_base64, with_query, url_string}

  -- The login is bound to its requests: the address that the browser is sent to has the challenge of
  -- the verifier, its method, the state and the callback; the verifier has 43 letters of the
  -- alphabet and is sent with the code of the callback.
  pub record IsBound (callback : Str) (info : AuthorizationInfo) (code : Str)
      (token_query : List (Str × Str)) : Type 0 where
    pub query : List (Str × Str)
    pub url : Url
    pub address : info.authorization_endpoint ≡ url_string (with_query query url)
    pub challenge :
        lookup (str "code_challenge") query ≡ some (encode_base64 (sha256 info.code_verifier))
    pub method : lookup (str "code_challenge_method") query ≡ some (str "S256")
    pub state_sent : lookup (str "state") query ≡ some info.state
    pub callback_sent : lookup (str "redirect_uri") query ≡ some callback
    pub drawn : IsDrawn 43 (ok info.code_verifier)
    pub verifier_sent : lookup (str "code_verifier") token_query ≡ some info.code_verifier
    pub code_sent : lookup (str "code") token_query ≡ some code

  -- The names of the parameters that bind a login.
  abbrev pub Spares : List (Str × Str) → Type 0
  Spares extra =
      (lookup (str "code_challenge") extra ≡ none)
      × (lookup (str "code_challenge_method") extra ≡ none)
      × (lookup (str "state") extra ≡ none)
      × (lookup (str "redirect_uri") extra ≡ none)

  abbrev pub SparesToken : List (Str × Str) → Type 0
  SparesToken extra =
      (lookup (str "code_verifier") extra ≡ none) × (lookup (str "code") extra ≡ none)

  generate_code_challenge_s256-ok :
      IsUniform random_int
      → (w : World) (code : Str × Str) → (generate_code_challenge_s256 c w).0 ≡ ok code
      → (code.1 ≡ encode_base64 (sha256 code.0)) × IsDrawn 43 (ok code.0)
  unfolding generate_code_challenge_s256
  generate_code_challenge_s256-ok uniform w code e =
      elim (Result-cases (generate_random_string c 43 w).0) [
        | inl (verifier, drawn) ↦
            let made : ok (verifier, encode_base64 (sha256 verifier)) ≡ ok code =
              rw (drawn, generate_code_challenge_s256) at e in
            subst
              (λ (pair : Str × Str).
                (pair.1 ≡ encode_base64 (sha256 pair.0)) × IsDrawn 43 (ok pair.0))
              (ok-injective made)
              (
                refl,
                subst (IsDrawn 43) drawn (generate_random_string-IsDrawn random_int uniform 43 w),
              )
        | inr (x, failed) ↦
            let refused : err x ≡ ok code = rw (failed, generate_code_challenge_s256) at e in
            absurd (cc)
      ]

  -- What a login starts with.
  record IsMade (callback issuer client_id scopes : Str) (extra : List (Str × Str)) (w : World)
      (info : AuthorizationInfo) : Type 0 where
    code : Str × Str
    generated : (generate_code_challenge_s256 c w).0 ≡ ok code
    url : Url
    verifier : info.code_verifier ≡ code.0
    address :
        info.authorization_endpoint
        ≡ url_string (
            with_query
              (authorization_query c client_id code.1 callback scopes info.state extra)
              url)

  get_authorization_info-IsMade :
      (callback issuer client_id scopes : Str) (extra : List (Str × Str)) (w w' : World)
      (info : AuthorizationInfo)
      → get_authorization_info c callback issuer client_id scopes extra w ≡ (ok info, w')
      → IsMade callback issuer client_id scopes extra w info
  unfolding get_authorization_info
  get_authorization_info-IsMade callback issuer client_id scopes extra w w' info e =
      let e1 = require-ok (not (is_empty callback)) (empty_value (str "callback")) _ w e in
      let e2 = require-ok (not (is_empty issuer)) (empty_value (str "issuer")) _ w e1 in
      let e3 = require-ok (not (is_empty client_id)) (empty_value (str "clientID")) _ w e2 in
      let e4 = require-ok (not (is_empty scopes)) (empty_value (str "scopes")) _ w e3 in
      let (code, generated, e5) = >>=-ok (generate_code_challenge_s256 c) _ w e4 in
      let (state, _, e6) = >>=-ok (generate_state c) _ (generate_code_challenge_s256 c w).1 e5 in
      let w2 = (generate_state c (generate_code_challenge_s256 c w).1).1 in
      let (discovery, _, e7) = >>=-ok (get_discovery_data c issuer) _ w2 e6 in
      let (url, _, e8) =
        >>=-ok (lift (from_external (c.url_parse discovery.authorization_endpoint))) _
          (get_discovery_data c issuer w2).1 e7 in
      let same = ok-injective (ap (λ r. r.0) e8) in
      record {
        code = code;
        generated = generated;
        url = url;
        verifier = ap (λ (i : AuthorizationInfo). i.code_verifier) (sym same);
        address =
            subst
              (λ (i : AuthorizationInfo).
                i.authorization_endpoint
                ≡ url_string (
                    with_query
                      (authorization_query c client_id code.1 callback scopes i.state extra) url))
              same refl;
      }

  query-at :
      (key client_id challenge callback scopes state : Str) (extra : List (Str × Str))
      → lookup key extra ≡ none
      → lookup key (authorization_query c client_id challenge callback scopes state extra)
        ≡ lookup key (authorization_query c client_id challenge callback scopes state [])
  unfolding authorization_query set_values
  query-at key client_id challenge callback scopes state extra spared =
      set_values-other key extra _ spared

  query-values :
      (client_id challenge callback scopes state : Str)
      → let query = authorization_query c client_id challenge callback scopes state [] in
        (lookup (str "code_challenge") query ≡ some challenge)
        × (lookup (str "code_challenge_method") query ≡ some (str "S256"))
        × (lookup (str "state") query ≡ some state)
        × (lookup (str "redirect_uri") query ≡ some callback)
  unfolding authorization_query set_values lookup ◌==◌
  query-values client_id challenge callback scopes state = (refl, refl, refl, refl)

  token-values :
      (info : AuthorizationInfo) (extra : List (Str × Str))
      → SparesToken extra
      → (lookup (str "code_verifier") (token_values c info extra) ≡ some info.code_verifier)
        × (lookup (str "code") (token_values c info extra) ≡ some info.response_code)
  unfolding token_values lookup ◌==◌
  token-values info extra (verifier_spared, code_spared) = (
    set_values-other (str "code_verifier") extra _ verifier_spared,
    set_values-other (str "code") extra _ code_spared,
  )

  callback_handler-after :
      (query_param : Str → Str) (info : AuthorizationInfo)
      → let after = (callback_handler c query_param info).1 in
        (after.code_verifier ≡ info.code_verifier)
        × (after.response_code ≡ query_param (str "code"))
  unfolding callback_handler
  callback_handler-after query_param info = (refl, refl)

  -- A login that starts is bound to its requests, unless the extra parameters replace what binds
  -- it, with a source of random numbers within the range asked for: the address that the browser is
  -- sent to has the S256 challenge of the verifier, the state and the callback, and the request for
  -- the token has the verifier, of 43 letters, and the code that the callback was given.
  pub get_authorization_info-IsBound :
      IsUniform random_int
      → (callback issuer client_id scopes : Str) (extra extra_token : List (Str × Str))
      → Spares extra
      → SparesToken extra_token
      → (query_param : Str → Str) (w w' : World) (info : AuthorizationInfo)
      → get_authorization_info c callback issuer client_id scopes extra w ≡ (ok info, w')
      → IsBound callback info
          (query_param (str "code"))
          (token_values c (callback_handler c query_param info).1 extra_token)
  get_authorization_info-IsBound uniform callback issuer client_id scopes extra extra_token
        (challenge_spared, method_spared, state_spared, callback_spared) token_spared query_param w
        w' info e =
      let made = get_authorization_info-IsMade callback issuer client_id scopes extra w w' info e in
      let (hashed, drawn) = generate_code_challenge_s256-ok uniform w made.code made.generated in
      let at = λ (key : Str). query-at key client_id made.code.1 callback scopes info.state extra in
      let values = query-values client_id made.code.1 callback scopes info.state in
      let (kept, coded) = callback_handler-after query_param info in
      let after = (callback_handler c query_param info).1 in
      let sent = token-values after extra_token token_spared in
      record {
        query = authorization_query c client_id made.code.1 callback scopes info.state extra;
        url = made.url;
        address = made.address;
        challenge =
            at (str "code_challenge") challenge_spared
            ∙ values.0
            ∙ ap some (hashed ∙ ap (λ v. encode_base64 (sha256 v)) (sym made.verifier));
        method = at (str "code_challenge_method") method_spared ∙ values.1;
        state_sent = at (str "state") state_spared ∙ values.2;
        callback_sent = at (str "redirect_uri") callback_spared ∙ values.3;
        drawn = subst (λ v. IsDrawn 43 (ok v)) (sym made.verifier) drawn;
        verifier_sent = sent.0 ∙ ap some kept;
        code_sent = sent.1 ∙ ap some coded;
      }
