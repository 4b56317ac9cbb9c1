-- ===== src/Oidc/Steps.antt =====
-- What each step of a successful `ParseToken` has established.
use go_oidc_middleware.Prelude.{
  ◌≡◌, ◌≢◌, refl, sym, ap, ◌∙◌, ◌⊎◌, inl, inr, Bool, true, false, some, [], ◌∷◌, arith, subst,
}
use go_oidc_middleware.Text.{Str}
use go_oidc_middleware.Errors.{
  Error, unable_to_get_public_key, outcome-result, Result, ok, map_err-ok, wrap, External,
  Result-cases,
}
use go_oidc_middleware.Platform.{Platform}
use go_oidc_middleware.KeyHandler.{KeyHandler, get_key}
use go_oidc_middleware.KeyHandler.Fetch.{IsReady}
use go_oidc_middleware.KeyHandler.Serve.{IsServed, IsKeyOf, get_key-Serves}
use go_oidc_middleware.Oidc.Checks.{
  get_key_id_from_token_header, get_token_algorithm_from_token_header,
  get_headers_from_token_string,
}
use go_oidc_middleware.Oidc.Handler.{Handler, HandlerState}
use go_oidc_middleware.Oidc.Load.{with_keys}
use go_oidc_middleware.Oidc.Accepts.{is_token_type_valid_iff, get_headers_from_token_string_iff}
use go_oidc_middleware.Oidc.Parse.{on_key_handler, token_key_id, read_headers}
use go_oidc_middleware.Oidc.Keeps.{IsServing, on_key_handler-some}

module _ (p : Platform) (T : Type 0) (u : Str → External T) where
  open p use {
    Headers, Key, KeySet, Token, World, key_type, key_algorithm, header_type, header_key_id,
    header_algorithm, jws_parse_string, jwt_parse_string, set_get,
  }

  -- The key identifier that is looked for: the token's, which is not empty, unless identifiers are
  -- disabled.
  abbrev pub IsKeyIdOf : Bool → Headers → Str → Type 0
  IsKeyIdOf true headers kid = Unit
  IsKeyIdOf false headers kid = (header_key_id headers ≡ kid) × (kid ≢ [])

  -- The headers of a token string that pass the checks.
  pub record HasHeaders (h : Handler p T) (s kid alg : Str) : Type 0 where
    pub headers : Headers
    pub signed_once : jws_parse_string s ≡ ok (headers ∷ [])
    pub typed : (h.required_token_type ≡ []) ⊎ (header_type headers ≡ h.required_token_type)
    pub key_id : IsKeyIdOf h.disable_key_id headers kid
    pub algorithm : header_algorithm headers ≡ alg
    pub algorithm_given : alg ≢ []

  token_key_id_sound :
      (disabled : Bool) (headers : Headers) (kid : Str)
      → token_key_id p T u disabled headers ≡ ok kid
      → IsKeyIdOf disabled headers kid
  unfolding token_key_id get_key_id_from_token_header
  token_key_id_sound true headers kid e = tt
  token_key_id_sound false headers kid e = ground arith

  token_algorithm_sound :
      (headers : Headers) (alg : Str)
      → get_token_algorithm_from_token_header p headers ≡ ok alg
      → (header_algorithm headers ≡ alg) × (alg ≢ [])
  unfolding get_token_algorithm_from_token_header
  token_algorithm_sound headers alg e = ground arith

  pub read_headers_sound :
      (s kid alg : Str) (h : Handler p T) (w : World) (st : HandlerState p T)
      → read_headers p T u s (h, w) ≡ (ok (kid, alg), st)
      → HasHeaders h s kid alg × (st ≡ (h, w))
  unfolding read_headers
  read_headers_sound s kid alg h w st e = elim (Result-cases (get_headers_from_token_string p s)) [
    | inr (x, failed) ↦ ground arith
    | inl (headers, found) ↦ (
      record {
        headers = headers;
        signed_once = (get_headers_from_token_string_iff p s headers).0 found;
        typed = (is_token_type_valid_iff p h.required_token_type headers).0 (ground arith);
        key_id = token_key_id_sound h.disable_key_id headers kid (ground arith);
        algorithm = (token_algorithm_sound headers alg (ground arith)).0;
        algorithm_given = (token_algorithm_sound headers alg (ground arith)).1;
      },
      ground arith,
    )
  ]

  -- The handler holds a key set from which a key has been chosen by the identifier and the
  -- algorithm of the token; it is `h` but for its key handler and the address of the keys.
  pub record HoldsKey (h : Handler p T) (kid alg : Str) (key : Key) (h' : Handler p T)
      : Type 0 where
    pub key_handler : KeyHandler p
    pub key_set : KeySet
    pub uri : Str
    pub same : h' ≡ with_keys p T h uri (some key_handler)
    pub holds : key_handler.key_set ≡ some key_set
    pub ready : IsReady p key_handler
    pub flag : key_handler.disable_key_id ≡ h.disable_key_id
    pub chosen : IsKeyOf p h.disable_key_id kid alg key_set key

  HoldsKey-served :
      (h : Handler p T) (kid alg : Str) (key : Key) (k : KeyHandler p) (disabled : Bool)
      → disabled ≡ h.disable_key_id
      → IsReady p k
      → k.disable_key_id ≡ disabled
      → IsServed p disabled kid alg (ok key) k
      → HoldsKey h kid alg key (record h { key_handler = some k })
  HoldsKey-served h kid alg key k disabled e ready flag (ks, held, chosen) = record {
    key_handler = k;
    key_set = ks;
    uri = h.jwks_uri;
    same = refl;
    holds = held;
    ready = ready;
    flag = flag ∙ e;
    chosen = subst (λ b. IsKeyOf p b kid alg ks key) e chosen;
  }

  pub get_key_sound :
      (kid alg : Str) (h : Handler p T) (w : World) (key : Key) (st : HandlerState p T)
      → IsServing p T h
      → wrap unable_to_get_public_key (on_key_handler p T u (get_key p kid alg)) (h, w)
        ≡ (ok key, st)
      → HoldsKey h kid alg key st.0
  get_key_sound kid alg h w key st (k, held, ready, flag) e =
      let s = get_key-Serves p kid alg k w ready in
      let out = get_key p kid alg (k, w) in
      let e' = rw (on_key_handler-some p T u (get_key p kid alg) h w k held) at e in
      let state : st.0 ≡ record h { key_handler = some out.1.0 } =
        sym (ap (λ (o : Result Error Key × HandlerState p T). o.1.0) e') in
      let found : out.0 ≡ ok key =
        map_err-ok unable_to_get_public_key out.0 key (outcome-result e') in
      rw state (
        HoldsKey-served h kid alg key out.1.0 k.disable_key_id flag s.ready s.same
          (subst (λ r. IsServed p k.disable_key_id kid alg r out.1.0) found s.served))
