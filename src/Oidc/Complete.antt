-- ===== src/Oidc/Complete.antt =====
-- Tokens that `ParseToken` of internal/oidc/oidc.go accepts.
use go_oidc_middleware.Prelude.{◌+◌, ◌≡◌, refl, ap, ◌∙◌, subst, false, Option, some, arith}
use go_oidc_middleware.Prelude.Int.{ℤ}
use go_oidc_middleware.Text.{Str}
use go_oidc_middleware.Errors.{Error, ok, err, External, continue}
use go_oidc_middleware.Platform.{Platform}
use go_oidc_middleware.KeyHandler.{
  KeyHandler, State, checked_key_set, store_key_set, update_key_set, try_acquire, release,
  wait_for_update_key_set_and_get_key_set, find_key, update_and_find_key, get_key,
}
use go_oidc_middleware.KeyHandler.Serve.{get_key-known, get_key-enabled, get_key_from_id-missed}
use go_oidc_middleware.Oidc.Handler.{Handler}
use go_oidc_middleware.Oidc.Checks.{
  get_key_id_from_token_header, get_token_algorithm_from_token_header,
}
use go_oidc_middleware.Oidc.Parse.{
  token_key_id, read_headers, retry_or_return, verify_signature, validate_claims, parse_loaded,
  parse_token,
}
use go_oidc_middleware.Oidc.Accepts.{
  is_token_type_valid_iff, get_headers_from_token_string_iff, AlgorithmOf,
  get_signature_algorithm_iff, get_and_validate_token_from_string_iff,
}
use go_oidc_middleware.Oidc.Claims.{IsAccepted, read_claims_complete}
use go_oidc_middleware.Oidc.Steps.{HasHeaders, IsKeyIdOf}
use go_oidc_middleware.Oidc.Keeps.{on_key_handler-some}
use go_oidc_middleware.Oidc.Safety.{parse_token-some}

module _ (p : Platform) where
  open p use {KeySet, Key, World, jwk_fetch, limiter_take, set_len}

  -- A key that is missing from the key set held, but not from the one that the provider shows.
  pub record IsRotated (k : KeyHandler p) (w : World) (kid alg : Str) (key : Key) : Type 0 where
    pub old : KeySet
    pub held : k.key_set ≡ some old
    pub missing : Error
    pub missed : find_key p old kid alg ≡ err missing
    pub idle : k.key_update_semaphore ≡ 0
    pub enabled : k.disable_key_id ≡ false
    pub shown : KeySet
    pub fetched :
        (jwk_fetch k.http_client k.jwks_uri k.fetch_timeout (limiter_take k.key_update_limiter w)).0
        ≡ ok shown
    pub found : find_key p shown kid alg ≡ ok key

  -- The handler that holds the new key set, and the world after the fetch.
  abbrev pub updated : (k : KeyHandler p) (w : World) → KeySet → State p
  updated k w shown = (
    record k { key_set = some shown; key_update_count = k.key_update_count + 1 },
    (jwk_fetch k.http_client k.jwks_uri k.fetch_timeout (limiter_take k.key_update_limiter w)).1,
  )

  module _ (k : KeyHandler p) (w : World) (shown : KeySet) (idle : k.key_update_semaphore ≡ 0)
      (enabled : k.disable_key_id ≡ false)
      (fetched : (jwk_fetch k.http_client k.jwks_uri k.fetch_timeout
          (limiter_take k.key_update_limiter w)).0
        ≡ ok shown) where
    fetched-wait : wait_for_update_key_set_and_get_key_set p (k, w) ≡ (ok shown, updated k w shown)
    unfolding wait_for_update_key_set_and_get_key_set try_acquire update_key_set checked_key_set
        store_key_set release
    fetched-wait = ground arith

    -- `getKey` for a key that is missing from the key set held searches the one that is fetched.
    pub get_key-fetched :
        (kid alg : Str) (old : KeySet) (missing : Error)
        → k.key_set ≡ some old
        → find_key p old kid alg ≡ err missing
        → get_key p kid alg (k, w) ≡ (find_key p shown kid alg, updated k w shown)
    unfolding update_and_find_key
    get_key-fetched kid alg old missing held missed =
        get_key-enabled p kid alg k w enabled
        ∙ get_key_from_id-missed p kid alg k w old missing held missed
        ∙ rw (fetched-wait, continue) refl

  -- `getKey` for a key that the provider has added updates the key set and returns the key.
  pub get_key-rotated :
      (k : KeyHandler p) (w : World) (kid alg : Str) (key : Key) (r : IsRotated k w kid alg key)
      → get_key p kid alg (k, w) ≡ (ok key, updated k w r.shown)
  get_key-rotated k w kid alg key r =
      get_key-fetched k w r.shown r.idle r.enabled r.fetched kid alg r.old r.missing r.held r.missed
      ∙ ap (λ found. (found, updated k w r.shown)) r.found

module _ (p : Platform) (T : Type 0) (u : Str → External T) where
  open p use {Headers, Key, Token, World, now, jwt_parse_string, key_type, key_algorithm}

  pub read_headers_complete :
      (s kid alg : Str) (h : Handler p T) (w : World)
      → h.disable_key_id ≡ false
      → HasHeaders p T u h s kid alg
      → read_headers p T u s (h, w) ≡ (ok (kid, alg), (h, w))
  unfolding read_headers token_key_id get_key_id_from_token_header
      get_token_algorithm_from_token_header
  read_headers_complete s kid alg h w enabled x =
      let named = subst (λ b. IsKeyIdOf p T u b x.headers kid) enabled x.key_id in
      ground (
        arith,
        (get_headers_from_token_string_iff p s x.headers).1 x.signed_once,
        (is_token_type_valid_iff p h.required_token_type x.headers).1 x.typed,
        x.algorithm,
        x.algorithm_given,
      )

  IsAccepted-after :
      (h : Handler p T) (k : Option (KeyHandler p)) (time : ℤ) (token : Token) (claims : T)
      → IsAccepted p T u h time token claims
      → IsAccepted p T u (record h { key_handler = k }) time token claims
  unfolding validate_claims
  IsAccepted-after h k time token claims a = record {
    unexpired = a.unexpired;
    issuer_required = a.issuer_required;
    issued = a.issued;
    meant = a.meant;
    converted = a.converted;
    validated = a.validated;
  }

  verify_signature_complete :
      (s alg : Str) (key : Key) (token : Token) (h : Handler p T) (w : World)
      → AlgorithmOf p (key_type key) (key_algorithm key) h.fallback_signature_algorithm alg
      → jwt_parse_string s alg key ≡ ok token
      → verify_signature p T u s key (h, w) ≡ (ok token, (h, w))
  unfolding verify_signature retry_or_return
  verify_signature_complete s alg key token h w of_key verified = ground (
    arith,
    (get_signature_algorithm_iff p (key_type key) (key_algorithm key) h.fallback_signature_algorithm
          alg).1
        of_key,
    (get_and_validate_token_from_string_iff p s key alg token).1 verified,
  )

  -- A token string with good headers, signed by a key with the algorithm of the key, whose claims
  -- are accepted at the time of the check.
  pub record IsGood (s : Str) (h : Handler p T) (kid alg : Str) (key : Key) (w : World) (claims : T)
      : Type 0 where
    pub has_headers : HasHeaders p T u h s kid alg
    pub signature_algorithm : Str
    pub of_key :
        AlgorithmOf p
          (key_type key)
          (key_algorithm key)
          h.fallback_signature_algorithm
          signature_algorithm
    pub token : Token
    pub verified : jwt_parse_string s signature_algorithm key ≡ ok token
    pub accepted : IsAccepted p T u h (now w).0 token claims

  module _ (s : Str) (h : Handler p T) (w : World) (k : KeyHandler p) (kid alg : Str) (key : Key)
      (claims : T) (loaded : h.key_handler ≡ some k) (enabled : h.disable_key_id ≡ false) where
    parse_token_complete :
        (k' : KeyHandler p) (w' : World)
        → get_key p kid alg (k, w) ≡ (ok key, (k', w'))
        → IsGood s h kid alg key w' claims
        → parse_token p T u s (h, w) ≡ (ok claims, (record h { key_handler = some k' }, (now w').1))
    unfolding parse_loaded
    parse_token_complete k' w' got good =
        let served = on_key_handler-some p T u (get_key p kid alg) h w k loaded in
        let h' : Handler p T = record h { key_handler = some k' } in
        parse_token-some p T u s h w k loaded
        ∙ rw (read_headers_complete s kid alg h w enabled good.has_headers, continue)
            (rw (served, continue)
              (rw (got, continue)
                (rw
                  (
                    verify_signature_complete s good.signature_algorithm key good.token h' w'
                        good.of_key good.verified,
                    continue,
                  )
                  (read_claims_complete p T u good.token claims h' w'
                    (IsAccepted-after h (some k') (now w').0 good.token claims good.accepted)))))

    -- A good token string, whose key the search finds in the key set held, is accepted with its
    -- claims: no key is fetched, and but for the reading of the clock nothing changes.
    pub parse_token-known :
        (key_set : p.KeySet)
        → k.disable_key_id ≡ false
        → k.key_set ≡ some key_set
        → find_key p key_set kid alg ≡ ok key
        → IsGood s h kid alg key w claims
        → parse_token p T u s (h, w) ≡ (ok claims, (record h { key_handler = some k }, (now w).1))
    parse_token-known key_set by_id held found =
        parse_token_complete k w (get_key-known p kid alg k w key_set key by_id held found)

    -- After a rotation of the provider's keys, a good token string signed by a key that is missing
    -- from the key set held is accepted with its claims in the first call, and the handler holds
    -- the new key set then: one fetch, no error in between. The handler has its key handler already
    -- and uses key identifiers, no update of the key set is running, and the fetch gives a key set
    -- in which the search finds the key.
    pub parse_token-rotated :
        (r : IsRotated p k w kid alg key)
        → IsGood s h kid alg key (updated p k w r.shown).1 claims
        → parse_token p T u s (h, w) ≡ (
          ok claims,
          (
            record h { key_handler = some (updated p k w r.shown).0 },
            (now (updated p k w r.shown).1).1,
          ),
        )
    parse_token-rotated r =
        parse_token_complete (updated p k w r.shown).0 (updated p k w r.shown).1
          (get_key-rotated p k w kid alg key r)
