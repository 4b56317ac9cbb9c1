-- ===== src/Oidc/Verified.antt =====
-- With which key a successful `ParseToken` has verified the signature.
use go_oidc_middleware.Prelude.{
  ◌≡◌, refl, sym, ap, ◌∙◌, ◌⊎◌, inl, inr, true, some, arith, Bool-cases, subst,
}
use go_oidc_middleware.Text.{Str}
use go_oidc_middleware.Errors.{
  Error, err-ne-ok, outcome-result, outcome-state, Result, ok, err, >>=-eq-ok, continue, lift,
  External, Result-cases,
}
use go_oidc_middleware.Platform.{Platform}
use go_oidc_middleware.KeyHandler.{
  KeyHandler, first_key, wait_for_update_key_set_and_get_key_set,
  wait_for_update_key_set_and_get_key,
}
use go_oidc_middleware.KeyHandler.Fetch.{
  IsReady, Updated, wait_for_update_key_set_and_get_key_set-Updated,
}
use go_oidc_middleware.KeyHandler.Serve.{IsReady-Updated, IsKeyOf}
use go_oidc_middleware.Oidc.Signature.{get_signature_algorithm, get_and_validate_token_from_string}
use go_oidc_middleware.Oidc.Handler.{Handler, HandlerState}
use go_oidc_middleware.Oidc.Load.{with_keys}
use go_oidc_middleware.Oidc.Accepts.{
  get_signature_algorithm_iff, AlgorithmOf, get_and_validate_token_from_string_iff,
}
use go_oidc_middleware.Oidc.Parse.{
  on_key_handler, retry_with_updated_key, retry_or_return, verify_signature,
}
use go_oidc_middleware.Oidc.Keeps.{on_key_handler-some}
use go_oidc_middleware.Oidc.Steps.{HoldsKey}

module _ (p : Platform) (T : Type 0) (u : Str → External T) where
  open p use {Key, KeySet, Token, World, key_type, key_algorithm, jwt_parse_string, set_get}

  -- A token verified with a key of the key set held at the end. The algorithm is that of this key,
  -- or, if key identifiers are disabled and a first key failed, that of the first key.
  pub record IsVerified (h : Handler p T) (kid alg s : Str) (token : Token) (h' : Handler p T)
      : Type 0 where
    pub key : Key
    pub named_by : Key
    pub algorithm : Str
    pub verified : jwt_parse_string s algorithm key ≡ ok token
    pub held : HoldsKey p T u h kid alg key h'
    pub algorithm_of :
        AlgorithmOf p
          (key_type named_by)
          (key_algorithm named_by)
          h.fallback_signature_algorithm
          algorithm
    pub by_key : (named_by ≡ key) ⊎ (h.disable_key_id ≡ true)

  wait_sound :
      (k : KeyHandler p) (w : World) (key : Key) (st : KeyHandler p × World)
      → IsReady p k
      → wait_for_update_key_set_and_get_key p (k, w) ≡ (ok key, st)
      → (ks : KeySet) × (st.0.key_set ≡ some ks)
        × (set_get ks 0 ≡ some key)
        × IsReady p st.0
        × (st.0.disable_key_id ≡ k.disable_key_id)
  unfolding wait_for_update_key_set_and_get_key
  wait_sound k w key st ready e =
      after (wait_for_update_key_set_and_get_key_set p (k, w)).0
        (wait_for_update_key_set_and_get_key_set p (k, w)).1
        (wait_for_update_key_set_and_get_key_set-Updated p k w ready.idle) e
    where
      after :
          (r : Result Error KeySet) (s : KeyHandler p × World)
          → Updated p k r s.0
          → continue r (λ ks. lift (first_key p ks)) s ≡ (ok key, st)
          → (ks : KeySet) × (st.0.key_set ≡ some ks)
            × (set_get ks 0 ≡ some key)
            × IsReady p st.0
            × (st.0.disable_key_id ≡ k.disable_key_id)
      after (err x) s u e = absurd (err-ne-ok e)
      after (ok ks) s (u, single) e =
          let state : st.0 ≡ s.0 =
            sym (ap (λ (o : Result Error Key × (KeyHandler p × World)). o.1.0) e) in
          let found : first_key p ks ≡ ok key = outcome-result e in
          let same = state ∙ u in
          (
            ks,
            rw same,
            ground (arith, found),
            rw state (IsReady-Updated p k (ok ks) s.0 ready (u, single)),
            rw same,
          )

  retry_sound :
      (s kid alg : Str) (key : Key) (h : Handler p T) (k : KeyHandler p) (uri : Str) (w : World)
      (token : Token) (st : HandlerState p T)
      → IsReady p k
      → k.disable_key_id ≡ h.disable_key_id
      → h.disable_key_id ≡ true
      → retry_with_updated_key p T u s key (with_keys p T h uri (some k), w) ≡ (ok token, st)
      → IsVerified h kid alg s token st.0
  unfolding retry_with_updated_key
  retry_sound s kid alg key h k uri w token st ready flag disabled e =
      let h' : Handler p T = with_keys p T h uri (some k) in
      let out = wait_for_update_key_set_and_get_key p (k, w) in
      let (updated, s1, got, rest) =
        >>=-eq-ok (on_key_handler p T u (wait_for_update_key_set_and_get_key p)) _ (h', w) e in
      let got' =
        rw (on_key_handler-some p T u (wait_for_update_key_set_and_get_key p) h' w k refl) at got in
      let state : s1 ≡ (with_keys p T h uri (some out.1.0), out.1.1) = sym (outcome-state got') in
      let found : out.0 ≡ ok updated = outcome-result got' in
      let (ks, held, first, ready', flag') =
        wait_sound k w updated out.1 ready (ap (λ r. (r, out.1)) found) in
      elim (Result-cases (
        get_signature_algorithm p (key_type key) (key_algorithm key)
          h.fallback_signature_algorithm)) [
            | inr (x, failed) ↦ absurd (err-ne-ok (rw failed at rest))
            | inl (a, found_alg) ↦
                let rest' = rw found_alg at rest in
                let ended : st ≡ s1 = sym (outcome-state rest') in
                record {
                  key = updated;
                  named_by = key;
                  algorithm = a;
                  verified =
                      (get_and_validate_token_from_string_iff p s updated a token).0
                        (outcome-result rest');
                  held = rw (ended ∙ state) (record {
                    key_handler = out.1.0;
                    key_set = ks;
                    uri = uri;
                    same = refl;
                    holds = held;
                    ready = ready';
                    flag = flag' ∙ flag;
                    chosen = subst (λ b. IsKeyOf p b kid alg ks updated) (sym disabled) first;
                  });
                  algorithm_of =
                      (get_signature_algorithm_iff p (key_type key) (key_algorithm key)
                          h.fallback_signature_algorithm a).0
                        found_alg;
                  by_key = inr disabled;
                }
          ]

  retry_or_return_sound :
      (s kid alg : Str) (key : Key) (h : Handler p T) (k : KeyHandler p) (uri : Str) (w : World)
      (token : Token) (st : HandlerState p T) (r : Result Error Token)
      → (first : (t : Token) → r ≡ ok t → IsVerified h kid alg s t (with_keys p T h uri (some k)))
      → IsReady p k
      → k.disable_key_id ≡ h.disable_key_id
      → retry_or_return p T u s key r (with_keys p T h uri (some k), w) ≡ (ok token, st)
      → IsVerified h kid alg s token st.0
  unfolding retry_or_return
  retry_or_return_sound s kid alg key h k uri w token st (ok t) first ready flag e =
      let same : t ≡ token = ground (arith, outcome-result e) in
      let state : st ≡ (with_keys p T h uri (some k), w) = sym (outcome-state e) in
      rw state
        (subst (λ x. IsVerified h kid alg s x (with_keys p T h uri (some k))) same (first t refl))
  retry_or_return_sound s kid alg key h k uri w token st (err x) first ready flag e =
      elim (Bool-cases h.disable_key_id) [
        | inr enabled ↦ ground arith
        | inl disabled ↦
            retry_sound s kid alg key h k uri w token st ready flag disabled (retried disabled)
      ]
    where
      retried :
          h.disable_key_id ≡ true
          → retry_with_updated_key p T u s key (with_keys p T h uri (some k), w) ≡ (ok token, st)
      retried disabled = ground arith

  -- What a successful verification has established.
  pub verify_signature_sound :
      (s kid alg : Str) (key : Key) (h h' : Handler p T) (w : World) (token : Token)
      (st : HandlerState p T)
      → HoldsKey p T u h kid alg key h'
      → verify_signature p T u s key (h', w) ≡ (ok token, st)
      → IsVerified h kid alg s token st.0
  unfolding verify_signature
  verify_signature_sound s kid alg key h h' w token st holds e =
      let h1 : Handler p T = with_keys p T h holds.uri (some holds.key_handler) in
      let fallback = h.fallback_signature_algorithm in
      let e1 : verify_signature p T u s key (h1, w) ≡ (ok token, st) =
        subst (λ g. verify_signature p T u s key (g, w) ≡ (ok token, st)) holds.same e in
      elim (Result-cases (get_signature_algorithm p (key_type key) (key_algorithm key) fallback)) [
        | inr (x, failed) ↦ absurd (err-ne-ok (rw failed at e1))
        | inl (a, found) ↦
            retry_or_return_sound s kid alg key h holds.key_handler holds.uri w token st
              (get_and_validate_token_from_string p s key a)
              (λ t verified. record {
                key = key;
                named_by = key;
                algorithm = a;
                verified = (get_and_validate_token_from_string_iff p s key a t).0 verified;
                held = subst (HoldsKey p T u h kid alg key) holds.same holds;
                algorithm_of =
                    (get_signature_algorithm_iff p (key_type key) (key_algorithm key) fallback a).0
                      found;
                by_key = inl refl;
              })
              holds.ready holds.flag (rw found at e1)
      ]
