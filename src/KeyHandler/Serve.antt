-- ===== src/KeyHandler/Serve.antt =====
-- Serving a request for a key: `getKey` and `newKeyHandler` of internal/oidc/keyhandler.go.
use go_oidc_middleware.Prelude.{
  ℕ, ◌+◌, ◌≤◌, ◌≡◌, refl, sym, ap, Bool, true, false, none, some, arith, inl, inr, Option-cases,
  Bool-cases, subst, ◌∙◌,
}
use go_oidc_middleware.Prelude.Int.{ℤ}
use go_oidc_middleware.Text.{Str}
use go_oidc_middleware.Errors.{
  Error, IsPanic, unable_to_update_key_set, Result, ok, err, Result-cases, continue, map_err, lift,
}
use go_oidc_middleware.Platform.{Platform}
use go_oidc_middleware.KeyHandler.{
  KeyHandler, State, update_key_set, new_key_handler, wait_for_update_key_set_and_get_key_set,
  find_key, first_key, on_key_set, made_from, get_key_without_key_id, update_and_find_key,
  get_key_from_id, get_key,
}
use go_oidc_middleware.KeyHandler.Find.{First, Found, find_key-Found}
use go_oidc_middleware.KeyHandler.Fetch.{
  IsReady, Updated, update_key_set-Updated, wait_for_update_key_set_and_get_key_set-Updated,
}

module _ (p : Platform) where
  open p use {Key, KeySet, World, HttpClient, set_len, set_get, limiter_new}

  pub IsReady-Updated :
      (h : KeyHandler p) (r : Result Error KeySet) (h' : KeyHandler p)
      → IsReady p h
      → Updated p h r h'
      → IsReady p h'
  IsReady-Updated h (ok key_set) h' ready (e, single) = rw e (record {
    key_set = key_set;
    held = refl;
    single = single;
    idle = ready.idle;
    updated = omega arith;
  })
  IsReady-Updated h (err x) h' ready (e, _) = rw e ready

  -- Where a key comes from: the first of the set, or the first that fits the token.
  abbrev pub IsKeyOf : Bool → Str → Str → KeySet → Key → Type 0
  IsKeyOf true kid alg key_set key = set_get key_set 0 ≡ some key
  IsKeyOf false kid alg key_set key = First p key_set kid alg 0 (set_len key_set) key

  -- A key is one of the key set that the handler holds at the end; an error is no nil
  -- dereference.
  abbrev pub IsServed : Bool → Str → Str → Result Error Key → KeyHandler p → Type 0
  IsServed disabled kid alg (ok key) h =
      (key_set : KeySet) × (h.key_set ≡ some key_set) × IsKeyOf disabled kid alg key_set key
  IsServed disabled kid alg (err e) h = ¬ IsPanic e

  pub record Serves (disabled : Bool) (kid alg : Str) (h : KeyHandler p)
      (out : Result Error Key × State p) : Type 0 where
    pub ready : IsReady p out.1.0
    pub same : out.1.0.disable_key_id ≡ h.disable_key_id
    pub at_most_one_update : out.1.0.key_update_count ≤ h.key_update_count + 1
    pub served : IsServed disabled kid alg out.0 out.1.0

  Served-first :
      (kid alg : Str) (h : KeyHandler p) (key_set : KeySet)
      → h.key_set ≡ some key_set
      → IsServed true kid alg (first_key p key_set) h
  Served-first kid alg h key_set held = elim (Option-cases (set_get key_set 0)) [
    | inl missing ↦ rw (missing, IsServed) (λ x. x)
    | inr (key, there) ↦ rw (there, IsServed) (key_set, held, there)
  ]

  Served-find :
      (kid alg : Str) (h : KeyHandler p) (key_set : KeySet) (r : Result Error Key)
      → h.key_set ≡ some key_set
      → Found p key_set kid alg 0 (set_len key_set) r
      → IsServed false kid alg r h
  Served-find kid alg h key_set (ok key) held found = (key_set, held, found)
  Served-find kid alg h key_set (err e) held (same, _) = rw same (λ x. x)

  Serves-update :
      (kid alg : Str) (h : KeyHandler p) (r : Result Error KeySet) (s : State p)
      → IsReady p h
      → Updated p h r s.0
      → Serves false kid alg h (
          continue
            (map_err (unable_to_update_key_set kid) r)
            (λ ks. lift (find_key p ks kid alg))
            s)
  Serves-update kid alg h (ok key_set) s ready (e, single) = record {
    ready = IsReady-Updated h (ok key_set) s.0 ready (e, single);
    same = rw e;
    at_most_one_update = rw e (omega arith);
    served =
        Served-find kid alg s.0 key_set (find_key p key_set kid alg) (rw e)
          (find_key-Found p key_set kid alg);
  }
  Serves-update kid alg h (err x) s ready (e, safe) = record {
    ready = rw e ready;
    same = rw e;
    at_most_one_update = rw e (omega arith);
    served = safe;
  }

  module _ (kid alg : Str) (h : KeyHandler p) (w : World) where
    get_key-disabled :
        h.disable_key_id ≡ true
        → get_key p kid alg (h, w) ≡ (on_key_set p h.key_set (first_key p), (h, w))
    unfolding get_key get_key_without_key_id
    get_key-disabled disabled = ground arith

    pub get_key-enabled :
        h.disable_key_id ≡ false → get_key p kid alg (h, w) ≡ get_key_from_id p kid alg (h, w)
    unfolding get_key
    get_key-enabled enabled = ground arith

    get_key_from_id-found :
        (key_set : KeySet) (key : Key)
        → h.key_set ≡ some key_set
        → find_key p key_set kid alg ≡ ok key
        → get_key_from_id p kid alg (h, w) ≡ (ok key, (h, w))
    unfolding get_key_from_id
    get_key_from_id-found key_set key held found = ground arith

    pub get_key_from_id-missed :
        (key_set : KeySet) (e : Error)
        → h.key_set ≡ some key_set
        → find_key p key_set kid alg ≡ err e
        → get_key_from_id p kid alg (h, w) ≡ update_and_find_key p kid alg (h, w)
    unfolding get_key_from_id
    get_key_from_id-missed key_set e held missed = ground arith

    -- With key identifiers, a key that the search finds in the key set held is returned without an
    -- update: handler and world are unchanged.
    pub get_key-known :
        (key_set : KeySet) (key : Key)
        → h.disable_key_id ≡ false
        → h.key_set ≡ some key_set
        → find_key p key_set kid alg ≡ ok key
        → get_key p kid alg (h, w) ≡ (ok key, (h, w))
    get_key-known key_set key enabled held found =
        get_key-enabled enabled ∙ get_key_from_id-found key_set key held found

    get_key_from_id-Serves : IsReady p h → Serves false kid alg h (get_key_from_id p kid alg (h, w))
    unfolding update_and_find_key
    get_key_from_id-Serves ready = elim (Result-cases (find_key p ready.key_set kid alg)) [
      | inl (key, found) ↦ rw (get_key_from_id-found ready.key_set key ready.held found) (record {
        ready = ready;
        same = refl;
        at_most_one_update = omega arith;
        served = Served-find kid alg h ready.key_set (ok key) ready.held (
            subst (Found p ready.key_set kid alg 0 (set_len ready.key_set)) found
              (find_key-Found p ready.key_set kid alg));
      })
      | inr (e, missed) ↦ rw (get_key_from_id-missed ready.key_set e ready.held missed) (
          Serves-update kid alg h (wait_for_update_key_set_and_get_key_set p (h, w)).0
            (wait_for_update_key_set_and_get_key_set p (h, w)).1 ready
            (wait_for_update_key_set_and_get_key_set-Updated p h w ready.idle))
    ]

    on_key_set-some :
        (key_set : KeySet)
        → h.key_set ≡ some key_set
        → on_key_set p h.key_set (first_key p) ≡ first_key p key_set
    on_key_set-some key_set held = ap (λ o. on_key_set p o (first_key p)) held

    -- A handler that is ready serves a request for a key and is ready again, after at most one
    -- update: a key returned is the first of the key set that the handler then holds, or, with key
    -- identifiers, the first of it that fits; an error is never a nil dereference.
    pub get_key-Serves : IsReady p h → Serves h.disable_key_id kid alg h (get_key p kid alg (h, w))
    get_key-Serves ready = elim (Bool-cases h.disable_key_id) [
      | inl disabled ↦
          subst (λ b. Serves b kid alg h (get_key p kid alg (h, w))) (sym disabled)
            (rw (get_key-disabled disabled) (record {
              ready = ready;
              same = refl;
              at_most_one_update = omega arith;
              served =
                  subst (λ r. IsServed true kid alg r h)
                    (sym (on_key_set-some ready.key_set ready.held))
                    (Served-first kid alg h ready.key_set ready.held);
            }))
      | inr enabled ↦
          subst (λ b. Serves b kid alg h (get_key p kid alg (h, w))) (sym enabled)
            (rw (get_key-enabled enabled) (get_key_from_id-Serves ready))
    ]

  -- A handler that is made is ready, with the settings given; an error is no nil
  -- dereference.
  abbrev pub IsMade : Bool → Str → Result Error (KeyHandler p) → Type 0
  IsMade disabled uri (ok h) = IsReady p h × (h.disable_key_id ≡ disabled) × (h.jwks_uri ≡ uri)
  IsMade disabled uri (err e) = ¬ IsPanic e

  made_from-IsMade :
      (fresh : KeyHandler p) (r : Result Error KeySet) (s : State p)
      → fresh.key_update_semaphore ≡ 0
      → Updated p fresh r s.0
      → IsMade fresh.disable_key_id fresh.jwks_uri (made_from p r s).0
  made_from-IsMade fresh (err e) s idle (_, safe) = safe
  made_from-IsMade fresh (ok key_set) s idle (e, single) = rw e (
    record { key_set = key_set; held = refl; single = single; idle = idle; updated = omega arith },
    refl,
    refl,
  )

  -- Making a handler fetches its key set first, so that a handler that is made is ready; an error
  -- is no nil dereference.
  pub new_key_handler-IsMade :
      (client : HttpClient) (uri : Str) (timeout : ℤ) (rps : ℕ) (disabled : Bool) (w : World)
      → IsMade disabled uri (new_key_handler p client uri timeout rps disabled w).0
  unfolding new_key_handler
  new_key_handler-IsMade client uri timeout rps disabled w =
      let (limiter, w1) = limiter_new rps w in
      let fresh : KeyHandler p = record {
        jwks_uri = uri;
        disable_key_id = disabled;
        key_set = none;
        fetch_timeout = timeout;
        key_update_semaphore = 0;
        key_update_count = 0;
        key_update_limiter = limiter;
        http_client = client;
      } in
      made_from-IsMade fresh (update_key_set p (fresh, w1)).0 (update_key_set p (fresh, w1)).1 refl
        (update_key_set-Updated p fresh w1)
