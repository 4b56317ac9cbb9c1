-- ===== src/Oidc/Load.antt =====
-- Loading the keys of the provider: `loadJwks` of internal/oidc/oidc.go.
use go_oidc_middleware.Prelude.{
  ◌≡◌, refl, sym, ap, ◌∙◌, inl, inr, Bool, true, false, Option, none, some, arith, Bool-cases,
  subst,
}
use go_oidc_middleware.Prelude.Int.{ℤ}
use go_oidc_middleware.Text.{Str, is_empty}
use go_oidc_middleware.Errors.{
  Error, IsPanic, unable_to_fetch_jwks_uri, unable_to_initialize_key_handler, Result, ok, err,
  err-injective, continue, map_err,
}
use go_oidc_middleware.Platform.{Platform}
use go_oidc_middleware.KeyHandler.{KeyHandler, new_key_handler}
use go_oidc_middleware.KeyHandler.Fetch.{IsReady}
use go_oidc_middleware.KeyHandler.Serve.{IsMade, new_key_handler-IsMade}
use go_oidc_middleware.Oidc.Handler.{
  Handler, HandlerState, get_jwks_uri_from_discovery_uri, set_jwks_uri, discover_jwks_uri,
  set_key_handler, init_key_handler, load_jwks,
}

module _ (p : Platform) where
  open p use {World, HttpClient}

  get_jwks_uri_from_discovery_uri-safe :
      (client : HttpClient) (uri : Str) (timeout : ℤ) (w : World) (e : Error)
      → (get_jwks_uri_from_discovery_uri p client uri timeout w).0 ≡ err e
      → ¬ IsPanic e
  unfolding get_jwks_uri_from_discovery_uri
  get_jwks_uri_from_discovery_uri-safe client uri timeout w e h = ground arith

module _ (p : Platform) (T : Type 0) where
  open p use {World}

  -- A key handler, where there is one, is ready and has the handler's setting.
  abbrev pub IsHeld : Bool → Option (KeyHandler p) → Type 0
  IsHeld disabled none = Unit
  IsHeld disabled (some k) = IsReady p k × (k.disable_key_id ≡ disabled)

  abbrev pub IsWellFormed : Handler p T → Type 0
  IsWellFormed h = IsHeld h.disable_key_id h.key_handler

  abbrev pub with_keys : Handler p T → Str → Option (KeyHandler p) → Handler p T
  with_keys h uri k = record h { jwks_uri = uri; key_handler = k }

  -- The two handlers differ in the address of the keys and in the key handler at most.
  abbrev pub SameSettings : Handler p T → Handler p T → Type 0
  SameSettings h h' = h' ≡ with_keys h h'.jwks_uri h'.key_handler

  -- After a load: a key handler, or none and an error that is no nil dereference.
  abbrev pub IsLoaded : Result Error Unit → Handler p T → Type 0
  IsLoaded (ok _) h =
      (k : KeyHandler p) × (h.key_handler ≡ some k)
      × IsReady p k
      × (k.disable_key_id ≡ h.disable_key_id)
  IsLoaded (err e) h = (h.key_handler ≡ none) × (¬ IsPanic e)

  pub record Loads (h : Handler p T) (out : Result Error Unit × HandlerState p T) : Type 0 where
    pub same : SameSettings h out.1.0
    pub loaded : IsLoaded out.0 out.1.0

  set_key_handler-Loads :
      (h : Handler p T) (r : Result Error (KeyHandler p)) (w : World)
      → h.key_handler ≡ none
      → IsMade p h.disable_key_id h.jwks_uri r
      → Loads h (set_key_handler p T (map_err unable_to_initialize_key_handler r) h w)
  set_key_handler-Loads h (ok k) w empty (ready, same, _) = record {
    same = refl;
    loaded = (k, refl, ready, same);
  }
  set_key_handler-Loads h (err e) w empty safe = record { same = refl; loaded = (empty, safe) }

  init_key_handler-Loads :
      (h : Handler p T) (w : World) → h.key_handler ≡ none → Loads h (init_key_handler p T (h, w))
  unfolding init_key_handler
  init_key_handler-Loads h w empty =
      set_key_handler-Loads h
        (new_key_handler p h.http_client h.jwks_uri h.jwks_fetch_timeout h.jwks_rate_limit
          h.disable_key_id w).0
        (new_key_handler p h.http_client h.jwks_uri h.jwks_fetch_timeout h.jwks_rate_limit
          h.disable_key_id w).1
        empty
        (new_key_handler-IsMade p h.http_client h.jwks_uri h.jwks_fetch_timeout h.jwks_rate_limit
          h.disable_key_id w)

  -- What discovery leaves behind: at most the address of the keys.
  abbrev Discovers : Handler p T → Result Error Unit × HandlerState p T → Type 0
  Discovers h out =
      (out.1.0 ≡ record h { jwks_uri = out.1.0.jwks_uri })
      × ((e : Error) → out.0 ≡ err e → ¬ IsPanic e)

  set_jwks_uri-Discovers :
      (h : Handler p T) (r : Result Error Str) (w : World)
      → ((e : Error) → r ≡ err e → ¬ IsPanic e)
      → Discovers h (set_jwks_uri p T (map_err (unable_to_fetch_jwks_uri h.discovery_uri) r) h w)
  set_jwks_uri-Discovers h (ok uri) w safe = (refl, λ e eq. cc)
  set_jwks_uri-Discovers h (err x) w safe =
      (refl, λ e eq. subst (λ y. ¬ IsPanic y) (err-injective eq) (safe x refl))

  module _ (h : Handler p T) (w : World) where
    abbrev discovery : Result Error Str × World
    discovery =
        get_jwks_uri_from_discovery_uri p h.http_client h.discovery_uri h.discovery_fetch_timeout w

    discover_jwks_uri-unknown :
        is_empty h.jwks_uri ≡ true
        → discover_jwks_uri p T (h, w)
          ≡ set_jwks_uri p T
              (map_err (unable_to_fetch_jwks_uri h.discovery_uri) discovery.0)
              h
              discovery.1
    unfolding discover_jwks_uri
    discover_jwks_uri-unknown unknown = ground arith

    discover_jwks_uri-known :
        is_empty h.jwks_uri ≡ false → discover_jwks_uri p T (h, w) ≡ (ok tt, (h, w))
    unfolding discover_jwks_uri
    discover_jwks_uri-known known = ground arith

    discover_jwks_uri-Discovers : Discovers h (discover_jwks_uri p T (h, w))
    discover_jwks_uri-Discovers = elim (Bool-cases (is_empty h.jwks_uri)) [
      | inl unknown ↦ rw (discover_jwks_uri-unknown unknown) (
          set_jwks_uri-Discovers h discovery.0 discovery.1 (
            get_jwks_uri_from_discovery_uri-safe p h.http_client h.discovery_uri
              h.discovery_fetch_timeout w))
      | inr known ↦ rw (discover_jwks_uri-known known) (refl, λ e eq. cc)
    ]

  Loads-rest :
      (h : Handler p T) (out : Result Error Unit × HandlerState p T)
      → h.key_handler ≡ none
      → Discovers h out
      → Loads h (continue out.0 (λ _. init_key_handler p T) out.1)
  Loads-rest h (ok _, (h', w)) empty (same, safe) =
      let l = init_key_handler-Loads h' w (rw same empty) in
      record {
        same =
            l.same
            ∙ ap
                (λ g.
                  with_keys g (init_key_handler p T (h', w)).1.0.jwks_uri
                    (init_key_handler p T (h', w)).1.0.key_handler)
                same;
        loaded = l.loaded;
      }
  Loads-rest h (err e, (h', w)) empty (same, safe) = record {
    same = same ∙ ap (with_keys h h'.jwks_uri) (sym (ap (λ (g : Handler p T). g.key_handler) same));
    loaded = (rw same empty, safe e refl);
  }

  -- For a handler without a key handler, loading the keys gives one that is ready and has its
  -- setting of key identifiers, or an error that is no nil dereference and no key handler; it
  -- changes no setting but the address of the keys.
  pub load_jwks-Loads :
      (h : Handler p T) (w : World) → h.key_handler ≡ none → Loads h (load_jwks p T (h, w))
  unfolding load_jwks
  load_jwks-Loads h w empty =
      Loads-rest h (discover_jwks_uri p T (h, w)) empty (discover_jwks_uri-Discovers h w)
