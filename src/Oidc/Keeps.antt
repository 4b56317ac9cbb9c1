-- ===== src/Oidc/Keeps.antt =====
-- Actions of `ParseToken` that keep the settings and a key handler that is ready.
use go_oidc_middleware.Prelude.{◌≡◌, refl, ap, ◌∙◌, Bool, true, false, some, arith}
use go_oidc_middleware.Text.{Str}
use go_oidc_middleware.Errors.{
  Error, IsPanic, IsSafe, IsSafe-map_err, Result, ok, err, Exec, ◌>>=◌, continue, pure, lift, wrap,
  require, External,
}
use go_oidc_middleware.Platform.{Platform}
use go_oidc_middleware.KeyHandler.{KeyHandler}
use go_oidc_middleware.KeyHandler.Fetch.{IsReady}
use go_oidc_middleware.Oidc.Handler.{Handler, HandlerState}
use go_oidc_middleware.Oidc.Load.{with_keys, SameSettings}
use go_oidc_middleware.Oidc.Parse.{on_key_handler}

module _ (p : Platform) (T : Type 0) where
  open p use {World}

  abbrev pub IsServing : Handler p T → Type 0
  IsServing h =
      (k : KeyHandler p) × (h.key_handler ≡ some k)
      × IsReady p k
      × (k.disable_key_id ≡ h.disable_key_id)

  pub SameSettings-trans :
      (h h' h'' : Handler p T)
      → SameSettings p T h h'
      → SameSettings p T h' h''
      → SameSettings p T h h''
  SameSettings-trans h h' h'' e e' = e' ∙ ap (λ g. with_keys p T g h''.jwks_uri h''.key_handler) e

  module _ {A : Type 0} where
    pub record Kept (h : Handler p T) (out : Result Error A × HandlerState p T) : Type 0 where
      pub same : SameSettings p T h out.1.0
      pub serving : IsServing out.1.0
      pub safe : IsSafe out.0

    pub record Keeps (m : Exec (HandlerState p T) A) : Type 0 where
      pub at : (h : Handler p T) (w : World) → IsServing h → Kept h (m (h, w))

    pub Keeps-lift : (r : Result Error A) → IsSafe r → Keeps (lift r)
    Keeps-lift r safe = record {
      at = λ h w serving. record { same = refl; serving = serving; safe = safe };
    }

    pub Keeps-pure : (a : A) → Keeps (pure a)
    Keeps-pure a = Keeps-lift (ok a) tt

  pub Keeps-require : (b : Bool) (e : Error) → ¬ IsPanic e → Keeps (require b e)
  Keeps-require true e safe = Keeps-lift (ok tt) tt
  Keeps-require false e safe = Keeps-lift (err e) safe

  module _ {A B : Type 0} where
    Kept-continue :
        (h : Handler p T) (out : Result Error A × HandlerState p T)
        (f : A → Exec (HandlerState p T) B)
        → Kept h out
        → ((a : A) → Keeps (f a))
        → Kept h (continue out.0 f out.1)
    Kept-continue h (err e, (h', w')) f kept keeps = record {
      same = kept.same;
      serving = kept.serving;
      safe = kept.safe;
    }
    Kept-continue h (ok a, (h', w')) f kept keeps =
        let rest = (keeps a).at h' w' kept.serving in
        record {
          same = SameSettings-trans h h' (f a (h', w')).1.0 kept.same rest.same;
          serving = rest.serving;
          safe = rest.safe;
        }

    pub Keeps-bind :
        (m : Exec (HandlerState p T) A) (f : A → Exec (HandlerState p T) B)
        → Keeps m
        → ((a : A) → Keeps (f a))
        → Keeps (m >>= f)
    Keeps-bind m f km kf = record {
      at = λ h w serving. Kept-continue h (m (h, w)) f (km.at h w serving) kf;
    }

  module _ {A : Type 0} where
    pub Keeps-wrap :
        (f : Error → Error) (m : Exec (HandlerState p T) A)
        → ((e : Error) → ¬ IsPanic e → ¬ IsPanic (f e))
        → Keeps m
        → Keeps (wrap f m)
    Keeps-wrap f m keep km = record {
      at = λ h w serving.
          let kept = km.at h w serving in
          record {
            same = kept.same;
            serving = kept.serving;
            safe = IsSafe-map_err f (m (h, w)).0 keep kept.safe;
          };
    }

module _ (p : Platform) (T : Type 0) (json_unmarshal : Str → External T) {A : Type 0} where
  open p use {World}

  -- An action of the key handler that keeps it ready, with its settings, and dereferences no nil.
  pub record KeepsReady (m : Exec (KeyHandler p × World) A) : Type 0 where
    pub at :
        (k : KeyHandler p) (w : World)
        → IsReady p k
        → IsReady p (m (k, w)).1.0
          × ((m (k, w)).1.0.disable_key_id ≡ k.disable_key_id)
          × IsSafe (m (k, w)).0

  pub on_key_handler-some :
      (m : Exec (KeyHandler p × World) A) (h : Handler p T) (w : World) (k : KeyHandler p)
      → h.key_handler ≡ some k
      → on_key_handler p T json_unmarshal m (h, w)
        ≡ ((m (k, w)).0, (record h { key_handler = some (m (k, w)).1.0 }, (m (k, w)).1.1))
  unfolding on_key_handler
  on_key_handler-some m h w k held = ground arith

  pub Keeps-on_key_handler :
      (m : Exec (KeyHandler p × World) A)
      → KeepsReady m
      → Keeps p T (on_key_handler p T json_unmarshal m)
  Keeps-on_key_handler m km = record {
    at = λ h w serving.
        let (k, held, ready, flag) = serving in
        let (ready', flag', safe) = km.at k w ready in
        rw (on_key_handler-some m h w k held) (record {
          same = refl;
          serving = ((m (k, w)).1.0, refl, ready', flag' ∙ flag);
          safe = safe;
        });
  }
