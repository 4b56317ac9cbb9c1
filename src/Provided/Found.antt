-- ===== src/Provided/Found.antt =====
-- The middleware's search in the key set that the test provider shows.
use go_oidc_middleware.Prelude.{◌≡◌, ◌≢◌, refl, sym, ap, ◌∙◌, inl, inr, [], ◌∷◌, arith}
use go_oidc_middleware.Text.{Str, str}
use go_oidc_middleware.Errors.{Error, Result, ok, err, unable_to_find_key}
use go_oidc_middleware.Platform.{Platform}
use go_oidc_middleware.KeyHandler.{find_key}
use go_oidc_middleware.KeyHandler.Find.{Found, find_key-Found}
use go_oidc_middleware.Op.Services.{Services}
use go_oidc_middleware.Op.Keys.{JwksHandler, add_all, get_public_key_set}
use go_oidc_middleware.Op.Keys.Single.{IsSingle}
use go_oidc_middleware.Provided.{Link, IsReadable}
use go_oidc_middleware.Provided.Pairs.{IsShownPair}

-- The key set that the middleware reads.
abbrev pub shown_key_set :
    (s : Services) (p : Platform) → Link s p → JwksHandler s.crypto → p.KeySet
shown_key_set s p l h = l.key_set (get_public_key_set s.crypto h)

module _ (s : Services) (p : Platform) (l : Link s p) (readable : IsReadable s p l) where
  shown-single :
      (h : JwksHandler s.crypto) (x : IsSingle s.crypto (IsShownPair s p l) h)
      → shown_key_set s p l h ≡ l.key_set (add_all s.crypto (x.public ∷ []) s.new_set)
  unfolding get_public_key_set
  shown-single h x = rw x.shown refl

  Found-single :
      (q : s.Key) (kid : Str) (r : Result Error p.Key)
      → s.key_id q ≡ kid
      → p.key_algorithm (l.key q) ≡ str "ES384"
      → Found p
          (l.key_set (add_all s.crypto (q ∷ []) s.new_set))
          kid
          (str "ES384")
          0
          (p.set_len (l.key_set (add_all s.crypto (q ∷ []) s.new_set)))
          r
      → r ≡ ok (l.key q)
  Found-single q kid (ok key) named alg f =
      let (q', there, e) = readable.only (q ∷ []) f.index key f.there in
      elim there [ inl same ↦ ap ok (e ∙ ap l.key (sym same)) | inr empty ↦ absurd empty ]
  Found-single q kid (err x) named alg (_, none_fits) =
      let (i, inside, there) = readable.listed (q ∷ []) q (inl refl) in
      absurd
        (none_fits i (l.key q) (omega arith) inside there (readable.same_id q ∙ named, inr alg))

  -- The search for the identifier of the key that the provider signs with finds the public key.
  pub find_key-shown :
      (h : JwksHandler s.crypto) (x : IsSingle s.crypto (IsShownPair s p l) h)
      → find_key p (shown_key_set s p l h) (s.key_id x.private) (str "ES384") ≡ ok (l.key x.public)
  find_key-shown h x =
      let kid = s.key_id x.private in
      rw (shown-single h x) (
        Found-single x.public kid
          (find_key p (l.key_set (add_all s.crypto (x.public ∷ []) s.new_set)) kid (str "ES384"))
          (sym x.related.same_id) x.related.algorithm
          (find_key-Found p (l.key_set (add_all s.crypto (x.public ∷ []) s.new_set)) kid
            (str "ES384")))

  -- A search for an identifier that is not the one of that key finds none.
  pub find_key-retired :
      (h : JwksHandler s.crypto) (x : IsSingle s.crypto (IsShownPair s p l) h) (kid alg : Str)
      → kid ≢ s.key_id x.private
      → find_key p (shown_key_set s p l h) kid alg ≡ err (unable_to_find_key kid)
  find_key-retired h x kid alg other =
      let shown = shown_key_set s p l h in
      refused (find_key p shown kid alg) (find_key-Found p shown kid alg)
    where
      refused :
          (r : Result Error p.Key)
          → Found p (shown_key_set s p l h) kid alg 0 (p.set_len (shown_key_set s p l h)) r
          → r ≡ err (unable_to_find_key kid)
      refused (err e) (same, _) = ap err same
      refused (ok key) f =
          let (q, there, e) =
            readable.only (x.public ∷ []) f.index key (rw (sym (shown-single h x)) f.there) in
          let (named, _) = f.fits in
          elim there [
            | inl same ↦ absurd (
                other (
                  sym named
                  ∙ ap p.key_id e
                  ∙ readable.same_id q
                  ∙ ap s.key_id (sym same)
                  ∙ sym x.related.same_id))
            | inr empty ↦ absurd empty
          ]
