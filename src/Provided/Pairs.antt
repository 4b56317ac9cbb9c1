-- ===== src/Provided/Pairs.antt =====
-- The pairs of keys of the test provider (optest/jwks.go) as the middleware reads them.
use go_oidc_middleware.Prelude.{◌≡◌, ◌≢◌, sym, ◌∙◌, []}
use go_oidc_middleware.Text.{str}
use go_oidc_middleware.Platform.{Platform}
use go_oidc_middleware.Op.Services.{Services}
use go_oidc_middleware.Op.Keys.{IsKeyed}
use go_oidc_middleware.Op.Keys.Pair.{key_pair-IsPairOf, key_pair-key_id}
use go_oidc_middleware.Op.Keys.Single.{IsMadePair}
use go_oidc_middleware.Provided.{Link, IsReadable}

module _ (s : Services) (p : Platform) (l : Link s p) where
  -- A private key with its public key: they share an identifier that is not empty, and the public
  -- key names the algorithm.
  pub record IsShownPair (k q : s.Key) : Type 0 where
    pub pair : l.IsPair k q
    pub same_id : s.key_id k ≡ s.key_id q
    pub id_given : s.key_id k ≢ []
    pub algorithm : p.key_algorithm (l.key q) ≡ str "ES384"

  -- `addNewKey` makes such pairs.
  pub IsShownPair-IsMadePair : IsKeyed s.crypto → IsReadable s p l → IsMadePair s.crypto IsShownPair
  IsShownPair-IsMadePair keyed readable e k q made =
      let x = key_pair-IsPairOf s.crypto e k q made in
      record {
        pair = readable.public_algorithm (str "ES384") k x.pub_key' q x.with_algorithm (
            readable.public_named x.kid k x.pub_key x.pub_key' x.public_named (
              readable.private_named x.kid x.key k x.pub_key x.named
                (readable.paired e x.key x.pub_key x.private x.public)));
        same_id = key_pair-key_id s.crypto keyed e k q made;
        id_given = λ empty.
            readable.thumbprint_given x.key x.kid x.thumbprint
              (sym (keyed.named x.kid x.key k x.named) ∙ empty);
        algorithm = readable.algorithm (str "ES384") x.pub_key' q x.with_algorithm;
      }
