-- ===== src/Tests/Provider.antt =====
-- The provider for tests.
use go_oidc_middleware.Prelude.{
  ℕ, suc, ◌≡◌, refl, true, false, none, some, List, [], ◌∷◌, arith, All,
}
use go_oidc_middleware.Prelude.Int.{ℤ, pos, ltb_ℤ, ◌+ℤ◌}
use go_oidc_middleware.Text.{Str, str, ◌==◌}
use go_oidc_middleware.Errors.{ok}
use go_oidc_middleware.Op.Authorizations
use go_oidc_middleware.Op.OpaqueTokens
use go_oidc_middleware.Op.Authorizations.{get-once, get-set}
use go_oidc_middleware.Op.OpaqueTokens.{get-kept}
use go_oidc_middleware.Op.Keys.{Crypto, IsKeyed, JwksHandler}

abbrev at : ℕ → Str → ℤ
at n code = pos n

other_code :
    All
      (Authorizations.Spares (str "a"))
      (Authorizations.set_code (str "b") [] [] (pos 1) (at 1) ∷ [])
unfolding ◌==◌
other_code = (refl, tt)

get-once_example :
    (Authorizations.get (str "a") (at 2) (
      Authorizations.perform_all
        (Authorizations.set_code (str "b") [] [] (pos 1) (at 1) ∷ [])
        (Authorizations.get (str "a") (at 1) (
          Authorizations.set
            (str "a")
            (str "user")
            (str "nonce")
            (pos 0)
            (at 0)
            Authorizations.new_container)).1)).0
    ≡ none
get-once_example =
    get-once (str "a") (at 1) (at 2) (Authorizations.set_code (str "b") [] [] (pos 1) (at 1) ∷ [])
      (Authorizations.set (str "a") (str "user") (str "nonce") (pos 0) (at 0)
        Authorizations.new_container)
      other_code

unexpired : ltb_ℤ (pos 0 +ℤ Authorizations.new_container.ttl) (pos 3) ≡ false
unfolding Authorizations.new_container ◌+ℤ◌
unexpired = ground arith

get-set_example :
    (Authorizations.get (str "a") (at 3) (
      Authorizations.set
        (str "a")
        (str "user")
        (str "nonce")
        (pos 0)
        (at 3)
        Authorizations.new_container)).0
    ≡ some (
        Authorizations.entry
          (str "a")
          (str "user")
          (str "nonce")
          (pos 0 +ℤ Authorizations.new_container.ttl))
get-set_example =
    get-set (str "a") (str "user") (str "nonce") (pos 0) (at 3) (at 3) Authorizations.new_container
      unexpired unexpired

between : All (OpaqueTokens.Spares (str "t") (pos 9)) (
    OpaqueTokens.get_token (str "t") (at 4)
    ∷ OpaqueTokens.set_token (str "u") [] (pos 2) (at 5)
    ∷ [])
unfolding ◌==◌
between = (refl, ((refl, refl), tt))

get-kept_example :
    (OpaqueTokens.get (str "t") (at 8) (
      OpaqueTokens.perform_all
        (OpaqueTokens.get_token (str "t") (at 4)
          ∷ OpaqueTokens.set_token (str "u") [] (pos 2) (at 5)
          ∷ [])
        (OpaqueTokens.set (str "t") (str "jwt") (pos 9) (at 3) OpaqueTokens.new_container))).0
    ≡ some (OpaqueTokens.entry (str "jwt") (pos 9))
get-kept_example =
    get-kept (str "t") (str "jwt") (pos 9) (at 3) (at 8)
      (OpaqueTokens.get_token (str "t") (at 4)
        ∷ OpaqueTokens.set_token (str "u") [] (pos 2) (at 5)
        ∷ [])
      OpaqueTokens.new_container (ground arith) between (ground arith)

-- Keys are numbers, generated in order, with the number for identifier.
pub record NumberedKey : Type 0 where
  pub kid : Str
  pub number : ℕ

abbrev pub numbered : Crypto
numbered = record {
  EcdsaKey = ℕ;
  Key = NumberedKey;
  KeySet = List NumberedKey;
  World = ℕ;
  generate_key = λ n. (ok n, suc n);
  new_private = λ n. ok (record { kid = []; number = n });
  new_public = λ n. ok (record { kid = []; number = n });
  is_ecdsa_private = λ _. true;
  is_ecdsa_public = λ _. true;
  thumbprint_hex = λ k. ok (k.number ∷ []);
  set_key_id = λ kid k. ok (record k { kid = kid });
  set_algorithm = λ _ k. ok k;
  key_id = λ k. k.kid;
  new_set = [];
  set_add = λ k s. k ∷ s;
}

pub numbered-IsKeyed : IsKeyed numbered
numbered-IsKeyed = record { named = λ kid k k' e. cc; kept = λ alg k k' e. cc }

abbrev first_key : NumberedKey
first_key = record { kid = 5 ∷ []; number = 5 }

abbrev pub provider : JwksHandler numbered
provider = record { private_keys = first_key ∷ []; public_keys = first_key ∷ [] }
