-- ===== src/Oidc/Calls.antt =====
-- The calls that `ParseToken` of internal/oidc/oidc.go makes, and nil dereferences.
use go_oidc_middleware.Prelude.{Bool, arith}
use go_oidc_middleware.Text.{Str}
use go_oidc_middleware.Errors.{
  Error, IsSafe, token_algorithm_required, Result, ok, err, map_err, External,
}
use go_oidc_middleware.Platform.{Platform}
use go_oidc_middleware.KeyHandler.{KeyHandler, first_key, get_key}
use go_oidc_middleware.KeyHandler.Serve.{IsServed, get_key-Serves}
use go_oidc_middleware.Oidc.Checks.{
  get_token_algorithm_from_token_header, get_headers_from_token_string,
}
use go_oidc_middleware.Oidc.Signature.{
  get_signature_algorithm, get_signature_algorithm_from_string, get_and_validate_token_from_string,
}
use go_oidc_middleware.Oidc.Keeps.{KeepsReady}

module _ (p : Platform) where
  open p use {Headers, Key, Token, World, key_type, key_algorithm}

  pub IsServed-IsSafe :
      (disabled : Bool) (kid alg : Str) (r : Result Error Key) (h : KeyHandler p)
      → IsServed p disabled kid alg r h
      → IsSafe r
  IsServed-IsSafe disabled kid alg (ok key) h s = tt
  IsServed-IsSafe disabled kid alg (err e) h s = s

  pub get_key-KeepsReady :
      (T : Type 0) (u : Str → External T) (kid alg : Str) → KeepsReady p T u (get_key p kid alg)
  get_key-KeepsReady T u kid alg = record {
    at = λ k w ready.
        let s = get_key-Serves p kid alg k w ready in
        (
          s.ready,
          s.same,
          IsServed-IsSafe k.disable_key_id kid alg (get_key p kid alg (k, w)).0
              (get_key p kid alg (k, w)).1.0 s.served,
        );
  }

  pub first_key-IsSafe : (ks : p.KeySet) → IsSafe (first_key p ks)
  first_key-IsSafe ks = ground arith

  pub get_headers_from_token_string-IsSafe : (s : Str) → IsSafe (get_headers_from_token_string p s)
  unfolding get_headers_from_token_string
  get_headers_from_token_string-IsSafe s = ground arith

  pub token_algorithm-IsSafe :
      (headers : Headers)
      → IsSafe (map_err token_algorithm_required (get_token_algorithm_from_token_header p headers))
  unfolding get_token_algorithm_from_token_header
  token_algorithm-IsSafe headers = ground arith

  pub get_signature_algorithm-IsSafe :
      (kty alg fallback : Str) → IsSafe (get_signature_algorithm p kty alg fallback)
  unfolding get_signature_algorithm get_signature_algorithm_from_string
  get_signature_algorithm-IsSafe kty alg fallback = ground arith

  pub get_and_validate_token_from_string-IsSafe :
      (s : Str) (key : Key) (alg : Str) → IsSafe (get_and_validate_token_from_string p s key alg)
  unfolding get_and_validate_token_from_string
  get_and_validate_token_from_string-IsSafe s key alg = ground arith
