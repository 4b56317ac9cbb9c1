-- ===== src/Provided/Claims.antt =====
-- The claims and headers that the middleware reads in a token that the test provider signs.
use go_oidc_middleware.Prelude.{
  ◌≡◌, refl, ◌∙◌, none, some, List, [], ◌∷◌, ◌++◌, arith, inl, inr, false, Bool-cases, append_assoc,
}
use go_oidc_middleware.Prelude.Int.{ℤ, ◌+ℤ◌}
use go_oidc_middleware.Text.{Str, str, is_empty, ◌==◌}
use go_oidc_middleware.Errors.{ok, err, External, Result-cases}
use go_oidc_middleware.Platform.{Platform}
use go_oidc_middleware.Op.Services.{Services}
use go_oidc_middleware.Op.Action.{OpError}
use go_oidc_middleware.Op.Tokens.{
  TestUser, OpTest, lookup, set_all, with_nonce, access_token_claims, token_headers, unsigned_token,
}
use go_oidc_middleware.Op.Issued.Claims.{unsigned_token-parts}
use go_oidc_middleware.Provided.{Link, IsVerifiable}

module _ {V T A : Type 0} (set : Str → V → T → External T) (get : T → A) (key : Str)
    (kept : (k : Str) (v : V) (t t' : T)
      → (key == k) ≡ false
      → set k v t ≡ ok t'
      → get t' ≡ get t) where
  set_all-split :
      (k : Str) (v : V) (values : List (Str × V)) (t t' : T)
      → set_all set ((k, v) ∷ values) t ≡ ok t'
      → (t1 : T) × (set k v t ≡ ok t1) × (set_all set values t1 ≡ ok t')
  unfolding set_all
  set_all-split k v values t t' h = elim (Result-cases (set k v t)) [
    | inl (t1, done) ↦ (t1, done, rw (done, set_all) at h)
    | inr (e, failed) ↦
        let refused : err (OpError.external e) ≡ ok t' = rw (failed, set_all) at h in absurd (cc)
  ]

  -- Setting other keys keeps what is read.
  set_all-kept :
      (values : List (Str × V)) (t t' : T)
      → lookup key values ≡ none
      → set_all set values t ≡ ok t'
      → get t' ≡ get t
  unfolding set_all lookup
  set_all-kept [] t t' free h = ground arith
  set_all-kept ((k, v) ∷ values) t t' free h = elim (Bool-cases (key == k)) [
    | inl hit ↦ ground arith
    | inr miss ↦
        let (t1, done, later) = set_all-split k v values t t' h in
        set_all-kept values t1 t' (ground arith) later ∙ kept k v t t1 miss done
  ]

  -- What is set, and not again, is read.
  pub set_all-written :
      (a : A) (v : V)
      → ((t t' : T) → set key v t ≡ ok t' → get t' ≡ a)
      → (before after : List (Str × V)) (t t' : T) → lookup key after ≡ none
      → set_all set (before ++ (key, v) ∷ after) t ≡ ok t'
      → get t' ≡ a
  set_all-written a v written [] after t t' free h =
      let (t1, done, later) = set_all-split key v after t t' h in
      set_all-kept after t1 t' free later ∙ written t t1 done
  set_all-written a v written ((k, v') ∷ before) after t t' free h =
      let (t1, done, later) = set_all-split k v' (before ++ (key, v) ∷ after) t t' h in
      set_all-written a v written before after t1 t' free later

lookup-++ :
    {V : Type 0} (key : Str) (xs ys : List (Str × V))
    → lookup key xs ≡ none
    → lookup key ys ≡ none
    → lookup key (xs ++ ys) ≡ none
unfolding lookup
lookup-++ key [] ys h h' = h'
lookup-++ key ((k, v) ∷ xs) ys h h' = ground (arith, lookup-++ key xs ys)

-- The claims that the middleware checks.
pub record IsClaimed (s : Services) (p : Platform) (l : Link s p) (op : OpTest s)
    (user : TestUser s) (time : ℤ) (t : s.Token) : Type 0 where
  pub issuer : l.issuer t ≡ op.options.issuer
  pub audience : l.audience t ≡ user.audience ∷ []
  pub expiration : s.token_expiration t ≡ l.from_unix (s.unix (time +ℤ op.options.token_expiration))

-- The extra claims of the user name none of the claims that the middleware checks.
pub record IsPlain (s : Services) (user : TestUser s) : Type 0 where
  pub issuer : lookup (str "iss") user.extra_access_token_claims ≡ none
  pub audience : lookup (str "aud") user.extra_access_token_claims ≡ none
  pub expiration : lookup (str "exp") user.extra_access_token_claims ≡ none

module _ (s : Services) (p : Platform) (l : Link s p) (v : IsVerifiable s p l) (op : OpTest s)
    (id : Str) (user : TestUser s) (nonce : Str) (time : ℤ) where
  open s use {Value, Token, Headers, token_set, text, number, unix}

  -- What is read of a claim that the extra claims of the user leave alone.
  written-claim :
      {A : Type 0} (get : Token → A) (key : Str) (a : A) (value : Value)
      → ((k : Str) (v : Value) (t t' : Token)
          → (key == k) ≡ false
          → token_set k v t ≡ ok t'
          → get t' ≡ get t)
      → ((t t' : Token) → token_set key value t ≡ ok t' → get t' ≡ a)
      → (before after : List (Str × Value))
      → (access_token_claims s op id user nonce time ≡ before ++ (key, value) ∷ after)
      → lookup key after ≡ none
      → lookup key user.extra_access_token_claims ≡ none
      → (headers : List (Str × Value)) (t : Token) (h : Headers)
      → unsigned_token s
          (access_token_claims s op id user nonce time)
          user.extra_access_token_claims
          headers
        ≡ ok (t, h)
      → get t ≡ a
  written-claim get key a value kept written before after same later free headers t h e =
      let (t1, first, second, _) =
        unsigned_token-parts s (access_token_claims s op id user nonce time)
          user.extra_access_token_claims headers t h e in
      set_all-kept token_set get key kept user.extra_access_token_claims t1 t free second
      ∙ set_all-written token_set get key kept a value written before after s.new_token t1 later
          (rw same at first)

  -- The claims after the expiration.
  abbrev last_claims : List (Str × Value)
  last_claims =
      (str "nbf", number (unix time)) ∷ (str "iat", number (unix time)) ∷ (str "id", text id) ∷ []

  with_nonce-++ :
      (claims more : List (Str × Value))
      → with_nonce s nonce (claims ++ more) ≡ claims ++ with_nonce s nonce more
  with_nonce-++ claims more = elim (Bool-cases (is_empty nonce)) [
    | inl without ↦ rw without refl
    | inr with_it ↦ rw with_it (append_assoc claims more ((str "nonce", text nonce) ∷ []))
  ]

  with_nonce-none :
      (key : Str) (claims : List (Str × Value))
      → (key == str "nonce") ≡ false
      → lookup key claims ≡ none
      → lookup key (with_nonce s nonce claims) ≡ none
  unfolding lookup
  with_nonce-none key claims other free = elim (Bool-cases (is_empty nonce)) [
    | inl without ↦ rw without free
    | inr with_it ↦
        rw with_it (lookup-++ key claims ((str "nonce", text nonce) ∷ []) free (ground arith))
  ]

  -- A token that the provider makes has them.
  pub unsigned_token-IsClaimed :
      IsPlain s user
      → (headers : List (Str × Value)) (t : Token) (h : Headers)
      → unsigned_token s
          (access_token_claims s op id user nonce time)
          user.extra_access_token_claims
          headers
        ≡ ok (t, h)
      → IsClaimed s p l op user time t
  unfolding lookup ◌==◌
  unsigned_token-IsClaimed plain headers t h e =
      let expires = unix (time +ℤ op.options.token_expiration) in
      let later : List (Str × Value) =
        (str "sub", text user.subject) ∷ (str "exp", number expires) ∷ [] in
      let meant : List (Str × Value) = (str "aud", text user.audience) ∷ later in
      record {
        issuer =
            written-claim l.issuer (str "iss") op.options.issuer (text op.options.issuer)
              v.issuer_kept (v.issuer_set op.options.issuer) []
              (meant ++ with_nonce s nonce last_claims)
              (with_nonce-++ ((str "iss", text op.options.issuer) ∷ meant) last_claims)
              (with_nonce-none (str "iss") last_claims refl refl) plain.issuer headers t h e;
        audience =
            written-claim l.audience (str "aud") (user.audience ∷ []) (text user.audience)
              v.audience_kept (v.audience_set user.audience)
              ((str "iss", text op.options.issuer) ∷ []) (later ++ with_nonce s nonce last_claims)
              (with_nonce-++ ((str "iss", text op.options.issuer) ∷ meant) last_claims)
              (with_nonce-none (str "aud") last_claims refl refl) plain.audience headers t h e;
        expiration =
            written-claim s.token_expiration (str "exp") (l.from_unix expires) (number expires)
              v.expiration_kept (v.expiration_set expires)
              ((str "iss", text op.options.issuer)
                ∷ (str "aud", text user.audience)
                ∷ (str "sub", text user.subject)
                ∷ [])
              (with_nonce s nonce last_claims)
              (with_nonce-++ ((str "iss", text op.options.issuer) ∷ meant) last_claims)
              (with_nonce-none (str "exp") last_claims refl refl) plain.expiration headers t h e;
      }

module _ (s : Services) (p : Platform) (l : Link s p) (v : IsVerifiable s p l) where
  open s use {Key, Value, Token, Headers, headers_set, text}

  -- The headers name the key and the type of the token.
  pub unsigned_token-headers :
      (key : Key) (key_type jwt_type : Str) (claims extra : List (Str × Value)) (t : Token)
      (h : Headers)
      → unsigned_token s claims extra (token_headers s key key_type jwt_type) ≡ ok (t, h)
      → (s.headers_get (str "kid") h ≡ some (text (s.key_id key)))
        × (s.headers_get (str "typ") h ≡ some (text key_type))
  unfolding lookup ◌==◌
  unsigned_token-headers key key_type jwt_type claims extra t h e =
      let (_, _, _, made) =
        unsigned_token-parts s claims extra (token_headers s key key_type jwt_type) t h e in
      let later : List (Str × Value) = (str "jwt_typ", text jwt_type) ∷ [] in
      (
        set_all-written headers_set (s.headers_get (str "kid")) (str "kid")
            (v.header_kept (str "kid")) (some (text (s.key_id key))) (text (s.key_id key))
            (λ h1 h2. v.header_set (str "kid") (s.key_id key) h1 h2 (inl refl)) []
            ((str "typ", text key_type) ∷ later) s.new_headers h refl made,
        set_all-written headers_set (s.headers_get (str "typ")) (str "typ")
            (v.header_kept (str "typ")) (some (text key_type)) (text key_type)
            (λ h1 h2. v.header_set (str "typ") key_type h1 h2 (inr (inl refl)))
            ((str "kid", text (s.key_id key)) ∷ []) later s.new_headers h refl made,
      )
