-- ===== src/Op/Issued/Claims.antt =====
-- The claims and headers of a token that the provider signs.
use go_oidc_middleware.Prelude.{
  ◌≡◌, refl, ap, ◌∙◌, Option, none, some, List, [], ◌∷◌, arith, inl, inr, Bool-cases, if◌then◌else◌,
}
use go_oidc_middleware.Prelude.Int.{ℤ}
use go_oidc_middleware.Text.{Str, str, is_empty, ◌==◌}
use go_oidc_middleware.Errors.{Result, ok, err, External, Result-cases}
use go_oidc_middleware.Op.Services.{Services}
use go_oidc_middleware.Op.Action.{OpError}
use go_oidc_middleware.Op.Tokens.{
  TestUser, OpTest, lookup, set_all, access_token_claims, token_headers, unsigned_token,
}
use go_oidc_middleware.Op.Issued.{IsJwt}

-- The value of a key after all of a list are set in order.
abbrev pub last_value : {V : Type 0} → Str → List (Str × V) → Option V → Option V
last_value key [] d = d
last_value key ((k, v) ∷ values) d = last_value key values (if key == k then some v else d)

pub set_all-last_value :
    {V T : Type 0} (set : Str → V → T → External T) (get : T → Option V) (key : Str)
    → ((k : Str) (v : V) (t t' : T)
        → set k v t ≡ ok t'
        → get t' ≡ (if key == k then some v else get t))
    → (values : List (Str × V)) (t t' : T) → set_all set values t ≡ ok t'
    → get t' ≡ last_value key values (get t)
unfolding set_all
set_all-last_value set get key law [] t t' h = ground arith
set_all-last_value set get key law ((k, v) ∷ values) t t' h = elim (Result-cases (set k v t)) [
  | inl (t1, done) ↦
      let rest = set_all-last_value set get key law values t1 t' (rw (done, set_all) at h) in
      rest ∙ ap (last_value key values) (law k v t t1 done)
  | inr (e, failed) ↦
      let refused : err (OpError.external e) ≡ ok t' = rw (failed, set_all) at h in absurd (cc)
]

last_value-none :
    {V : Type 0} (key : Str) (values : List (Str × V)) (d : Option V)
    → lookup key values ≡ none
    → last_value key values d ≡ d
unfolding lookup
last_value-none key [] d h = refl
last_value-none key ((k, v) ∷ values) d h = ground (arith, last_value-none key values d)

ok-pair :
    {A B : Type 0} {a a' : A} {b b' : B}
    → Path (Result OpError (A × B)) (ok (a, b)) (ok (a', b'))
    → (a ≡ a') × (b ≡ b')
ok-pair h = (cc, cc)

module _ (s : Services) where
  open s use {Key, Value, Token, Headers, World, token_set, token_get, headers_set, headers_get}

  -- What an unsigned token is made of.
  pub unsigned_token-parts :
      (claims extra headers : List (Str × Value)) (t : Token) (h : Headers)
      → unsigned_token s claims extra headers ≡ ok (t, h)
      → (t1 : Token) × (set_all token_set claims s.new_token ≡ ok t1)
        × (set_all token_set extra t1 ≡ ok t)
        × (set_all headers_set headers s.new_headers ≡ ok h)
  unfolding unsigned_token
  unsigned_token-parts claims extra headers t h e =
      elim (Result-cases (set_all token_set claims s.new_token)) [
        | inr (x, failed) ↦
            let refused : err x ≡ ok (t, h) = rw (failed, unsigned_token) at e in absurd (cc)
        | inl (t1, first) ↦
            let e1 = rw (first, unsigned_token) at e in
            elim (Result-cases (set_all token_set extra t1)) [
              | inr (x, failed) ↦
                  let refused : err x ≡ ok (t, h) = rw (failed, unsigned_token) at e1 in absurd (cc)
              | inl (t2, second) ↦
                  let e2 = rw (second, unsigned_token) at e1 in
                  elim (Result-cases (set_all headers_set headers s.new_headers)) [
                    | inr (x, failed) ↦
                        let refused : err x ≡ ok (t, h) = rw (failed, unsigned_token) at e2 in
                        absurd (cc)
                    | inl (h1, third) ↦
                        let same : ok (t2, h1) ≡ ok (t, h) = rw (third, unsigned_token) at e2 in
                        let pair = ok-pair same in
                        (t1, first, second ∙ ap ok pair.0, third ∙ ap ok pair.1)
                  ]
            ]
      ]

  module _ (j : IsJwt s) (op : OpTest s) (id : Str) (user : TestUser s) (nonce : Str)
      (time : ℤ) where
    access_token_claims-id :
        (d : Option Value)
        → last_value (str "id") (access_token_claims s op id user nonce time) d ≡ some (s.text id)
    unfolding ◌==◌
    access_token_claims-id d = elim (Bool-cases (is_empty nonce)) [
      | inl without ↦ rw without refl
      | inr with_it ↦ rw with_it refl
    ]

    -- A token with the claims of an access token has the identifier of its user, unless the extra
    -- claims of the user name another.
    pub unsigned_token-id :
        (headers : List (Str × Value)) (t : Token) (h : Headers)
        → lookup (str "id") user.extra_access_token_claims ≡ none
        → unsigned_token s
            (access_token_claims s op id user nonce time)
            user.extra_access_token_claims
            headers
          ≡ ok (t, h)
        → token_get (str "id") t ≡ some (s.text id)
    unsigned_token-id headers t h free e =
        let (t1, first, then_extra, _) =
          unsigned_token-parts (access_token_claims s op id user nonce time)
            user.extra_access_token_claims headers t h e in
        set_all-last_value token_set (token_get (str "id")) (str "id") j.token_get_id
          user.extra_access_token_claims t1 t then_extra
        ∙ last_value-none (str "id") user.extra_access_token_claims (token_get (str "id") t1) free
        ∙ set_all-last_value token_set (token_get (str "id")) (str "id") j.token_get_id
            (access_token_claims s op id user nonce time) s.new_token t1 first
        ∙ access_token_claims-id (token_get (str "id") s.new_token)

  -- The headers of a token name its kind.
  pub unsigned_token-jwt_typ :
      IsJwt s
      → (claims extra : List (Str × Value)) (key : Key) (key_type jwt_type : Str) (t : Token)
        (h : Headers)
      → unsigned_token s claims extra (token_headers s key key_type jwt_type) ≡ ok (t, h)
      → headers_get (str "jwt_typ") h ≡ some (s.text jwt_type)
  unfolding ◌==◌
  unsigned_token-jwt_typ j claims extra key key_type jwt_type t h e =
      let (_, _, _, made) =
        unsigned_token-parts claims extra (token_headers s key key_type jwt_type) t h e in
      set_all-last_value headers_set (headers_get (str "jwt_typ")) (str "jwt_typ")
        j.headers_get_jwt_typ (token_headers s key key_type jwt_type) s.new_headers h made

  -- The headers of a token name its key.
  pub unsigned_token-kid :
      IsJwt s
      → (claims extra : List (Str × Value)) (key : Key) (key_type jwt_type : Str) (t : Token)
        (h : Headers)
      → unsigned_token s claims extra (token_headers s key key_type jwt_type) ≡ ok (t, h)
      → headers_get (str "kid") h ≡ some (s.text (s.key_id key))
  unfolding ◌==◌
  unsigned_token-kid j claims extra key key_type jwt_type t h e =
      let (_, _, _, made) =
        unsigned_token-parts claims extra (token_headers s key key_type jwt_type) t h e in
      set_all-last_value headers_set (headers_get (str "kid")) (str "kid") j.headers_get_kid
        (token_headers s key key_type jwt_type) s.new_headers h made
