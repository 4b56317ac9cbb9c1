-- ===== src/KeyHandler.antt =====
-- internal/oidc/keyhandler.go: the key set of a provider, its updates, and the search for a key.
-- One request runs at a time here, and what another one sends comes from the platform; Updates
-- interleaves several requests.
pub mod Find
pub mod Fetch
pub mod Serve
pub mod Updates
use go_oidc_middleware.Prelude.{
  ℕ, zero, suc, ◌+◌, ◌-◌, Bool, true, false, not, ◌&&◌, ◌||◌, Option, none, some, nat_eq,
  if◌then◌else◌,
}
use go_oidc_middleware.Prelude.Int.{ℤ}
use go_oidc_middleware.Text.{Str, is_empty, ◌==◌}
use go_oidc_middleware.Errors.{
  Error, external, unable_to_fetch_keys, key_set_not_single, no_key_found, unable_to_update_key_set,
  unable_to_find_key, nil_dereference, Result, ok, err, from_external, map_err, Exec, ◌>>=◌, pure,
  lift, wrap,
}
use go_oidc_middleware.Platform.{Platform}

module _ (p : Platform) where
  open p use {
    Key, KeySet, World, HttpClient, Limiter, key_id, key_algorithm, set_len, set_get, jwk_fetch,
    limiter_new, limiter_take, receive_key_update,
  }

  -- The mutex serialises the accesses to `key_set` and is left out. The semaphore is the number of
  -- units taken, of 1; the channel is the platform's.
  pub record KeyHandler : Type 0 where
    pub jwks_uri : Str
    pub disable_key_id : Bool
    pub key_set : Option KeySet
    pub fetch_timeout : ℤ
    pub key_update_semaphore : ℕ
    pub key_update_count : ℕ
    pub key_update_limiter : Limiter
    pub http_client : HttpClient

  abbrev pub State : Type 0
  State = KeyHandler × World

  -- What `updateKeySet` makes of the answer of `jwk.Fetch`.
  unfoldable pub checked_key_set : KeyHandler → Result Str KeySet → Result Error KeySet
  checked_key_set h (err text) = err (unable_to_fetch_keys h.jwks_uri (external text))
  checked_key_set h (ok key_set) =
      if h.disable_key_id && not (nat_eq (set_len key_set) 1)
      then err (key_set_not_single (set_len key_set))
      else ok key_set

  -- The assignments under the lock, made for a key set that is accepted.
  unfoldable pub store_key_set : KeyHandler → Result Error KeySet → KeyHandler
  store_key_set h (err e) = h
  store_key_set h (ok key_set) = record h {
    key_set = some key_set;
    key_update_count = h.key_update_count + 1;
  }

  unfoldable pub update_key_set : Exec State KeySet
  update_key_set (h, w) =
      let (fetched, w') = jwk_fetch h.http_client h.jwks_uri h.fetch_timeout w in
      let result = checked_key_set h fetched in (result, (store_key_set h result, w'))

  -- `return nil, err` or `return h, nil`
  abbrev pub made_from : Result Error KeySet → State → Result Error KeyHandler × World
  made_from (ok _) (h, w) = (ok h, w)
  made_from (err e) (h, w) = (err e, w)

  unfoldable pub new_key_handler :
      HttpClient → Str → ℤ → ℕ → Bool → World → Result Error KeyHandler × World
  new_key_handler http_client jwks_uri fetch_timeout key_update_rps disable_key_id w =
      let (limiter, w1) = limiter_new key_update_rps w in
      let h : KeyHandler = record {
        jwks_uri = jwks_uri;
        disable_key_id = disable_key_id;
        key_set = none;
        fetch_timeout = fetch_timeout;
        key_update_semaphore = 0;
        key_update_count = 0;
        key_update_limiter = limiter;
        http_client = http_client;
      } in
      let (result, s) = update_key_set (h, w1) in made_from result s

  -- TryAcquire(1) on a semaphore of weight 1
  unfoldable pub try_acquire : KeyHandler → Option KeyHandler
  try_acquire h =
      if nat_eq h.key_update_semaphore 0 then some (record h { key_update_semaphore = 1 }) else none

  unfoldable pub release : KeyHandler → KeyHandler
  release h = record h { key_update_semaphore = h.key_update_semaphore - 1 }

  -- The goroutine that serves waiting requests finds none when one request runs at a time.
  unfoldable pub wait_for_update_key_set_and_get_key_set : Exec State KeySet
  wait_for_update_key_set_and_get_key_set (h, w) = elim (try_acquire h) [
    | some h' ↦
        let (result, (h'', w')) = update_key_set (h', limiter_take h'.key_update_limiter w) in
        (result, (release h'', w'))
    | none ↦ let (result, w') = receive_key_update w in (result, (h, w'))
  ]

  abbrev pub first_key : KeySet → Result Error Key
  first_key key_set = elim (set_get key_set 0) [ none ↦ err no_key_found | some key ↦ ok key ]

  unfoldable pub wait_for_update_key_set_and_get_key : Exec State Key
  wait_for_update_key_set_and_get_key = do
    key_set ← wait_for_update_key_set_and_get_key_set
    lift (first_key key_set)

  -- The tests of one round of `findKey`, on a key that is there.
  unfoldable pub key_fits : Str → Str → Key → Bool
  key_fits key_id' token_algorithm key =
      key_id key == key_id'
      && (is_empty (key_algorithm key) || key_algorithm key == token_algorithm)

  -- The loop of `findKey`, with the rounds that are left; it reads the indices from `i` on.
  unfoldable pub find_key_from : ℕ → ℕ → KeySet → Str → Str → Result Error Key
  find_key_from zero i key_set key_id' token_algorithm = err (unable_to_find_key key_id')
  find_key_from (suc rounds) i key_set key_id' token_algorithm =
      let rest = find_key_from rounds (suc i) key_set key_id' token_algorithm in
      elim (set_get key_set i) [
        | none ↦ rest
        | some key ↦ if key_fits key_id' token_algorithm key then ok key else rest
      ]

  unfoldable pub find_key : KeySet → Str → Str → Result Error Key
  find_key key_set key_id' token_algorithm =
      find_key_from (set_len key_set) 0 key_set key_id' token_algorithm

  -- A method call on a nil key set panics.
  abbrev pub on_key_set : {A : Type 0} → Option KeySet → (KeySet → Result Error A) → Result Error A
  on_key_set none f = err nil_dereference
  on_key_set (some key_set) f = f key_set

  unfoldable pub get_key_without_key_id : Exec State Key
  get_key_without_key_id (h, w) = (on_key_set h.key_set first_key, (h, w))

  -- `getKeyFromID` after a search that found nothing
  unfoldable pub update_and_find_key : Str → Str → Exec State Key
  update_and_find_key key_id' token_algorithm = do
    updated_key_set ←
        wrap (unable_to_update_key_set key_id') wait_for_update_key_set_and_get_key_set
    lift (find_key updated_key_set key_id' token_algorithm)

  unfoldable pub get_key_from_id : Str → Str → Exec State Key
  get_key_from_id key_id' token_algorithm (h, w) = elim h.key_set [
    | none ↦ (err nil_dereference, (h, w))
    | some key_set ↦ elim (find_key key_set key_id' token_algorithm) [
      | ok key ↦ (ok key, (h, w))
      | err _ ↦ update_and_find_key key_id' token_algorithm (h, w)
    ]
  ]

  unfoldable pub get_key : Str → Str → Exec State Key
  get_key key_id' token_algorithm (h, w) =
      if h.disable_key_id
      then get_key_without_key_id (h, w)
      else get_key_from_id key_id' token_algorithm (h, w)
