-- ===== src/Cache/Service.antt =====
-- The default methods of `CacheService` in data/cache.py, on the in-memory cache. Each reading of the
-- clock is an argument, in order. UTF-8 and the decimal notation of integers are parameters: `none`
-- is a `UnicodeDecodeError` or a `ValueError`.
pub mod Locks
mod Tests
use Prim.Native.String.{◌++◌}
use pywatt_sdk.Prelude.{
  ℕ, suc, Eq, ◌≡◌, String, Bool, true, false, List, [], ◌∷◌, Option, none, some, string_eq, ◌==◌,
  if◌then◌else◌,
}
use pywatt_sdk.Prelude.Dict.{Dict, put}
use pywatt_sdk.Cache.{Bytes, InMemoryCache, get_value, set_value, delete, flush}

pub record Codec : Type 1 where
  pub encode : String → Bytes
  pub decode : Bytes → Option String
  pub Number : Type 0
  pub zero_number : Number
  pub plus : Number → Number → Number
  pub negate : Number → Number
  pub print : Number → Bytes
  pub parse : Bytes → Option Number

-- A result or an error, `OperationError` or `GetError`.
pub data Reply (A : Type 0) : Type 0 where
  ok : A → Reply A
  failed : Reply A

abbrev pub is_some : Option Bytes → Bool
is_some none = false
is_some (some _) = true

pub exists : InMemoryCache → String → ℕ → Bool × InMemoryCache
exists c key now = let (r, c') = get_value c key now in (is_some r, c')

pub set_nx : InMemoryCache → String → Bytes → Option ℕ → ℕ → ℕ → Bool × InMemoryCache
unfolding exists
set_nx c key value ttl t₁ t₂ =
    let (present, c') = exists c key t₁ in
    if present then (false, c') else (true, set_value c' key value ttl t₂)

pub get_set : InMemoryCache → String → Bytes → ℕ → ℕ → Option Bytes × InMemoryCache
get_set c key value t₁ t₂ =
    let (old, c') = get_value c key t₁ in (old, set_value c' key value none t₂)

-- Each item with the reading of its `set`.
pub set_many : InMemoryCache → List (String × Bytes × ℕ) → Option ℕ → InMemoryCache
set_many c [] ttl = c
set_many c ((key, value, now) ∷ items) ttl = set_many (set_value c key value ttl now) items ttl

abbrev collect : Dict String Bytes → String → Option Bytes → Dict String Bytes
collect d key none = d
collect d key (some value) = put d key value

-- The loop of `get_many`, with the dictionary built so far.
get_many_from :
    Dict String Bytes → InMemoryCache → List (String × ℕ) → Dict String Bytes × InMemoryCache
get_many_from d c [] = (d, c)
get_many_from d c ((key, now) ∷ keys) =
    get_many_from (collect d key (get_value c key now).0) (get_value c key now).1 keys

pub get_many : InMemoryCache → List (String × ℕ) → Dict String Bytes × InMemoryCache
unfolding get_many_from
get_many c keys = get_many_from [] c keys

delete_many_from : ℕ → InMemoryCache → List String → ℕ × InMemoryCache
delete_many_from n c [] = (n, c)
delete_many_from n c (key ∷ keys) =
    delete_many_from (if (delete c key).0 then suc n else n) (delete c key).1 keys

pub delete_many : InMemoryCache → List String → ℕ × InMemoryCache
unfolding delete_many_from
delete_many c keys = delete_many_from 0 c keys

pub clear : InMemoryCache → Option String → Reply (Unit {0}) × InMemoryCache
clear c none = (ok tt, flush c)
clear c (some namespace) = (failed, c)

abbrev pub lock_key : String → String
lock_key key = ◌++◌ "lock:" key

module _ (u : Codec) where
  current : Option Bytes → Option u.Number
  current none = some u.zero_number
  current (some bytes) = u.parse bytes

  pub increment : InMemoryCache → String → u.Number → ℕ → ℕ → Reply u.Number × InMemoryCache
  unfolding current
  increment c key delta t₁ t₂ =
      let (bytes, c') = get_value c key t₁ in
      elim (current bytes) [
        | none ↦ (failed, c')
        | some n ↦ (ok (u.plus n delta), set_value c' key (u.print (u.plus n delta)) none t₂)
      ]

  pub decrement : InMemoryCache → String → u.Number → ℕ → ℕ → Reply u.Number × InMemoryCache
  unfolding increment
  decrement c key delta t₁ t₂ = increment c key (u.negate delta) t₁ t₂

  -- The token is a fresh UUID. `none` where the lock is held.
  pub lock : InMemoryCache → String → String → ℕ → ℕ → ℕ → Option String × InMemoryCache
  unfolding set_nx
  lock c key token ttl t₁ t₂ =
      let (taken, c') = set_nx c (lock_key key) (u.encode token) (some ttl) t₁ t₂ in
      (if taken then some token else none, c')

  release : InMemoryCache → String → String → Option Bytes → Bool × InMemoryCache
  release c key token none = (false, c)
  release c key token (some bytes) = elim (u.decode bytes) [
    | none ↦ (false, c)
    | some held ↦ if held == token then (true, (delete c key).1) else (false, c)
  ]

  pub unlock : InMemoryCache → String → String → ℕ → Bool × InMemoryCache
  unfolding release
  unlock c key token now =
      let (bytes, c') = get_value c (lock_key key) now in release c' (lock_key key) token bytes

  pub get_string : InMemoryCache → String → ℕ → Reply (Option String) × InMemoryCache
  get_string c key now =
      let (bytes, c') = get_value c key now in
      elim bytes [
        | none ↦ (ok none, c')
        | some b ↦ elim (u.decode b) [ none ↦ (failed, c') | some s ↦ (ok (some s), c') ]
      ]

  pub set_string : InMemoryCache → String → String → Option ℕ → ℕ → InMemoryCache
  set_string c key value ttl now = set_value c key (u.encode value) ttl now
