-- ===== src/Security/Cache.antt =====
-- `SecretCache` of security/secrets.py. The cache holds references into the heap.
pub mod Keys
pub mod Eviction
pub mod Runs
pub mod Recency
mod Tests
use pywatt_sdk.Prelude.{
  ℕ, ◌+◌, String, Bool, ◌&&◌, not, List, [], ◌∷◌, Option, none, some, length, ltb, leb, string_eq,
  ◌==◌, if◌then◌else◌,
}
use pywatt_sdk.Prelude.Dict.{Dict, get, put, remove, has}
use pywatt_sdk.Security.Values.{Heap, SecretValue, is_expired, write}

pub record SecretCache : Type 0 where
  pub max_size : ℕ
  pub default_ttl : ℕ
  pub entries : Dict String ℕ
  pub access_times : Dict String ℕ

abbrev pub new : ℕ → ℕ → SecretCache
new max_size ttl = record {
  max_size = max_size;
  default_ttl = ttl;
  entries = [];
  access_times = [];
}

unfoldable pub delete : SecretCache → String → SecretCache
delete c key = record c { entries = remove c.entries key; access_times = remove c.access_times key }

unfoldable pub clear_all : SecretCache → SecretCache
clear_all c = record c { entries = []; access_times = [] }

-- `get`: `now` is read for the expiry, `later` for the access.
unfoldable pub lookup : SecretCache → Heap → String → ℕ → ℕ → Option ℕ × SecretCache
unfolding delete
lookup c h key now later = elim (get c.entries key) [
  | none ↦ (none, c)
  | some r ↦
      if is_expired (h.object r) now
      then (none, delete c key)
      else (some r, record c { access_times = put c.access_times key later })
]

-- `min(d, key=d.get)`: the first key with the least time.
unfoldable pub least_from : String → ℕ → Dict String ℕ → String
least_from k t [] = k
least_from k t ((j, u) ∷ d) = if ltb u t then least_from j u d else least_from k t d

unfoldable pub evict_lru : SecretCache → SecretCache
unfolding least_from delete
evict_lru c = elim c.access_times [ [] ↦ c | (k, t) ∷ d ↦ delete c (least_from k t d) ]

-- `if secret.expires_at is None`: the object that the caller holds is changed.
unfoldable pub expire : SecretCache → Heap → ℕ → ℕ → Heap
expire c h r now = elim (h.object r).expires_at [
  | none ↦ write h r (record (h.object r) { expires_at = some (now + c.default_ttl) })
  | some _ ↦ h
]

unfoldable pub make_room : SecretCache → String → SecretCache
unfolding evict_lru
make_room c key =
    if leb c.max_size (length c.entries) && not (has c.entries key) then evict_lru c else c

-- `set`
unfoldable pub insert : SecretCache → Heap → String → ℕ → ℕ → ℕ → SecretCache × Heap
unfolding make_room expire
insert c h key r now later =
    let c' = make_room c key in
    (
      record c' { entries = put c'.entries key r; access_times = put c'.access_times key later },
      expire c h r now,
    )
