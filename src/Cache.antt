-- ===== src/Cache.antt =====
-- data/cache.py: the in-memory cache. Keys are texts and values are bytes. Times and times to live are
-- whole numbers of one unit, and a negative time to live, which sets no expiry, is 0.
pub mod Service
pub mod Contents
pub mod Eviction
pub mod Counters
mod Tests
use Prim.Native.String.{len}
use pywatt_sdk.Prelude.{
  ℕ, suc, ◌+◌, ◌/◌, String, Bool, true, false, List, [], ◌∷◌, Option, none, some, length, take, ltb,
  leb, if◌then◌else◌, string_eq,
}
use pywatt_sdk.Prelude.Dict.{Dict, get, put, remove, has, keys}

pub data CacheType : Type 0 where
  in_memory redis memcached file : CacheType

pub data CachePolicy : Type 0 where
  lru fifo mru lfu no_eviction : CachePolicy

abbrev pub Bytes : Type 0
Bytes = List ℕ

-- `additional_metrics` is never written by this cache, and is left out.
pub record CacheStats : Type 0 where
  pub hits : Option ℕ
  pub misses : Option ℕ
  pub sets : Option ℕ
  pub deletes : Option ℕ
  pub item_count : Option ℕ
  pub memory_used_bytes : Option ℕ

-- The fields that the in-memory cache reads.
pub record CacheConfig : Type 0 where
  pub cache_type : CacheType
  pub policy : CachePolicy
  pub max_size_bytes : Option ℕ
  pub default_ttl : ℕ

pub record Entry : Type 0 where
  pub value : Bytes
  pub expiry_time : Option ℕ

pub record InMemoryCache : Type 0 where
  pub config : CacheConfig
  pub entries : Dict String Entry
  pub counters : CacheStats

-- `(n or 0) + 1`
abbrev pub bump : Option ℕ → Option ℕ
bump none = some 1
bump (some n) = some (n + 1)

pub new : CacheConfig → InMemoryCache
new c = record {
  config = c;
  entries = [];
  counters = record {
    hits = some 0;
    misses = some 0;
    sets = some 0;
    deletes = some 0;
    item_count = none;
    memory_used_bytes = none;
  };
}

abbrev pub hit : InMemoryCache → InMemoryCache
hit c = record c { counters = record c.counters { hits = bump c.counters.hits } }

abbrev pub miss : InMemoryCache → InMemoryCache
miss c = record c { counters = record c.counters { misses = bump c.counters.misses } }

-- `expiry_time is not None and time.time() > expiry_time`
abbrev pub expired : Entry → ℕ → Bool
expired e now = elim e.expiry_time [ none ↦ false | some t ↦ ltb t now ]

unfoldable pub get_value : InMemoryCache → String → ℕ → Option Bytes × InMemoryCache
get_value c key now = elim (get c.entries key) [
  | none ↦ (none, miss c)
  | some e ↦
      if expired e now
      then (none, miss (record c { entries = remove c.entries key }))
      else (some e.value, hit c)
]

-- The keys' bytes and the values' bytes together.
abbrev pub size_of : Dict String Entry → ℕ
size_of [] = 0
size_of ((k, e) ∷ d) = len k + length e.value + size_of d

-- `for key in keys_to_remove: if key in self._cache: del self._cache[key]`
unfoldable pub remove_keys : Dict String Entry → List String → Dict String Entry
remove_keys d [] = d
remove_keys d (k ∷ ks) = remove_keys (remove d k) ks

oldest_quarter : Dict String Entry → List String
oldest_quarter d = take (length d / 4) (keys d)

-- Each policy removes the oldest quarter.
evict : CachePolicy → Dict String Entry → Dict String Entry
unfolding oldest_quarter
evict fifo d = remove_keys d (oldest_quarter d)
evict lru d = remove_keys d (oldest_quarter d)
evict _ d = remove_keys d (oldest_quarter d)

unfoldable pub evict_if_needed : InMemoryCache → InMemoryCache
unfolding evict
evict_if_needed c = elim c.config.max_size_bytes [
  | none ↦ c
  | some limit ↦
      if leb (size_of c.entries) limit
      then c
      else record c { entries = evict c.config.policy c.entries }
]

abbrev pub expiry : ℕ → ℕ → Option ℕ
expiry ttl now = if ltb 0 ttl then some (now + ttl) else none

abbrev pub ttl_or : Option ℕ → ℕ → ℕ
ttl_or none d = d
ttl_or (some t) d = t

-- The cache with the new entry, before the eviction.
unfoldable pub stored : InMemoryCache → String → Bytes → Option ℕ → ℕ → InMemoryCache
stored c key value ttl now = record c {
  entries =
      put c.entries key
        (record { value = value; expiry_time = expiry (ttl_or ttl c.config.default_ttl) now });
  counters = record c.counters { sets = bump c.counters.sets };
}

unfoldable pub set_value : InMemoryCache → String → Bytes → Option ℕ → ℕ → InMemoryCache
unfolding stored evict_if_needed
set_value c key value ttl now = evict_if_needed (stored c key value ttl now)

unfoldable pub delete : InMemoryCache → String → Bool × InMemoryCache
delete c key =
    if has c.entries key
    then (
      true,
      record c {
        entries = remove c.entries key;
        counters = record c.counters { deletes = bump c.counters.deletes };
      },
    )
    else (false, c)

unfoldable pub flush : InMemoryCache → InMemoryCache
flush c = record c { entries = [] }

unfoldable pub stats : InMemoryCache → CacheStats × InMemoryCache
stats c =
    let s = record c.counters {
      item_count = some (length c.entries);
      memory_used_bytes = some (size_of c.entries);
    } in
    (s, record c { counters = s })
