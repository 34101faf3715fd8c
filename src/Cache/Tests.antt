-- ===== src/Cache/Tests.antt =====
-- The in-memory cache at concrete inputs.
use pywatt_sdk.Prelude.{ℕ, ◌≡◌, refl, List, [], ◌∷◌, none, some, arith, string_eq}
use pywatt_sdk.Prelude.Dict.{get, put, has}
use pywatt_sdk.Cache.{
  CacheConfig, Entry, InMemoryCache, in_memory, lru, new, get_value, set_value, stored,
}
use pywatt_sdk.Cache.Contents.{live, get_value-set_value}
use pywatt_sdk.Cache.Eviction.{set_value_lost}
use pywatt_sdk.Cache.Counters.{Call, gets, sets, deletes, reports}

abbrev small : CacheConfig
small = record { cache_type = in_memory; policy = lru; max_size_bytes = some 6; default_ttl = 5 }

abbrev entry : ℕ → Entry
entry t = record { value = 7 ∷ []; expiry_time = some t }

abbrev full : InMemoryCache
full = record {
  config = small;
  entries = ("a", entry 9) ∷ ("b", entry 9) ∷ ("c", entry 4) ∷ ("d", entry 9) ∷ [];
  counters = (new small).counters;
}

abbrev two : InMemoryCache
two = record {
  config = small;
  entries = ("a", entry 9) ∷ ("b", entry 4) ∷ [];
  counters = (new small).counters;
}

get_value-set_value_example :
    (get_value (set_value two "a" (1 ∷ 2 ∷ []) none 5) "a" 7).0 ≡ some (1 ∷ 2 ∷ [])
unfolding stored put
get_value-set_value_example = get_value-set_value two "a" "a" (1 ∷ 2 ∷ []) none 5 7 (ground arith)

set_value_lost_example : live (set_value full "a" (1 ∷ []) none 5) "a" 5 ≡ none
unfolding stored put get has
set_value_lost_example =
    set_value_lost full "a" (1 ∷ []) none 5 6 5 (refl, (refl, (refl, (refl, tt)))) refl
      (ground arith) refl

abbrev calls : List Call
calls = sets "a" (1 ∷ []) none 2 ∷ gets "a" 3 ∷ gets "b" 3 ∷ deletes "a" ∷ reports ∷ []
