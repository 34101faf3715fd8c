-- ===== src/Cache/Eviction.antt =====
-- What `_evict_if_needed` removes. A dictionary holds each key once, in the order of first insertion.
use pywatt_sdk.Prelude.{
  ℕ, zero, suc, ◌/◌, ◌<◌, ◌≡◌, refl, ap, ◌∙◌, String, true, [], ◌∷◌, Option, none, some, arith,
  string_eq, take, drop, length,
}
use pywatt_sdk.Prelude.Dict.{Dict, get, has, keys}
use pywatt_sdk.Prelude.Dict.Distinct.{Distinct, put-Distinct, remove_head, get-drop}
use pywatt_sdk.Cache.{
  Bytes, CachePolicy, fifo, Entry, InMemoryCache, size_of, set_value, stored, evict,
  evict_if_needed, remove_keys,
}
use pywatt_sdk.Cache.Contents.{live, shown}

-- Removing the first keys one by one drops the first entries.
remove_keys-take :
    (n : ℕ) (d : Dict String Entry) → Distinct d → remove_keys d (take n (keys d)) ≡ drop n d
unfolding remove_keys
remove_keys-take zero d h = refl
remove_keys-take (suc n) [] h = refl
remove_keys-take (suc n) ((k, e) ∷ d) h = rw (remove_head k e d h.0) (remove_keys-take n d h.1)

evict-drop :
    (p : CachePolicy) (d : Dict String Entry) → Distinct d → evict p d ≡ drop (length d / 4) d
unfolding evict
evict-drop fifo d h = remove_keys-take (length d / 4) d h
evict-drop _ d h = remove_keys-take (length d / 4) d h

quarter_few : (d : Dict String Entry) → length d < 4 → length d / 4 ≡ 0
quarter_few d h = omega arith

evict_few : (p : CachePolicy) (d : Dict String Entry) → length d < 4 → evict p d ≡ d
unfolding evict remove_keys
evict_few fifo d h = rw (quarter_few d h)
evict_few _ d h = rw (quarter_few d h)

over_limit :
    (c : InMemoryCache) (limit : ℕ)
    → Distinct c.entries
    → c.config.max_size_bytes ≡ some limit
    → limit < size_of c.entries
    → (evict_if_needed c).entries ≡ drop (length c.entries / 4) c.entries
unfolding evict_if_needed
over_limit c limit d m h = ground (arith, evict-drop c.config.policy c.entries d)

few_entries : (c : InMemoryCache) → length c.entries < 4 → (evict_if_needed c).entries ≡ c.entries
unfolding evict_if_needed
few_entries c h = ground (arith, evict_few c.config.policy c.entries h)

set_value_lem :
    (c : InMemoryCache) (k : String) (value : Bytes) (ttl : Option ℕ) (now : ℕ)
    → set_value c k value ttl now ≡ evict_if_needed (stored c k value ttl now)
unfolding set_value
set_value_lem c k value ttl now = refl

stored-Distinct :
    (c : InMemoryCache) (k : String) (value : Bytes) (ttl : Option ℕ) (now : ℕ)
    → Distinct c.entries
    → Distinct (stored c k value ttl now).entries
unfolding stored
stored-Distinct c k value ttl now d = put-Distinct c.entries k _ d

-- When an assignment takes a cache that holds each key once over its limit, the oldest quarter of the entries, by first
-- insertion, is dropped, under every policy, and the others stay in their order.
pub set_value_evicts :
    (c : InMemoryCache) (k : String) (value : Bytes) (ttl : Option ℕ) (now limit : ℕ)
    → Distinct c.entries
    → c.config.max_size_bytes ≡ some limit
    → limit < size_of (stored c k value ttl now).entries
    → (set_value c k value ttl now).entries
      ≡ drop (length (stored c k value ttl now).entries / 4) (stored c k value ttl now).entries
unfolding stored
set_value_evicts c k value ttl now limit d m h =
    rw set_value_lem
      (over_limit (stored c k value ttl now) limit (stored-Distinct c k value ttl now d) m h)

-- With fewer than four entries nothing is dropped, however far the cache is over its limit.
pub set_value_over_limit :
    (c : InMemoryCache) (k : String) (value : Bytes) (ttl : Option ℕ) (now : ℕ)
    → length (stored c k value ttl now).entries < 4
    → (set_value c k value ttl now).entries ≡ (stored c k value ttl now).entries
set_value_over_limit c k value ttl now h =
    rw set_value_lem (few_entries (stored c k value ttl now) h)

-- In a cache that holds each key once, an assignment that takes it over its limit, to a key that is
-- among the oldest quarter of the entries, evicts the value that it has just stored.
pub set_value_lost :
    (c : InMemoryCache) (k : String) (value : Bytes) (ttl : Option ℕ) (now limit later : ℕ)
    → Distinct c.entries
    → c.config.max_size_bytes ≡ some limit
    → limit < size_of (stored c k value ttl now).entries
    → has
        (take (length (stored c k value ttl now).entries / 4) (stored c k value ttl now).entries)
        k
      ≡ true
    → live (set_value c k value ttl now) k later ≡ none
set_value_lost c k value ttl now limit later d m h t =
    let s = stored c k value ttl now in
    ap (λ x. shown (get x k) later) (set_value_evicts c k value ttl now limit d m h)
    ∙ ap (λ o. shown o later)
        (get-drop (length s.entries / 4) s.entries k (stored-Distinct c k value ttl now d) t)
