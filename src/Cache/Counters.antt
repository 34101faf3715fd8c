-- ===== src/Cache/Counters.antt =====
-- The counters of an `InMemoryCache` over a history of calls.
use pywatt_sdk.Prelude.{
  ℕ, suc, ◌+◌, ◌≡◌, refl, String, List, [], ◌∷◌, Option, none, some, arith, string_eq,
}
use pywatt_sdk.Prelude.Dict.{Dict, remove}
use pywatt_sdk.Prelude.Dict.Distinct.{Distinct, put-Distinct, remove-Distinct}
use pywatt_sdk.Cache.{
  Bytes, CacheConfig, CachePolicy, fifo, Entry, InMemoryCache, new, get_value, set_value, delete,
  flush, stats, stored, evict, evict_if_needed, remove_keys, oldest_quarter,
}

pub data Call : Type 0 where
  gets : String → ℕ → Call
  sets : String → Bytes → Option ℕ → ℕ → Call
  deletes : String → Call
  flushes : Call
  reports : Call

pub step : InMemoryCache → Call → InMemoryCache
step c (gets k now) = (get_value c k now).1
step c (sets k v ttl now) = set_value c k v ttl now
step c (deletes k) = (delete c k).1
step c flushes = flush c
step c reports = (stats c).1

pub run : InMemoryCache → List Call → InMemoryCache
run c [] = c
run c (x ∷ xs) = run (step c x) xs

abbrev pub reads : List Call → ℕ
reads [] = 0
reads (gets k now ∷ xs) = suc (reads xs)
reads (_ ∷ xs) = reads xs

abbrev pub writes : List Call → ℕ
writes [] = 0
writes (sets k v ttl now ∷ xs) = suc (writes xs)
writes (_ ∷ xs) = writes xs

abbrev pub tally : Option ℕ → ℕ
tally none = 0
tally (some n) = n

-- The cache has counted `r` reads and `w` writes, and holds each key once.
pub record Counted (r w : ℕ) (c : InMemoryCache) : Type 0 where
  pub reads_counted : tally c.counters.hits + tally c.counters.misses ≡ r
  pub writes_counted : tally c.counters.sets ≡ w
  pub distinct : Distinct c.entries

remove_keys-Distinct :
    (ks : List String) (d : Dict String Entry) → Distinct d → Distinct (remove_keys d ks)
unfolding remove_keys
remove_keys-Distinct [] d h = h
remove_keys-Distinct (k ∷ ks) d h = remove_keys-Distinct ks (remove d k) (remove-Distinct d k h)

evict-Distinct : (p : CachePolicy) (d : Dict String Entry) → Distinct d → Distinct (evict p d)
unfolding evict
evict-Distinct fifo d h = remove_keys-Distinct (oldest_quarter d) d h
evict-Distinct _ d h = remove_keys-Distinct (oldest_quarter d) d h

evict_if_needed-Counted :
    (r w : ℕ) (c : InMemoryCache) → Counted r w c → Counted r w (evict_if_needed c)
unfolding evict_if_needed
evict_if_needed-Counted r w c h =
    ground (arith, evict-Distinct c.config.policy c.entries h.distinct)

gets-Counted :
    (r w : ℕ) (c : InMemoryCache) (k : String) (now : ℕ)
    → Counted r w c
    → Counted (suc r) w (step c (gets k now))
unfolding step get_value
gets-Counted r w c k now h = ground (arith, remove-Distinct c.entries k h.distinct)

sets-Counted :
    (r w : ℕ) (c : InMemoryCache) (k : String) (v : Bytes) (ttl : Option ℕ) (now : ℕ)
    → Counted r w c
    → Counted r (suc w) (step c (sets k v ttl now))
unfolding step set_value
sets-Counted r w c k v ttl now h =
    evict_if_needed-Counted r (suc w) (stored c k v ttl now) (start r w c k v ttl now h)
  where
    start :
        (r w : ℕ) (c : InMemoryCache) (k : String) (v : Bytes) (ttl : Option ℕ) (now : ℕ)
        → Counted r w c
        → Counted r (suc w) (stored c k v ttl now)
    start r w c k v ttl now h = record {
      reads_counted = h.reads_counted;
      writes_counted = ground arith;
      distinct = put-Distinct c.entries k _ h.distinct;
    }

deletes-Counted :
    (r w : ℕ) (c : InMemoryCache) (k : String) → Counted r w c → Counted r w (step c (deletes k))
unfolding step delete
deletes-Counted r w c k h = ground (arith, remove-Distinct c.entries k h.distinct)

flushes-Counted : (r w : ℕ) (c : InMemoryCache) → Counted r w c → Counted r w (step c flushes)
unfolding step flush
flushes-Counted r w c h = record {
  reads_counted = h.reads_counted;
  writes_counted = h.writes_counted;
  distinct = tt;
}

reports-Counted : (r w : ℕ) (c : InMemoryCache) → Counted r w c → Counted r w (step c reports)
unfolding step stats
reports-Counted r w c h = record {
  reads_counted = h.reads_counted;
  writes_counted = h.writes_counted;
  distinct = h.distinct;
}

run-Counted :
    (r w : ℕ) (c : InMemoryCache) (xs : List Call)
    → Counted r w c
    → Counted (r + reads xs) (w + writes xs) (run c xs)
unfolding run
run-Counted r w c [] h = ground arith
run-Counted r w c (gets k now ∷ xs) h =
    ground (arith, run-Counted (suc r) w (step c (gets k now)) xs (gets-Counted r w c k now h))
run-Counted r w c (sets k v ttl now ∷ xs) h =
    ground (
      arith,
      run-Counted r (suc w) (step c (sets k v ttl now)) xs (sets-Counted r w c k v ttl now h),
    )
run-Counted r w c (deletes k ∷ xs) h =
    run-Counted r w (step c (deletes k)) xs (deletes-Counted r w c k h)
run-Counted r w c (flushes ∷ xs) h = run-Counted r w (step c flushes) xs (flushes-Counted r w c h)
run-Counted r w c (reports ∷ xs) h = run-Counted r w (step c reports) xs (reports-Counted r w c h)

new-Counted : (c : CacheConfig) → Counted 0 0 (new c)
unfolding new
new-Counted c = record { reads_counted = refl; writes_counted = refl; distinct = tt }

-- After any history of a new cache, hits and misses together are the reads, sets are the writes, and
-- each key is held once.
pub run-new-Counted :
    (c : CacheConfig) (xs : List Call) → Counted (reads xs) (writes xs) (run (new c) xs)
run-new-Counted c xs =
    let h = run-Counted 0 0 (new c) xs (new-Counted c) in
    record {
      reads_counted = omega (arith, h.reads_counted);
      writes_counted = omega (arith, h.writes_counted);
      distinct = h.distinct;
    }
