-- ===== src/Security/Cache/Recency.antt =====
-- Which entry a full `SecretCache` drops, told from the history of its operations.
use pywatt_sdk.Prelude.{
  ℕ, ◌≤◌, ◌≡◌, ◌⊎◌, ap, ◌∙◌, String, Bool, true, false, List, [], ◌∷◌, Option, none, some, arith,
  length, le→leb, string_eq, ◌==◌, if◌then◌else◌, Option-cases, inl, inr,
}
use pywatt_sdk.Prelude.Dict.{Dict, get, put, remove, has, get-put, get-remove}
use pywatt_sdk.Security.Values.{Heap, is_expired}
use pywatt_sdk.Security.Cache.{
  SecretCache, new, delete, clear_all, lookup, make_room, evict_lru, insert,
}
use pywatt_sdk.Security.Cache.Eviction.{IsLeast}
use pywatt_sdk.Security.Cache.Keys.{
  IsConsistent, kept, dropped, evict_lru-Evicted, evict_lru-IsLeast,
}
use pywatt_sdk.Security.Cache.Runs.{
  Op, looks, inserts, deletes, clears, apply, run, apply-IsConsistent, new-IsConsistent,
  run-new-IsConsistent,
}

-- The time of the last call of `get` or `set` for each key, by the history alone.
abbrev pub use_of : (String → Option ℕ) → Op → String → Option ℕ
use_of f (looks key now later) k = if key == k then some later else f k
use_of f (inserts key r now later) k = if key == k then some later else f k
use_of f (deletes key) k = f k
use_of f clears k = f k

abbrev uses : (String → Option ℕ) → List Op → String → Option ℕ
uses f [] = f
uses f (o ∷ os) = uses (use_of f o) os

abbrev pub last_use : List Op → String → Option ℕ
last_use = uses (λ k. none)

-- The times that a cache keeps are those of the last uses.
abbrev Agrees : (String → Option ℕ) → Dict String ℕ → Type 0
Agrees f d = (k : String) (t : ℕ) → get d k ≡ some t → f k ≡ some t

put-Agrees :
    (f : String → Option ℕ) (d : Dict String ℕ) (key : String) (t : ℕ)
    → Agrees f d
    → Agrees (λ k. if key == k then some t else f k) (put d key t)
put-Agrees f d key t a k u e = ground (arith, get-put d key k t, a k u, e)

remove-Agrees :
    (f : String → Option ℕ) (d : Dict String ℕ) (key : String)
    → Agrees f d
    → Agrees f (remove d key)
remove-Agrees f d key a k u e = ground (arith, get-remove d key k, a k u, e)

-- A use of a key that the cache does not hold.
absent-Agrees :
    (f : String → Option ℕ) (d : Dict String ℕ) (key : String) (t : ℕ)
    → get d key ≡ none
    → Agrees f d
    → Agrees (λ k. if key == k then some t else f k) d
absent-Agrees f d key t n a k u e = ground (arith, string_eq.beq_iff key k, n, a k u, e)

-- A use of a key that the cache drops.
dropped-Agrees :
    (f : String → Option ℕ) (d : Dict String ℕ) (key : String) (t : ℕ)
    → Agrees f d
    → Agrees (λ k. if key == k then some t else f k) (remove d key)
dropped-Agrees f d key t a k u e = ground (arith, get-remove d key k, a k u, e)

either-Agrees :
    (f : String → Option ℕ) (b : Bool) (r : ℕ) (x y : SecretCache)
    → Agrees f x.access_times
    → Agrees f y.access_times
    → Agrees f (if◌then◌else◌ {A = Option ℕ × SecretCache} b (none, x) (some r, y)).1.access_times
either-Agrees f true r x y v w = v
either-Agrees f false r x y v w = w

if-Agrees :
    (f : String → Option ℕ) (b : Bool) (x y : SecretCache)
    → Agrees f x.access_times
    → Agrees f y.access_times
    → Agrees f (if b then x else y).access_times
if-Agrees f true x y v w = v
if-Agrees f false x y v w = w

no_time :
    (c : SecretCache) (key : String)
    → IsConsistent c
    → get c.entries key ≡ none
    → get c.access_times key ≡ none
unfolding has
no_time c key v e = ground (arith, v.same key)

evict_lru-Agrees :
    (f : String → Option ℕ) (c : SecretCache)
    → IsConsistent c
    → Agrees f c.access_times
    → Agrees f (evict_lru c).access_times
unfolding delete
evict_lru-Agrees f c v a = elim (evict_lru-Evicted c v.distinct) [
  | kept e g ↦ rw g a
  | dropped key l g ↦ rw g (remove-Agrees f c.access_times key a)
]

make_room-Agrees :
    (f : String → Option ℕ) (c : SecretCache) (key : String)
    → IsConsistent c
    → Agrees f c.access_times
    → Agrees f (make_room c key).access_times
unfolding make_room
make_room-Agrees f c key v a = if-Agrees f _ _ _ (evict_lru-Agrees f c v a) a

lookup-Agrees :
    (f : String → Option ℕ) (c : SecretCache) (h : Heap) (key : String) (now later : ℕ)
    → IsConsistent c
    → Agrees f c.access_times
    → Agrees (use_of f (looks key now later)) (lookup c h key now later).1.access_times
unfolding lookup delete
lookup-Agrees f c h key now later v a = elim (Option-cases (get c.entries key)) [
  | inl e ↦ rw (e, lookup) (absent-Agrees f c.access_times key later (no_time c key v e) a)
  | inr (r, e) ↦
      rw (e, lookup)
        (either-Agrees _ (is_expired (h.object r) now) r _ _
          (dropped-Agrees f c.access_times key later a) (put-Agrees f c.access_times key later a))
]

apply-Agrees :
    (f : String → Option ℕ) (c : SecretCache) (h : Heap) (o : Op)
    → IsConsistent c
    → Agrees f c.access_times
    → Agrees (use_of f o) (apply (c, h) o).0.access_times
unfolding apply insert delete clear_all get
apply-Agrees f c h (looks key now later) v a = lookup-Agrees f c h key now later v a
apply-Agrees f c h (inserts key r now later) v a =
    put-Agrees f (make_room c key).access_times key later (make_room-Agrees f c key v a)
apply-Agrees f c h (deletes key) v a = remove-Agrees f c.access_times key a
apply-Agrees f c h clears v a = λ k t e. ground (arith, e)

run-Agrees :
    (f : String → Option ℕ) (c : SecretCache) (h : Heap) (os : List Op)
    → IsConsistent c
    → Agrees f c.access_times
    → Agrees (uses f os) (run (c, h) os).0.access_times
unfolding run
run-Agrees f c h [] v a = a
run-Agrees f c h (o ∷ os) v a =
    let s = apply (c, h) o in
    run-Agrees (use_of f o) s.0 s.1 os (apply-IsConsistent c h o v) (apply-Agrees f c h o v a)

-- The key is held, and of the keys that are held it was used least recently.
pub record IsOldest (os : List Op) (entries : Dict String ℕ) (key : String) : Type 0 where
  pub held : has entries key ≡ true
  pub time : ℕ
  pub used : last_use os key ≡ some time
  pub oldest : (j : String) → has entries j ≡ true → (u : ℕ) × (last_use os j ≡ some u) × (time ≤ u)

module _ (max_size ttl : ℕ) (heap : Heap) (os : List Op) where
  agrees : Agrees (last_use os) (run (new max_size ttl, heap) os).0.access_times
  unfolding get
  agrees =
      run-Agrees (λ k. none) (new max_size ttl) heap os (new-IsConsistent max_size ttl)
        (λ k t e. ground (arith, e))

  IsLeast-IsOldest :
      (x : String)
      → let c = (run (new max_size ttl, heap) os).0 in
        IsLeast c.access_times x → IsOldest os c.entries x
  unfolding has
  IsLeast-IsOldest x l =
      let c = (run (new max_size ttl, heap) os).0 in
      let v = run-new-IsConsistent max_size ttl heap os in
      record {
        held = ground (arith, v.same x, l.read);
        time = l.time;
        used = agrees x l.time l.read;
        oldest = λ j h. timed j h (Option-cases (get c.access_times j));
      }
    where
      timed :
          (j : String)
          → has (run (new max_size ttl, heap) os).0.entries j ≡ true
          → (get (run (new max_size ttl, heap) os).0.access_times j ≡ none)
            ⊎ ((u : ℕ) × (get (run (new max_size ttl, heap) os).0.access_times j ≡ some u))
          → (u : ℕ) × (last_use os j ≡ some u) × (l.time ≤ u)
      timed j h (inl e) =
          absurd (ground (arith, h, e, (run-new-IsConsistent max_size ttl heap os).same j))
      timed j h (inr (u, e)) = (u, agrees j u e, l.least j u e)

  -- Storing a new key in a full cache, reached by any operations, drops the entry whose last call of
  -- `get` or `set` is the least recent by the readings of the clock, and no other.
  pub insert_evicts :
      (key : String) (r now later : ℕ) (h : Heap)
      → let c = (run (new max_size ttl, heap) os).0 in
        has c.entries key ≡ false
        → c.max_size ≤ length c.entries
        → 1 ≤ length c.entries
        → (x : String) × IsOldest os c.entries x
          × ((j : String)
              → get (insert c h key r now later).0.entries j
                ≡ (if key == j then some r else if x == j then none else get c.entries j))
  unfolding insert make_room delete
  insert_evicts key r now later h absent full some_entry =
      let c = (run (new max_size ttl, heap) os).0 in
      let (x, l, f) = evict_lru-IsLeast c (run-new-IsConsistent max_size ttl heap os) some_entry in
      (
        x,
        IsLeast-IsOldest x l,
        λ j.
            rw (le→leb c.max_size (length c.entries) full, absent, f)
              (get-put (remove c.entries x) key j r
                ∙ ap (λ o. if key == j then some r else o) (get-remove c.entries x j)),
      )
