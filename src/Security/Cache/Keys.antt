-- ===== src/Security/Cache/Keys.antt =====
-- A `SecretCache` has an access time for each entry and for nothing else, and keeps to its size.
use pywatt_sdk.Prelude.{
  ℕ, ◌≤◌, ◌<◌, max, ◌≡◌, refl, sym, ◌∙◌, String, Bool, true, false, [], ◌∷◌, Option, none, some,
  arith, length, leb, string_eq, ◌==◌, if◌then◌else◌, Bool-cases, Option-cases, inl, inr, ==_refl,
}
use mathlib.Core.Path.{subst}
use pywatt_sdk.Prelude.Dict.{
  Dict, get, put, remove, has, get-put, get-remove, length-put_le, length-remove_le,
}
use pywatt_sdk.Prelude.Dict.Distinct.{Distinct, put-Distinct, remove-Distinct}
use pywatt_sdk.Security.Values.{Heap, is_expired}
use pywatt_sdk.Security.Cache.{
  SecretCache, delete, lookup, least_from, evict_lru, make_room, insert,
}
use pywatt_sdk.Security.Cache.Eviction.{IsLeast, least_from-IsLeast}

module _ (d : Dict String ℕ) where
  pub has-put : (k j : String) (v : ℕ) → has (put d k v) j ≡ (if k == j then true else has d j)
  unfolding has
  has-put k j v = ground (arith, get-put d k j v)

  pub has-remove : (k j : String) → has (remove d k) j ≡ (if k == j then false else has d j)
  unfolding has
  has-remove k j = ground (arith, get-remove d k j)

  pub IsLeast-has : (k : String) → IsLeast d k → has d k ≡ true
  unfolding has
  IsLeast-has k l = ground (arith, l.read)

length-remove-lt :
    (d : Dict String ℕ) (k : String) → has d k ≡ true → length (remove d k) < length d
unfolding remove has get
length-remove-lt [] k h = cc
length-remove-lt ((j, v) ∷ d) k h = ground (arith, length-remove_le d k, length-remove-lt d k)

length-put_present :
    (d : Dict String ℕ) (k : String) (v : ℕ) → has d k ≡ true → length (put d k v) ≡ length d
unfolding put has get
length-put_present [] k v h = cc
length-put_present ((j, w) ∷ d) k v h = ground (arith, length-put_present d k v)

has_none : (d : Dict String ℕ) → ((k : String) → has d k ≡ false) → length d ≡ 0
unfolding has get
has_none [] h = refl
has_none ((j, v) ∷ d) h = ground (arith, h j, ==_refl j)

pub record IsConsistent (c : SecretCache) : Type 0 where
  pub same : (k : String) → has c.entries k ≡ has c.access_times k
  pub distinct : Distinct c.access_times
  pub bounded : length c.entries ≤ max c.max_size 1

some-has : (d : Dict String ℕ) (key : String) (r : ℕ) → get d key ≡ some r → has d key ≡ true
unfolding has
some-has d key r e = ground arith

either_IsConsistent :
    (b : Bool) (r : ℕ) (x y : SecretCache)
    → IsConsistent x
    → IsConsistent y
    → IsConsistent (if◌then◌else◌ {A = Option ℕ × SecretCache} b (none, x) (some r, y)).1
either_IsConsistent true r x y h k = h
either_IsConsistent false r x y h k = k

if_IsConsistent :
    (b : Bool) (x y : SecretCache)
    → IsConsistent x
    → IsConsistent y
    → IsConsistent (if b then x else y)
if_IsConsistent true x y h k = h
if_IsConsistent false x y h k = k

has_empty : (k : String) → has {V = ℕ} [] k ≡ false
unfolding has get
has_empty k = refl

-- The entries evicted: none from an empty cache, else the one that was read least recently.
pub data Evicted (c : SecretCache) : Type 0 where
  kept : c.access_times ≡ [] → evict_lru c ≡ c → Evicted c
  dropped : (key : String) → IsLeast c.access_times key → evict_lru c ≡ delete c key → Evicted c

pub evict_lru-Evicted : (c : SecretCache) → Distinct c.access_times → Evicted c
unfolding evict_lru
evict_lru-Evicted c w = go c.access_times refl
  where
    go : (a : Dict String ℕ) → c.access_times ≡ a → Evicted c
    go [] e = kept e (ground arith)
    go ((k, t) ∷ d) e =
        dropped (least_from k t d) (rw e (least_from-IsLeast k t d (subst Distinct e w)))
          (ground arith)

module _ (c : SecretCache) (v : IsConsistent c) where
  pub delete-IsConsistent : (key : String) → IsConsistent (delete c key)
  unfolding delete
  delete-IsConsistent key = record {
    same =
        λ k. ground (arith, has-remove c.entries key k, has-remove c.access_times key k, v.same k);
    distinct = remove-Distinct c.access_times key v.distinct;
    bounded = omega (arith, length-remove_le c.entries key, v.bounded);
  }

  touch-IsConsistent :
      (key : String) (r later : ℕ)
      → get c.entries key ≡ some r
      → IsConsistent (record c { access_times = put c.access_times key later })
  touch-IsConsistent key r later e = record {
    same = λ k. ground (
      arith,
      has-put c.access_times key k later,
      v.same k,
      some-has c.entries key r e,
      string_eq.beq_iff key k,
    );
    distinct = put-Distinct c.access_times key later v.distinct;
    bounded = v.bounded;
  }

  pub lookup-IsConsistent :
      (h : Heap) (key : String) (now later : ℕ) → IsConsistent (lookup c h key now later).1
  unfolding lookup
  lookup-IsConsistent h key now later = elim (Option-cases (get c.entries key)) [
    | inl e ↦ rw (e, lookup) v
    | inr (r, e) ↦
        rw (e, lookup)
          (either_IsConsistent (is_expired (h.object r) now) r _ _ (delete-IsConsistent key)
            (touch-IsConsistent key r later e))
  ]

  evict_lru-IsConsistent : IsConsistent (evict_lru c)
  evict_lru-IsConsistent = elim (evict_lru-Evicted c v.distinct) [
    | kept e f ↦ subst IsConsistent (sym f) v
    | dropped key l f ↦ subst IsConsistent (sym f) (delete-IsConsistent key)
  ]

  pub make_room-IsConsistent : (key : String) → IsConsistent (make_room c key)
  unfolding make_room
  make_room-IsConsistent key = if_IsConsistent _ _ _ evict_lru-IsConsistent v

  -- A cache with an entry loses the one that was read least recently.
  pub evict_lru-IsLeast :
      1 ≤ length c.entries
      → (key : String) × IsLeast c.access_times key × (evict_lru c ≡ delete c key)
  evict_lru-IsLeast h = elim (evict_lru-Evicted c v.distinct) [
    | kept e f ↦ absurd (omega (arith, has_none c.entries (λ k. v.same k ∙ no_time k e)))
    | dropped key l f ↦ (key, l, f)
  ]
    where
      no_time : (k : String) → c.access_times ≡ [] → has c.access_times k ≡ false
      no_time k e = rw e (has_empty k)

  evict_lru-lt : 1 ≤ length c.entries → length (evict_lru c).entries < length c.entries
  unfolding delete
  evict_lru-lt h =
      let (key, l, f) = evict_lru-IsLeast h in
      rw f (length-remove-lt c.entries key (v.same key ∙ IsLeast-has c.access_times key l))

  evict_lru-le : length (evict_lru c).entries ≤ length c.entries
  unfolding delete
  evict_lru-le = elim (evict_lru-Evicted c v.distinct) [
    | kept e f ↦ rw f (omega arith)
    | dropped key l f ↦ rw f (length-remove_le c.entries key)
  ]

  -- A key that is not in the cache finds room for its entry.
  make_room-lt :
      (key : String)
      → has c.entries key ≡ false
      → length (make_room c key).entries < max c.max_size 1
  unfolding make_room
  make_room-lt key h = rw h (elim (Bool-cases (leb c.max_size (length c.entries))) [
    | inl e ↦ rw e (ground (arith, evict_lru-le, evict_lru-lt, v.bounded))
    | inr e ↦ rw e (ground arith)
  ])

  make_room_present : (key : String) → has c.entries key ≡ true → make_room c key ≡ c
  unfolding make_room
  make_room_present key h = ground arith

  evict_lru_size : (evict_lru c).max_size ≡ c.max_size
  unfolding delete
  evict_lru_size = elim (evict_lru-Evicted c v.distinct) [
    | kept e f ↦ rw f refl
    | dropped key l f ↦ rw f refl
  ]

  make_room_size : (key : String) → (make_room c key).max_size ≡ c.max_size
  unfolding make_room
  make_room_size key = ground (arith, evict_lru_size)

  insert_bounded :
      (key : String) (r : ℕ)
      → length (put (make_room c key).entries key r) ≤ max (make_room c key).max_size 1
  insert_bounded key r = elim (Bool-cases (has c.entries key)) [
    | inl e ↦ rw (make_room_present key e, length-put_present c.entries key r e) v.bounded
    | inr e ↦ omega (
      arith,
      make_room-lt key e,
      make_room_size key,
      length-put_le (make_room c key).entries key r,
    )
  ]

  pub insert-IsConsistent :
      (h : Heap) (key : String) (r now later : ℕ) → IsConsistent (insert c h key r now later).0
  unfolding insert
  insert-IsConsistent h key r now later = record {
    same = λ k. ground (
      arith,
      has-put (make_room c key).entries key k r,
      has-put (make_room c key).access_times key k later,
      w.same k,
    );
    distinct = put-Distinct (make_room c key).access_times key later w.distinct;
    bounded = insert_bounded key r;
  }
    where
      w : IsConsistent (make_room c key)
      w = make_room-IsConsistent key
