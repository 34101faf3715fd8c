-- ===== src/Routing/DecisionCache/Size.antt =====
-- The cache of decisions keeps its limit.
use pywatt_sdk.Prelude.{
  ℕ, zero, suc, ◌+◌, ◌-◌, ◌/◌, ◌≤◌, ◌<◌, ◌≡◌, refl, String, true, List, [], ◌∷◌, some, arith,
  length, take, All, leb, leb→le, ltb, ◌==◌, string_eq, ==_refl, Bool-cases, Option-cases, inl, inr,
}
use pywatt_sdk.Prelude.Float.{Float}
use pywatt_sdk.Prelude.Dict.{Dict, get, put, remove, has, keys, length-put_le, length-remove_le}
use pywatt_sdk.Routing.{RoutingCacheEntry, RoutingDecision}
use pywatt_sdk.Routing.DecisionCache.{
  insert_by_age, by_age, remove_all, drop_oldest, store_decision, look_up,
}

module _ {ℓ} {V : Type ℓ} where
  length-remove_lt :
      (d : Dict String V) (k : String) → has d k ≡ true → length (remove d k) < length d
  unfolding has get remove
  length-remove_lt [] k h = ground arith
  length-remove_lt ((j, v) ∷ d) k h = elim (Bool-cases (j == k)) [
    | inl e ↦ rw e (omega (arith, length-remove_le d k))
    | inr e ↦ rw e (ground (arith, length-remove_lt d k))
  ]

abbrev Entries : Float → Type 0
Entries F = List (String × RoutingCacheEntry F)

module _ {F : Float} where
  length-remove_all_le : (ks : List String) (d : Entries F) → length (remove_all d ks) ≤ length d
  unfolding remove_all
  length-remove_all_le [] d = omega arith
  length-remove_all_le (k ∷ ks) d =
      omega (arith, length-remove_all_le ks (remove d k), length-remove_le d k)

  insert_by_age-All :
      (P : String × RoutingCacheEntry F → Type 0) (x : String × RoutingCacheEntry F)
      (ys : Entries F)
      → P x
      → All P ys
      → All P (insert_by_age x ys)
  unfolding insert_by_age
  insert_by_age-All P x [] p h = (p, tt)
  insert_by_age-All P x (y ∷ ys) p h = elim (Bool-cases (ltb x.1.cached_at y.1.cached_at)) [
    | inl e ↦ rw e (p, h)
    | inr e ↦ rw e (h.0, insert_by_age-All P x ys p h.1)
  ]

  by_age-All :
      (P : String × RoutingCacheEntry F → Type 0) (acc xs : Entries F)
      → All P acc
      → All P xs
      → All P (by_age acc xs)
  unfolding by_age
  by_age-All P acc [] a h = a
  by_age-All P acc (x ∷ xs) a h =
      by_age-All P (insert_by_age x acc) xs (insert_by_age-All P x acc h.0 a) h.1

  length-insert_by_age :
      (x : String × RoutingCacheEntry F) (ys : Entries F)
      → length (insert_by_age x ys) ≡ length ys + 1
  unfolding insert_by_age
  length-insert_by_age x [] = omega arith
  length-insert_by_age x (y ∷ ys) = ground (arith, length-insert_by_age x ys)

  length-by_age : (acc xs : Entries F) → length (by_age acc xs) ≡ length acc + length xs
  unfolding by_age
  length-by_age acc [] = omega arith
  length-by_age acc (x ∷ xs) =
      omega (arith, length-by_age (insert_by_age x acc) xs, length-insert_by_age x acc)

  -- The entries of a dictionary are held under their keys.
  All-weaken :
      (d xs : Entries F) (k : String) (e : RoutingCacheEntry F)
      → All (λ x. has d x.0 ≡ true) xs
      → All (λ x. has ((k, e) ∷ d) x.0 ≡ true) xs
  unfolding has get
  All-weaken d [] k e h = tt
  All-weaken d (x ∷ xs) k e h = (ground (arith, h.0), All-weaken d xs k e h.1)

  held : (d : Entries F) → All (λ x. has d x.0 ≡ true) d
  unfolding has get
  held [] = tt
  held ((k, e) ∷ d) = (rw (has, get, ==_refl k) refl, All-weaken d d k e (held d))

  -- A full cache loses at least one entry.
  drops :
      (n : ℕ) (d sorted : Entries F)
      → 0 < n
      → 0 < length sorted
      → All (λ x. has d x.0 ≡ true) sorted
      → length (remove_all d (take n (keys sorted))) < length d
  unfolding remove_all
  drops zero d sorted l p h = ground arith
  drops (suc n) d [] l p h = ground arith
  drops (suc n) d (x ∷ xs) l p h =
      omega
        (arith, length-remove_all_le (take n (keys xs)) (remove d x.0), length-remove_lt d x.0 h.0)

  drop_oldest-lt :
      (limit : ℕ) (d : Entries F)
      → 4 ≤ limit
      → length d ≤ limit
      → length (drop_oldest limit d) < limit
  unfolding drop_oldest
  drop_oldest-lt limit d l h = elim (Bool-cases (leb limit (length d))) [
    | inl full ↦
        let most = leb→le limit (length d) full in
        let some_left =
          drops (limit / 4) d (by_age [] d) (omega arith) (omega (arith, length-by_age [] d))
            (by_age-All (λ x. has d x.0 ≡ true) [] d tt (held d)) in
        rw full (omega arith)
    | inr room ↦ rw room (ground arith)
  ]

  pub length-store_decision_le :
      (limit : ℕ) (d : Entries F) (key : String) (decision : RoutingDecision F) (now : ℕ)
      → 4 ≤ limit
      → length d ≤ limit
      → length (store_decision limit d key decision now) ≤ limit
  unfolding store_decision
  length-store_decision_le limit d key decision now l h =
      omega (arith, drop_oldest-lt limit d l h, length-put_le (drop_oldest limit d) key _)

  length-put_present :
      (d : Entries F) (key : String) (e f : RoutingCacheEntry F)
      → get d key ≡ some f
      → length (put d key e) ≡ length d
  unfolding get put
  length-put_present [] key e f h = ground arith
  length-put_present ((k, g) ∷ d) key e f h = ground (arith, length-put_present d key e f)

  pub length-look_up_le :
      (ttl : ℕ) (d : Entries F) (key : String) (now : ℕ)
      → length (look_up ttl d key now).1 ≤ length d
  unfolding look_up
  length-look_up_le ttl d key now = elim (Option-cases (get d key)) [
    | inl e ↦ rw (look_up, e) (omega arith)
    | inr (f, e) ↦ elim (Bool-cases (ltb (now - f.cached_at) ttl)) [
      | inl young ↦ rw (look_up, e) (rw young (omega (arith, length-put_present d key _ f e)))
      | inr old ↦ rw (look_up, e) (rw old (length-remove_le d key))
    ]
  ]
