-- ===== src/Discovery/Merging.antt =====
-- Which endpoints are left after the merging.
use pywatt_sdk.Prelude.{
  ◌≡◌, refl, sym, ap, ◌∙◌, String, Bool, false, ◌||◌, ◌&&◌, List, [], ◌∷◌, ◌++◌, none, some, arith,
  string_eq, ◌==◌, Bool-cases, Option-cases, inl, inr,
}
use pywatt_sdk.Prelude.Dict.{Dict, get, put, values, get-put}
use pywatt_sdk.Prelude.Dict.Distinct.{Distinct, put-Distinct}
use pywatt_sdk.Discovery.{
  DiscoveredEndpoint, insert_once, sorted_set, merge, endpoint_map, insert_by_path, by_path,
  deduplicate_endpoints,
}

abbrev pub among : String → List String → Bool
among m [] = false
among m (n ∷ ns) = (n == m) || among m ns

-- Whether some endpoint of the list has the path and the method.
abbrev pub serves : String → String → List DiscoveredEndpoint → Bool
serves p m [] = false
serves p m (e ∷ es) = ((e.path == p) && among m e.methods) || serves p m es

among-append : (m : String) (ss ts : List String) → among m (ss ++ ts) ≡ (among m ss || among m ts)
among-append m [] ts = refl
among-append m (s ∷ ss) ts = ground (arith, among-append m ss ts)

-- The methods that a dictionary holds for a path.
abbrev held : Dict String DiscoveredEndpoint → String → String → Bool
held d p m = elim (get d p) [ none ↦ false | some x ↦ among m x.methods ]

-- Each entry is under its path.
abbrev Keyed : Dict String DiscoveredEndpoint → Type 0
Keyed [] = Unit {0}
Keyed ((k, v) ∷ d) = (v.path ≡ k) × Keyed d

put-Keyed :
    (d : Dict String DiscoveredEndpoint) (k : String) (v : DiscoveredEndpoint)
    → v.path ≡ k
    → Keyed d
    → Keyed (put d k v)
unfolding put
put-Keyed [] k v e h = (e, tt)
put-Keyed ((j, w) ∷ d) k v e h = elim (Bool-cases (j == k)) [
  | inl same ↦ rw same (e ∙ sym ((string_eq.beq_iff j k).0 same), h.1)
  | inr other ↦ rw other (h.0, put-Keyed d k v e h.1)
]

get-path :
    (d : Dict String DiscoveredEndpoint) (k : String) (x : DiscoveredEndpoint)
    → Keyed d
    → get d k ≡ some x
    → x.path ≡ k
unfolding get
get-path [] k x h e = ground (arith, e)
get-path ((j, w) ∷ d) k x h e = ground (arith, e, h.0, string_eq.beq_iff j k, get-path d k x h.1)

serves-values :
    (d : Dict String DiscoveredEndpoint) (p m : String)
    → Distinct d
    → Keyed d
    → serves p m (values d) ≡ held d p m
unfolding get
serves-values [] p m u h = refl
serves-values ((k, v) ∷ d) p m u h =
    ground (arith, u.0, h.0, serves-values d p m u.1 h.1, string_eq.beq_iff k p)

module _ (before : String → String → Bool) where
  among-insert_once :
      (m s : String) (ts : List String)
      → among m (insert_once before s ts) ≡ ((s == m) || among m ts)
  unfolding insert_once
  among-insert_once m s [] = refl
  among-insert_once m s (t ∷ ts) = ground (arith, among-insert_once m s ts, string_eq.beq_iff s t)

  among-sorted_set : (m : String) (ss : List String) → among m (sorted_set before ss) ≡ among m ss
  unfolding sorted_set
  among-sorted_set m [] = refl
  among-sorted_set m (s ∷ ss) =
      among-insert_once m s (sorted_set before ss) ∙ ap (λ b. (s == m) || b) (among-sorted_set m ss)

  held-merge :
      (d : Dict String DiscoveredEndpoint) (e : DiscoveredEndpoint) (p m : String)
      → held (merge before d e) p m ≡ (held d p m || ((e.path == p) && among m e.methods))
  unfolding merge
  held-merge d e p m = elim (Option-cases (get d e.path)) [
    | inl new ↦ ground (
      arith,
      new,
      get-put d e.path p (record e { methods = sorted_set before e.methods }),
      among-sorted_set m e.methods,
      string_eq.beq_iff e.path p,
    )
    | inr (x, old) ↦ ground (
      arith,
      old,
      get-put d e.path p (record x { methods = sorted_set before (x.methods ++ e.methods) }),
      among-sorted_set m (x.methods ++ e.methods),
      among-append m x.methods e.methods,
      string_eq.beq_iff e.path p,
    )
  ]

  held-endpoint_map :
      (d : Dict String DiscoveredEndpoint) (es : List DiscoveredEndpoint) (p m : String)
      → held (endpoint_map before d es) p m ≡ (held d p m || serves p m es)
  unfolding endpoint_map
  held-endpoint_map d [] p m = ground arith
  held-endpoint_map d (e ∷ es) p m =
      ground (arith, held-endpoint_map (merge before d e) es p m, held-merge d e p m)

  record Kept (d : Dict String DiscoveredEndpoint) : Type 0 where
    distinct : Distinct d
    keyed : Keyed d

  merge-Kept :
      (d : Dict String DiscoveredEndpoint) (e : DiscoveredEndpoint)
      → Kept d
      → Kept (merge before d e)
  unfolding merge
  merge-Kept d e k = elim (Option-cases (get d e.path)) [
    | inl new ↦
        rw (merge, new)
          (record {
            distinct =
                put-Distinct d e.path (record e { methods = sorted_set before e.methods })
                  k.distinct;
            keyed =
                put-Keyed d e.path (record e { methods = sorted_set before e.methods }) refl
                  k.keyed;
          })
    | inr (x, old) ↦
        rw (merge, old)
          (record {
            distinct =
                put-Distinct d e.path
                  (record x { methods = sorted_set before (x.methods ++ e.methods) }) k.distinct;
            keyed =
                put-Keyed d e.path
                  (record x { methods = sorted_set before (x.methods ++ e.methods) })
                  (get-path d e.path x k.keyed old) k.keyed;
          })
  ]

  endpoint_map-Kept :
      (d : Dict String DiscoveredEndpoint) (es : List DiscoveredEndpoint)
      → Kept d
      → Kept (endpoint_map before d es)
  unfolding endpoint_map
  endpoint_map-Kept d [] k = k
  endpoint_map-Kept d (e ∷ es) k = endpoint_map-Kept (merge before d e) es (merge-Kept d e k)

  serves-insert_by_path :
      (p m : String) (e : DiscoveredEndpoint) (xs : List DiscoveredEndpoint)
      → serves p m (insert_by_path before e xs) ≡ serves p m (e ∷ xs)
  unfolding insert_by_path
  serves-insert_by_path p m e [] = refl
  serves-insert_by_path p m e (x ∷ xs) = ground (arith, serves-insert_by_path p m e xs)

  serves-by_path :
      (p m : String) (acc es : List DiscoveredEndpoint)
      → serves p m (by_path before acc es) ≡ (serves p m acc || serves p m es)
  unfolding by_path
  serves-by_path p m acc [] = ground arith
  serves-by_path p m acc (e ∷ es) =
      ground (
        arith,
        serves-by_path p m (insert_by_path before e acc) es,
        serves-insert_by_path p m e acc,
      )

  -- The merging keeps exactly the pairs of a path and a method that the endpoints have.
  pub serves-deduplicate_endpoints :
      (es : List DiscoveredEndpoint) (p m : String)
      → serves p m (deduplicate_endpoints before es) ≡ serves p m es
  unfolding deduplicate_endpoints get
  serves-deduplicate_endpoints es p m =
      let k = endpoint_map-Kept [] es (record { distinct = tt; keyed = tt }) in
      serves-by_path p m [] (values (endpoint_map before [] es))
      ∙ serves-values (endpoint_map before [] es) p m k.distinct k.keyed
      ∙ held-endpoint_map [] es p m
