-- ===== src/Discovery.antt =====
-- services/router_discovery.py: the merging of the endpoints that were found. `before` is Python's order of
-- texts. The scanning of the web frameworks is not modelled.
pub mod Merging
mod Tests
use pywatt_sdk.Prelude.{
  String, Bool, true, false, ◌||◌, List, [], ◌∷◌, ◌++◌, Option, none, some, string_eq, ◌==◌,
  if◌then◌else◌,
}
use pywatt_sdk.Prelude.Dict.{Dict, get, put, values}

pub record DiscoveredEndpoint : Type 0 where
  pub path : String
  pub methods : List String
  pub auth : Option String
  pub metadata : Option (Dict String String)

module _ (before : String → String → Bool) where
  -- `sorted(list(set(texts)))`
  unfoldable pub insert_once : String → List String → List String
  insert_once s [] = s ∷ []
  insert_once s (t ∷ ts) =
      if s == t then t ∷ ts else if before s t then s ∷ t ∷ ts else t ∷ insert_once s ts

  unfoldable pub sorted_set : List String → List String
  unfolding insert_once
  sorted_set [] = []
  sorted_set (s ∷ ss) = insert_once s (sorted_set ss)

  -- One round of the loop.
  unfoldable pub merge :
      Dict String DiscoveredEndpoint → DiscoveredEndpoint → Dict String DiscoveredEndpoint
  unfolding sorted_set
  merge d e = elim (get d e.path) [
    | some x ↦ put d e.path (record x { methods = sorted_set (x.methods ++ e.methods) })
    | none ↦ put d e.path (record e { methods = sorted_set e.methods })
  ]

  unfoldable pub endpoint_map :
      Dict String DiscoveredEndpoint → List DiscoveredEndpoint → Dict String DiscoveredEndpoint
  unfolding merge
  endpoint_map d [] = d
  endpoint_map d (e ∷ es) = endpoint_map (merge d e) es

  -- `sorted(…, key=lambda x: x.path)`, which keeps the order of equals.
  unfoldable pub insert_by_path :
      DiscoveredEndpoint → List DiscoveredEndpoint → List DiscoveredEndpoint
  insert_by_path e [] = e ∷ []
  insert_by_path e (x ∷ xs) = if before e.path x.path then e ∷ x ∷ xs else x ∷ insert_by_path e xs

  unfoldable pub by_path :
      List DiscoveredEndpoint → List DiscoveredEndpoint → List DiscoveredEndpoint
  unfolding insert_by_path
  by_path acc [] = acc
  by_path acc (e ∷ es) = by_path (insert_by_path e acc) es

  unfoldable pub deduplicate_endpoints : List DiscoveredEndpoint → List DiscoveredEndpoint
  unfolding endpoint_map by_path
  deduplicate_endpoints es = by_path [] (values (endpoint_map [] es))
