-- ===== src/Discovery/Tests.antt =====
-- Two endpoints of one path. No text comes before another.
use pywatt_sdk.Prelude.{◌≡◌, String, Bool, false, List, [], ◌∷◌, none}
use pywatt_sdk.Discovery.{DiscoveredEndpoint, deduplicate_endpoints}
use pywatt_sdk.Discovery.Merging.{serves, serves-deduplicate_endpoints}

abbrev endpoint : String → List String → DiscoveredEndpoint
endpoint path methods = record { path = path; methods = methods; auth = none; metadata = none }

abbrev never : String → String → Bool
never s t = false

abbrev endpoints : List DiscoveredEndpoint
endpoints = endpoint "/a" ("GET" ∷ []) ∷ endpoint "/b" [] ∷ endpoint "/a" ("PUT" ∷ []) ∷ []

serves-deduplicate_endpoints_example :
    serves "/a" "PUT" (deduplicate_endpoints never endpoints) ≡ serves "/a" "PUT" endpoints
serves-deduplicate_endpoints_example = serves-deduplicate_endpoints never endpoints "/a" "PUT"
