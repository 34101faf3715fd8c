-- ===== src/Routing/DecisionCache.antt =====
-- The cache of decisions of communication/routing.py: an entry is kept while it is younger than the
-- configured time, and a full cache loses the oldest quarter of its limit.
pub mod Size
use Prim.Native.String.{◌++◌ as append_text}
use pywatt_sdk.Prelude.{
  ℕ, zero, suc, ◌+◌, ◌-◌, ◌/◌, ◌≤◌, String, Bool, true, false, not, ◌&&◌, ◌||◌, List, [], ◌∷◌, ◌++◌,
  Option, none, some, length, take, ltb, leb, if◌then◌else◌, nat_eq, string_eq, ◌==◌,
}
use pywatt_sdk.Prelude.Float.{Float, min_of, max_of}
use pywatt_sdk.Prelude.Dict.{Dict, get, put, remove, has, keys}
use pywatt_sdk.Channel.{ChannelType, tcp, ipc, channel_eq}
use pywatt_sdk.Routing.{
  MessagePriority, critical, high, normal, low, bulk, MessageType, control, data_message,
  file_transfer, stream, real_time, batch, TargetLocation, local, remote, unknown,
  MessageCharacteristics, RoutingCondition, max_size_condition, min_health_condition,
  max_latency_condition, min_throughput_condition, ChannelPreference, RoutingMatrix, default_matrix,
  RoutingDecision, RoutingCacheEntry, RoutingConfig,
}
use pywatt_sdk.Routing.Health.{
  ChannelHealth, new_health, meets_condition, record_success, record_failure,
}

module _ {F : Float} where
  -- `sorted(keys, key=cached_at)`, which keeps the order of equals.
  unfoldable pub insert_by_age :
      String × RoutingCacheEntry F
      → List (String × RoutingCacheEntry F)
      → List (String × RoutingCacheEntry F)
  insert_by_age x [] = x ∷ []
  insert_by_age x (y ∷ ys) =
      if ltb x.1.cached_at y.1.cached_at then x ∷ y ∷ ys else y ∷ insert_by_age x ys

  unfoldable pub by_age :
      List (String × RoutingCacheEntry F)
      → List (String × RoutingCacheEntry F)
      → List (String × RoutingCacheEntry F)
  by_age acc [] = acc
  by_age acc (x ∷ xs) = by_age (insert_by_age x acc) xs

  unfoldable pub remove_all :
      Dict String (RoutingCacheEntry F) → List String → Dict String (RoutingCacheEntry F)
  remove_all d [] = d
  remove_all d (k ∷ ks) = remove_all (remove d k) ks

  unfoldable pub drop_oldest :
      ℕ → Dict String (RoutingCacheEntry F) → Dict String (RoutingCacheEntry F)
  unfolding by_age remove_all
  drop_oldest limit d =
      if leb limit (length d) then remove_all d (take (limit / 4) (keys (by_age [] d))) else d

  unfoldable pub store_decision :
      ℕ
      → Dict String (RoutingCacheEntry F)
      → String
      → RoutingDecision F
      → ℕ
      → Dict String (RoutingCacheEntry F)
  unfolding drop_oldest
  store_decision limit d key decision now =
      put (drop_oldest limit d) key (record { decision = decision; cached_at = now; hit_count = 0 })

  -- The decision, and the dictionary that is left.
  unfoldable pub look_up :
      ℕ
      → Dict String (RoutingCacheEntry F)
      → String
      → ℕ
      → Option (RoutingDecision F) × Dict String (RoutingCacheEntry F)
  look_up ttl d key now = elim (get d key) [
    | none ↦ (none, d)
    | some e ↦
        if ltb (now - e.cached_at) ttl
        then (some e.decision, put d key (record e { hit_count = e.hit_count + 1 }))
        else (none, remove d key)
  ]
