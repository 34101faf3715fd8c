-- ===== src/Routing.antt =====
-- communication/routing.py: the messages' characteristics, the routing matrix and its conditions.
-- Latencies, rates and weights are floats; times and durations are whole numbers of microseconds.
pub mod Health
pub mod Selection
pub mod Balance
pub mod DecisionCache
pub mod Router
mod Tests
use pywatt_sdk.Prelude.{
  ℕ, String, Bool, true, false, List, [], ◌∷◌, Option, none, some, ltb, if◌then◌else◌, length,
}
use pywatt_sdk.Prelude.Float.{Float}
use pywatt_sdk.Channel.{ChannelType, tcp, ipc}

pub data MessagePriority : Type 0 where
  critical high normal low bulk : MessagePriority

pub data MessageType : Type 0 where
  control data_message file_transfer stream real_time batch : MessageType

pub data TargetLocation : Type 0 where
  local remote unknown : TargetLocation

-- `timeout`, `requires_ack` and `retryable` play no part in routing, and are left out.
pub record MessageCharacteristics : Type 0 where
  pub size : ℕ
  pub priority : MessagePriority
  pub message_type : MessageType
  pub target_location : TargetLocation

-- The subclasses of `RoutingCondition`.
pub data RoutingCondition (F : Float) : Type 0 where
  max_size_condition : ℕ → RoutingCondition F
  min_health_condition : F.Carrier → RoutingCondition F
  max_latency_condition : F.Carrier → RoutingCondition F
  min_throughput_condition : ℕ → RoutingCondition F

pub record ChannelPreference (F : Float) : Type 0 where
  pub primary : ChannelType
  pub fallback : Option ChannelType
  pub conditions : List (RoutingCondition F)
  pub weight : F.Carrier

pub record RoutingMatrix (F : Float) : Type 0 where
  pub local_small_messages : ChannelPreference F
  pub local_large_messages : ChannelPreference F
  pub remote_messages : ChannelPreference F
  pub urgent_messages : ChannelPreference F
  pub bulk_transfer : ChannelPreference F
  pub real_time : ChannelPreference F
  pub file_transfer : ChannelPreference F

-- The matrix of a new router.
abbrev pub default_matrix : (F : Float) → RoutingMatrix F
default_matrix F =
    let one = F.ratio 1 1 in
    record {
      local_small_messages = record {
        primary = ipc;
        fallback = some tcp;
        conditions = max_size_condition 1024 ∷ [];
        weight = one;
      };
      local_large_messages = record {
        primary = tcp;
        fallback = some ipc;
        conditions = [];
        weight = one;
      };
      remote_messages = record { primary = tcp; fallback = none; conditions = []; weight = one };
      urgent_messages = record {
        primary = ipc;
        fallback = some tcp;
        conditions = max_latency_condition (F.ratio 1 100) ∷ [];
        weight = one;
      };
      bulk_transfer = record { primary = tcp; fallback = none; conditions = []; weight = one };
      real_time = record {
        primary = ipc;
        fallback = some tcp;
        conditions = max_latency_condition (F.ratio 5 1000) ∷ [];
        weight = one;
      };
      file_transfer = record { primary = tcp; fallback = none; conditions = []; weight = one };
    }

pub record RoutingDecision (F : Float) : Type 0 where
  pub primary_channel : ChannelType
  pub fallback_channel : Option ChannelType
  pub confidence : F.Carrier
  pub reason : String
  pub expected_latency : F.Carrier
  pub weight : F.Carrier

pub record RoutingCacheEntry (F : Float) : Type 0 where
  pub decision : RoutingDecision F
  pub cached_at : ℕ
  pub hit_count : ℕ

-- `health_check_interval` is read by nothing.
pub record RoutingConfig (F : Float) : Type 0 where
  pub cache_ttl : ℕ
  pub max_cache_size : ℕ
  pub enable_load_balancing : Bool
  pub learning_rate : F.Carrier
