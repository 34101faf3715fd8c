-- ===== src/Routing/Balance.antt =====
-- The loads of communication/routing.py: `_select_with_load_balancing`, `_update_routing_weights` and
-- `_calculate_confidence`. The loads are a `defaultdict(float)`.
pub mod Least
use Prim.Native.String.{◌++◌ as append_text}
use pywatt_sdk.Prelude.{
  ℕ, zero, suc, ◌+◌, ◌-◌, ◌/◌, ◌≤◌, String, Bool, true, false, not, ◌&&◌, ◌||◌, List, [], ◌∷◌, ◌++◌,
  Option, none, some, length, take, ltb, leb, if◌then◌else◌, nat_eq, string_eq, ◌==◌,
}
use pywatt_sdk.Prelude.Float.{Float, min_of, max_of}
use pywatt_sdk.Prelude.Dict.{Dict, get, put, remove, has, keys}
use pywatt_sdk.Channel.{ChannelType, tcp, ipc, channel_eq}
use pywatt_sdk.Routing.{
  MessagePriority, critical, high, normal, low, bulk, MessageType, control, data_message,
  file_transfer, stream, real_time, batch, TargetLocation, local, remote, unknown,
  MessageCharacteristics, RoutingCondition, max_size_condition, min_health_condition,
  max_latency_condition, min_throughput_condition, ChannelPreference, RoutingMatrix, default_matrix,
  RoutingDecision, RoutingCacheEntry, RoutingConfig,
}
use pywatt_sdk.Routing.Selection.{is_urgent}
use pywatt_sdk.Routing.Health.{
  ChannelHealth, new_health, meets_condition, record_success, record_failure,
}

-- `channel in channels`
abbrev pub member : ChannelType → List ChannelType → Bool
member ch [] = false
member ch (c ∷ cs) = (c == ch) || member ch cs

-- The second of the viable channels.
abbrev pub second : List ChannelType → Option ChannelType
second [] = none
second (_ ∷ []) = none
second (_ ∷ ch ∷ _) = some ch

module _ (F : Float) where
  unfoldable pub load_of : Dict ChannelType F.Carrier → ChannelType → F.Carrier
  load_of d ch = elim (get d ch) [ none ↦ F.ratio 0 1 | some x ↦ x ]

  -- `min` over the channels' loads, with the least so far.
  unfoldable pub min_load : Dict ChannelType F.Carrier → F.Carrier → List ChannelType → F.Carrier
  unfolding load_of
  min_load d least [] = least
  min_load d least (ch ∷ chs) = min_load d (min_of F least (load_of d ch)) chs

  -- The first channel whose load is the least; `none` is an `IndexError`.
  unfoldable pub first_with :
      Dict ChannelType F.Carrier → F.Carrier → List ChannelType → Option ChannelType
  unfolding load_of
  first_with d least [] = none
  first_with d least (ch ∷ chs) =
      if F.eq (load_of d ch) least then some ch else first_with d least chs

  -- The dictionary with the selected channel's load counted; `none` is a `ValueError` or an `IndexError`.
  unfoldable pub select_least :
      Dict ChannelType F.Carrier
      → List ChannelType
      → Option (ChannelType × Dict ChannelType F.Carrier)
  unfolding first_with min_load load_of
  select_least d [] = none
  select_least d (ch ∷ chs) = elim (first_with d (min_load d (load_of d ch) chs) (ch ∷ chs)) [
    | none ↦ none
    | some s ↦ some (s, put d s (F.add (load_of d s) (F.ratio 1 1)))
  ]

  -- `latency or 0.01`
  abbrev pub latency_or : Option F.Carrier → F.Carrier
  latency_or none = F.ratio 1 100
  latency_or (some l) = if F.eq l (F.ratio 0 1) then F.ratio 1 100 else l

  -- The load of a channel after an outcome.
  abbrev pub load_after : F.Carrier → F.Carrier → Bool → F.Carrier
  load_after rate load success =
      if success
      then max_of F (F.ratio 0 1) (F.sub load rate)
      else F.add load (F.mul rate (F.ratio 2 1))

  unfoldable pub calculate_confidence : ChannelHealth F → MessageCharacteristics → F.Carrier
  calculate_confidence h c =
      let base = F.mul (F.mul (F.ratio 1 1) (F.sub (F.ratio 1 1) h.error_rate)) h.availability in
      let slowed = if F.lt (F.ratio 1 10) h.latency_p95 then F.mul base (F.ratio 8 10) else base in
      let raised = if is_urgent c.priority then F.mul slowed (F.ratio 11 10) else slowed in
      min_of F raised (F.ratio 1 1)
