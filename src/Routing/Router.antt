-- ===== src/Routing/Router.antt =====
-- `ChannelRouter` of communication/routing.py.
pub mod Viable
pub mod Decisions
pub mod Limit
use Prim.Native.String.{◌++◌ as append_text}
use pywatt_sdk.Prelude.{
  ℕ, zero, suc, ◌+◌, ◌-◌, ◌/◌, ◌≤◌, String, Bool, true, false, not, ◌&&◌, ◌||◌, List, [], ◌∷◌, ◌++◌,
  Option, none, some, length, take, ltb, leb, if◌then◌else◌, nat_eq, string_eq, ◌==◌,
}
use pywatt_sdk.Prelude.Float.{Float, min_of, max_of}
use pywatt_sdk.Prelude.Dict.{Dict, get, put, remove, has, keys}
use pywatt_sdk.Prelude.Texts.{concat_texts}
use pywatt_sdk.Channel.{ChannelType, tcp, ipc, channel_eq}
use pywatt_sdk.Routing.{
  MessagePriority, critical, high, normal, low, bulk, MessageType, control, data_message,
  file_transfer, stream, real_time, batch, TargetLocation, local, remote, unknown,
  MessageCharacteristics, RoutingCondition, max_size_condition, min_health_condition,
  max_latency_condition, min_throughput_condition, ChannelPreference, RoutingMatrix, default_matrix,
  RoutingDecision, RoutingCacheEntry, RoutingConfig,
}
use pywatt_sdk.Routing.Health.{
  ChannelHealth, new_health, meets_condition, record_success, record_failure,
}
use pywatt_sdk.Routing.Selection.{
  Texts, priority_name, channel_value, cache_key, determine_target_location,
  select_routing_preference,
}
use pywatt_sdk.Routing.Balance.{
  member, second, load_of, select_least, latency_or, load_after, calculate_confidence,
}
use pywatt_sdk.Routing.DecisionCache.{look_up, store_decision}

pub record ChannelRouter (F : Float) : Type 0 where
  pub config : RoutingConfig F
  pub routing_matrix : RoutingMatrix F
  pub channel_health : Dict ChannelType (ChannelHealth F)
  pub decision_cache : Dict String (RoutingCacheEntry F)
  pub load_balance_state : Dict ChannelType F.Carrier

-- What a call returns: a decision, `None`, or an exception.
pub data Routed (F : Float) : Type 0 where
  decided : RoutingDecision F → Routed F
  no_channel raised : Routed F

-- The readings of the clock: at the look-up, for the new health entries, and when the decision is
-- kept.
pub record Readings : Type 0 where
  pub looked_up : ℕ
  pub observed : ℕ
  pub kept : ℕ

module _ {F : Float} where
  -- `_get_channel_health`, which makes the entry of a channel that has none.
  unfoldable pub get_channel_health :
      ChannelRouter F → ChannelType → ℕ → ChannelHealth F × ChannelRouter F
  get_channel_health r ch now = elim (get r.channel_health ch) [
    | some h ↦ (h, r)
    | none ↦
        (new_health F now, record r { channel_health = put r.channel_health ch (new_health F now) })
  ]

  -- One condition of `_channel_meets_conditions`.
  abbrev pub meets_one : ChannelHealth F → RoutingCondition F → MessageCharacteristics → Bool
  meets_one h (max_size_condition n) c = leb c.size n
  meets_one h (min_health_condition m) c = meets_condition F h (min_health_condition m)
  meets_one h (max_latency_condition m) c = meets_condition F h (max_latency_condition m)
  meets_one h (min_throughput_condition m) c = meets_condition F h (min_throughput_condition m)

  unfoldable pub channel_meets_conditions :
      ChannelHealth F → List (RoutingCondition F) → MessageCharacteristics → Bool
  channel_meets_conditions h [] c = true
  channel_meets_conditions h (x ∷ xs) c = meets_one h x c && channel_meets_conditions h xs c

  -- A preferred channel: it is viable where it is available, connected and meets the conditions.
  unfoldable pub add_preferred :
      ChannelPreference F
      → MessageCharacteristics
      → List ChannelType
      → ℕ
      → ChannelType
      → List ChannelType × ChannelRouter F
      → List ChannelType × ChannelRouter F
  unfolding get_channel_health
  add_preferred p c available now ch (viable, r) =
      let (h, r') = get_channel_health r ch now in
      if member ch available
      then if h.connected && channel_meets_conditions h p.conditions c
        then (if member ch viable then viable else viable ++ (ch ∷ []), r')
        else (viable, r')
      else (viable, r)

  -- Another channel, as a last resort.
  unfoldable pub add_other :
      ℕ → ChannelType → List ChannelType × ChannelRouter F → List ChannelType × ChannelRouter F
  unfolding get_channel_health
  add_other now ch (viable, r) =
      let (h, r') = get_channel_health r ch now in
      if member ch viable
      then (viable, r)
      else (if h.connected then viable ++ (ch ∷ []) else viable, r')

  unfoldable pub add_others :
      ℕ → List ChannelType → List ChannelType × ChannelRouter F → List ChannelType × ChannelRouter F
  unfolding add_other
  add_others now [] s = s
  add_others now (ch ∷ chs) s = add_others now chs (add_other now ch s)

  unfoldable pub add_fallback :
      ChannelPreference F
      → MessageCharacteristics
      → List ChannelType
      → ℕ
      → Option ChannelType
      → List ChannelType × ChannelRouter F
      → List ChannelType × ChannelRouter F
  unfolding add_preferred
  add_fallback p c available now none s = s
  add_fallback p c available now (some ch) s = add_preferred p c available now ch s

  unfoldable pub filter_viable_channels :
      ChannelRouter F
      → List ChannelType
      → ChannelPreference F
      → MessageCharacteristics
      → ℕ
      → List ChannelType × ChannelRouter F
  unfolding add_preferred add_fallback add_others
  filter_viable_channels r available p c now = add_others now available (
      add_fallback p c available now p.fallback (add_preferred p c available now p.primary ([], r)))

  unfoldable pub select_with_load_balancing :
      ChannelRouter F → List ChannelType → Option (ChannelType × ChannelRouter F)
  unfolding select_least
  select_with_load_balancing r channels = elim (select_least F r.load_balance_state channels) [
    | none ↦ none
    | some (ch, d) ↦ some (ch, record r { load_balance_state = d })
  ]

  unfoldable pub get_cached_decision :
      ChannelRouter F → String → ℕ → Option (RoutingDecision F) × ChannelRouter F
  unfolding look_up
  get_cached_decision r key now =
      let (found, d) = look_up r.config.cache_ttl r.decision_cache key now in
      (found, record r { decision_cache = d })

  unfoldable pub cache_decision : ChannelRouter F → String → RoutingDecision F → ℕ → ChannelRouter F
  unfolding store_decision
  cache_decision r key decision now = record r {
    decision_cache = store_decision r.config.max_cache_size r.decision_cache key decision now;
  }

  unfoldable pub choose :
      ChannelRouter F → List ChannelType → Option (ChannelType × ChannelRouter F)
  unfolding select_with_load_balancing
  choose r [] = none
  choose r (ch ∷ []) = some (ch, r)
  choose r (ch ∷ other ∷ chs) =
      if r.config.enable_load_balancing
      then select_with_load_balancing r (ch ∷ other ∷ chs)
      else some (ch, r)

  abbrev pub make_decision :
      ChannelPreference F
      → MessageCharacteristics
      → ChannelHealth F
      → ChannelType
      → Option ChannelType
      → RoutingDecision F
  make_decision p c h selected fallback = record {
    primary_channel = selected;
    fallback_channel = fallback;
    confidence = calculate_confidence F h c;
    reason = concat_texts (
        "Selected "
        ∷ channel_value selected
        ∷ " based on "
        ∷ priority_name c.priority
        ∷ " priority"
        ∷ []);
    expected_latency = h.latency_p95;
    weight = p.weight;
  }

  unfoldable pub decide :
      ChannelRouter F
      → String
      → MessageCharacteristics
      → ChannelPreference F
      → List ChannelType
      → Readings
      → Routed F × ChannelRouter F
  unfolding choose get_channel_health cache_decision
  decide r key c p viable t = elim (choose r viable) [
    | none ↦ (elim viable [ [] ↦ no_channel | _ ↦ raised ], r)
    | some (selected, r') ↦
        let (h, r'') = get_channel_health r' selected t.observed in
        let decision = make_decision p c h selected (second viable) in
        (decided decision, cache_decision r'' key decision t.kept)
  ]

  module _ (u : Texts) where
    -- Without a decision in the cache.
    unfoldable pub route_new :
        ChannelRouter F
        → String
        → MessageCharacteristics
        → List ChannelType
        → Readings
        → Routed F × ChannelRouter F
    unfolding decide filter_viable_channels select_routing_preference
    route_new r target c available t =
        let c' = record c { target_location = determine_target_location u target } in
        let p = select_routing_preference r.routing_matrix c' in
        let (viable, r') = filter_viable_channels r available p c' t.observed in
        decide r' (cache_key u target c) c' p viable t

    unfoldable pub route_message :
        ChannelRouter F
        → String
        → MessageCharacteristics
        → List ChannelType
        → Readings
        → Routed F × ChannelRouter F
    unfolding route_new get_cached_decision
    route_message r target c available t =
        let (found, r') = get_cached_decision r (cache_key u target c) t.looked_up in
        elim found [ some d ↦ (decided d, r') | none ↦ route_new r' target c available t ]

  abbrev pub update_routing_weights : ChannelRouter F → ChannelType → Bool → ChannelRouter F
  update_routing_weights r ch success =
      let d = r.load_balance_state in
      record r {
        load_balance_state =
            put d ch (load_after F r.config.learning_rate (load_of F d ch) success);
      }

  -- The readings: for a new entry, and those of the record's update.
  unfoldable pub record_outcome :
      (ℕ → ℕ)
      → ChannelRouter F
      → ChannelType
      → Bool
      → Option F.Carrier
      → ℕ
      → (ℕ × ℕ × ℕ × ℕ)
      → ChannelRouter F
  unfolding get_channel_health record_success record_failure
  record_outcome p95_index r ch success latency now (t₁, t₂, t₃, t₄) =
      let (h, r') = get_channel_health r ch now in
      let h' =
        if success
        then record_success F p95_index h (latency_or F latency) t₁ t₂ t₃
        else record_failure F p95_index h t₁ t₂ t₃ t₄ in
      update_routing_weights (record r' { channel_health = put r'.channel_health ch h' }) ch success

  unfoldable pub update_channel_status : ChannelRouter F → ChannelType → Bool → ℕ → ChannelRouter F
  unfolding get_channel_health
  update_channel_status r ch connected now =
      let (h, r') = get_channel_health r ch now in
      record r' { channel_health = put r'.channel_health ch (record h { connected = connected }) }

  unfoldable pub update_routing_matrix : ChannelRouter F → RoutingMatrix F → ChannelRouter F
  update_routing_matrix r x = record r { routing_matrix = x; decision_cache = [] }

unfoldable pub new : (F : Float) → RoutingConfig F → ChannelRouter F
new F config = record {
  config = config;
  routing_matrix = default_matrix F;
  channel_health = [];
  decision_cache = [];
  load_balance_state = [];
}
