-- ===== src/Routing/Tests.antt =====
-- Routes with whole numbers for floats; no target looks local, and every number prints as 1.
use pywatt_sdk.Prelude.{
  true, ◌==◌, ℕ, List, ◌≡◌, refl, false, [], ◌∷◌, none, arith, ◌&&◌, ◌-◌, ◌<◌, All, nat_eq,
}
use pywatt_sdk.Prelude.Float.{whole}
use pywatt_sdk.Prelude.Dict.{Dict, get, put}
use pywatt_sdk.Channel.{ChannelType, tcp, ipc, channel_eq}
use pywatt_sdk.Routing.{
  MessageCharacteristics, normal, data_message, unknown, RoutingConfig, RoutingDecision,
  default_matrix,
}
use pywatt_sdk.Routing.Health.{new_health}
use pywatt_sdk.Routing.Health.Counters as Counters
use pywatt_sdk.Routing.Selection.{Texts, determine_target_location}
use pywatt_sdk.Routing.Balance.{member, load_of, calculate_confidence}
use pywatt_sdk.Routing.Router.{
  ChannelRouter, Readings, decided, new, route_new, route_message, update_channel_status,
  filter_viable_channels, channel_meets_conditions,
}
use pywatt_sdk.Routing.Router.Viable.{up, filter_viable_channels_iff}
use pywatt_sdk.Routing.Router.Decisions.{IsRight, route_new-IsRight, route_message_stale}
use pywatt_sdk.Routing.Router.Limit as Limit

abbrev plain : Texts
plain = record {
  print_number = λ n. "1";
  contains = λ s t. false;
  starts = λ s t. false;
  lower = λ s. s;
}

abbrev config : RoutingConfig whole
config = record {
  cache_ttl = 60;
  max_cache_size = 4;
  enable_load_balancing = false;
  learning_rate = 0;
}

abbrev message : MessageCharacteristics
message = record {
  size = 100;
  priority = normal;
  message_type = data_message;
  target_location = unknown;
}

abbrev times : ℕ → Readings
times n = record { looked_up = n; observed = n; kept = n }

-- A router that knows that the IPC channel is down.
abbrev known : ChannelRouter whole
known = update_channel_status (new whole config) ipc false 0

filter_viable_channels_iff_example :
    (member ipc
        (filter_viable_channels known
          (ipc ∷ tcp ∷ [])
          (default_matrix whole).local_small_messages
          message
          1).0
      ≡ (member ipc (ipc ∷ tcp ∷ []) && up known ipc))
    × (up
          (filter_viable_channels known
            (ipc ∷ tcp ∷ [])
            (default_matrix whole).local_small_messages
            message
            1).1
          ipc
        ≡ up known ipc)
filter_viable_channels_iff_example =
    filter_viable_channels_iff known ipc 1 (ipc ∷ tcp ∷ [])
      (default_matrix whole).local_small_messages message

-- Both channels are connected, and their loads are compared.
abbrev balancing : ChannelRouter whole
balancing = record (new whole config) {
  config = record config { enable_load_balancing = true };
  load_balance_state = (ipc, 3) ∷ [];
}

route_new-IsRight_example :
    IsRight balancing
      (ipc ∷ tcp ∷ [])
      (route_new plain balancing "svc" message (ipc ∷ tcp ∷ []) (times 1)).0
route_new-IsRight_example =
    route_new-IsRight plain balancing "svc" message
      (λ c. same_load (load_of whole balancing.load_balance_state c)) (ipc ∷ tcp ∷ []) (times 1)
  where
    same_load : (n : ℕ) → (n == n) ≡ true
    same_load n = ground arith

-- The decision for the TCP channel, which is then reported as down.
abbrev over_tcp : RoutingDecision whole
over_tcp = record {
  primary_channel = tcp;
  fallback_channel = none;
  confidence = 1;
  reason = "Selected tcp based on normal priority";
  expected_latency = 0;
  weight = 1;
}

abbrev routed : ChannelRouter whole
routed = (route_new plain known "svc" message (tcp ∷ []) (times 1)).1

routed_lem : route_new plain known "svc" message (tcp ∷ []) (times 1) ≡ (decided over_tcp, routed)
unfolding route_new new determine_target_location update_channel_status get put
    channel_meets_conditions calculate_confidence
routed_lem = refl

young : (times 5).looked_up - (times 1).kept < routed.config.cache_ttl
unfolding route_new new determine_target_location update_channel_status get put
    channel_meets_conditions calculate_confidence
young = omega arith

route_message_stale_example :
    (route_message plain (update_channel_status routed tcp false 3) "svc" message [] (times 5)).0
    ≡ decided over_tcp
route_message_stale_example =
    route_message_stale plain known routed "svc" message (tcp ∷ []) [] (times 1) (times 5) over_tcp
      tcp false 3 routed_lem young

abbrev loads : Dict ChannelType ℕ
loads = (tcp, 2) ∷ []

abbrev outcomes : List (Counters.Outcome whole)
outcomes = Counters.succeeds 1 4 5 6 ∷ Counters.fails 7 8 9 10 ∷ []

prompt : All Counters.IsPrompt outcomes
prompt = (omega arith, (omega arith, tt))

run-new-Tallied_example :
    Counters.Tallied (λ n. 0) 1 1 (Counters.run (λ n. 0) (new_health whole 3) outcomes)
run-new-Tallied_example = Counters.run-new-Tallied (λ n. 0) 3 outcomes prompt

abbrev history : List (Limit.Op whole)
history = Limit.routes "svc" message (tcp ∷ []) (times 1) ∷ Limit.status tcp false 2 ∷ []

run-new-IsWithin_example : Limit.IsWithin 4 (Limit.run plain (λ n. 0) (new whole config) history)
run-new-IsWithin_example = Limit.run-new-IsWithin plain (λ n. 0) config history (omega arith)
