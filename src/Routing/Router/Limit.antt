-- ===== src/Routing/Router/Limit.antt =====
-- The router's cache of decisions over a history of its operations.
use pywatt_sdk.Prelude.{
  ℕ, ◌≤◌, ◌≡◌, refl, String, Bool, List, [], ◌∷◌, Option, none, some, arith, length, Option-cases,
  inl, inr,
}
use pywatt_sdk.Prelude.Float.{Float}
use pywatt_sdk.Channel.{ChannelType}
use pywatt_sdk.Routing.{
  MessageCharacteristics, ChannelPreference, RoutingMatrix, RoutingConfig, RoutingDecision,
}
use pywatt_sdk.Routing.Selection.{
  Texts, cache_key, determine_target_location, select_routing_preference,
}
use pywatt_sdk.Routing.DecisionCache.Size.{length-store_decision_le, length-look_up_le}
use pywatt_sdk.Routing.Router.{
  ChannelRouter, Readings, new, get_channel_health, add_preferred, add_fallback, add_other,
  add_others, filter_viable_channels, select_with_load_balancing, choose, decide, cache_decision,
  get_cached_decision, route_new, route_message, record_outcome, update_channel_status,
  update_routing_matrix,
}

-- A call of the router, with its readings of the clock.
pub data Op (F : Float) : Type 0 where
  routes : String → MessageCharacteristics → List ChannelType → Readings → Op F
  reports : ChannelType → Bool → Option F.Carrier → ℕ → (ℕ × ℕ × ℕ × ℕ) → Op F
  status : ChannelType → Bool → ℕ → Op F
  matrix : RoutingMatrix F → Op F

module _ {F : Float} where
  -- The cache and the configuration are as they were.
  record Same (r q : ChannelRouter F) : Type 0 where
    cache : q.decision_cache ≡ r.decision_cache
    config : q.config ≡ r.config

  get_channel_health-Same :
      (r q : ChannelRouter F) (ch : ChannelType) (now : ℕ)
      → Same r q
      → Same r (get_channel_health q ch now).1
  unfolding get_channel_health
  get_channel_health-Same r q ch now s = ground (arith, s.cache, s.config)

  add_preferred-Same :
      (r : ChannelRouter F) (p : ChannelPreference F) (c : MessageCharacteristics)
      (available : List ChannelType) (now : ℕ) (ch : ChannelType)
      (s : List ChannelType × ChannelRouter F)
      → Same r s.1
      → Same r (add_preferred p c available now ch s).1
  unfolding add_preferred
  add_preferred-Same r p c available now ch (v, q) s =
      ground (arith, s, get_channel_health-Same r q ch now s)

  add_fallback-Same :
      (r : ChannelRouter F) (p : ChannelPreference F) (c : MessageCharacteristics)
      (available : List ChannelType) (now : ℕ) (o : Option ChannelType)
      (s : List ChannelType × ChannelRouter F)
      → Same r s.1
      → Same r (add_fallback p c available now o s).1
  unfolding add_fallback
  add_fallback-Same r p c available now none s h = h
  add_fallback-Same r p c available now (some ch) s h =
      add_preferred-Same r p c available now ch s h

  add_other-Same :
      (r : ChannelRouter F) (now : ℕ) (ch : ChannelType) (s : List ChannelType × ChannelRouter F)
      → Same r s.1
      → Same r (add_other now ch s).1
  unfolding add_other
  add_other-Same r now ch (v, q) s = ground (arith, s, get_channel_health-Same r q ch now s)

  add_others-Same :
      (r : ChannelRouter F) (now : ℕ) (chs : List ChannelType)
      (s : List ChannelType × ChannelRouter F)
      → Same r s.1
      → Same r (add_others now chs s).1
  unfolding add_others
  add_others-Same r now [] s h = h
  add_others-Same r now (ch ∷ chs) s h =
      add_others-Same r now chs (add_other now ch s) (add_other-Same r now ch s h)

  filter_viable_channels-Same :
      (r : ChannelRouter F) (available : List ChannelType) (p : ChannelPreference F)
      (c : MessageCharacteristics) (now : ℕ)
      → Same r (filter_viable_channels r available p c now).1
  unfolding filter_viable_channels
  filter_viable_channels-Same r available p c now =
      let first =
        add_preferred-Same r p c available now p.primary ([], r)
          (record { cache = refl; config = refl }) in
      add_others-Same r now available _ (add_fallback-Same r p c available now p.fallback _ first)

  -- The limit is that of the start, and the cache is within it.
  pub record IsWithin (limit : ℕ) (r : ChannelRouter F) : Type 0 where
    pub limited : r.config.max_cache_size ≡ limit
    pub within : length r.decision_cache ≤ limit

  IsWithin-Same :
      (limit : ℕ) (r q : ChannelRouter F) → IsWithin limit r → Same r q → IsWithin limit q
  IsWithin-Same limit r q w s = ground (arith, w.limited, w.within, s.cache, s.config)

  choose-Same :
      (r : ChannelRouter F) (viable : List ChannelType) (ch : ChannelType) (q : ChannelRouter F)
      → choose r viable ≡ some (ch, q)
      → Same r q
  unfolding choose select_with_load_balancing
  choose-Same r [] ch q e = ground (arith, e)
  choose-Same r (_ ∷ []) ch q e = ground (arith, e)
  choose-Same r (_ ∷ _ ∷ _) ch q e = ground (arith, e)

  cache_decision-IsWithin :
      (limit : ℕ) (r : ChannelRouter F) (key : String) (d : RoutingDecision F) (now : ℕ)
      → 4 ≤ limit
      → IsWithin limit r
      → IsWithin limit (cache_decision r key d now)
  unfolding cache_decision
  cache_decision-IsWithin limit r key d now l w = record {
    limited = w.limited;
    within = rw w.limited (length-store_decision_le limit r.decision_cache key d now l w.within);
  }

  decide-IsWithin :
      (limit : ℕ) (r : ChannelRouter F) (key : String) (c : MessageCharacteristics)
      (p : ChannelPreference F) (viable : List ChannelType) (t : Readings)
      → 4 ≤ limit
      → IsWithin limit r
      → IsWithin limit (decide r key c p viable t).1
  unfolding decide
  decide-IsWithin limit r key c p viable t l w = elim (Option-cases (choose r viable)) [
    | inl e ↦ rw (decide, e) w
    | inr ((ch, q), e) ↦
        let chosen = choose-Same r viable ch q e in
        let seen = get_channel_health-Same r q ch t.observed chosen in
        rw (decide, e)
          (cache_decision-IsWithin limit (get_channel_health q ch t.observed).1 key _ t.kept l
            (IsWithin-Same limit r _ w seen))
  ]

  -- The two operations that only look at the cache.
  look_up-IsWithin :
      (limit : ℕ) (r : ChannelRouter F) (key : String) (now : ℕ)
      → IsWithin limit r
      → IsWithin limit (get_cached_decision r key now).1
  unfolding get_cached_decision
  look_up-IsWithin limit r key now w = record {
    limited = w.limited;
    within = omega (arith, w.within, length-look_up_le r.config.cache_ttl r.decision_cache key now);
  }

  update_channel_status-Same :
      (r : ChannelRouter F) (ch : ChannelType) (connected : Bool) (now : ℕ)
      → Same r (update_channel_status r ch connected now)
  unfolding update_channel_status get_channel_health
  update_channel_status-Same r ch connected now = ground arith

  record_outcome-Same :
      (p95_index : ℕ → ℕ) (r : ChannelRouter F) (ch : ChannelType) (success : Bool)
      (latency : Option F.Carrier) (now : ℕ) (ts : ℕ × ℕ × ℕ × ℕ)
      → Same r (record_outcome p95_index r ch success latency now ts)
  unfolding record_outcome
  record_outcome-Same p95_index r ch success latency now ts =
      let s = get_channel_health-Same r r ch now (record { cache = refl; config = refl }) in
      record { cache = s.cache; config = s.config }

module _ {F : Float} (u : Texts) where
  route_message-IsWithin :
      (limit : ℕ) (r : ChannelRouter F) (target : String) (c : MessageCharacteristics)
      (available : List ChannelType) (t : Readings)
      → 4 ≤ limit
      → IsWithin limit r
      → IsWithin limit (route_message u r target c available t).1
  unfolding route_message route_new
  route_message-IsWithin limit r target c available t l w =
      let key = cache_key u target c in
      let c' = record c { target_location = determine_target_location u target } in
      let q = (get_cached_decision r key t.looked_up).1 in
      let seen = look_up-IsWithin limit r key t.looked_up w in
      let p = select_routing_preference q.routing_matrix c' in
      let (viable, q') = filter_viable_channels q available p c' t.observed in
      let same = filter_viable_channels-Same q available p c' t.observed in
      let fresh =
        decide-IsWithin limit q' key c' p viable t l (IsWithin-Same limit q q' seen same) in
      elim (Option-cases (get_cached_decision r key t.looked_up).0) [
        | inl e ↦ rw (route_message, e) fresh
        | inr (d, e) ↦ rw (route_message, e) seen
      ]

  module _ (p95_index : ℕ → ℕ) where
    abbrev pub step : ChannelRouter F → Op F → ChannelRouter F
    step r (routes target c available t) = (route_message u r target c available t).1
    step r (reports ch success latency now ts) =
        record_outcome p95_index r ch success latency now ts
    step r (status ch connected now) = update_channel_status r ch connected now
    step r (matrix x) = update_routing_matrix r x

    abbrev pub run : ChannelRouter F → List (Op F) → ChannelRouter F
    run r [] = r
    run r (o ∷ os) = run (step r o) os

    step-IsWithin :
        (limit : ℕ) (r : ChannelRouter F) (o : Op F)
        → 4 ≤ limit
        → IsWithin limit r
        → IsWithin limit (step r o)
    unfolding update_routing_matrix
    step-IsWithin limit r (routes target c available t) l w =
        route_message-IsWithin limit r target c available t l w
    step-IsWithin limit r (reports ch success latency now ts) l w =
        IsWithin-Same limit r _ w (record_outcome-Same p95_index r ch success latency now ts)
    step-IsWithin limit r (status ch connected now) l w =
        IsWithin-Same limit r _ w (update_channel_status-Same r ch connected now)
    step-IsWithin limit r (matrix x) l w = record { limited = w.limited; within = omega arith }

    run-IsWithin :
        (limit : ℕ) (r : ChannelRouter F) (os : List (Op F))
        → 4 ≤ limit
        → IsWithin limit r
        → IsWithin limit (run r os)
    run-IsWithin limit r [] l w = w
    run-IsWithin limit r (o ∷ os) l w =
        run-IsWithin limit (step r o) os l (step-IsWithin limit r o l w)

    -- Where the limit is at least four, no history of calls makes a new router keep more decisions.
    pub run-new-IsWithin :
        (config : RoutingConfig F) (os : List (Op F))
        → 4 ≤ config.max_cache_size
        → IsWithin config.max_cache_size (run (new F config) os)
    unfolding new
    run-new-IsWithin config os l =
        run-IsWithin config.max_cache_size (new F config) os l
          (record { limited = refl; within = omega arith })
