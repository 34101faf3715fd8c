-- ===== src/Routing/Router/Decisions.antt =====
-- What `route_message` decides, and what its cache does to that.
use mathlib.Core.Path.{subst}
use pywatt_sdk.Prelude.{
  ℕ, ◌-◌, ◌<◌, ◌≡◌, inl, inr, refl, sym, ◌∙◌, String, Bool, true, false, ◌&&◌, ◌||◌, List, [], ◌∷◌,
  some, arith, Bool-cases, string_eq, nat_eq,
}
use pywatt_sdk.Prelude.Float.{Float, IsNumeric}
use pywatt_sdk.Prelude.Dict.{Dict, get, put, get-put_self}
use pywatt_sdk.Channel.{ChannelType, tcp, ipc, channel_eq, same_iff}
use pywatt_sdk.Routing.{
  MessageCharacteristics, ChannelPreference, RoutingDecision, RoutingCacheEntry,
}
use pywatt_sdk.Routing.Selection.{
  Texts, cache_key, determine_target_location, select_routing_preference,
}
use pywatt_sdk.Routing.Balance.{member, second, load_of, select_least}
use pywatt_sdk.Routing.Balance.Least.{select_least_lem, select_least_found}
use pywatt_sdk.Routing.DecisionCache.{look_up, store_decision, drop_oldest}
use pywatt_sdk.Routing.Router.{
  ChannelRouter, Routed, decided, no_channel, raised, Readings, get_channel_health,
  select_with_load_balancing, filter_viable_channels, choose, decide, make_decision, route_new,
  route_message, get_cached_decision, cache_decision, update_channel_status,
}
use pywatt_sdk.Routing.Router.Viable.{up, filter_viable_channels_iff, filter_viable_channels-loads}

less_loaded :
    (F : Float) (d : Dict ChannelType F.Carrier) (a b s : ChannelType)
    → F.lt (load_of F d b) (load_of F d a) ≡ true
    → F.lt (load_of F d b) (load_of F d s) ≡ false
    → member s (a ∷ b ∷ []) ≡ true
    → s ≡ b
less_loaded F d a b s l k m = ground (arith, l, k, m, same_iff a s, same_iff b s)

module _ {F : Float} where
  -- Some channel of the list counts as connected.
  abbrev pub any_up : ChannelRouter F → List ChannelType → Bool
  any_up r [] = false
  any_up r (ch ∷ chs) = up r ch || any_up r chs

  -- A decision is for a channel that is available and connected; without one, none is.
  abbrev pub IsRight : ChannelRouter F → List ChannelType → Routed F → Type 0
  IsRight r available (decided d) =
      (member d.primary_channel available && up r d.primary_channel) ≡ true
  IsRight r available no_channel = any_up r available ≡ false
  IsRight r available raised = ⊥

  balanced : ChannelRouter F → ChannelType → ChannelRouter F
  balanced r s =
      let d = r.load_balance_state in
      record r { load_balance_state = put d s (F.add (load_of F d s) (F.ratio 1 1)) }

  balanced_lem :
      (r : ChannelRouter F) (ch other s : ChannelType) (chs : List ChannelType)
      → r.config.enable_load_balancing ≡ true
      → select_least F r.load_balance_state (ch ∷ other ∷ chs)
        ≡ some
            (s, put r.load_balance_state s (F.add (load_of F r.load_balance_state s) (F.ratio 1 1)))
      → choose r (ch ∷ other ∷ chs) ≡ some (s, balanced r s)
  unfolding choose select_with_load_balancing balanced
  balanced_lem r ch other s chs e f = ground (arith, f)

  -- No load is a NaN, which alone is unequal to itself.
  abbrev pub NoNan : ChannelRouter F → Type 0
  NoNan r =
      (c : ChannelType)
      → F.eq (load_of F r.load_balance_state c) (load_of F r.load_balance_state c) ≡ true

  -- Where no load is a NaN, one of the viable channels is chosen, if there is one.
  choose_lem :
      (r : ChannelRouter F) (n : NoNan r) (ch : ChannelType) (chs : List ChannelType)
      → (s : ChannelType) × (r' : ChannelRouter F) × (choose r (ch ∷ chs) ≡ some (s, r'))
        × (member s (ch ∷ chs) ≡ true)
  unfolding choose
  choose_lem r n ch [] = (ch, r, refl, ground (arith, same_iff ch ch))
  choose_lem r n ch (other ∷ chs) =
      let (s, f, m, l) = select_least_found F r.load_balance_state n ch (other ∷ chs) in
      elim (Bool-cases r.config.enable_load_balancing) [
        | inl e ↦ (s, balanced r s, balanced_lem r ch other s chs e f, m)
        | inr e ↦ (ch, r, rw e refl, ground (arith, same_iff ch ch))
      ]

  decide_lem :
      (r r' : ChannelRouter F) (key : String) (c : MessageCharacteristics) (p : ChannelPreference F)
      (viable : List ChannelType) (t : Readings) (s : ChannelType)
      → choose r viable ≡ some (s, r')
      → (d : RoutingDecision F) × ((decide r key c p viable t).0 ≡ decided d)
        × (d.primary_channel ≡ s)
        × (d.fallback_channel ≡ second viable)
  unfolding decide
  decide_lem r r' key c p viable t s e = (
    make_decision p c (get_channel_health r' s t.observed).0 s (second viable),
    rw (decide, e) refl,
    refl,
    refl,
  )

  -- With load balancing, where two channels are viable and the second has the lower load, it is the
  -- primary channel, and its own fallback.
  pub decide_fallback :
      (n : IsNumeric F) (r : ChannelRouter F) (key : String) (c : MessageCharacteristics)
      (p : ChannelPreference F) (a b : ChannelType) (t : Readings)
      → r.config.enable_load_balancing ≡ true
      → F.lt (load_of F r.load_balance_state b) (load_of F r.load_balance_state a) ≡ true
      → (d : RoutingDecision F) × ((decide r key c p (a ∷ b ∷ []) t).0 ≡ decided d)
        × (d.primary_channel ≡ b)
        × (d.fallback_channel ≡ some b)
  decide_fallback n r key c p a b t e l =
      let (s, f, m, below) = select_least_lem F n r.load_balance_state a (b ∷ []) in
      let (d, g, primary, fallback) =
        decide_lem r (balanced r s) key c p (a ∷ b ∷ []) t s (balanced_lem r a b s [] e f) in
      (d, g, primary ∙ less_loaded F r.load_balance_state a b s l below.1.0 m, fallback)

  no_member-any_up :
      (r : ChannelRouter F) (available : List ChannelType)
      → (member tcp available && up r tcp) ≡ false
      → (member ipc available && up r ipc) ≡ false
      → any_up r available ≡ false
  no_member-any_up r [] h k = refl
  no_member-any_up r (tcp ∷ chs) h k = ground (arith, no_member-any_up r chs)
  no_member-any_up r (ipc ∷ chs) h k = ground (arith, no_member-any_up r chs)

  -- From the viable channels, whatever they were found by.
  decide-IsRight :
      (r q : ChannelRouter F) (n : NoNan q) (key : String) (c : MessageCharacteristics)
      (p : ChannelPreference F) (viable available : List ChannelType) (t : Readings)
      → ((ch : ChannelType) → member ch viable ≡ (member ch available && up r ch))
      → IsRight r available (decide q key c p viable t).0
  unfolding decide choose
  decide-IsRight r q n key c p [] available t v =
      no_member-any_up r available (sym (v tcp)) (sym (v ipc))
  decide-IsRight r q n key c p (ch ∷ chs) available t v =
      let (s, r', e, m) = choose_lem q n ch chs in
      let (d, f, primary, fallback) = decide_lem q r' key c p (ch ∷ chs) t s e in
      subst (IsRight r available) (sym f) (rw primary (sym (v s) ∙ m))

  module _ (u : Texts) (r : ChannelRouter F) (target : String) (c : MessageCharacteristics) where
    -- Where no load is a NaN, a new decision is for a channel that is available and connected, `None` is
    -- returned only where there is none, and no exception is raised.
    pub route_new-IsRight :
        (n : NoNan r) (available : List ChannelType) (t : Readings)
        → IsRight r available (route_new u r target c available t).0
    unfolding route_new
    route_new-IsRight n available t =
        let c' = record c { target_location = determine_target_location u target } in
        let p = select_routing_preference r.routing_matrix c' in
        let (viable, q) = filter_viable_channels r available p c' t.observed in
        let loads = sym (filter_viable_channels-loads r t.observed available p c') in
        decide-IsRight r q (subst NumericLoads loads n) (cache_key u target c) c' p viable available
          t λ ch. (filter_viable_channels_iff r ch t.observed available p c').0
      where
        NumericLoads : Dict ChannelType F.Carrier → Type 0
        NumericLoads d = (ch : ChannelType) → F.eq (load_of F d ch) (load_of F d ch) ≡ true

  -- A decision is put in the cache with the time of the last reading.
  abbrev entry : RoutingDecision F → ℕ → RoutingCacheEntry F
  entry d now = record { decision = d; cached_at = now; hit_count = 0 }

  decide_kept :
      (r r' : ChannelRouter F) (key : String) (c : MessageCharacteristics) (p : ChannelPreference F)
      (viable : List ChannelType) (t : Readings) (d : RoutingDecision F)
      → decide r key c p viable t ≡ (decided d, r')
      → get r'.decision_cache key ≡ some (entry d t.kept)
  unfolding decide cache_decision store_decision
  decide_kept r r' key c p viable t d e = ground (
    arith,
    e,
    get-put_self (drop_oldest r.config.max_cache_size r.decision_cache) key (entry d t.kept),
  )

  -- The status of a channel is no business of the cache.
  update_channel_status_keeps :
      (r : ChannelRouter F) (ch : ChannelType) (connected : Bool) (now : ℕ)
      → ((update_channel_status r ch connected now).decision_cache ≡ r.decision_cache)
        × ((update_channel_status r ch connected now).config ≡ r.config)
  unfolding update_channel_status get_channel_health
  update_channel_status_keeps r ch connected now = ground arith

  look_up_young :
      (ttl now : ℕ) (d : Dict String (RoutingCacheEntry F)) (key : String) (x : RoutingDecision F)
      (at : ℕ)
      → get d key ≡ some (entry x at)
      → now - at < ttl
      → (look_up ttl d key now).0 ≡ some x
  unfolding look_up
  look_up_young ttl now d key x at e young = ground (arith, e)

  module _ (u : Texts) (r : ChannelRouter F) (target : String) (c : MessageCharacteristics) where
    -- A decision that is found is given.
    route_message-look_up :
        (later : List ChannelType) (t : Readings) (d : RoutingDecision F)
        → (look_up r.config.cache_ttl r.decision_cache (cache_key u target c) t.looked_up).0
          ≡ some d
        → (route_message u r target c later t).0 ≡ decided d
    unfolding route_message get_cached_decision
    route_message-look_up later t d e = ground (arith, e)

  module _ (u : Texts) (r r' : ChannelRouter F) (target : String) (c : MessageCharacteristics) where
    -- While a decision is young it is given again, although the channel that it names has been reported
    -- as disconnected (or any channel as either) and is not available any more.
    pub route_message_stale :
        (available later : List ChannelType) (t t' : Readings) (d : RoutingDecision F)
        (ch : ChannelType) (connected : Bool) (now : ℕ)
        → route_new u r target c available t ≡ (decided d, r')
        → t'.looked_up - t.kept < r'.config.cache_ttl
        → (route_message u (update_channel_status r' ch connected now) target c later t').0
          ≡ decided d
    unfolding route_new
    route_message_stale available later t t' d ch connected now e young =
        let key = cache_key u target c in
        let c' = record c { target_location = determine_target_location u target } in
        let p = select_routing_preference r.routing_matrix c' in
        let (viable, q) = filter_viable_channels r available p c' t.observed in
        let kept = decide_kept q r' key c' p viable t d e in
        let s = update_channel_status r' ch connected now in
        let (same, config) = update_channel_status_keeps r' ch connected now in
        route_message-look_up u s target c later t' d (
          look_up_young s.config.cache_ttl t'.looked_up s.decision_cache key d t.kept (rw same kept)
            (rw config young))
