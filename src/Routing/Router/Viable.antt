-- ===== src/Routing/Router/Viable.antt =====
-- Which channels `_filter_viable_channels` finds.
use pywatt_sdk.Prelude.{
  ℕ, ◌≡◌, refl, Bool, true, ◌&&◌, ◌||◌, List, [], ◌∷◌, ◌++◌, Option, none, some, arith, ◌==◌,
}
use pywatt_sdk.Prelude.Float.{Float}
use pywatt_sdk.Prelude.Dict.{get, get-put}
use pywatt_sdk.Channel.{ChannelType, channel_eq, same_iff}
use pywatt_sdk.Routing.{MessageCharacteristics, ChannelPreference}
use pywatt_sdk.Routing.Health.{new_health}
use pywatt_sdk.Routing.Balance.{member}
use pywatt_sdk.Routing.Router.{
  ChannelRouter, get_channel_health, add_preferred, add_other, add_others, add_fallback,
  filter_viable_channels,
}

member-append :
    (c ch : ChannelType) (v : List ChannelType)
    → member c (v ++ (ch ∷ [])) ≡ (member c v || (ch == c))
member-append c ch [] = ground arith
member-append c ch (x ∷ v) = ground (arith, member-append c ch v)

module _ {F : Float} where
  -- Whether a channel counts as connected: one that was never seen does.
  unfoldable pub up : ChannelRouter F → ChannelType → Bool
  up r c = elim (get r.channel_health c) [ none ↦ true | some h ↦ h.connected ]

  health-up :
      (r : ChannelRouter F) (ch : ChannelType) (now : ℕ)
      → (get_channel_health r ch now).0.connected ≡ up r ch
  unfolding get_channel_health up
  health-up r ch now = ground arith

  up-get_channel_health :
      (r : ChannelRouter F) (ch c : ChannelType) (now : ℕ)
      → up (get_channel_health r ch now).1 c ≡ up r c
  unfolding get_channel_health up
  up-get_channel_health r ch c now =
      ground (arith, get-put r.channel_health ch c (new_health F now), same_iff ch c)

  module _ (r : ChannelRouter F) (c : ChannelType) (now : ℕ) where
    -- The router knows the channel as it did, and every channel found is there.
    abbrev Finds : List ChannelType → List ChannelType × ChannelRouter F → Type 0
    Finds available s =
        (up s.1 c ≡ up r c) × ((member c s.0 ≡ true) → (member c available && up r c) ≡ true)

    add_preferred-Finds :
        (p : ChannelPreference F) (m : MessageCharacteristics) (available : List ChannelType)
        (ch : ChannelType) (s : List ChannelType × ChannelRouter F)
        → Finds available s
        → Finds available (add_preferred p m available now ch s)
    unfolding add_preferred
    add_preferred-Finds p m available ch (v, q) f = ground (
      arith,
      f.1,
      health-up q ch now,
      up-get_channel_health q ch c now,
      member-append c ch v,
      same_iff ch c,
    )

    add_fallback-Finds :
        (p : ChannelPreference F) (m : MessageCharacteristics) (available : List ChannelType)
        (o : Option ChannelType) (s : List ChannelType × ChannelRouter F)
        → Finds available s
        → Finds available (add_fallback p m available now o s)
    unfolding add_fallback
    add_fallback-Finds p m available none s f = f
    add_fallback-Finds p m available (some ch) s f = add_preferred-Finds p m available ch s f

    add_other-up :
        (ch : ChannelType) (s : List ChannelType × ChannelRouter F)
        → up s.1 c ≡ up r c
        → (up (add_other now ch s).1 c ≡ up r c)
          × (member c (add_other now ch s).0 ≡ (member c s.0 || ((ch == c) && up r c)))
    unfolding add_other
    add_other-up ch (v, q) e = ground (
      arith,
      health-up q ch now,
      up-get_channel_health q ch c now,
      member-append c ch v,
      same_iff ch c,
    )

    add_others-up :
        (chs : List ChannelType) (s : List ChannelType × ChannelRouter F)
        → up s.1 c ≡ up r c
        → (up (add_others now chs s).1 c ≡ up r c)
          × (member c (add_others now chs s).0 ≡ (member c s.0 || (member c chs && up r c)))
    unfolding add_others
    add_others-up [] s e = (e, ground arith)
    add_others-up (ch ∷ chs) s e =
        let (e', m) = add_other-up ch s e in
        let rest = add_others-up chs (add_other now ch s) e' in (rest.0, ground (arith, m, rest.1))

    -- A channel is viable exactly when it is available and connected, whatever is preferred; and the
    -- search changes no channel's connection.
    pub filter_viable_channels_iff :
        (available : List ChannelType) (p : ChannelPreference F) (m : MessageCharacteristics)
        → (member c (filter_viable_channels r available p m now).0 ≡ (member c available && up r c))
          × (up (filter_viable_channels r available p m now).1 c ≡ up r c)
    unfolding filter_viable_channels
    filter_viable_channels_iff available p m =
        let first = add_preferred-Finds p m available p.primary ([], r) (refl, λ e. ground arith) in
        let s = add_preferred p m available now p.primary ([], r) in
        let found = add_fallback-Finds p m available p.fallback s first in
        let all = add_others-up available (add_fallback p m available now p.fallback s) found.0 in
        (ground (arith, all.1, found.1), all.0)

  -- The search for viable channels leaves the loads alone.
  Loads : ChannelRouter F → List ChannelType × ChannelRouter F → Type 0
  Loads r s = s.1.load_balance_state ≡ r.load_balance_state

  module _ (r : ChannelRouter F) (now : ℕ) where
    add_preferred-Loads :
        (p : ChannelPreference F) (m : MessageCharacteristics) (available : List ChannelType)
        (ch : ChannelType) (s : List ChannelType × ChannelRouter F)
        → Loads r s
        → Loads r (add_preferred p m available now ch s)
    unfolding Loads add_preferred get_channel_health
    add_preferred-Loads p m available ch (v, q) e = ground (arith, e)

    add_fallback-Loads :
        (p : ChannelPreference F) (m : MessageCharacteristics) (available : List ChannelType)
        (o : Option ChannelType) (s : List ChannelType × ChannelRouter F)
        → Loads r s
        → Loads r (add_fallback p m available now o s)
    unfolding add_fallback
    add_fallback-Loads p m available none s e = e
    add_fallback-Loads p m available (some ch) s e = add_preferred-Loads p m available ch s e

    add_others-Loads :
        (chs : List ChannelType) (s : List ChannelType × ChannelRouter F)
        → Loads r s
        → Loads r (add_others now chs s)
    unfolding Loads add_others add_other get_channel_health
    add_others-Loads [] s e = e
    add_others-Loads (ch ∷ chs) s e = add_others-Loads chs (add_other now ch s) (other s e)
      where
        other : (s : List ChannelType × ChannelRouter F) → Loads r s → Loads r (add_other now ch s)
        other (v, q) e = ground (arith, e)

    pub filter_viable_channels-loads :
        (available : List ChannelType) (p : ChannelPreference F) (m : MessageCharacteristics)
        → (filter_viable_channels r available p m now).1.load_balance_state ≡ r.load_balance_state
    unfolding filter_viable_channels Loads
    filter_viable_channels-loads available p m =
        let s = add_preferred p m available now p.primary ([], r) in
        add_others-Loads available (add_fallback p m available now p.fallback s) (
          add_fallback-Loads p m available p.fallback s
            (add_preferred-Loads p m available p.primary ([], r) refl))
