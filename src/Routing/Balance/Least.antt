-- ===== src/Routing/Balance/Least.antt =====
-- The channel that `_select_with_load_balancing` selects.
use pywatt_sdk.Prelude.{
  ◌≡◌, ◌⊎◌, inl, inr, refl, ◌∙◌, true, false, List, [], ◌∷◌, some, arith, All, Bool-cases, nat_eq,
}
use pywatt_sdk.Prelude.Float.{Float, min_of, IsNumeric}
use pywatt_sdk.Prelude.Dict.{Dict, put}
use pywatt_sdk.Channel.{ChannelType, channel_eq, same_iff}
use pywatt_sdk.Routing.Balance.{member, load_of, min_load, first_with, select_least}

module _ (F : Float) (d : Dict ChannelType F.Carrier)
    (real : (c : ChannelType) → F.eq (load_of F d c) (load_of F d c) ≡ true) where
  -- Some channel has a load that counts as equal.
  abbrev Attained : F.Carrier → List ChannelType → Type 0
  Attained x [] = ⊥
  Attained x (c ∷ cs) = (F.eq (load_of F d c) x ≡ true) ⊎ Attained x cs

  min_of-cases : (a b : F.Carrier) → (min_of F a b ≡ a) ⊎ (min_of F a b ≡ b)
  min_of-cases a b = elim (Bool-cases (F.lt b a)) [
    | inl below ↦ inr (rw below)
    | inr above ↦ inl (rw above)
  ]

  attains : (a : F.Carrier) (c : ChannelType) → a ≡ load_of F d c → F.eq (load_of F d c) a ≡ true
  attains a c e = rw e (real c)

  min_load-Attained :
      (least : F.Carrier) (chs : List ChannelType)
      → (min_load F d least chs ≡ least) ⊎ Attained (min_load F d least chs) chs
  unfolding min_load
  min_load-Attained least [] = inl refl
  min_load-Attained least (ch ∷ chs) =
      elim (min_load-Attained (min_of F least (load_of F d ch)) chs) [
        | inr later ↦ inr (inr later)
        | inl first ↦ elim (min_of-cases least (load_of F d ch)) [
          | inl e ↦ inl (first ∙ e)
          | inr e ↦ inr (inl (attains _ ch (first ∙ e)))
        ]
      ]

  tail_attained :
      (c : ChannelType) (x : F.Carrier) (cs : List ChannelType)
      → Attained x (c ∷ cs)
      → F.eq (load_of F d c) x ≡ false
      → Attained x cs
  tail_attained c x cs (inl e) f = ground (arith, e, f)
  tail_attained c x cs (inr a) f = a

  first_with_lem :
      (x : F.Carrier) (chs : List ChannelType)
      → Attained x chs
      → (s : ChannelType) × (first_with F d x chs ≡ some s)
        × (member s chs ≡ true)
        × (F.eq (load_of F d s) x ≡ true)
  unfolding first_with
  first_with_lem x [] a = elim a [ ]
  first_with_lem x (c ∷ cs) a = elim (Bool-cases (F.eq (load_of F d c) x)) [
    | inl e ↦ (c, rw e, ground (arith, same_iff c c), e)
    | inr e ↦
        let (s, f, m, q) = first_with_lem x cs (tail_attained c x cs a e) in
        (s, rw e f, ground (arith, m), q)
  ]

  selected :
      (ch s : ChannelType) (chs : List ChannelType)
      → first_with F d (min_load F d (load_of F d ch) chs) (ch ∷ chs) ≡ some s
      → select_least F d (ch ∷ chs) ≡ some (s, put d s (F.add (load_of F d s) (F.ratio 1 1)))
  unfolding select_least
  selected ch s chs f = rw (select_least, f) refl

  -- Where no load is a NaN (which alone is unequal to itself), a channel of the list is selected, with a
  -- load that counts as equal to the least, and only its load is raised, by one.
  pub select_least_found :
      (ch : ChannelType) (chs : List ChannelType)
      → (s : ChannelType) × (select_least F d (ch ∷ chs)
          ≡ some (s, put d s (F.add (load_of F d s) (F.ratio 1 1))))
        × (member s (ch ∷ chs) ≡ true)
        × (F.eq (load_of F d s) (min_load F d (load_of F d ch) chs) ≡ true)
  select_least_found ch chs =
      let least = min_load F d (load_of F d ch) chs in
      let (s, f, m, q) =
        first_with_lem least (ch ∷ chs) (elim (min_load-Attained (load_of F d ch) chs) [
          | inl e ↦ inl (attains _ ch e)
          | inr a ↦ inr a
        ]) in
      (s, selected ch s chs f, m, q)

module _ (F : Float) (n : IsNumeric F) (d : Dict ChannelType F.Carrier) where
  min_of-le : (a b : F.Carrier) → (F.lt a (min_of F a b) ≡ false) × (F.lt b (min_of F a b) ≡ false)
  min_of-le a b = elim (Bool-cases (F.lt b a)) [
    | inl below ↦ rw below (n.lt_asym b a below, F.lt_irrefl b)
    | inr above ↦ rw above (F.lt_irrefl a, above)
  ]

  -- No load of the list, nor the one before it, is below the least.
  min_load-le :
      (least : F.Carrier) (chs : List ChannelType)
      → (F.lt least (min_load F d least chs) ≡ false)
        × All (λ c. F.lt (load_of F d c) (min_load F d least chs) ≡ false) chs
  unfolding min_load
  min_load-le least [] = (F.lt_irrefl least, tt)
  min_load-le least (ch ∷ chs) =
      let (a, b) = min_of-le least (load_of F d ch) in
      let (rest, others) = min_load-le (min_of F least (load_of F d ch)) chs in
      (n.lt_false_trans _ _ _ a rest, (n.lt_false_trans _ _ _ b rest, others))

  not_below :
      (s : ChannelType) (least : F.Carrier) (chs : List ChannelType)
      → F.eq (load_of F d s) least ≡ true
      → All (λ c. F.lt (load_of F d c) least ≡ false) chs
      → All (λ c. F.lt (load_of F d c) (load_of F d s) ≡ false) chs
  not_below s least [] e a = tt
  not_below s least (c ∷ cs) e a =
      (n.lt_of_eq _ _ (load_of F d c) e ∙ a.0, not_below s least cs e a.1)

  -- Where no load is a NaN, a channel of the list is selected, none has a lower load, and only its load
  -- is raised, by one.
  pub select_least_lem :
      (ch : ChannelType) (chs : List ChannelType)
      → (s : ChannelType) × (select_least F d (ch ∷ chs)
          ≡ some (s, put d s (F.add (load_of F d s) (F.ratio 1 1))))
        × (member s (ch ∷ chs) ≡ true)
        × All (λ c. F.lt (load_of F d c) (load_of F d s) ≡ false) (ch ∷ chs)
  select_least_lem ch chs =
      let below = min_load-le (load_of F d ch) chs in
      let (s, f, m, q) = select_least_found F d (λ c. n.eq_refl (load_of F d c)) ch chs in
      (s, f, m, not_below s (min_load F d (load_of F d ch) chs) (ch ∷ chs) q below)
