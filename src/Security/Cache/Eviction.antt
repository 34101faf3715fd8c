-- ===== src/Security/Cache/Eviction.antt =====
-- Which entry of a `SecretCache` is evicted.
use pywatt_sdk.Prelude.{
  ℕ, ◌≤◌, ◌<◌, ◌≡◌, String, [], ◌∷◌, some, arith, ltb, string_eq, Bool-cases, inl, inr, ltb→lt,
  ==_refl,
}
use pywatt_sdk.Prelude.Dict.{Dict, get}
use pywatt_sdk.Prelude.Dict.Distinct.{Distinct}
use pywatt_sdk.Security.Cache.{least_from}

-- The key has a time, and no key has an earlier one.
pub record IsLeast (d : Dict String ℕ) (key : String) : Type 0 where
  pub time : ℕ
  pub read : get d key ≡ some time
  pub least : (j : String) (u : ℕ) → get d j ≡ some u → time ≤ u

IsLeast-later :
    (k j : String) (t u : ℕ) (d : Dict String ℕ) (x : String)
    → Distinct ((k, t) ∷ (j, u) ∷ d)
    → u < t
    → IsLeast ((j, u) ∷ d) x
    → IsLeast ((k, t) ∷ (j, u) ∷ d) x
unfolding get
IsLeast-later k j t u d x w lt l = record {
  time = l.time;
  read = ground (arith, l.read, w.0, string_eq.beq_iff k x);
  least = λ i v e. ground (arith, l.least i v, l.least j u, ==_refl j);
}

IsLeast-earlier :
    (k j : String) (t u : ℕ) (d : Dict String ℕ) (x : String)
    → Distinct ((k, t) ∷ (j, u) ∷ d)
    → t ≤ u
    → IsLeast ((k, t) ∷ d) x
    → IsLeast ((k, t) ∷ (j, u) ∷ d) x
unfolding get
IsLeast-earlier k j t u d x w le l = record {
  time = l.time;
  read = ground (arith, l.read, w.0, w.1.0, string_eq.beq_iff k x, string_eq.beq_iff j x);
  least = λ i v e. ground (arith, l.least i v, l.least k t, ==_refl k);
}

pub least_from-IsLeast :
    (k : String) (t : ℕ) (d : Dict String ℕ)
    → Distinct ((k, t) ∷ d)
    → IsLeast ((k, t) ∷ d) (least_from k t d)
unfolding least_from get
least_from-IsLeast k t [] w = record {
  time = t;
  read = ground (arith, ==_refl k);
  least = λ j u e. ground arith;
}
least_from-IsLeast k t ((j, u) ∷ d) w = elim (Bool-cases (ltb u t)) [
  | inl e ↦ rw e (IsLeast-later k j t u d _ w (ltb→lt u t e) (least_from-IsLeast j u d w.1))
  | inr e ↦ rw e (
      IsLeast-earlier k j t u d _ w (ground arith)
        (least_from-IsLeast k t d (ground (arith, w.0), w.1.1)))
]
