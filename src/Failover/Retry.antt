-- ===== src/Failover/Retry.antt =====
-- `RetryMechanism` of communication/failover.py. The operation is a parameter: it changes a state of
-- the caller's choice and returns or raises. Draws of `random.random()` are an argument, by number,
-- and sleeping is a list of delays. The loop is on fuel.
pub mod Attempts
mod Tests
use pywatt_sdk.Prelude.{
  ℕ, zero, suc, ◌+◌, Bool, List, [], ◌∷◌, Option, none, some, max, leb, if◌then◌else◌,
}
use pywatt_sdk.Prelude.Float.{Float, min_of}

pub record RetryConfig (F : Float) : Type 0 where
  pub max_attempts : ℕ
  pub base_delay : F.Carrier
  pub max_delay : F.Carrier
  pub backoff_multiplier : F.Carrier
  pub jitter_factor : F.Carrier
  pub retry_on_all_errors : Bool

-- A call returns or raises.
pub data Attempt (E A : Type 0) : Type 0 where
  returned : A → Attempt E A
  raised : E → Attempt E A

-- What `execute` leaves: its result, the state, and the delays slept, before and after the jitter.
pub record Outcome (F : Float) (S E A : Type 0) : Type 0 where
  pub result : Attempt E A
  pub state : S
  pub delays : List F.Carrier
  pub slept : List F.Carrier

module _ (F : Float) where
  open F use {Carrier, add, sub, mul, ratio}

  -- `delay * (1.0 + (random.random() - 0.5) * jitter_factor)`
  abbrev pub jittered : RetryConfig F → Carrier → Carrier → Carrier
  jittered c draw delay = mul delay (add (ratio 1 1) (mul (sub draw (ratio 1 2)) c.jitter_factor))

  abbrev pub backoff : RetryConfig F → Carrier → Carrier
  backoff c delay = min_of F (mul delay c.backoff_multiplier) c.max_delay

module _ (F : Float) {S E A : Type 0} where
  open F use {Carrier}

  abbrev pub ends : Attempt E A → S → Option (Outcome F S E A)
  ends r s = some (record { result = r; state = s; delays = []; slept = [] })

  abbrev pub sleeps : Carrier → Carrier → Option (Outcome F S E A) → Option (Outcome F S E A)
  sleeps d j none = none
  sleeps d j (some o) = some (record o { delays = d ∷ o.delays; slept = j ∷ o.slept })

  module _ (c : RetryConfig F) (draw : ℕ → Carrier) (operation : S → Attempt E A × S) where
    -- `while True`, with `attempt` and `delay` as the round finds them. Both settings of
    -- `retry_on_all_errors` go on.
    pub loop : ℕ → ℕ → Carrier → S → Option (Outcome F S E A)
    loop zero attempt delay s = none
    loop (suc fuel) attempt delay s =
        let (r, s') = operation s in
        let rest =
          sleeps delay (jittered F c (draw (attempt + 1)) delay)
            (loop fuel (attempt + 1) (backoff F c delay) s') in
        elim r [
          | returned a ↦ ends (returned a) s'
          | raised e ↦ if leb c.max_attempts (attempt + 1) then ends (raised e) s' else rest
        ]

    -- One round is made also where `max_attempts` is 0.
    pub execute : S → Option (Outcome F S E A)
    unfolding loop
    execute s = loop (max 1 c.max_attempts) 0 c.base_delay s
