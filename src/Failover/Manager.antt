-- ===== src/Failover/Manager.antt =====
-- `FailoverManager` of communication/failover.py. The operation acts on a world of the caller's
-- choice, which also holds the clock. No other task uses the channel's circuit breaker during a call:
-- the lock does not cover it. `send_with_batching` and `flush_batches` pass on to the batcher.
pub mod Execution
pub mod Refusal
mod Tests
use mathlib.Core.Option
use pywatt_sdk.Prelude.{ℕ, Bool, true, false, List, [], ◌∷◌, map, Option, none, some, if◌then◌else◌}
use pywatt_sdk.Prelude.Float.{Float}
use pywatt_sdk.Prelude.Dict.{Dict, get, put, has}
use pywatt_sdk.Channel.{ChannelType, channel_eq}
use pywatt_sdk.Message.{EncodedMessage}
use pywatt_sdk.Failover.Breaker
use pywatt_sdk.Failover.Breaker.{
  CircuitBreaker, CircuitBreakerConfig, CircuitBreakerState, CircuitBreakerStats, can_execute,
  record_success, record_failure, get_stats,
}
use pywatt_sdk.Failover.Batch
use pywatt_sdk.Failover.Batch.{BatchConfig, MessageBatcher, Fresh, Readings, too_large}
use pywatt_sdk.Failover.Compressor.{PerformanceConfig}
use pywatt_sdk.Failover.Retry
use pywatt_sdk.Failover.Retry.{RetryConfig, Attempt, returned, raised, Outcome}

pub record FailoverConfig (F : Float) : Type 0 where
  pub circuit_breaker : CircuitBreakerConfig
  pub retry : RetryConfig F
  pub batch : Option BatchConfig
  pub performance : PerformanceConfig
  pub enable_graceful_degradation : Bool
  pub health_check_interval : F.Carrier

pub record FailoverManager (F : Float) : Type 0 where
  pub config : FailoverConfig F
  pub circuit_breakers : Dict ChannelType CircuitBreaker
  pub message_batcher : Option MessageBatcher

-- `MessageError` of a refused call, or what the operation raised last.
pub data Failure (E : Type 0) : Type 0 where
  circuit_open : Failure E
  operation_failed : E → Failure E

abbrev pub failed_as : {E A : Type 0} → Attempt E A → Attempt (Failure E) A
failed_as (returned a) = returned a
failed_as (raised e) = raised (operation_failed e)

-- What a call returns: its result, the manager, the world, and the delays slept.
pub record Executed (F : Float) (W E A : Type 0) : Type 0 where
  pub result : Attempt (Failure E) A
  pub manager : FailoverManager F
  pub world : W
  pub slept : List F.Carrier

module _ (F : Float) {W : Type 0} (now : W → ℕ × W) where
  -- `__init__`: the first batch of the batcher is made of `fresh`.
  pub new : FailoverConfig F → Fresh → FailoverManager F
  new c fresh = record {
    config = c;
    circuit_breakers = [];
    message_batcher = Option.map (λ b. Batch.new b fresh) c.batch;
  }

  -- Makes the breaker of a channel on its first use.
  pub ensure : FailoverManager F → ChannelType → W → FailoverManager F × W
  ensure m ch w =
      let (start, w') = now w in
      let made = put m.circuit_breakers ch (Breaker.new m.config.circuit_breaker start) in
      if has m.circuit_breakers ch then (m, w) else (record m { circuit_breakers = made }, w')

  -- `protected_operation`, on the breaker that it closes over.
  pub protected :
      {E A : Type 0}
      → (W → Attempt E A × W)
      → CircuitBreaker × W
      → Attempt E A × (CircuitBreaker × W)
  protected operation (b, w) =
      let (r, w₁) = operation w in
      let (t₁, w₂) = now w₁ in
      let (t₂, w₃) = now w₂ in
      let (t₃, w₄) = now w₃ in
      elim r [
        | returned a ↦ (returned a, (record_success b t₁ t₂, w₃))
        | raised e ↦ (raised e, (record_failure b t₁ t₂ t₃, w₄))
      ]

  module _ (draw : ℕ → F.Carrier) {E A : Type 0} (operation : W → Attempt E A × W) where
    -- The breaker in the dictionary is the one that the call has changed.
    pub finish :
        FailoverManager F → ChannelType → Outcome F (CircuitBreaker × W) E A → Executed F W E A
    finish m ch o = record {
      result = failed_as o.result;
      manager = record m { circuit_breakers = put m.circuit_breakers ch o.state.0 };
      world = o.state.1;
      slept = o.slept;
    }

    pub refuse : FailoverManager F → ChannelType → CircuitBreaker → W → Executed F W E A
    refuse m ch b w = record {
      result = raised circuit_open;
      manager = record m { circuit_breakers = put m.circuit_breakers ch b };
      world = w;
      slept = [];
    }

    pub guarded : FailoverManager F → ChannelType → CircuitBreaker → W → Option (Executed F W E A)
    unfolding finish refuse
    guarded m ch b w =
        let (t, w') = now w in
        let (admitted, b') = can_execute b t in
        if admitted
        then Option.map (finish m ch)
            (Retry.execute F m.config.retry draw (protected operation) (b', w'))
        else some (refuse m ch b' w')

    -- `none` would be a `KeyError` or a retry loop that does not end.
    pub execute_with_failover : FailoverManager F → ChannelType → W → Option (Executed F W E A)
    unfolding guarded ensure
    execute_with_failover m ch w =
        let (m', w') = ensure m ch w in
        elim (get m'.circuit_breakers ch) [ none ↦ none | some b ↦ guarded m' ch b w' ]

module _ {F : Float} where
  pub get_circuit_breaker_stats : FailoverManager F → Dict ChannelType CircuitBreakerStats
  get_circuit_breaker_stats m = map (λ p. (p.0, get_stats p.1)) m.circuit_breakers

  pub set_circuit_breaker_state :
      FailoverManager F → ChannelType → CircuitBreakerState → FailoverManager F
  set_circuit_breaker_state m ch st = elim (get m.circuit_breakers ch) [
    | none ↦ m
    | some b ↦ record m { circuit_breakers = put m.circuit_breakers ch (record b { state = st }) }
  ]

  -- `false` where batching is not enabled or the message is too large: both raise `MessageError`.
  pub send_with_batching : FailoverManager F → EncodedMessage → Readings → Bool × FailoverManager F
  send_with_batching m msg r = elim m.message_batcher [
    | none ↦ (false, m)
    | some b ↦
        let (outcome, b') = Batch.add_message b msg r in
        (elim outcome [ too_large ↦ false | _ ↦ true ], record m { message_batcher = some b' })
  ]

  pub flush_batches : FailoverManager F → Fresh → FailoverManager F
  flush_batches m f = record m {
    message_batcher = Option.map (λ b. Batch.flush b f) m.message_batcher;
  }
