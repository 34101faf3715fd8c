-- ===== src/Failover/Manager/Refusal.antt =====
-- A call of `execute_with_failover` that the circuit breaker refuses, and what a call leaves alone.
use pywatt_sdk.Prelude.{ℕ, ◌≡◌, refl, ◌∙◌, false, [], none, some, arith}
use pywatt_sdk.Prelude.Float.{Float}
use pywatt_sdk.Prelude.Dict.{Dict, get, put, has, get-put, get-put_self}
use pywatt_sdk.Channel.{ChannelType, channel_eq, same_iff}
use pywatt_sdk.Failover.Breaker.{CircuitBreaker, can_execute, opened}
use pywatt_sdk.Failover.Breaker.Transitions.{can_execute_refused}
use pywatt_sdk.Failover.Retry.{Attempt, raised}
use pywatt_sdk.Failover.Manager.{
  FailoverManager, circuit_open, Executed, ensure, refuse, guarded, execute_with_failover,
  set_circuit_breaker_state,
}

module _ (F : Float) {W : Type 0} (now : W → ℕ × W) (draw : ℕ → F.Carrier) {E A : Type 0}
    (operation : W → Attempt E A × W) where
  -- A call that was refused: the operation has not run, and no breaker has changed.
  pub record IsRefused (m : FailoverManager F) (w : W) (x : Executed F W E A) : Type 0 where
    pub result : x.result ≡ raised circuit_open
    pub only_clock : x.world ≡ (now w).1
    pub no_sleep : x.slept ≡ []
    pub same_breakers :
        (j : ChannelType) → get x.manager.circuit_breakers j ≡ get m.circuit_breakers j

  ensure_old :
      (m : FailoverManager F) (ch : ChannelType) (b : CircuitBreaker) (w : W)
      → get m.circuit_breakers ch ≡ some b
      → ensure F now m ch w ≡ (m, w)
  unfolding ensure has
  ensure_old m ch b w e = ground arith

  get-put_same :
      (d : Dict ChannelType CircuitBreaker) (ch j : ChannelType) (b : CircuitBreaker)
      → get d ch ≡ some b
      → get (put d ch b) j ≡ get d j
  get-put_same d ch j b e = ground (arith, get-put d ch j b, same_iff ch j)

  pub execute-guarded :
      (m : FailoverManager F) (ch : ChannelType) (b : CircuitBreaker) (w : W)
      → get m.circuit_breakers ch ≡ some b
      → execute_with_failover F now draw operation m ch w ≡ guarded F now draw operation m ch b w
  unfolding execute_with_failover
  execute-guarded m ch b w e = ground (arith, ensure_old m ch b w e)

  guarded_refused :
      (m : FailoverManager F) (ch : ChannelType) (b : CircuitBreaker) (w : W)
      → (can_execute b (now w).0).0 ≡ false
      → guarded F now draw operation m ch b w ≡ some (refuse F now draw operation m ch b (now w).1)
  unfolding guarded
  guarded_refused m ch b w h = ground (arith, can_execute_refused b (now w).0 h)

  -- If the channel's breaker refuses at the time of the call, the call fails with the circuit's error:
  -- the operation is not run, nothing is slept, and no breaker changes.
  pub execute_with_failover-IsRefused :
      (m : FailoverManager F) (ch : ChannelType) (b : CircuitBreaker) (w : W)
      → get m.circuit_breakers ch ≡ some b
      → (can_execute b (now w).0).0 ≡ false
      → (x : Executed F W E A) × (execute_with_failover F now draw operation m ch w ≡ some x)
        × IsRefused m w x
  unfolding refuse
  execute_with_failover-IsRefused m ch b w e h = (
    refuse F now draw operation m ch b (now w).1,
    execute-guarded m ch b w e ∙ guarded_refused m ch b w h,
    record {
      result = refl;
      only_clock = refl;
      no_sleep = refl;
      same_breakers = λ j. get-put_same m.circuit_breakers ch j b e;
    },
  )

  -- A breaker that is set to open before any failure has no time-out to wait for: every later call on
  -- its channel is refused, whenever it comes.
  pub set_open-IsRefused :
      (m : FailoverManager F) (ch : ChannelType) (b : CircuitBreaker) (w : W)
      → get m.circuit_breakers ch ≡ some b
      → b.last_failure_time ≡ none
      → (x : Executed F W E A) × (execute_with_failover F now draw operation
            (set_circuit_breaker_state m ch opened)
            ch
            w
          ≡ some x)
        × IsRefused (set_circuit_breaker_state m ch opened) w x
  unfolding set_circuit_breaker_state can_execute
  set_open-IsRefused m ch b w e n =
      execute_with_failover-IsRefused (set_circuit_breaker_state m ch opened) ch
        (record b { state = opened }) w
        (ground (arith, get-put_self m.circuit_breakers ch (record b { state = opened })))
        (ground arith)
