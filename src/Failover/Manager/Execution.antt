-- ===== src/Failover/Manager/Execution.antt =====
-- A call of `execute_with_failover` that the circuit breaker admits.
use pywatt_sdk.Prelude.{
  ℕ, zero, suc, ◌+◌, ◌-◌, ◌≡◌, refl, ap, ◌∙◌, true, List, [], ◌∷◌, some, arith, length, max,
  if◌then◌else◌, ◌==◌,
}
use pywatt_sdk.Prelude.Float.{Float}
use pywatt_sdk.Prelude.Dict.{get, get-put}
use pywatt_sdk.Channel.{ChannelType, channel_eq}
use pywatt_sdk.Failover.Breaker.{CircuitBreaker, Call, succeeds, fails, step, run, can_execute}
use pywatt_sdk.Failover.Retry
use pywatt_sdk.Failover.Retry.{Attempt, returned, raised, Outcome}
use pywatt_sdk.Failover.Retry.Attempts.{try_up_to, retries, execute-Describes}
use pywatt_sdk.Failover.Manager.{
  FailoverManager, Executed, protected, finish, guarded, execute_with_failover, failed_as,
}
use pywatt_sdk.Failover.Manager.Refusal.{execute-guarded}

module _ (F : Float) {W : Type 0} (now : W → ℕ × W) {E A : Type 0}
    (operation : W → Attempt E A × W) where
  -- The call that an attempt makes on the breaker.
  pub recorded : W → Call
  recorded w =
      let (r, w₁) = operation w in
      let (t₁, w₂) = now w₁ in
      let (t₂, w₃) = now w₂ in
      let (t₃, w₄) = now w₃ in elim r [ returned a ↦ succeeds t₁ t₂ | raised e ↦ fails t₁ t₂ t₃ ]

  protected-recorded :
      (b : CircuitBreaker) (w : W) → (protected F now operation (b, w)).1.0 ≡ step b (recorded w)
  unfolding protected recorded step
  protected-recorded b w = ground arith

  -- The calls that up to `n` further attempts make, in order.
  pub records : ℕ → CircuitBreaker → W → List Call
  records zero b w = recorded w ∷ []
  records (suc n) b w =
      let (r, (b', w')) = protected F now operation (b, w) in
      let rest = records n b' w' in
      elim r [ returned a ↦ recorded w ∷ [] | raised e ↦ recorded w ∷ rest ]

  try-run :
      (n : ℕ) (b : CircuitBreaker) (w : W)
      → (try_up_to (protected F now operation) n (b, w)).1.0 ≡ run b (records n b w)
  unfolding try_up_to records run
  try-run zero b w = protected-recorded b w
  try-run (suc n) b w = ground (
    arith,
    protected-recorded b w,
    try-run n (protected F now operation (b, w)).1.0 (protected F now operation (b, w)).1.1,
  )

  length-records :
      (n : ℕ) (b : CircuitBreaker) (w : W)
      → length (records n b w) ≡ retries (protected F now operation) n (b, w) + 1
  unfolding records retries
  length-records zero b w = refl
  length-records (suc n) b w = ground (
    arith,
    length-records n (protected F now operation (b, w)).1.0 (protected F now operation (b, w)).1.1,
  )

  -- What an admitted call leaves, where `b` is the breaker as the check left it, `w` the world then,
  -- and `n` the number of further attempts that are allowed.
  pub record IsAdmitted (n : ℕ) (m : FailoverManager F) (ch : ChannelType) (b : CircuitBreaker)
      (w : W) (x : Executed F W E A) : Type 0 where
    pub result : x.result ≡ failed_as (try_up_to (protected F now operation) n (b, w)).0
    pub world : x.world ≡ (try_up_to (protected F now operation) n (b, w)).1.1
    pub attempts : length x.slept + 1 ≡ length (records n b w)
    pub breakers :
        (j : ChannelType)
        → get x.manager.circuit_breakers j
          ≡ (if ch == j then some (run b (records n b w)) else get m.circuit_breakers j)

  module _ (draw : ℕ → F.Carrier) where
    guarded_admitted :
        (m : FailoverManager F) (ch : ChannelType) (b : CircuitBreaker) (w : W)
        (o : Outcome F (CircuitBreaker × W) E A)
        → (can_execute b (now w).0).0 ≡ true
        → Retry.execute F m.config.retry draw
            (protected F now operation)
            ((can_execute b (now w).0).1, (now w).1)
          ≡ some o
        → guarded F now draw operation m ch b w ≡ some (finish F now draw operation m ch o)
    unfolding guarded
    guarded_admitted m ch b w o h p = rw (h, p)

    -- If the channel's breaker admits the request, the call always comes to an end. The operation is
    -- tried as by a retry loop that does not know of the breaker; its last outcome is the result;
    -- each attempt is recorded on the channel's breaker once, in order; and no other breaker changes.
    pub execute_with_failover-IsAdmitted :
        (m : FailoverManager F) (ch : ChannelType) (b : CircuitBreaker) (w : W)
        → get m.circuit_breakers ch ≡ some b
        → (can_execute b (now w).0).0 ≡ true
        → (x : Executed F W E A) × (execute_with_failover F now draw operation m ch w ≡ some x)
          × IsAdmitted
              (m.config.retry.max_attempts - 1)
              m
              ch
              (can_execute b (now w).0).1
              (now w).1
              x
    unfolding finish
    execute_with_failover-IsAdmitted m ch b w e h =
        let n = m.config.retry.max_attempts - 1 in
        let b' = (can_execute b (now w).0).1 in
        let (o, p, d) =
          execute-Describes F m.config.retry draw (protected F now operation) (b', (now w).1) in
        (
          finish F now draw operation m ch o,
          execute-guarded F now draw operation m ch b w e ∙ guarded_admitted m ch b w o h p,
          record {
            result = ap failed_as d.result;
            world = ap (λ s. s.1) d.state;
            attempts = omega (arith, d.pauses, length-records n b' (now w).1);
            breakers = λ j.
                get-put m.circuit_breakers ch j o.state.0
                ∙ ap (λ c. if ch == j then some c else get m.circuit_breakers j)
                    (ap (λ s. s.0) d.state ∙ try-run n b' (now w).1);
          },
        )

    always_failing :
        ((u : W) → (e : E) × (u' : W) × (operation u ≡ (raised e, u')))
        → (n : ℕ) (b : CircuitBreaker) (w : W) → length (records n b w) ≡ n + 1
    unfolding records protected
    always_failing f zero b w = omega arith
    always_failing f (suc n) b w = ground (
      arith,
      f w,
      always_failing f n (protected F now operation (b, w)).1.0
          (protected F now operation (b, w)).1.1,
    )

    -- An admitted call of an operation that always raises makes all of its attempts, also when the
    -- first of them opens the circuit: the breaker is asked once, before the loop.
    pub execute_with_failover_failing :
        (m : FailoverManager F) (ch : ChannelType) (b : CircuitBreaker) (w : W)
        → get m.circuit_breakers ch ≡ some b
        → (can_execute b (now w).0).0 ≡ true
        → ((u : W) → (e : E) × (u' : W) × (operation u ≡ (raised e, u')))
        → (x : Executed F W E A) × (execute_with_failover F now draw operation m ch w ≡ some x)
          × (length x.slept + 1 ≡ max 1 m.config.retry.max_attempts)
    execute_with_failover_failing m ch b w e h f =
        let (x, p, a) = execute_with_failover-IsAdmitted m ch b w e h in
        let n = m.config.retry.max_attempts - 1 in
        let all = always_failing f n (can_execute b (now w).0).1 (now w).1 in
        (x, p, omega (arith, a.attempts, all))
