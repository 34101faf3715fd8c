-- ===== src/Tcp/Policies.antt =====
-- The reconnection policies of a `TcpChannel`.
use pywatt_sdk.Prelude.{
  ℕ, zero, suc, ◌≤◌, ◌≡◌, sym, false, List, ◌∷◌, ◌++◌, some, arith, length, All, Bool-cases, inl,
  inr,
}
use mathlib.Core.Path.{subst}
use pywatt_sdk.Prelude.Float.{Float, min_of}
use pywatt_sdk.Message.{EncodedMessage}
use pywatt_sdk.Tcp.{
  failed, connecting, fixed_interval, exponential_backoff, Stream, Attempt, opened,
  connection_failed, raised, TcpChannel, connect_fixed_interval, connect_exponential_backoff,
  connect_with_retry,
}
use pywatt_sdk.Tcp.Calls.{send, receive}
use pywatt_sdk.Tcp.Connecting.{
  IsFailing, times, delays, Opened, GaveUp, Tries, next_delay, fixed-Opened, fixed-GaveUp,
  backoff-Tries, backoff-Opened,
}

module _ {F : Float} (c : TcpChannel F) where
  abbrev begun : TcpChannel F
  begun = record c { state = connecting; connect_attempts = 0 }

  connect_by_interval :
      (left : List Attempt)
      → c.config.reconnect_policy ≡ fixed_interval
      → connect_with_retry c left ≡ connect_fixed_interval begun 0 left
  unfolding connect_with_retry
  connect_by_interval left p = ground arith

  connect_by_backoff :
      (left : List Attempt)
      → c.config.reconnect_policy ≡ exponential_backoff
      → connect_with_retry c left ≡ connect_exponential_backoff begun 0 c.config.initial_delay left
  unfolding connect_with_retry
  connect_by_backoff left p = ground arith

  -- With a fixed interval and a limit, a channel makes no more than the limit's number of attempts:
  -- it opens the first stream that it gets within them, and else gives up after the last, with the
  -- fixed delay between one attempt and the next.
  pub connect_fixed :
      (limit : ℕ) (f : Attempt) (fails left : List Attempt) (s : Stream)
      → c.config.reconnect_policy ≡ fixed_interval
      → c.config.max_attempts ≡ some (suc limit)
      → All IsFailing (f ∷ fails)
      → (length fails ≤ limit
          → Opened {F = F} c.slept s
              (times (length fails) c.config.fixed_delay)
              left
              (connect_with_retry c (fails ++ (opened s ∷ left))))
        × (length fails ≡ limit
            → GaveUp {F = F} c.slept
                (suc limit)
                (times (length fails) c.config.fixed_delay)
                left
                (connect_with_retry c (f ∷ fails ++ left)))
  connect_fixed limit f fails left s p e w = (
    λ h.
        subst (Opened {F = F} c.slept s (times (length fails) c.config.fixed_delay) left)
          (sym (connect_by_interval (fails ++ (opened s ∷ left)) p))
          (fixed-Opened begun fails left s 0 limit (λ q. cc) w.1 e (omega (arith, h))),
    λ h.
        subst (GaveUp {F = F} c.slept (suc limit) (times (length fails) c.config.fixed_delay) left)
          (sym (connect_by_interval (f ∷ fails ++ left) p))
          (fixed-GaveUp begun f fails left 0 limit (λ q. cc) w.0 w.1 e (omega (arith, h))),
  )

  capped :
      (n : ℕ) (d : F.Carrier)
      → All (λ x. F.lt c.config.max_delay x ≡ false) (delays (next_delay c) n (next_delay c d))
  capped zero d = tt
  capped (suc n) d = (min_capped (F.mul d c.config.multiplier), capped n (next_delay c d))
    where
      min_capped : (x : F.Carrier) → F.lt c.config.max_delay (min_of F x c.config.max_delay) ≡ false
      min_capped x = elim (Bool-cases (F.lt c.config.max_delay x)) [
        | inl h ↦ rw h (F.lt_irrefl c.config.max_delay)
        | inr h ↦ rw h h
      ]

  -- With exponential backoff a channel never gives up, whatever its limit is: while attempts fail it
  -- goes on, it opens the first stream that it gets, and no delay but the first passes `max_delay`.
  pub connect_backoff :
      (fails left : List Attempt) (s : Stream)
      → c.config.reconnect_policy ≡ exponential_backoff
      → All IsFailing fails
      → let pauses = delays (next_delay c) (length fails) c.config.initial_delay in
        Tries {F = F} c.slept pauses (connect_with_retry c fails)
        × Opened {F = F} c.slept s pauses left (connect_with_retry c (fails ++ (opened s ∷ left)))
        × ((n : ℕ)
            → All
                (λ x. F.lt c.config.max_delay x ≡ false)
                (delays (next_delay c) n (next_delay c c.config.initial_delay)))
  connect_backoff fails left s p w =
      let pauses = delays (next_delay c) (length fails) c.config.initial_delay in
      (
        subst (Tries {F = F} c.slept pauses) (sym (connect_by_backoff fails p))
            (backoff-Tries begun fails 0 c.config.initial_delay (λ q. cc) w),
        subst (Opened {F = F} c.slept s pauses left)
            (sym (connect_by_backoff (fails ++ (opened s ∷ left)) p))
            (backoff-Opened begun fails left s 0 c.config.initial_delay (λ q. cc) w),
        λ n. capped n c.config.initial_delay,
      )

  -- A channel that has given up refuses every message, both ways, and makes no further attempt.
  pub failed_for_good :
      (m : EncodedMessage) (left : List Attempt)
      → c.state ≡ failed
      → (send c m left ≡ (raised connection_failed, c, left))
        × (receive c left ≡ (raised connection_failed, c, left))
  unfolding send receive
  failed_for_good m left e = ground arith
