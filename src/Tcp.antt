-- ===== src/Tcp.antt =====
-- communication/tcp_channel.py: `TcpChannel`. A connection is a stream: the bytes that have arrived
-- and are not read, and the bytes that were sent. What the network does is input: how each attempt to
-- connect ends, when a stream ends or breaks, and which bytes arrive. A call that is not over when
-- this input is used up `waits`. Sockets and TLS contexts are left out, and calls do not overlap.
pub mod Calls
pub mod Connecting
pub mod Policies
pub mod Framed
pub mod Delivery
pub mod Timeouts
pub mod Loss
mod Tests
use pywatt_sdk.Prelude.{
  ℕ, zero, suc, ◌+◌, Bool, true, false, List, [], ◌∷◌, ◌++◌, Option, none, some, length, take, drop,
  leb, if◌then◌else◌,
}
use pywatt_sdk.Prelude.Float.{Float, min_of}

pub data ConnectionState : Type 0 where
  connected disconnected connecting failed : ConnectionState

pub data ReconnectPolicy : Type 0 where
  no_retry fixed_interval exponential_backoff : ReconnectPolicy

pub record ConnectionConfig (F : Float) : Type 0 where
  pub reconnect_policy : ReconnectPolicy
  pub fixed_delay : F.Carrier
  pub max_attempts : Option ℕ
  pub initial_delay : F.Carrier
  pub max_delay : F.Carrier
  pub multiplier : F.Carrier

-- `is_ended`: the peer has closed its side. `is_broken`: a write fails.
pub record Stream : Type 0 where
  pub incoming : List ℕ
  pub is_ended : Bool
  pub is_broken : Bool
  pub sent : List ℕ

pub data Attempt : Type 0 where
  opened : Stream → Attempt
  timed_out refused : Attempt

pub data NetworkError : Type 0 where
  connection_timeout connection_error connection_closed connection_failed : NetworkError
  reconnection_failed : ℕ → NetworkError

pub data Outcome {ℓ} (A : Type ℓ) : Type ℓ where
  returned : A → Outcome A
  raised : NetworkError → Outcome A
  waits : Outcome A

-- `_reader` and `_writer` are set and cleared together. `slept` and `abandoned` keep a record: the
-- pauses between attempts, and the streams that were dropped and not closed.
pub record TcpChannel (F : Float) : Type 0 where
  pub config : ConnectionConfig F
  pub link : Option Stream
  pub state : ConnectionState
  pub connect_attempts : ℕ
  pub slept : List F.Carrier
  pub abandoned : List Stream

-- `self.config.max_attempts and attempts >= self.config.max_attempts`: 0 is no limit.
abbrev pub is_spent : Option ℕ → ℕ → Bool
is_spent none n = false
is_spent (some zero) n = false
is_spent (some (suc k)) n = leb (suc k) n

-- The result of a call, the channel, and the attempts that were not made.
abbrev pub Calling {ℓ} : Float → Type ℓ → Type ℓ
Calling F A = Outcome A × TcpChannel F × List Attempt

module _ {F : Float} where
  abbrev pub with_config : TcpChannel F → ConnectionConfig F → TcpChannel F
  with_config c f = record c { config = f }

  abbrev pub set_state : TcpChannel F → ConnectionState → TcpChannel F
  set_state c s = record c { state = s }

  -- Between attempts, after the `n`-th failure.
  abbrev pub pause : TcpChannel F → ℕ → F.Carrier → TcpChannel F
  pause c n d = record c { connect_attempts = n; slept = c.slept ++ (d ∷ []) }

  -- The attempt is not made where the channel is connected.
  unfoldable pub try_connect : TcpChannel F → Attempt → Outcome (Unit {0}) × TcpChannel F
  try_connect c a = elim c.state [
    | connected ↦ (returned tt, c)
    | _ ↦ elim a [
      | opened s ↦ (returned tt, record c { link = some s; state = connected })
      | timed_out ↦ (raised connection_timeout, set_state c disconnected)
      | refused ↦ (raised connection_error, set_state c disconnected)
    ]
  ]

  -- The rest of the loop after an attempt: `next` is run where it raised.
  abbrev pub unless_connected :
      Outcome (Unit {0}) × TcpChannel F
      → List Attempt
      → (TcpChannel F → Calling F (Unit {0}))
      → Calling F (Unit {0})
  unless_connected (returned _, c) as_left next = (returned tt, c, as_left)
  unless_connected (raised e, c) as_left next = next c
  unless_connected (waits, c) as_left next = (waits, c, as_left)

  abbrev pub give_up : TcpChannel F → ℕ → List Attempt → Calling F (Unit {0})
  give_up c n left =
      (raised (reconnection_failed n), record c { state = failed; connect_attempts = n }, left)

  unfoldable pub connect_fixed_interval : TcpChannel F → ℕ → List Attempt → Calling F (Unit {0})
  unfolding try_connect
  connect_fixed_interval c n [] =
      if is_spent c.config.max_attempts n
      then (raised (reconnection_failed n), set_state c failed, [])
      else (waits, c, [])
  connect_fixed_interval c n (a ∷ left) =
      let rest = λ (c' : TcpChannel F). connect_fixed_interval c' (n + 1) left in
      if is_spent c.config.max_attempts n
      then (raised (reconnection_failed n), set_state c failed, a ∷ left)
      else unless_connected (try_connect c a) left λ c'.
        if is_spent c.config.max_attempts (n + 1)
        then give_up c' (n + 1) left
        else rest (pause c' (n + 1) c.config.fixed_delay)

  -- `max_attempts` is not read.
  unfoldable pub connect_exponential_backoff :
      TcpChannel F → ℕ → F.Carrier → List Attempt → Calling F (Unit {0})
  unfolding try_connect
  connect_exponential_backoff c n delay [] = (waits, c, [])
  connect_exponential_backoff c n delay (a ∷ left) = unless_connected (try_connect c a) left λ c'.
      connect_exponential_backoff (pause c' (n + 1) delay) (n + 1)
        (min_of F (F.mul delay c.config.multiplier) c.config.max_delay) left

  abbrev pub connect_once : Outcome (Unit {0}) × TcpChannel F → List Attempt → Calling F (Unit {0})
  connect_once (returned _, c) left = (returned tt, c, left)
  connect_once (raised e, c) left = (raised e, set_state c failed, left)
  connect_once (waits, c) left = (waits, c, left)

  unfoldable pub connect_no_retry : TcpChannel F → List Attempt → Calling F (Unit {0})
  unfolding try_connect
  connect_no_retry c [] = (waits, c, [])
  connect_no_retry c (a ∷ left) = connect_once (try_connect c a) left

  -- `_connect_with_retry`, and `connect`.
  unfoldable pub connect_with_retry : TcpChannel F → List Attempt → Calling F (Unit {0})
  unfolding connect_no_retry connect_fixed_interval connect_exponential_backoff
  connect_with_retry c left =
      let c' = record c { state = connecting; connect_attempts = 0 } in
      elim c.config.reconnect_policy [
        | no_retry ↦ connect_no_retry c' left
        | fixed_interval ↦ connect_fixed_interval c' 0 left
        | exponential_backoff ↦ connect_exponential_backoff c' 0 c.config.initial_delay left
      ]

  unfoldable pub ensure_connected : TcpChannel F → List Attempt → Calling F (Unit {0})
  unfolding connect_with_retry
  ensure_connected c left = elim c.state [
    | connected ↦ (returned tt, c, left)
    | failed ↦ (raised connection_failed, c, left)
    | _ ↦ connect_with_retry c left
  ]
