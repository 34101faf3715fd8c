-- ===== src/Ports.antt =====
-- communication/port_negotiation.py. Times are in microseconds. The seconds slept are kept in
-- the manager, newest last. What a request says is left out. While an attempt waits, the responses that
-- arrive are handled in order; no other call is made meanwhile.
pub mod Allocation
pub mod Search
mod Tests
use pywatt_sdk.Prelude.{
  ℕ, zero, suc, ◌+◌, ◌-◌, ◌*◌, ◌^◌, String, Bool, true, false, ◌&&◌, not, List, [], ◌∷◌, ◌++◌,
  Option, none, some, ltb, leb, nat_eq, string_eq, ◌==◌, if◌then◌else◌,
}
use pywatt_sdk.Prelude.Dict.{Dict, get, put, remove}

abbrev pub max_port_negotiation_retries : ℕ
max_port_negotiation_retries = 3

abbrev pub circuit_breaker_threshold : ℕ
circuit_breaker_threshold = 5

abbrev pub circuit_breaker_reset : ℕ
circuit_breaker_reset = 60 * 1000000

abbrev pub fallback_port_range_start : ℕ
fallback_port_range_start = 10000

abbrev pub fallback_port_range_end : ℕ
fallback_port_range_end = 11000

pub data CircuitBreakerStatus : Type 0 where
  closed open_circuit half_open : CircuitBreakerStatus

pub record BreakerState : Type 0 where
  pub status : CircuitBreakerStatus
  pub consecutive_failures : ℕ
  pub last_failure_time : Option ℕ

-- `self.last_failure_time and …`: a time of 0 is false.
abbrev pub long_ago : Option ℕ → ℕ → Bool
long_ago none now = false
long_ago (some zero) now = false
long_ago (some (suc t)) now = ltb circuit_breaker_reset (now - suc t)

unfoldable pub should_attempt_request : BreakerState → ℕ → Bool × BreakerState
should_attempt_request b now = elim b.status [
  | closed ↦ (true, b)
  | open_circuit ↦
      if long_ago b.last_failure_time now
      then (true, record b { status = half_open })
      else (false, b)
  | half_open ↦ (true, b)
]

unfoldable pub record_success : BreakerState → BreakerState
record_success b = record { status = closed; consecutive_failures = 0; last_failure_time = none }

unfoldable pub record_failure : BreakerState → ℕ → BreakerState
record_failure b now = record {
  status =
      if leb circuit_breaker_threshold (b.consecutive_failures + 1) then open_circuit else b.status;
  consecutive_failures = b.consecutive_failures + 1;
  last_failure_time = some now;
}

pub record IpcPortNegotiationResponse : Type 0 where
  pub request_id : String
  pub success : Bool
  pub port : ℕ
  pub error_message : Option String

-- A future holds `none` until its result is set.
pub record PortNegotiationState : Type 0 where
  pub allocated_port : Option ℕ
  pub pending_requests : Dict String (Option IpcPortNegotiationResponse)
  pub circuit_breaker : BreakerState

pub record PortNegotiationManager : Type 0 where
  pub state : PortNegotiationState
  pub slept : List ℕ

unfoldable pub new : PortNegotiationManager
new = record {
  state = record {
    allocated_port = none;
    pending_requests = [];
    circuit_breaker = record {
      status = closed;
      consecutive_failures = 0;
      last_failure_time = none;
    };
  };
  slept = [];
}

-- Python's truth of a port: `None` and 0 are false.
abbrev pub port_of : Option ℕ → Option ℕ
port_of none = none
port_of (some zero) = none
port_of (some (suc n)) = some (suc n)

unfoldable pub handle_negotiation_response :
    PortNegotiationState → IpcPortNegotiationResponse → PortNegotiationState
handle_negotiation_response s r = elim (get s.pending_requests r.request_id) [
  | none ↦ s
  | some (some _) ↦ s
  | some none ↦ record s { pending_requests = put s.pending_requests r.request_id (some r) }
]

-- The responses that arrive while an attempt waits.
unfoldable pub deliver :
    PortNegotiationState → List IpcPortNegotiationResponse → PortNegotiationState
deliver s [] = s
deliver s (r ∷ rs) = deliver (handle_negotiation_response s r) rs

-- What one attempt meets: its UUID, whether the request could be written, and the responses that
-- arrive before the time-out.
pub record Exchange : Type 0 where
  pub request_id : String
  pub is_sent : Bool
  pub responses : List IpcPortNegotiationResponse

-- How an attempt ends: with a port or an exception.
pub data Attempted : Type 0 where
  negotiated : ℕ → Attempted
  not_sent timed_out attribute_error : Attempted
  refused : String → Attempted

-- `response.error_message or "Unknown error"`
abbrev pub message_of : Option String → String
message_of none = "Unknown error"
message_of (some text) = if text == "" then "Unknown error" else text

-- The class of the response has a field `port` and no `allocated_port`, so reading the latter raises.
abbrev pub accept : IpcPortNegotiationResponse → Attempted
accept r = if r.success then attribute_error else refused (message_of r.error_message)

abbrev pub outcome : Option (Option IpcPortNegotiationResponse) → Attempted
outcome none = timed_out
outcome (some none) = timed_out
outcome (some (some r)) = accept r

abbrev pub forget : PortNegotiationState → String → PortNegotiationState
forget s id = record s { pending_requests = remove s.pending_requests id }

unfoldable pub attempt_negotiation :
    PortNegotiationManager → Exchange → Attempted × PortNegotiationManager
attempt_negotiation m x =
    let waiting = record m.state {
      pending_requests = put m.state.pending_requests x.request_id none;
    } in
    let answered = deliver waiting x.responses in
    if x.is_sent
    then (
      outcome (get answered.pending_requests x.request_id),
      record m { state = forget answered x.request_id },
    )
    else (not_sent, record m { state = forget waiting x.request_id })

-- What one call meets: the clock at its start and at its failure, the exchanges of its attempts, the
-- draws of `random.randint` and whether each port tried can be bound.
pub record Call : Type 0 where
  pub now : ℕ
  pub failed_at : ℕ
  pub exchange : ℕ → Exchange
  pub draw : ℕ → ℕ
  pub is_free : ℕ → ℕ → Bool

-- The loop that looks for a port that is free.
unfoldable pub search_fallback : Call → ℕ → ℕ → ℕ → ℕ
search_fallback c zero i port = port
search_fallback c (suc n) i port =
    let next = search_fallback c n (i + 1) (c.draw (i + 1)) in
    if c.is_free i port then port else next

unfoldable pub generate_fallback_port : PortNegotiationManager → Call → ℕ × PortNegotiationManager
unfolding search_fallback
generate_fallback_port m c =
    let port = search_fallback c 10 0 (c.draw 0) in
    (port, record m { state = record m.state { allocated_port = some port } })

abbrev pub succeed : PortNegotiationManager → ℕ → PortNegotiationManager
succeed m port = record m {
  state = record m.state {
    circuit_breaker = record_success m.state.circuit_breaker;
    allocated_port = some port;
  };
}

abbrev pub fail : PortNegotiationManager → ℕ → PortNegotiationManager
fail m now = record m {
  state = record m.state { circuit_breaker = record_failure m.state.circuit_breaker now };
}

abbrev pub sleep : PortNegotiationManager → ℕ → PortNegotiationManager
sleep m seconds = record m { slept = m.slept ++ seconds ∷ [] }

-- `for attempt in range(MAX_PORT_NEGOTIATION_RETRIES)`, with the rounds left.
unfoldable pub negotiate_from : Call → ℕ → ℕ → PortNegotiationManager → ℕ × PortNegotiationManager
negotiate_from c zero attempt m = generate_fallback_port m c
negotiate_from c (suc n) attempt m =
    let (ended, m') = attempt_negotiation m (c.exchange attempt) in
    let rest = negotiate_from c n (attempt + 1) (sleep m' (2 ^ attempt)) in
    elim ended [
      | negotiated p ↦ (p, succeed m' p)
      | _ ↦
          if attempt == max_port_negotiation_retries - 1
          then generate_fallback_port (fail m' c.failed_at) c
          else rest
    ]

-- Without a port that is allocated already.
unfoldable pub negotiate_new : PortNegotiationManager → Call → ℕ × PortNegotiationManager
unfolding negotiate_from
negotiate_new m c =
    let (admitted, b) = should_attempt_request m.state.circuit_breaker c.now in
    let checked = record m { state = record m.state { circuit_breaker = b } } in
    if admitted
    then negotiate_from c max_port_negotiation_retries 0 checked
    else generate_fallback_port checked c

unfoldable pub negotiate_port : PortNegotiationManager → Call → ℕ × PortNegotiationManager
unfolding negotiate_new
negotiate_port m c = elim (port_of m.state.allocated_port) [
  | some port ↦ (port, m)
  | none ↦ negotiate_new m c
]

unfoldable pub set_pre_allocated_port : PortNegotiationManager → ℕ → PortNegotiationManager
set_pre_allocated_port m port = record m { state = record m.state { allocated_port = some port } }

unfoldable pub reset_allocation : PortNegotiationManager → PortNegotiationManager
reset_allocation m = record m {
  state = record m.state { allocated_port = none; pending_requests = [] };
}

-- `find_available_port`: the first free port from `start`, with the ports left to try.
unfoldable pub find_from : (ℕ → Bool) → ℕ → ℕ → Option ℕ
find_from is_available zero port = none
find_from is_available (suc n) port =
    let rest = find_from is_available n (port + 1) in if is_available port then some port else rest

unfoldable pub find_available_port : (ℕ → Bool) → ℕ → ℕ → Option ℕ
unfolding find_from
find_available_port is_available start end = find_from is_available (end + 1 - start) start
