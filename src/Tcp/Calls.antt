-- ===== src/Tcp/Calls.antt =====
-- Sending and receiving over a `TcpChannel` (communication/tcp_channel.py).
use pywatt_sdk.Prelude.{
  ℕ, List, [], ◌∷◌, ◌++◌, Option, none, some, length, take, drop, leb, if◌then◌else◌,
}
use pywatt_sdk.Prelude.Float.{Float}
use pywatt_sdk.Message.{EncodedMessage, encoded, write_to, byte_to_format, unpack_be32}
use pywatt_sdk.Tcp.{
  connected, disconnected, Stream, Attempt, connection_timeout, connection_error, connection_closed,
  Outcome, returned, raised, waits, TcpChannel, Calling, connect_with_retry, ensure_connected,
}

-- `reader.read_exactly(n)`
pub data Read : Type 0 where
  got : List ℕ → Stream → Read
  incomplete pending : Read

unfoldable pub read_exactly : ℕ → Stream → Read
read_exactly n s =
    if leb n (length s.incoming)
    then got (take n s.incoming) (record s { incoming = drop n s.incoming })
    else if s.is_ended
    then incomplete
    else pending

abbrev pub first_format : List ℕ → ℕ
first_format [] = 0
first_format (b ∷ bs) = b

-- The length: four bytes always unpack.
abbrev pub length_of : List ℕ → ℕ
length_of bytes = elim (unpack_be32 bytes) [ none ↦ 0 | some n ↦ n ]

module _ {F : Float} where
  -- After an error the stream is forgotten, and its socket is left open.
  abbrev pub abandon : TcpChannel F → Stream → TcpChannel F
  abandon c s = record c { link = none; state = disconnected; abandoned = c.abandoned ++ (s ∷ []) }

  -- The stream that is in use.
  abbrev pub open_link : TcpChannel F → Option Stream
  open_link c = elim c.state [ connected ↦ c.link | _ ↦ none ]

  abbrev pub written : TcpChannel F → Stream → Option (List ℕ) → Outcome (Unit {0}) × TcpChannel F
  written c s none = (raised connection_error, abandon c s)
  written c s (some bytes) =
      if s.is_broken
      then (raised connection_error, abandon c s)
      else (returned tt, record c { link = some (record s { sent = s.sent ++ bytes }) })

  unfoldable pub send_message : TcpChannel F → EncodedMessage → Outcome (Unit {0}) × TcpChannel F
  send_message c m = elim (open_link c) [
    | none ↦ (raised connection_error, c)
    | some s ↦ written c s (write_to m)
  ]

  -- The reading of a part: `next` is given its bytes. A call that waits keeps what it has read.
  abbrev pub reading {ℓ} :
      {A : Type ℓ}
      → TcpChannel F
      → Stream
      → Read
      → (List ℕ → Stream → Outcome A × TcpChannel F)
      → Outcome A × TcpChannel F
  reading c s (got bytes s') next = next bytes s'
  reading c s incomplete next = (raised connection_closed, abandon c s)
  reading c s pending next = (waits, record c { link = some s })

  unfoldable pub receive_body :
      TcpChannel F → Stream → ℕ → ℕ → Outcome EncodedMessage × TcpChannel F
  receive_body c s n f =
      reading c s (read_exactly n s)
        λ bytes s'. (returned (encoded bytes (byte_to_format f)), record c { link = some s' })

  unfoldable pub receive_format : TcpChannel F → Stream → ℕ → Outcome EncodedMessage × TcpChannel F
  receive_format c s n = reading c s (read_exactly 1 s) λ f s'. receive_body c s' n (first_format f)

  unfoldable pub receive_message : TcpChannel F → Outcome EncodedMessage × TcpChannel F
  receive_message c = elim (open_link c) [
    | none ↦ (raised connection_error, c)
    | some s ↦ reading c s (read_exactly 4 s) λ header s'. receive_format c s' (length_of header)
  ]

  -- `send` and `receive`: every error of the first try is a connection's, so one reconnection and a
  -- second try follow.
  abbrev pub last_try {ℓ} :
      {A : Type ℓ} → Calling F (Unit {0}) → (TcpChannel F → Outcome A × TcpChannel F) → Calling F A
  last_try (returned _, c, left) call = let (o, c') = call c in (o, c', left)
  last_try (raised e, c, left) call = (raised e, c, left)
  last_try (waits, c, left) call = (waits, c, left)

  unfoldable pub retry_once {ℓ} :
      {A : Type ℓ}
      → Outcome A × TcpChannel F
      → List Attempt
      → (TcpChannel F → Outcome A × TcpChannel F)
      → Calling F A
  retry_once (returned a, c) left call = (returned a, c, left)
  retry_once (raised e, c) left call = last_try (connect_with_retry c left) call
  retry_once (waits, c) left call = (waits, c, left)

  unfoldable pub when_connected {ℓ} :
      {A : Type ℓ} → Calling F (Unit {0}) → (TcpChannel F → Outcome A × TcpChannel F) → Calling F A
  unfolding retry_once
  when_connected (returned _, c, left) call = retry_once (call c) left call
  when_connected (raised e, c, left) call = (raised e, c, left)
  when_connected (waits, c, left) call = (waits, c, left)

  unfoldable pub send : TcpChannel F → EncodedMessage → List Attempt → Calling F (Unit {0})
  unfolding when_connected send_message ensure_connected
  send c m left = when_connected (ensure_connected c left) λ c'. send_message c' m

  unfoldable pub receive : TcpChannel F → List Attempt → Calling F EncodedMessage
  unfolding when_connected receive_message ensure_connected
  receive c left = when_connected (ensure_connected c left) receive_message

  abbrev pub cut_off {ℓ} : {A : Type ℓ} → Calling F A → Calling F A
  cut_off (waits, c, left) = (raised connection_timeout, c, left)
  cut_off (returned a, c, left) = (returned a, c, left)
  cut_off (raised e, c, left) = (raised e, c, left)

  -- The time is over when the input is used up.
  unfoldable pub receive_with_timeout : TcpChannel F → List Attempt → Calling F EncodedMessage
  unfolding receive
  receive_with_timeout c left = cut_off (receive c left)

  -- More bytes arrive.
  abbrev pub arrive : TcpChannel F → List ℕ → TcpChannel F
  arrive c bytes = elim c.link [
    | none ↦ c
    | some s ↦ record c { link = some (record s { incoming = s.incoming ++ bytes }) }
  ]

  -- `_close`: the stream is closed.
  unfoldable pub disconnect : TcpChannel F → TcpChannel F
  disconnect c = record c { link = none; state = disconnected }
