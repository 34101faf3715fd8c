-- ===== src/Tcp/Timeouts.antt =====
-- `receive_with_timeout` of a `TcpChannel` in the middle of a frame.
use pywatt_sdk.Prelude.{
  ℕ, zero, suc, ◌+◌, ◌≤◌, ◌<◌, ◌≡◌, ◌≢◌, refl, ◌⊎◌, inl, inr, false, List, [], ◌∷◌, some, arith,
  length, take, drop, leb, length-take, length-drop, Bool-cases,
}
use pywatt_sdk.Prelude.Float.{Float}
use pywatt_sdk.Message.{EncodedMessage, encoded, byte_to_format, be32, u32_mod, format_to_byte}
use pywatt_sdk.Message.Framing.{received, frame}
use pywatt_sdk.Tcp.{connected, Stream, Attempt, Outcome, returned, waits, TcpChannel}
use pywatt_sdk.Tcp.Calls.{
  got, pending, read_exactly, length_of, first_format, receive_body, receive_format,
  receive_message, receive,
}
use pywatt_sdk.Tcp.Framed.{reads, read_exactly_all, length_of-be32}

-- What a part of a receiving call leaves: it waits, or it has a message that is no longer than what
-- had arrived less the bytes around it.
abbrev Heard : {F : Float} → ℕ → ℕ → Outcome EncodedMessage × TcpChannel F → Type 0
Heard there around r =
    (r.0 ≡ waits)
    ⊎ ((m : EncodedMessage) × (r.0 ≡ returned m) × (length m.data_bytes + around ≤ there))

-- Bytes of an open stream are there, or awaited.
read_exactly_open :
    (n : ℕ) (s : Stream)
    → s.is_ended ≡ false
    → (read_exactly n s ≡ pending)
      ⊎ ((n ≤ length s.incoming)
          × (read_exactly n s ≡ got (take n s.incoming) (reads s (drop n s.incoming))))
unfolding read_exactly
read_exactly_open n s e = elim (Bool-cases (leb n (length s.incoming))) [
  | inl h ↦ inr (ground (arith, h), ground (arith, h))
  | inr h ↦ inl (ground (arith, h))
]

module _ {F : Float} (c : TcpChannel F) where
  receive_body-Heard :
      (s : Stream) (n f : ℕ)
      → s.is_ended ≡ false
      → Heard (length s.incoming) 0 (receive_body c s n f)
  unfolding receive_body
  receive_body-Heard s n f e = elim (read_exactly_open n s e) [
    | inl p ↦ inl (rw p refl)
    | inr (h, g) ↦ inr (
      encoded (take n s.incoming) (byte_to_format f),
      rw g refl,
      omega (arith, length-take n s.incoming),
    )
  ]

  receive_format-Heard :
      (s : Stream) (n : ℕ) → s.is_ended ≡ false → Heard (length s.incoming) 1 (receive_format c s n)
  unfolding receive_format
  receive_format-Heard s n e = elim (read_exactly_open 1 s e) [
    | inl p ↦ inl (rw p refl)
    | inr (h, g) ↦
        elim (receive_body-Heard (reads s (drop 1 s.incoming)) n (first_format (take 1 s.incoming))
          e) [
            | inl p ↦ inl (rw (g, p) refl)
            | inr (m, q, k) ↦ inr (m, rw (g, q) refl, omega (arith, k, h, length-drop 1 s.incoming))
          ]
  ]

  receive_message-Heard :
      (s : Stream)
      → c.state ≡ connected
      → c.link ≡ some s
      → s.is_ended ≡ false
      → Heard (length s.incoming) 5 (receive_message c)
  unfolding receive_message
  receive_message-Heard s q l e = elim (read_exactly_open 4 s e) [
    | inl p ↦ inl (ground (arith, p))
    | inr (h, g) ↦
        elim (receive_format-Heard (reads s (drop 4 s.incoming)) (length_of (take 4 s.incoming))
          e) [
            | inl p ↦ inl (ground (arith, g, p))
            | inr (m, r, k) ↦
                inr (m, ground (arith, g, r), omega (arith, k, h, length-drop 4 s.incoming))
          ]
  ]

  -- A message that needs more bytes than there are is not received.
  pub receive_short :
      (s : Stream) (m : EncodedMessage) (left : List Attempt)
      → c.state ≡ connected
      → c.link ≡ some s
      → s.is_ended ≡ false
      → length s.incoming < length m.data_bytes + 5
      → (receive c left).0 ≢ returned (received m)
  unfolding receive
  receive_short s m left q l e h = elim (receive_message-Heard s q l e) [
    | inl p ↦ λ r. ground (arith, p, r)
    | inr (m', p, k) ↦ λ r. ground (arith, p, r, k)
  ]

pub read_exactly_short :
    (n : ℕ) (s : Stream) → s.is_ended ≡ false → length s.incoming < n → read_exactly n s ≡ pending
unfolding read_exactly
read_exactly_short n s e h = ground arith

-- A receiving call that waits, with at most so many bytes left that it has not read.
pub record Stopped {F : Float} (c : TcpChannel F) (unread : ℕ)
    (r : Outcome EncodedMessage × TcpChannel F) : Type 0 where
  pub stream : Stream
  pub stops : r ≡ (waits, record c { link = some stream })
  pub is_open : stream.is_ended ≡ false
  pub few : length stream.incoming ≤ unread

module _ {F : Float} (c : TcpChannel F) (m : EncodedMessage) where
  abbrev size : ℕ
  size = length m.data_bytes

  receive_body-Stopped :
      (s : Stream) (k f : ℕ)
      → s.is_ended ≡ false
      → s.incoming ≡ take k m.data_bytes
      → k < size
      → Stopped c k (receive_body c s size f)
  unfolding receive_body
  receive_body-Stopped s k f e i h = record {
    stream = s;
    stops =
        rw (read_exactly_short size s e (rw i (omega (arith, length-take k m.data_bytes)))) refl;
    is_open = e;
    few = rw i (omega (arith, length-take k m.data_bytes));
  }

  receive_format-Stopped :
      (s : Stream) (k f : ℕ)
      → s.is_ended ≡ false
      → s.incoming ≡ take k (f ∷ m.data_bytes)
      → k < size + 1
      → Stopped c k (receive_format c s size)
  unfolding receive_format
  receive_format-Stopped s zero f e i h = record {
    stream = s;
    stops = rw (read_exactly_short 1 s e (rw i (omega arith))) refl;
    is_open = e;
    few = rw i (omega arith);
  }
  receive_format-Stopped s (suc k) f e i h =
      let w = receive_body-Stopped (reads s (take k m.data_bytes)) k f e refl (omega (arith, h)) in
      record {
        stream = w.stream;
        stops = rw (read_exactly_all s (f ∷ []) (take k m.data_bytes) i) w.stops;
        is_open = w.is_open;
        few = omega (arith, w.few);
      }

  -- A frame of which the length has arrived, and not the whole.
  pub receive_message-Stopped :
      (s : Stream) (k : ℕ)
      → c.state ≡ connected
      → c.link ≡ some s
      → s.is_ended ≡ false
      → size < u32_mod
      → s.incoming ≡ take (suc (suc (suc (suc k)))) (frame m)
      → k < size + 1
      → Stopped c k (receive_message c)
  unfolding receive_message frame
  receive_message-Stopped s k q l e small i h =
      let f = format_to_byte m.format in
      let rest = take k (f ∷ m.data_bytes) in
      let w = receive_format-Stopped (reads s rest) k f e refl h in
      let header = read_exactly_all s (be32 size) rest i in
      record {
        stream = w.stream;
        stops = ground (arith, q, l, header, length_of-be32 size small, w.stops);
        is_open = w.is_open;
        few = w.few;
      }
