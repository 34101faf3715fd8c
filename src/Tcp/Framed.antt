-- ===== src/Tcp/Framed.antt =====
-- Messages that one `TcpChannel` sends and another receives.
use pywatt_sdk.Prelude.{
  ℕ, ◌<◌, ◌≡◌, refl, ap, ◌∙◌, List, [], ◌∷◌, ◌++◌, some, arith, length, take, drop, take_all,
  drop_all, length-append,
}
use pywatt_sdk.Prelude.Float.{Float}
use pywatt_sdk.Message.{
  EncodedMessage, encoded, byte_to_format, write_to, be32, unpack-be32, u32_mod, format_to_byte,
}
use pywatt_sdk.Message.Framing.{received, frame, write_to-some, byte_to_format-format_to_byte}
use pywatt_sdk.Tcp.{connected, Stream, returned, TcpChannel}
use pywatt_sdk.Tcp.Calls.{
  got, read_exactly, length_of, receive_body, receive_format, receive_message,
}

abbrev pub reads : Stream → List ℕ → Stream
reads s rest = record s { incoming = rest }

-- Exactly as many bytes as are there, with others behind them.
pub read_exactly_all :
    (s : Stream) (xs rest : List ℕ)
    → s.incoming ≡ xs ++ rest
    → read_exactly (length xs) s ≡ got xs (reads s rest)
unfolding read_exactly
read_exactly_all s xs rest e = ground (
  arith,
  ap (λ l. take (length xs) l) e,
  ap (λ l. drop (length xs) l) e,
  ap (λ (l : List ℕ). length l) e,
  take_all xs rest,
  drop_all xs rest,
  length-append xs rest,
)

pub length_of-be32 : (n : ℕ) → n < u32_mod → length_of (be32 n) ≡ n
length_of-be32 n h = ground (arith, unpack-be32 n h)

module _ {F : Float} (c : TcpChannel F) (s : Stream) where
  receive_body_all :
      (xs rest : List ℕ) (f : ℕ)
      → s.incoming ≡ xs ++ rest
      → receive_body c s (length xs) f
        ≡ (returned (encoded xs (byte_to_format f)), record c { link = some (reads s rest) })
  unfolding receive_body
  receive_body_all xs rest f e = rw (read_exactly_all s xs rest e) refl

module _ {F : Float} (c : TcpChannel F) (s : Stream) where
  receive_format_all :
      (xs rest : List ℕ) (f : ℕ)
      → s.incoming ≡ f ∷ xs ++ rest
      → receive_format c s (length xs)
        ≡ (returned (encoded xs (byte_to_format f)), record c { link = some (reads s rest) })
  unfolding receive_format
  receive_format_all xs rest f e =
      rw (read_exactly_all s (f ∷ []) (xs ++ rest) e)
        (receive_body_all c (reads s (xs ++ rest)) xs rest f refl)

-- A frame that has arrived is received, and nothing behind it is read.
pub receive_message_all :
    {F : Float} (c : TcpChannel F) (s : Stream) (m : EncodedMessage) (bytes rest : List ℕ)
    → write_to m ≡ some bytes
    → c.state ≡ connected
    → c.link ≡ some s
    → s.incoming ≡ bytes ++ rest
    → receive_message c ≡ (returned (received m), record c { link = some (reads s rest) })
unfolding receive_message frame
receive_message_all c s m bytes rest w q l e =
    let (small, framed) = write_to-some m bytes w in
    let n = length m.data_bytes in
    let f = format_to_byte m.format in
    let split =
      read_exactly_all s (be32 n) (f ∷ m.data_bytes ++ rest) (e ∙ ap (λ b. b ++ rest) framed) in
    ground (
      arith,
      q,
      l,
      split,
      length_of-be32 n small,
      receive_format_all c (reads s (f ∷ m.data_bytes ++ rest)) m.data_bytes rest f refl,
      byte_to_format-format_to_byte m.format,
    )
