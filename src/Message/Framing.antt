-- ===== src/Message/Framing.antt =====
-- `write_to` and `read_from`: a frame is read back whole, and a cut one is refused.
use pywatt_sdk.Prelude.{
  ℕ, zero, suc, ◌+◌, ◌<◌, ◌≤◌, ◌≡◌, refl, ◌↔◌, List, ◌∷◌, ◌++◌, none, some, arith, length, take,
  take_all, drop_all, length-take, ◌==◌, nat_eq, if◌then◌else◌, ltb,
}
use pywatt_sdk.Message.{
  EncodedMessage, EncodingFormat, json, msgpack, auto, encoded, ok, err, InvalidFormat,
  incomplete_length, incomplete_format, incomplete_data, write_to, read_from, read_length,
  read_data, be32, unpack-be32, u32_mod, format_to_byte, byte_to_format, pack_be32, unpack_be32,
}

-- The format in which a payload travels: AUTO travels as JSON.
abbrev pub travelling : EncodingFormat → EncodingFormat
travelling json = json
travelling msgpack = msgpack
travelling auto = json

-- What arrives: metadata does not travel.
abbrev pub received : EncodedMessage → EncodedMessage
received m = encoded m.data_bytes (travelling m.format)

-- The byte of a format is read as the format in which it travels.
pub byte_to_format-format_to_byte :
    (f : EncodingFormat) → byte_to_format (format_to_byte f) ≡ travelling f
unfolding byte_to_format format_to_byte
byte_to_format-format_to_byte json = refl
byte_to_format-format_to_byte msgpack = refl
byte_to_format-format_to_byte auto = refl

unfoldable pub frame : EncodedMessage → List ℕ
frame m = be32 (length m.data_bytes) ++ format_to_byte m.format ∷ m.data_bytes

pub write_to-frame :
    (m : EncodedMessage) → length m.data_bytes < u32_mod → write_to m ≡ some (frame m)
unfolding write_to pack_be32 frame
write_to-frame m h = ground arith

read_length_all :
    (n : ℕ) (rest : List ℕ) → n < u32_mod → read_length (be32 n ++ rest) ≡ ok (n, rest)
read_length_all n rest h = ground (arith, unpack-be32 n h)

read_data_all : (xs rest : List ℕ) → read_data (length xs) (xs ++ rest) ≡ ok (xs, rest)
read_data_all xs rest = ground (arith, take_all xs rest, drop_all xs rest)

read_from-frame :
    (m : EncodedMessage) (rest : List ℕ)
    → length m.data_bytes < u32_mod
    → read_from (frame m ++ rest) ≡ ok (received m, rest)
unfolding read_from frame
read_from-frame m rest h = ground (
  arith,
  unpack-be32 (length m.data_bytes) h,
  take_all m.data_bytes rest,
  drop_all m.data_bytes rest,
  byte_to_format-format_to_byte m.format,
)

-- A message that is written is read back, whatever follows it: the same bytes in the same format,
-- where AUTO comes back as JSON.
pub read_from-write_to :
    (m : EncodedMessage) (bytes rest : List ℕ)
    → write_to m ≡ some bytes
    → read_from (bytes ++ rest) ≡ ok (received m, rest)
unfolding write_to pack_be32 frame
read_from-write_to m bytes rest h = ground (arith, read_from-frame m rest)

-- What is written is the message's frame, and its length fits in four bytes.
pub write_to-some :
    (m : EncodedMessage) (bytes : List ℕ)
    → write_to m ≡ some bytes
    → (length m.data_bytes < u32_mod) × (bytes ≡ frame m)
unfolding write_to pack_be32 frame
write_to-some m bytes h = ground arith

-- `write_to` fails exactly when the length does not fit in four bytes.
pub write_to_fails : (m : EncodedMessage) → (write_to m ≡ none) ↔ (u32_mod ≤ length m.data_bytes)
unfolding write_to pack_be32
write_to_fails m = ground arith

-- What `read_from` says of a frame that was cut after `n` bytes.
abbrev pub cut_error : ℕ → InvalidFormat
cut_error n =
    if ltb n 4 then incomplete_length else if n == 4 then incomplete_format else incomplete_data

length-take_lt : (k n : ℕ) (xs : List ℕ) → k < n → length xs ≡ n → length (take n (take k xs)) < n
length-take_lt k n xs h e = omega (arith, length-take n (take k xs), length-take k xs)

frame_cut :
    (m : EncodedMessage) (n : ℕ)
    → length m.data_bytes < u32_mod
    → n < length m.data_bytes + 5
    → read_from (take n (frame m)) ≡ err (cut_error n)
unfolding read_from frame unpack_be32
frame_cut m zero h k = refl
frame_cut m (suc zero) h k = refl
frame_cut m (suc (suc zero)) h k = refl
frame_cut m (suc (suc (suc zero))) h k = refl
frame_cut m (suc (suc (suc (suc zero)))) h k = refl
frame_cut m (suc (suc (suc (suc (suc n))))) h k = ground (
  arith,
  unpack-be32 (length m.data_bytes) h,
  length-take_lt n (length m.data_bytes) m.data_bytes,
)

-- Every strict prefix of what is written is refused, with the error of the part that it lacks.
pub read_from_cut :
    (m : EncodedMessage) (bytes : List ℕ) (n : ℕ)
    → write_to m ≡ some bytes
    → n < length bytes
    → read_from (take n bytes) ≡ err (cut_error n)
unfolding write_to pack_be32 frame
read_from_cut m bytes n h k = ground (arith, frame_cut m n)
