-- ===== src/Message.antt =====
-- communication/message.py: encoded messages and the frames in which they travel. A byte string is a
-- list of numbers below 256. The JSON and msgpack encodings of a payload are not modelled.
mod Bytes
pub mod Framing
pub mod Async
mod Tests
pub use Bytes.{IsByte, Byteful, u32_mod, be32, unpack-be32, be32-Byteful}
unfoldable pub use Bytes.{pack_be32, unpack_be32}
use pywatt_sdk.Prelude.{
  ℕ, ◌<◌, ◌≡◌, String, List, [], ◌∷◌, ◌++◌, Option, none, some, length, take, drop, if◌then◌else◌,
  ◌==◌, nat_eq,
}
use pywatt_sdk.Prelude.Dict.{Dict}

pub data EncodingFormat : Type 0 where
  json msgpack auto : EncodingFormat

-- Property values are texts.
pub record MessageMetadata : Type 0 where
  pub id : Option String
  pub timestamp : Option ℕ
  pub source : Option String
  pub destination : Option String
  pub properties : Option (Dict String String)

-- `metadata` is no field of the class: it is the attribute for which other modules ask by
-- `hasattr(message, 'metadata') and message.metadata`; `none` where that test fails.
pub record EncodedMessage : Type 0 where
  pub data_bytes : List ℕ
  pub format : EncodingFormat
  pub metadata : Option MessageMetadata

-- `__init__`
abbrev pub encoded : List ℕ → EncodingFormat → EncodedMessage
encoded bytes f = record { data_bytes = bytes; format = f; metadata = none }

unfoldable pub format_to_byte : EncodingFormat → ℕ
format_to_byte json = 0
format_to_byte msgpack = 1
format_to_byte auto = 0

unfoldable pub byte_to_format : ℕ → EncodingFormat
byte_to_format b = if b == 0 then json else if b == 1 then msgpack else json

-- The texts of `InvalidFormat`.
pub data InvalidFormat : Type 0 where
  incomplete_length incomplete_format incomplete_data : InvalidFormat

pub data Result {ℓ} (A : Type ℓ) : Type ℓ where
  ok : A → Result A
  err : InvalidFormat → Result A

infixl 5 ◌>>=◌
abbrev pub ◌>>=◌ {ℓ κ} : {A : Type ℓ} {B : Type κ} → Result A → (A → Result B) → Result B
ok a >>= f = f a
err e >>= f = err e

-- The bytes that are written; `none` is `struct.error`, raised before any write.
unfoldable pub write_to : EncodedMessage → Option (List ℕ)
write_to m = elim (pack_be32 (length m.data_bytes)) [
  | none ↦ none
  | some length_bytes ↦ some (length_bytes ++ format_to_byte m.format ∷ m.data_bytes)
]

-- `reader.read(n)` gives fewer bytes at the end of the input only.
abbrev pub read_length : List ℕ → Result (ℕ × List ℕ)
read_length input =
    if length (take 4 input) == 4
    then elim (unpack_be32 (take 4 input)) [
      | none ↦ err incomplete_length
      | some n ↦ ok (n, drop 4 input)
    ]
    else err incomplete_length

abbrev pub read_format : List ℕ → Result (EncodingFormat × List ℕ)
read_format [] = err incomplete_format
read_format (b ∷ rest) = ok (byte_to_format b, rest)

abbrev pub read_data : ℕ → List ℕ → Result (List ℕ × List ℕ)
read_data n input =
    if length (take n input) == n then ok (take n input, drop n input) else err incomplete_data

-- The message, and what is left of the input.
unfoldable pub read_from : List ℕ → Result (EncodedMessage × List ℕ)
read_from input = do
  (n, after_length) ← read_length input
  (f, after_format) ← read_format after_length
  (bytes, rest) ← read_data n after_format
  ok (encoded bytes f, rest)
