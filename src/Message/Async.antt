-- ===== src/Message/Async.antt =====
-- `write_to_async` and `read_from_async`: the same frames over asyncio's streams, where
-- `readexactly(n)` raises `IncompleteReadError` if fewer than `n` bytes are left.
use mathlib.Core.List.{append_assoc}
use pywatt_sdk.Prelude.{
  Option-cases, inl, inr, ℕ, ◌≡◌, ◌↔◌, List, [], ◌∷◌, ◌++◌, Option, none, some, arith, length, take,
  drop, ◌==◌, nat_eq, if◌then◌else◌,
}
use pywatt_sdk.Message.{
  EncodedMessage, encoded, write_to, read_from, ok, byte_to_format, format_to_byte, pack_be32,
  unpack_be32,
}

infixl 5 ◌>>=◌
abbrev pub ◌>>=◌ {ℓ κ} : {A : Type ℓ} {B : Type κ} → Option A → (A → Option B) → Option B
none >>= f = none
some a >>= f = f a

-- The bytes taken and those left.
abbrev readexactly : ℕ → List ℕ → Option (List ℕ × List ℕ)
readexactly n input = if length (take n input) == n then some (take n input, drop n input) else none

abbrev head : List ℕ → Option ℕ
head [] = none
head (b ∷ bs) = some b

pub read_from_async : List ℕ → Option (EncodedMessage × List ℕ)
read_from_async input = do
  (length_bytes, after_length) ← readexactly 4 input
  n ← unpack_be32 length_bytes
  (format_bytes, after_format) ← readexactly 1 after_length
  b ← head format_bytes
  (bytes, rest) ← readexactly n after_format
  some (encoded bytes (byte_to_format b), rest)

-- The writer's buffer after the three writes; `none` is `struct.error`.
pub write_to_async : EncodedMessage → List ℕ → Option (List ℕ)
write_to_async m buffer = do
  length_bytes ← pack_be32 (length m.data_bytes)
  let with_length = buffer ++ length_bytes
  let with_format = with_length ++ format_to_byte m.format ∷ []
  some (with_format ++ m.data_bytes)

-- The two readers take the same messages, and leave the same bytes.
pub read_from_async-read_from :
    (input : List ℕ) (m : EncodedMessage) (rest : List ℕ)
    → (read_from_async input ≡ some (m, rest)) ↔ (read_from input ≡ ok (m, rest))
unfolding read_from_async read_from unpack_be32
read_from_async-read_from (a ∷ b ∷ c ∷ d ∷ []) m rest = ground arith
read_from_async-read_from (a ∷ b ∷ c ∷ d ∷ e ∷ input) m rest = ground arith
read_from_async-read_from input m rest = ground arith

-- The two writers write the same bytes, and fail on the same messages.
pub write_to_async-write_to :
    (m : EncodedMessage) (buffer : List ℕ)
    → write_to_async m buffer ≡ (write_to m >>= λ bytes. some (buffer ++ bytes))
unfolding write_to_async write_to
write_to_async-write_to m buffer = elim (Option-cases (pack_be32 (length m.data_bytes))) [
  | inl e ↦ ground arith
  | inr (bytes, e) ↦ ground (
    arith,
    append_assoc buffer bytes (format_to_byte m.format ∷ []),
    append_assoc buffer (bytes ++ format_to_byte m.format ∷ []) m.data_bytes,
    append_assoc bytes (format_to_byte m.format ∷ []) m.data_bytes,
  )
]
