-- ===== src/Message/Tests.antt =====
-- Frames of concrete messages.
use pywatt_sdk.Prelude.{ℕ, ◌≡◌, refl, List, [], ◌∷◌, ◌++◌, some}
use pywatt_sdk.Message.{
  EncodedMessage, format_to_byte, msgpack, encoded, ok, write_to, read_from, pack_be32,
}
use pywatt_sdk.Message.Framing.{received, read_from-write_to}

abbrev greeting : EncodedMessage
greeting = encoded (b'h' ∷ b'i' ∷ []) msgpack

abbrev greeting_frame : List ℕ
greeting_frame = 0 ∷ 0 ∷ 0 ∷ 2 ∷ 1 ∷ b'h' ∷ b'i' ∷ []

write_greeting : write_to greeting ≡ some greeting_frame
unfolding write_to pack_be32 format_to_byte
write_greeting = refl

read_from-write_to_example : read_from (greeting_frame ++ 7 ∷ []) ≡ ok (received greeting, 7 ∷ [])
read_from-write_to_example = read_from-write_to greeting greeting_frame (7 ∷ []) write_greeting
