-- ===== src/Message/Bytes.antt =====
-- `struct.pack(">I", n)` and its inverse: four bytes, the highest first.
use pywatt_sdk.Prelude.{
  ℕ, ◌+◌, ◌*◌, ◌/◌, ◌%◌, ◌<◌, ◌≡◌, List, [], ◌∷◌, All, Option, none, some, arith, ltb,
  if◌then◌else◌,
}

abbrev pub u32_mod : ℕ
u32_mod = 4294967296

abbrev pub IsByte : ℕ → Type 0
IsByte b = b < 256

abbrev pub Byteful : List ℕ → Type 0
Byteful = All IsByte

abbrev pub be32 : ℕ → List ℕ
be32 n = n / 16777216 % 256 ∷ n / 65536 % 256 ∷ n / 256 % 256 ∷ n % 256 ∷ []

-- `none` is `struct.error`: the number does not fit.
unfoldable pub pack_be32 : ℕ → Option (List ℕ)
pack_be32 n = if ltb n u32_mod then some (be32 n) else none

unfoldable pub unpack_be32 : List ℕ → Option ℕ
unpack_be32 (a ∷ b ∷ c ∷ d ∷ []) = some (a * 16777216 + b * 65536 + c * 256 + d)
unpack_be32 _ = none

pub unpack-be32 : (n : ℕ) → n < u32_mod → unpack_be32 (be32 n) ≡ some n
unfolding unpack_be32
unpack-be32 n h = ground arith

pub be32-Byteful : (n : ℕ) → Byteful (be32 n)
be32-Byteful n = omega arith
