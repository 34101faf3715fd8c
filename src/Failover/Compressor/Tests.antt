-- ===== src/Failover/Compressor/Tests.antt =====
-- Runs of `MessageCompressor` on concrete inputs, with a toy codec in place of gzip.
use pywatt_sdk.Prelude.{
  ℕ, ◌≡◌, ◌&&◌, true, List, [], ◌∷◌, Option, none, some, arith, ◌==◌, nat_eq, if◌then◌else◌,
}
use pywatt_sdk.Message.{EncodedMessage, MessageMetadata, json, encoded}
use pywatt_sdk.Failover.Compressor.{Gzip, PerformanceConfig}

-- Packs three equal bytes into one, and nothing else.
abbrev pack : List ℕ → Option (List ℕ)
pack (a ∷ b ∷ c ∷ []) = if a == b && b == c then some (a ∷ []) else none
pack _ = none

abbrev unpack : List ℕ → Option (List ℕ)
unpack (a ∷ []) = some (a ∷ a ∷ a ∷ [])
unpack _ = none

unpack-pack : (plain packed : List ℕ) → pack plain ≡ some packed → unpack packed ≡ some plain
unpack-pack [] p h = cc
unpack-pack (a ∷ []) p h = cc
unpack-pack (a ∷ b ∷ []) p h = cc
unpack-pack (a ∷ b ∷ c ∷ []) p h = ground arith
unpack-pack (a ∷ b ∷ c ∷ d ∷ r) p h = cc

abbrev codec : Gzip
codec = record { compress = pack; decompress = unpack; undoes = unpack-pack }

abbrev config : PerformanceConfig
config = record {
  enable_compression = true;
  compression_threshold = 2;
  enable_zero_copy = true;
  io_buffer_size = 8192;
  tcp_nodelay = true;
  tcp_send_buffer = none;
  tcp_recv_buffer = none;
}

abbrev plain : EncodedMessage
plain = encoded (5 ∷ 5 ∷ 5 ∷ []) json

abbrev metadata : MessageMetadata
metadata = record {
  id = none;
  timestamp = none;
  source = none;
  destination = none;
  properties = none;
}

abbrev tagged : EncodedMessage
tagged = record plain { metadata = some metadata }
