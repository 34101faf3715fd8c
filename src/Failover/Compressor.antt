-- ===== src/Failover/Compressor.antt =====
-- `MessageCompressor` of communication/failover.py. `gzip` is a parameter: its two functions, `none`
-- where they raise, and that the second undoes the first.
pub mod Roundtrip
mod Tests
use pywatt_sdk.Prelude.{
  ℕ, ◌≡◌, String, Bool, true, false, List, [], ◌∷◌, Option, none, some, length, ltb, if◌then◌else◌,
  ◌==◌, string_eq,
}
use pywatt_sdk.Prelude.Dict.{Dict, get, put, remove}
use pywatt_sdk.Message.{EncodedMessage, MessageMetadata}

pub record Gzip : Type 0 where
  pub compress : List ℕ → Option (List ℕ)
  pub decompress : List ℕ → Option (List ℕ)
  pub undoes :
      (plain packed : List ℕ) → compress plain ≡ some packed → decompress packed ≡ some plain

pub record PerformanceConfig : Type 0 where
  pub enable_compression : Bool
  pub compression_threshold : ℕ
  pub enable_zero_copy : Bool
  pub io_buffer_size : ℕ
  pub tcp_nodelay : Bool
  pub tcp_send_buffer : Option ℕ
  pub tcp_recv_buffer : Option ℕ

-- `metadata.properties or {}`
abbrev pub properties_of : MessageMetadata → Dict String String
properties_of md = elim md.properties [ none ↦ [] | some d ↦ d ]

-- Marks the message, if it has metadata.
mark : Option MessageMetadata → Option MessageMetadata
mark none = none
mark (some md) = some (record md { properties = some (put (properties_of md) "compressed" "gzip") })

abbrev is_gzip : Option String → Bool
is_gzip none = false
is_gzip (some v) = v == "gzip"

module _ (z : Gzip) where
  pub compress_message : PerformanceConfig → EncodedMessage → Bool × EncodedMessage
  unfolding mark
  compress_message c m =
      if c.enable_compression
      then if ltb (length m.data_bytes) c.compression_threshold
        then (false, m)
        else elim (z.compress m.data_bytes) [
          | none ↦ (false, m)
          | some packed ↦
              if ltb (length packed) (length m.data_bytes)
              then (true, record m { data_bytes = packed; metadata = mark m.metadata })
              else (false, m)
        ]
      else (false, m)

  -- `none` is `MessageError`.
  unpack : EncodedMessage → MessageMetadata → Option EncodedMessage
  unpack m md = elim (z.decompress m.data_bytes) [
    | none ↦ none
    | some plain ↦
        let rest = remove (properties_of md) "compressed" in
        some
          (record m { data_bytes = plain; metadata = some (record md { properties = some rest }) })
  ]

  pub decompress_message : EncodedMessage → Option EncodedMessage
  unfolding unpack
  decompress_message m = elim m.metadata [
    | none ↦ some m
    | some md ↦ if is_gzip (get (properties_of md) "compressed") then unpack m md else some m
  ]
