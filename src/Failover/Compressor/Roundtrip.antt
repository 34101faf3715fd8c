-- ===== src/Failover/Compressor/Roundtrip.antt =====
-- Compressing a message and decompressing it again.
use pywatt_sdk.Prelude.{
  ℕ, ◌<◌, ◌≡◌, refl, String, true, false, List, none, some, arith, length, string_eq, ==_refl,
  Bool-cases, inl, inr,
}
use pywatt_sdk.Prelude.Dict.{get-put_self, get, put, remove, get-remove-put}
use pywatt_sdk.Message.{EncodedMessage, MessageMetadata}
use pywatt_sdk.Failover.Compressor.{
  Gzip, PerformanceConfig, properties_of, mark, compress_message, decompress_message,
}

-- The same bytes and format, and the same value for each property.
pub record Same (m n : EncodedMessage) (md : MessageMetadata) : Type 0 where
  pub bytes : n.data_bytes ≡ m.data_bytes
  pub format : n.format ≡ m.format
  pub kept :
      (md' : MessageMetadata) × (n.metadata ≡ some md')
      × ((k : String) → get (properties_of md') k ≡ get (properties_of md) k)

module _ (z : Gzip) (c : PerformanceConfig) (m : EncodedMessage) where
  -- Compression is used only where it shortens the message.
  pub compress_message_shorter :
      (compress_message z c m).0 ≡ true
      → length (compress_message z c m).1.data_bytes < length m.data_bytes
  unfolding compress_message
  compress_message_shorter h = ground arith

  pub compress_message_kept : (compress_message z c m).0 ≡ false → (compress_message z c m).1 ≡ m
  unfolding compress_message
  compress_message_kept h = ground arith

  compressed_to :
      (compress_message z c m).0 ≡ true
      → (packed : List ℕ) × (z.compress m.data_bytes ≡ some packed)
        × ((compress_message z c m).1
            ≡ record m { data_bytes = packed; metadata = mark m.metadata })
  unfolding compress_message
  compressed_to h = ground arith

  abbrev restored : MessageMetadata → EncodedMessage
  restored md = record m {
    metadata = some (record md {
      properties = some (remove (put (properties_of md) "compressed" "gzip") "compressed");
    });
  }

  decompress_marked :
      (packed : List ℕ) (md : MessageMetadata)
      → z.compress m.data_bytes ≡ some packed
      → decompress_message z (record m {
        data_bytes = packed;
        metadata =
            some (record md { properties = some (put (properties_of md) "compressed" "gzip") });
      })
        ≡ some (restored md)
  unfolding decompress_message
  decompress_marked packed md e = ground (
    arith,
    z.undoes m.data_bytes packed e,
    get-put_self (properties_of md) "compressed" "gzip",
    ==_refl {A = String} "gzip",
  )

  decompress_unmarked :
      (md : MessageMetadata)
      → m.metadata ≡ some md
      → get (properties_of md) "compressed" ≡ none
      → decompress_message z m ≡ some m
  unfolding decompress_message
  decompress_unmarked md e u = ground arith

  -- A message that carries metadata, and is not marked yet, comes back as it was: its bytes, its
  -- format and each of its properties, whether it was compressed or not.
  pub decompress-compress :
      (md : MessageMetadata)
      → m.metadata ≡ some md
      → get (properties_of md) "compressed" ≡ none
      → (n : EncodedMessage) × (decompress_message z (compress_message z c m).1 ≡ some n)
        × Same m n md
  decompress-compress md e u = elim (Bool-cases (compress_message z c m).0) [
    | inl h ↦
        let (packed, p, q) = compressed_to h in
        (
          restored md,
          rw (q, e) (unfold mark in decompress_marked packed md p),
          record {
            bytes = refl;
            format = refl;
            kept = (_, refl, λ k. get-remove-put (properties_of md) "compressed" k "gzip" u);
          },
        )
    | inr h ↦ (
      m,
      rw (compress_message_kept h) (decompress_unmarked md e u),
      record { bytes = refl; format = refl; kept = (md, e, λ k. refl) },
    )
  ]

  -- A message without metadata, as every `EncodedMessage` is built, cannot be marked: once it has been
  -- compressed, decompressing leaves the compressed bytes, which are not the ones sent.
  pub decompress-compress_unmarked :
      m.metadata ≡ none
      → (compress_message z c m).0 ≡ true
      → let n = (compress_message z c m).1 in
        (decompress_message z n ≡ some n) × (length n.data_bytes < length m.data_bytes)
  unfolding compress_message decompress_message
  decompress-compress_unmarked e h = ground arith
