-- ===== src/Cache/Service/Tests.antt =====
-- The locks at concrete inputs.
use pywatt_sdk.Prelude.{
  ℕ, zero, suc, ◌+◌, String, [], ◌∷◌, Option, none, some, string_eq, ◌==◌, if◌then◌else◌,
}
use pywatt_sdk.Cache.{Bytes, CacheConfig, InMemoryCache, in_memory, lru, new}
use pywatt_sdk.Cache.Service.{Codec, lock_key}

-- Two texts and the natural numbers.
abbrev encode_two : String → Bytes
encode_two s = if s == "ann" then 1 ∷ [] else 2 ∷ []

abbrev decode_two : Bytes → Option String
decode_two [] = none
decode_two (n ∷ _) = elim n [ suc zero ↦ some "ann" | _ ↦ some "bob" ]

abbrev parse_one : Bytes → Option ℕ
parse_one [] = none
parse_one (n ∷ _) = some n

abbrev two_texts : Codec
two_texts = record {
  encode = encode_two;
  decode = decode_two;
  Number = ℕ;
  zero_number = 0;
  plus = ◌+◌;
  negate = λ n. n;
  print = λ n. n ∷ [];
  parse = parse_one;
}

abbrev roomy : CacheConfig
roomy = record { cache_type = in_memory; policy = lru; max_size_bytes = some 100; default_ttl = 0 }

abbrev held : InMemoryCache
held = record {
  config = roomy;
  entries = (lock_key "job", record { value = 1 ∷ []; expiry_time = some 9 }) ∷ [];
  counters = (new roomy).counters;
}
