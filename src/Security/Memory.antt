-- ===== src/Security/Memory.antt =====
-- `MemorySecretProvider` of security/secrets.py.
use pywatt_sdk.Prelude.{ℕ, String, List, [], ◌∷◌, none, some, string_eq, if◌then◌else◌}
use pywatt_sdk.Prelude.Dict.{Dict, get, put, remove, keys}
use pywatt_sdk.Security.Values.{
  Heap, SecretProvider, Outcome, ok, raised, not_found, allocate, new_secret, is_expired,
}

-- `_secrets`: the references of the stored secrets.
abbrev pub Secrets : Type 0
Secrets = Dict String ℕ

-- The stored object itself is returned; an expired one is deleted.
unfoldable pub fetch : Secrets → Heap → String → ℕ → Outcome ℕ × Secrets × Heap
fetch d h key now = elim (get d key) [
  | none ↦ (raised not_found, d, h)
  | some r ↦
      if is_expired (h.object r) now then (raised not_found, remove d key, h) else (ok r, d, h)
]

unfoldable pub store : Secrets → Heap → String → String → ℕ → Outcome (Unit {0}) × Secrets × Heap
store d h key value now = (ok tt, put d key h.size, allocate h (new_secret key value now))

unfoldable pub discard : Secrets → String → Outcome (Unit {0}) × Secrets
discard d key = (ok tt, remove d key)

unfoldable pub drop_expired : Secrets → Heap → ℕ → Secrets
drop_expired [] h now = []
drop_expired ((k, r) ∷ d) h now =
    let rest = drop_expired d h now in if is_expired (h.object r) now then rest else (k, r) ∷ rest

unfoldable pub list : Secrets → Heap → ℕ → Outcome (List String) × Secrets
unfolding drop_expired
list d h now = let d' = drop_expired d h now in (ok (keys d'), d')

abbrev pub provider : SecretProvider Secrets
provider = record { fetch = fetch; store = store; discard = discard; list = list }
