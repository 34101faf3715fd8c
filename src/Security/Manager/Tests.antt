-- ===== src/Security/Manager/Tests.antt =====
-- Runs of a `SecretManager` over the memory provider.
use pywatt_sdk.Prelude.{ℕ, true, false, [], ◌∷◌, none, ◌≡◌, refl, arith, nat_eq, string_eq}
use pywatt_sdk.Prelude.Dict.{get}
use pywatt_sdk.Security.Values.{ok, raised, not_found, new_secret}
use pywatt_sdk.Security.Memory.{Secrets, provider, store}
use pywatt_sdk.Security.Cache.{new}
use pywatt_sdk.Security.Manager.{SecretManager, Clock, get_secret, set_secret}
use pywatt_sdk.Security.Manager.Aliasing.{get_secret_lost}
use pywatt_sdk.Security.Manager.Reading.{get_secret-set_secret}

-- One secret in the provider, which never expires, and an empty cache with a time to live of 900.
abbrev manager : SecretManager Secrets
manager = record {
  provider = ("db", 0) ∷ [];
  cache = new 10 900;
  heap = record { object = λ _. new_secret "db" "hunter2" 0; size = 1 };
  rotation_callbacks = [];
  redacted_secrets = [];
  notified = [];
}

abbrev clock : ℕ → Clock
clock n = record { checked = n; touched = n; fetched = n; cached = n; accessed = n }

get_secret_lost_example :
    let (first, m₁) = get_secret provider manager "db" true (clock 100) in
    let (second, m₂) = get_secret provider m₁ "db" false (clock 2000) in
    (first ≡ ok 0) × (second ≡ raised not_found) × (get m₂.provider "db" ≡ none)
unfolding get
get_secret_lost_example =
    get_secret_lost manager "db" 0 (clock 100) (clock 2000) false refl refl refl (omega arith)
      (omega arith)

get_secret-set_secret_example :
    let (answer, m₁) = set_secret provider manager "api" "token" (clock 5) in
    let (found, m₂) = get_secret provider m₁ "api" true (clock 800) in
    (answer ≡ ok tt)
    × (found ≡ ok 2)
    × ((m₂.heap.object 2).value ≡ "token")
    × (m₂.provider ≡ m₁.provider)
unfolding store
get_secret-set_secret_example =
    get_secret-set_secret provider manager "api" "token" (clock 5) (clock 800) refl (omega arith)
