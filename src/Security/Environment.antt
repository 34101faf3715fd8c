-- ===== src/Security/Environment.antt =====
-- `EnvironmentSecretProvider` of security/secrets.py. The methods of Python's texts that it calls are
-- parameters.
mod Tests
use pywatt_sdk.Prelude.{
  ℕ, String, Bool, List, [], ◌∷◌, Option, none, some, string_eq, ◌==◌, if◌then◌else◌,
}
use Prim.Native.String.{◌++◌}
use pywatt_sdk.Prelude.Dict.{Dict, get, put, remove, keys}
use pywatt_sdk.Security.Values.{
  Heap, SecretValue, SecretProvider, Outcome, ok, raised, not_found, allocate, new_secret,
  is_expired,
}

-- `str.upper`, `str.lower`, and the rest of a text after a prefix that it has.
pub record TextMethods : Type 0 where
  pub upper : String → String
  pub lower : String → String
  pub after_prefix : String → String → Option String

-- `os.environ`
abbrev pub Variables : Type 0
Variables = Dict String String

module _ (t : TextMethods) (prefix : String) where
  abbrev pub env_key : String → String
  env_key key = prefix ++ t.upper key

  unfoldable pub fetch : Variables → Heap → String → ℕ → Outcome ℕ × Variables × Heap
  fetch d h key now = elim (get d (env_key key)) [
    | none ↦ (raised not_found, d, h)
    | some value ↦ (ok h.size, d, allocate h (new_secret key value now))
  ]

  unfoldable pub store :
      Variables → Heap → String → String → ℕ → Outcome (Unit {0}) × Variables × Heap
  store d h key value now = (ok tt, put d (env_key key) value, h)

  unfoldable pub discard : Variables → String → Outcome (Unit {0}) × Variables
  discard d key = (ok tt, remove d (env_key key))

  unfoldable pub names : Variables → List String
  names [] = []
  names ((k, v) ∷ d) = elim (t.after_prefix prefix k) [
    | none ↦ names d
    | some rest ↦ t.lower rest ∷ names d
  ]

  unfoldable pub list : Variables → Heap → ℕ → Outcome (List String) × Variables
  unfolding names
  list d h now = (ok (names d), d)

  abbrev pub provider : SecretProvider Variables
  provider = record { fetch = fetch; store = store; discard = discard; list = list }
