-- ===== src/Security/Values.antt =====
-- `SecretValue` and the interface `SecretProvider` of security/secrets.py. Secrets are objects of a
-- heap, which providers and caches refer to: a change through one reference is seen through all.
-- Times are in microseconds. The metadata and the version of a secret are left out.
use pywatt_sdk.Prelude.{
  ℕ, ◌+◌, String, Bool, true, false, List, Option, none, some, ltb, nat_eq, ◌==◌, if◌then◌else◌,
}

pub record SecretValue : Type 0 where
  pub value : String
  pub key : String
  pub created_at : ℕ
  pub expires_at : Option ℕ

abbrev pub is_expired : SecretValue → ℕ → Bool
is_expired s now = elim s.expires_at [ none ↦ false | some t ↦ ltb t now ]

-- The objects made so far are those below `size`.
pub record Heap : Type 0 where
  pub object : ℕ → SecretValue
  pub size : ℕ

abbrev pub write : Heap → ℕ → SecretValue → Heap
write h r s = record h { object = λ q. if q == r then s else h.object q }

-- A new object, referred to by the old size.
abbrev pub allocate : Heap → SecretValue → Heap
allocate h s = record { object = λ q. if q == h.size then s else h.object q; size = h.size + 1 }

abbrev pub new_secret : String → String → ℕ → SecretValue
new_secret key value now = record { value = value; key = key; created_at = now; expires_at = none }

-- `SecretNotFoundError`, `SecretProviderError`, and an exception that is no `SecretError`.
pub data SecretError : Type 0 where
  not_found provider_error other_error : SecretError

pub data Outcome {ℓ} (A : Type ℓ) : Type ℓ where
  ok : A → Outcome A
  raised : SecretError → Outcome A

-- A provider over its own state. Times are the readings of the clock.
pub record SecretProvider {ℓ} (P : Type ℓ) : Type ℓ where
  pub fetch : P → Heap → String → ℕ → Outcome ℕ × P × Heap
  pub store : P → Heap → String → String → ℕ → Outcome (Unit {0}) × P × Heap
  pub discard : P → String → Outcome (Unit {0}) × P
  pub list : P → Heap → ℕ → Outcome (List String) × P

-- `secret_exists`: only a missing secret is answers_exists, other exceptions are passed on.
abbrev answers_exists {ℓ} : {P : Type ℓ} → Outcome ℕ × P × Heap → Outcome Bool × P × Heap
answers_exists (ok _, p, h) = (ok true, p, h)
answers_exists (raised not_found, p, h) = (ok false, p, h)
answers_exists (raised provider_error, p, h) = (raised provider_error, p, h)
answers_exists (raised other_error, p, h) = (raised other_error, p, h)

pub secret_exists {ℓ} :
    {P : Type ℓ} → SecretProvider P → P → Heap → String → ℕ → Outcome Bool × P × Heap
secret_exists v p h key now = answers_exists (v.fetch p h key now)
