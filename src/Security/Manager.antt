-- ===== src/Security/Manager.antt =====
-- `SecretManager` of security/secrets.py, over any provider. The callbacks of a rotation are named,
-- and the manager keeps a record of the calls, newest last; exceptions of a callback are only logged.
-- The monitor's task is the operations `cleanup_expired` and `refresh_expiring`, run in this order.
pub mod Aliasing
pub mod Reading
mod Tests
use pywatt_sdk.Prelude.{
  ℕ, ◌+◌, ◌*◌, String, Bool, true, false, List, [], ◌∷◌, ◌++◌, Option, none, some, ltb, string_eq,
  ◌==◌, if◌then◌else◌, map,
}
use pywatt_sdk.Prelude.Dict.{Dict, get, put}
use pywatt_sdk.Security.Values.{
  Heap, SecretValue, SecretProvider, Outcome, ok, raised, SecretError, not_found, provider_error,
  other_error, allocate, new_secret, is_expired,
}
use pywatt_sdk.Security.Cache.{SecretCache, lookup, insert, delete, clear_all}

pub record SecretManager {ℓ} (P : Type ℓ) : Type ℓ where
  pub provider : P
  pub cache : SecretCache
  pub heap : Heap
  pub rotation_callbacks : Dict String (List String)
  pub redacted_secrets : List String
  pub notified : List (String × String × ℕ)

-- The readings of the clock in one call: for the cached entry's expiry and its access, for the
-- provider, and for the new entry's expiry and its access.
pub record Clock : Type 0 where
  pub checked : ℕ
  pub touched : ℕ
  pub fetched : ℕ
  pub cached : ℕ
  pub accessed : ℕ

abbrev pub contains : List String → String → Bool
contains [] s = false
contains (x ∷ xs) s = if x == s then true else contains xs s

-- `set.add`
abbrev pub add : List String → String → List String
add xs s = if contains xs s then xs else xs ++ (s ∷ [])

-- Exceptions other than a `SecretError` are wrapped.
abbrev pub wrap : SecretError → SecretError
wrap not_found = not_found
wrap provider_error = provider_error
wrap other_error = provider_error

unfoldable pub drop_keys : SecretCache → List String → SecretCache
drop_keys c [] = c
drop_keys c (k ∷ ks) = drop_keys (delete c k) ks

unfoldable pub expired_keys : Dict String ℕ → Heap → ℕ → List String
expired_keys [] h now = []
expired_keys ((k, r) ∷ d) h now =
    let rest = expired_keys d h now in if is_expired (h.object r) now then k ∷ rest else rest

-- Two minutes.
abbrev pub refresh_threshold : ℕ
refresh_threshold = 120 * 1000000

abbrev pub is_expiring : SecretValue → ℕ → Bool
is_expiring s now = elim s.expires_at [ none ↦ false | some t ↦ ltb t (now + refresh_threshold) ]

unfoldable pub expiring_keys : Dict String ℕ → Heap → ℕ → List String
expiring_keys [] h now = []
expiring_keys ((k, r) ∷ d) h now =
    let rest = expiring_keys d h now in if is_expiring (h.object r) now then k ∷ rest else rest

module _ {ℓ} {P : Type ℓ} where
  abbrev pub register_for_redaction : SecretManager P → ℕ → SecretManager P
  register_for_redaction m r = record m {
    redacted_secrets = add m.redacted_secrets (m.heap.object r).value;
  }

  abbrev pub remember : SecretManager P → String → ℕ → Clock → SecretManager P
  remember m key r t =
      let (c, h) = insert m.cache m.heap key r t.cached t.accessed in
      record m { cache = c; heap = h }

  -- What follows the provider's answer.
  unfoldable pub receive_answer :
      SecretManager P → String → Bool → Clock → Outcome ℕ → Outcome ℕ × SecretManager P
  receive_answer m key use_cache t (raised e) = (raised (wrap e), m)
  receive_answer m key use_cache t (ok r) =
      (ok r, register_for_redaction (if use_cache then remember m key r t else m) r)

  unfoldable pub fetch_secret :
      SecretProvider P → SecretManager P → String → Bool → Clock → Outcome ℕ × SecretManager P
  unfolding receive_answer
  fetch_secret v m key use_cache t =
      let (answer, p, h) = v.fetch m.provider m.heap key t.fetched in
      receive_answer (record m { provider = p; heap = h }) key use_cache t answer

  unfoldable pub get_secret :
      SecretProvider P → SecretManager P → String → Bool → Clock → Outcome ℕ × SecretManager P
  unfolding fetch_secret
  get_secret v m key false t = fetch_secret v m key false t
  get_secret v m key true t =
      let (hit, c) = lookup m.cache m.heap key t.checked t.touched in
      elim hit [
        | some r ↦ (ok r, record m { cache = c })
        | none ↦ fetch_secret v (record m { cache = c }) key true t
      ]

  unfoldable pub subscribe_to_rotation : SecretManager P → String → String → SecretManager P
  subscribe_to_rotation m key callback = record m {
    rotation_callbacks = put m.rotation_callbacks key (elim (get m.rotation_callbacks key) [
      | none ↦ callback ∷ []
      | some cs ↦ cs ++ (callback ∷ [])
    ]);
  }

  unfoldable pub notify_rotation_callbacks : SecretManager P → String → ℕ → SecretManager P
  notify_rotation_callbacks m key r = elim (get m.rotation_callbacks key) [
    | none ↦ m
    | some cs ↦ record m { notified = m.notified ++ map (λ c. (c, key, r)) cs }
  ]

  -- What `set_secret` does once the provider has stored the value: the cache gets an object of its
  -- own.
  unfoldable pub publish : SecretManager P → String → String → Clock → SecretManager P
  unfolding notify_rotation_callbacks
  publish m key value t =
      let r = m.heap.size in
      let m' = record m { heap = allocate m.heap (new_secret key value t.checked) } in
      notify_rotation_callbacks (register_for_redaction (remember m' key r t) r) key r

  unfoldable pub set_secret :
      SecretProvider P
      → SecretManager P
      → String
      → String
      → Clock
      → Outcome (Unit {0}) × SecretManager P
  unfolding publish
  set_secret v m key value t =
      let (answer, p, h) = v.store m.provider m.heap key value t.fetched in
      let m' = record m { provider = p; heap = h } in
      elim answer [ ok _ ↦ (ok tt, publish m' key value t) | raised e ↦ (raised e, m') ]

  unfoldable pub delete_secret :
      SecretProvider P → SecretManager P → String → Outcome (Unit {0}) × SecretManager P
  delete_secret v m key =
      let (answer, p) = v.discard m.provider key in
      let m' = record m { provider = p } in
      elim answer [
        | ok _ ↦ (ok tt, record m' { cache = delete m.cache key })
        | raised e ↦ (raised e, m')
      ]

  unfoldable pub refresh_secret :
      SecretProvider P → SecretManager P → String → Clock → Outcome ℕ × SecretManager P
  unfolding get_secret
  refresh_secret v m key t = get_secret v (record m { cache = delete m.cache key }) key true t

  unfoldable pub cleanup_expired : SecretManager P → ℕ → SecretManager P
  unfolding drop_keys expired_keys
  cleanup_expired m now = record m {
    cache = drop_keys m.cache (expired_keys m.cache.entries m.heap now);
  }

  -- A failure to refresh is only logged.
  unfoldable pub refresh_all :
      SecretProvider P → SecretManager P → List String → Clock → SecretManager P
  unfolding refresh_secret
  refresh_all v m [] t = m
  refresh_all v m (k ∷ ks) t = refresh_all v (refresh_secret v m k t).1 ks t

  unfoldable pub refresh_expiring : SecretProvider P → SecretManager P → ℕ → Clock → SecretManager P
  unfolding refresh_all expiring_keys
  refresh_expiring v m now t = refresh_all v m (expiring_keys m.cache.entries m.heap now) t

  unfoldable pub close : SecretManager P → SecretManager P
  close m = record m { cache = clear_all m.cache }
