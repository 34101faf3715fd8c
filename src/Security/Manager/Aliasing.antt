-- ===== src/Security/Manager/Aliasing.antt =====
-- A `SecretManager` over a `MemorySecretProvider`: cache and provider share the object of a secret.
use pywatt_sdk.Prelude.{
  ℕ, ◌+◌, ◌<◌, ◌≡◌, refl, String, Bool, true, false, none, some, arith, nat_eq, string_eq, ==_refl,
}
use pywatt_sdk.Prelude.Dict.{get, get-put_self, get-remove_self}
use pywatt_sdk.Security.Values.{Heap, SecretValue, write, ok, raised, not_found}
use pywatt_sdk.Security.Memory.{Secrets, provider, fetch}
use pywatt_sdk.Security.Cache.{SecretCache, lookup, expire, make_room, insert}
use pywatt_sdk.Security.Manager.{SecretManager, Clock, get_secret}

write_self : (h : Heap) (r : ℕ) (s : SecretValue) → (write h r s).object r ≡ s
write_self h r s = rw (==_refl r) refl

expire_lem :
    (c : SecretCache) (h : Heap) (r now : ℕ)
    → (h.object r).expires_at ≡ none
    → ((expire c h r now).object r).expires_at ≡ some (now + c.default_ttl)
unfolding expire
expire_lem c h r now e = ground (arith, ==_refl r)

module _ (m : SecretManager Secrets) (key : String) (r : ℕ) (t : Clock) where
  -- The first read.
  get_secret_stored :
      get m.provider key ≡ some r
      → (m.heap.object r).expires_at ≡ none
      → get m.cache.entries key ≡ none
      → let (answer, m') = get_secret provider m key true t in
        (answer ≡ ok r)
        × (get m'.provider key ≡ some r)
        × ((m'.heap.object r).expires_at ≡ some (t.cached + m.cache.default_ttl))
        × (get m'.cache.entries key ≡ some r)
  unfolding get_secret fetch lookup insert
  get_secret_stored e f g = ground (
    arith,
    get-put_self (make_room m.cache key).entries key r,
    expire_lem m.cache m.heap r t.cached f,
  )

  -- A read after the expiry.
  get_secret_expired :
      (again : Bool) (time : ℕ)
      → get m.provider key ≡ some r
      → (m.heap.object r).expires_at ≡ some time
      → get m.cache.entries key ≡ some r
      → time < t.checked
      → time < t.fetched
      → let (answer, m') = get_secret provider m key again t in
        (answer ≡ raised not_found) × (get m'.provider key ≡ none)
  unfolding get_secret fetch lookup
  get_secret_expired true time e f g p q = ground (arith, get-remove_self m.provider key)
  get_secret_expired false time e f g p q = ground (arith, get-remove_self m.provider key)

module _ (m : SecretManager Secrets) (key : String) (r : ℕ) where
  -- A stored secret that never expires is lost by reading it: the first read, through the cache,
  -- gives the provider's own object the cache's time to live, and a later read that is over that
  -- time, through the cache or not, deletes the secret from the provider and raises.
  pub get_secret_lost :
      (t t' : Clock) (again : Bool)
      → get m.provider key ≡ some r
      → (m.heap.object r).expires_at ≡ none
      → get m.cache.entries key ≡ none
      → t.cached + m.cache.default_ttl < t'.checked
      → t.cached + m.cache.default_ttl < t'.fetched
      → let (first, m₁) = get_secret provider m key true t in
        let (second, m₂) = get_secret provider m₁ key again t' in
        (first ≡ ok r) × (second ≡ raised not_found) × (get m₂.provider key ≡ none)
  get_secret_lost t t' again e f g p q =
      let (answer, stored, expiry, cached) = get_secret_stored m key r t e f g in
      let m₁ = (get_secret provider m key true t).1 in
      let time = t.cached + m.cache.default_ttl in
      let (lost, gone) = get_secret_expired m₁ key r t' again time stored expiry cached p q in
      (answer, lost, gone)
