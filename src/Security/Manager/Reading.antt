-- ===== src/Security/Manager/Reading.antt =====
-- A `SecretManager` over any provider: reading what was set.
use pywatt_sdk.Prelude.{
  ℕ, ◌+◌, ◌≤◌, ◌≡◌, refl, String, true, some, arith, nat_eq, string_eq, ==_refl,
}
use pywatt_sdk.Prelude.Dict.{get, get-put_self}
use pywatt_sdk.Security.Values.{SecretProvider, ok}
use pywatt_sdk.Security.Cache.{lookup, expire, make_room, insert}
use pywatt_sdk.Security.Manager.{SecretManager, Clock, get_secret, set_secret, publish}

-- The object that the cache refers to holds a value, and expires at a time.
record Holds {ℓ} {P : Type ℓ} (m : SecretManager P) (key : String) (r : ℕ) (value : String)
    (time : ℕ) : Type 0 where
  entry : get m.cache.entries key ≡ some r
  holds : (m.heap.object r).value ≡ value
  expires : (m.heap.object r).expires_at ≡ some time

module _ {ℓ} {P : Type ℓ} (m : SecretManager P) (key : String) where
  publish-Holds :
      (value : String) (t : Clock)
      → Holds (publish m key value t) key m.heap.size value (t.cached + m.cache.default_ttl)
  unfolding publish insert expire
  publish-Holds value t = record {
    entry = ground (arith, get-put_self (make_room m.cache key).entries key m.heap.size);
    holds = ground (arith, ==_refl m.heap.size);
    expires = ground (arith, ==_refl m.heap.size);
  }

  publish_provider : (value : String) (t : Clock) → (publish m key value t).provider ≡ m.provider
  unfolding publish
  publish_provider value t = ground arith

  read_cached :
      (v : SecretProvider P) (r : ℕ) (value : String) (time : ℕ) (t : Clock)
      → Holds m key r value time
      → t.checked ≤ time
      → let (found, m') = get_secret v m key true t in
        (found ≡ ok r) × ((m'.heap.object r).value ≡ value) × (m'.provider ≡ m.provider)
  unfolding get_secret lookup
  read_cached v r value time t w h = ground (arith, w.entry, w.holds, w.expires)

module _ {ℓ} {P : Type ℓ} (v : SecretProvider P) (m : SecretManager P) (key value : String) where
  -- A value that the provider has stored is read from the cache until it expires, with no call of
  -- the provider.
  pub get_secret-set_secret :
      (t t' : Clock)
      → (v.store m.provider m.heap key value t.fetched).0 ≡ ok tt
      → t'.checked ≤ t.cached + m.cache.default_ttl
      → let (answer, m₁) = set_secret v m key value t in
        let (found, m₂) = get_secret v m₁ key true t' in
        let r = (v.store m.provider m.heap key value t.fetched).2.size in
        (answer ≡ ok tt)
        × (found ≡ ok r)
        × ((m₂.heap.object r).value ≡ value)
        × (m₂.provider ≡ m₁.provider)
  unfolding set_secret
  get_secret-set_secret t t' e h =
      let (_, p, heap) = v.store m.provider m.heap key value t.fetched in
      let stored = record m { provider = p; heap = heap } in
      let set = publish stored key value t in
      let (found, holds, same) =
        read_cached set key v heap.size value (t.cached + m.cache.default_ttl) t'
          (publish-Holds stored key value t) h in
      rw (e, set_secret) (refl, found, holds, same)
