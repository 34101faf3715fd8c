-- ===== src/Cache/Service/Locks.antt =====
-- `lock` and `unlock` on the in-memory cache.
use pywatt_sdk.Prelude.{
  ℕ, ◌+◌, ◌≤◌, ◌≡◌, refl, ap, ◌∙◌, String, true, false, none, some, arith, string_eq, ◌==◌,
  if◌then◌else◌, Bool-cases, inl, inr, ==_refl,
}
use pywatt_sdk.Cache.{Bytes, InMemoryCache, get_value, stored, delete}
use pywatt_sdk.Cache.Service.{Codec, exists, lock, unlock, release, lock_key}
use pywatt_sdk.Cache.Contents.{
  live, shown, Fits, new_entry, get_value-live, live-get_value, live-set_value, live-delete_self,
}

unexpired :
    (value : Bytes) (ttl default now later : ℕ)
    → later ≤ now + ttl
    → shown (some (new_entry value (some ttl) default now)) later ≡ some value
unexpired value ttl default now later h = ground arith

module _ (u : Codec) (c : InMemoryCache) (key token : String) where
  -- A lock that is held, and has not expired, is not given to another client.
  pub lock_held :
      (ttl t₁ t₂ : ℕ) (holder : Bytes)
      → live c (lock_key key) t₁ ≡ some holder
      → (lock u c key token ttl t₁ t₂).0 ≡ none
  unfolding lock exists
  lock_held ttl t₁ t₂ holder h = ground (arith, get_value-live c (lock_key key) t₁)

  -- A free lock is given to the client: from then on its token is stored until it expires, as long as
  -- the cache fits its limit.
  pub lock_free :
      (ttl t₁ t₂ later : ℕ)
      → live c (lock_key key) t₁ ≡ none
      → Fits
          (stored (get_value c (lock_key key) t₁).1 (lock_key key) (u.encode token) (some ttl) t₂)
      → later ≤ t₂ + ttl
      → ((lock u c key token ttl t₁ t₂).0 ≡ some token)
        × (live (lock u c key token ttl t₁ t₂).1 (lock_key key) later ≡ some (u.encode token))
  unfolding lock exists
  lock_free ttl t₁ t₂ later h f k =
      let c' = (get_value c (lock_key key) t₁).1 in
      let e = new_entry (u.encode token) (some ttl) c'.config.default_ttl t₂ in
      let free = get_value-live c (lock_key key) t₁ ∙ h in
      (
        ground arith,
        rw free (
            live-set_value c' (lock_key key) (lock_key key) (u.encode token) (some ttl) t₂ later f
            ∙ ap (λ b. if b then shown (some e) later else live c' (lock_key key) later)
                (==_refl (lock_key key))
            ∙ unexpired (u.encode token) ttl c'.config.default_ttl t₂ later k),
      )

  release_holder :
      (c' : InMemoryCache) (holder : String)
      → u.decode (u.encode holder) ≡ some holder
      → release u c' (lock_key key) token (some (u.encode holder))
        ≡ (if holder == token then (true, (delete c' (lock_key key)).1) else (false, c'))
  unfolding release
  release_holder c' holder d = rw (release, d) refl

  -- Where the holder's token decodes to itself, it releases the lock, and any other token leaves it
  -- held.
  pub unlock_holder :
      (holder : String) (now later : ℕ)
      → u.decode (u.encode holder) ≡ some holder
      → live c (lock_key key) now ≡ some (u.encode holder)
      → now ≤ later
      → ((unlock u c key token now).0 ≡ (holder == token))
        × (live (unlock u c key token now).1 (lock_key key) later
            ≡ (if holder == token then none else live c (lock_key key) later))
  unfolding unlock
  unlock_holder holder now later d h k =
      let c' = (get_value c (lock_key key) now).1 in
      let found = get_value-live c (lock_key key) now ∙ h in
      let kept = live-get_value c (lock_key key) (lock_key key) now later k in
      elim (Bool-cases (holder == token)) [
        | inl e ↦
            rw (found, release_holder c' holder d)
              (rw e (refl, live-delete_self c' (lock_key key) later))
        | inr e ↦ rw (found, release_holder c' holder d) (rw e (refl, kept))
      ]
