-- ===== src/Cache/Contents.antt =====
-- What the readers of an `InMemoryCache` see, and how each operation changes it.
use mathlib.Core.Path.{subst}
use text.Mathlib.TextEquality.{eq_iff}
use pywatt_sdk.Prelude.{
  ℕ, ◌≤◌, ◌≡◌, refl, ap, ◌∙◌, String, Bool, true, false, Option, none, some, arith, sym, ◌+◌, ◌||◌,
  leb, nat_eq, ◌==◌, string_eq, if◌then◌else◌, Bool-cases, inl, inr,
}
use pywatt_sdk.Prelude.Dict.{get, has, get-put, get-remove, get-remove_self}
use pywatt_sdk.Cache.{
  Bytes, Entry, InMemoryCache, expired, expiry, ttl_or, size_of, get_value, set_value, stored,
  evict_if_needed, delete,
}

-- The value that a reader finds under a key at a time.
abbrev pub shown : Option Entry → ℕ → Option Bytes
shown none now = none
shown (some e) now = if expired e now then none else some e.value

abbrev pub live : InMemoryCache → String → ℕ → Option Bytes
live c k now = shown (get c.entries k) now

-- The cache is within its limit.
abbrev pub Within : Option ℕ → ℕ → Type 0
Within none n = Unit
Within (some limit) n = n ≤ limit

abbrev pub Fits : InMemoryCache → Type 0
Fits c = Within c.config.max_size_bytes (size_of c.entries)

-- `get` returns what is live.
pub get_value-live :
    (c : InMemoryCache) (k : String) (now : ℕ) → (get_value c k now).0 ≡ live c k now
unfolding get_value
get_value-live c k now = ground arith

shown-if :
    (b : Bool) (x y : Option Entry) (now : ℕ)
    → shown (if b then x else y) now ≡ (if b then shown x now else shown y now)
shown-if true x y now = refl
shown-if false x y now = refl

-- A law about two keys from its two cases.
same_or_other {ℓ} : (P : String → Type ℓ) (k j : String) → P k → ((k == j) ≡ false → P j) → P j
same_or_other P k j same other = elim (Bool-cases (k == j)) [
  | inl e ↦ subst P ((eq_iff k j).0 e) same
  | inr e ↦ other e
]

live-get_value_self :
    (c : InMemoryCache) (k : String) (now later : ℕ)
    → now ≤ later
    → live (get_value c k now).1 k later ≡ live c k later
unfolding get_value
live-get_value_self c k now later h = ground (arith, get-remove_self c.entries k)

-- Reading changes nothing that a reader sees from then on, though it drops an expired entry.
pub live-get_value :
    (c : InMemoryCache) (k j : String) (now later : ℕ)
    → now ≤ later
    → live (get_value c k now).1 j later ≡ live c j later
unfolding get_value
live-get_value c k j now later h =
    same_or_other (λ x. live (get_value c k now).1 x later ≡ live c x later) k j
      (live-get_value_self c k now later h) (λ e. ground (arith, get-remove c.entries k j))

evict_if_needed-Fits : (c : InMemoryCache) → Fits c → evict_if_needed c ≡ c
unfolding evict_if_needed
evict_if_needed-Fits c h = ground arith

abbrev pub new_entry : Bytes → Option ℕ → ℕ → ℕ → Entry
new_entry value ttl default now = record {
  value = value;
  expiry_time = expiry (ttl_or ttl default) now;
}

-- While the cache fits its limit, `set` shows the new value under its key until it expires, and
-- nothing else changes.
pub live-set_value :
    (c : InMemoryCache) (k j : String) (value : Bytes) (ttl : Option ℕ) (now later : ℕ)
    → Fits (stored c k value ttl now)
    → live (set_value c k value ttl now) j later ≡ (
        if k == j
        then shown (some (new_entry value ttl c.config.default_ttl now)) later
        else live c j later)
unfolding set_value stored
live-set_value c k j value ttl now later h =
    let e = new_entry value ttl c.config.default_ttl now in
    ap (λ d. live d j later) (evict_if_needed-Fits (stored c k value ttl now) h)
    ∙ ap (λ o. shown o later) (get-put c.entries k j e)
    ∙ shown-if (k == j) (some e) (get c.entries j) later

-- The time to live of a call, or the default one; 0 sets no expiry.
abbrev pub lifetime : Option ℕ → ℕ → ℕ
lifetime none default = default
lifetime (some ttl) default = ttl

-- Whether a value that was set at `now` is still there at `later`.
abbrev pub lasts : ℕ → ℕ → ℕ → Bool
lasts ttl now later = ttl == 0 || leb later (now + ttl)

shown_new :
    (value : Bytes) (ttl : Option ℕ) (default now later : ℕ)
    → shown (some (new_entry value ttl default now)) later
      ≡ (if lasts (lifetime ttl default) now later then some value else none)
shown_new value none default now later = ground arith
shown_new value (some t) default now later = ground arith

-- While the cache fits its limit, `get` after `set` gives the new value under its key for exactly as
-- long as the time to live of the call, or the default one, says (for ever where it is 0), and
-- under every other key what it gave before.
pub get_value-set_value :
    (c : InMemoryCache) (k j : String) (value : Bytes) (ttl : Option ℕ) (now later : ℕ)
    → Fits (stored c k value ttl now)
    → (get_value (set_value c k value ttl now) j later).0 ≡ (
        if k == j
        then (if lasts (lifetime ttl c.config.default_ttl) now later then some value else none)
        else (get_value c j later).0)
get_value-set_value c k j value ttl now later h =
    let d = set_value c k value ttl now in
    get_value-live d j later
    ∙ live-set_value c k j value ttl now later h
    ∙ cong2 (k == j) (shown_new value ttl c.config.default_ttl now later)
        (sym (get_value-live c j later))
  where
    cong2 :
        (b : Bool) {x y z w : Option Bytes}
        → x ≡ y
        → z ≡ w
        → (if b then x else z) ≡ (if b then y else w)
    cong2 true e f = e
    cong2 false e f = f

absent : (c : InMemoryCache) (k : String) → has c.entries k ≡ false → get c.entries k ≡ none
unfolding has
absent c k h = ground arith

pub live-delete_self :
    (c : InMemoryCache) (k : String) (later : ℕ) → live (delete c k).1 k later ≡ none
unfolding delete
live-delete_self c k later = elim (Bool-cases (has c.entries k)) [
  | inl e ↦ rw e (rw get-remove_self)
  | inr e ↦ rw e (rw (absent c k e))
]

live-delete_other :
    (c : InMemoryCache) (k j : String) (later : ℕ)
    → (k == j) ≡ false
    → live (delete c k).1 j later ≡ live c j later
unfolding delete
live-delete_other c k j later n = elim (Bool-cases (has c.entries k)) [
  | inl e ↦ rw e (rw get-remove (rw n))
  | inr e ↦ rw e
]

-- `delete` takes its key away, and nothing else.
pub live-delete :
    (c : InMemoryCache) (k j : String) (later : ℕ)
    → live (delete c k).1 j later ≡ (if k == j then none else live c j later)
live-delete c k j later = elim (Bool-cases (k == j)) [
  | inl e ↦ rw e (
      subst (λ x. live (delete c k).1 x later ≡ none) ((eq_iff k j).0 e)
        (live-delete_self c k later))
  | inr e ↦ rw e (live-delete_other c k j later e)
]
