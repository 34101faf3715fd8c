-- ===== src/Ports/Search.antt =====
-- `find_available_port`.
use pywatt_sdk.Prelude.{
  ℕ, zero, suc, ◌+◌, ◌-◌, ◌≤◌, ◌<◌, ◌≡◌, refl, sym, ap, ◌∙◌, Bool, true, false, Option, some, arith,
  Bool-cases, inl, inr, nat_eq, ◌==◌,
}
use pywatt_sdk.Ports.{find_from, find_available_port}

-- The first free port at or after the one that the search begins with.
abbrev pub Found : (ℕ → Bool) → Option ℕ → ℕ → ℕ → Type 0
Found is_available found start q =
    (p : ℕ) × ((found ≡ some p) × ((start ≤ p) × (p ≤ q))) × (is_available p ≡ true)

later_port :
    (is_available : ℕ → Bool) (port q : ℕ)
    → port ≤ q
    → is_available q ≡ true
    → is_available port ≡ false
    → port + 1 ≤ q
later_port is_available port q h a e = elim (Bool-cases (port == q)) [
  | inl s ↦ ground (arith, sym (ap is_available ((nat_eq.beq_iff port q).0 s)) ∙ e, a)
  | inr n ↦ ground (arith, h, nat_eq.beq_iff port q)
]

find_from-Found :
    (is_available : ℕ → Bool) (n port q : ℕ)
    → port ≤ q
    → q < port + n
    → is_available q ≡ true
    → Found is_available (find_from is_available n port) port q
unfolding find_from
find_from-Found is_available zero port q h l a = ground arith
find_from-Found is_available (suc n) port q h l a = elim (Bool-cases (is_available port)) [
  | inl e ↦ rw e (port, (refl, (omega arith, h)), e)
  | inr e ↦
      let next = later_port is_available port q h a e in
      let (p, (f, (s, b)), c) = find_from-Found is_available n (port + 1) q next (omega arith) a in
      rw e (p, (f, (omega (arith, s), b)), c)
]

-- If some port of the range is free, the search finds a free one, and none that comes after it.
pub find_available_port-Found :
    (is_available : ℕ → Bool) (start end q : ℕ)
    → start ≤ q
    → q ≤ end
    → is_available q ≡ true
    → Found is_available (find_available_port is_available start end) start q
unfolding find_available_port
find_available_port-Found is_available start end q h l a =
    find_from-Found is_available (end + 1 - start) start q h (omega arith) a
