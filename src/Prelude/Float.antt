-- ===== src/Prelude/Float.antt =====
-- Python's floats, as an interface: the program only computes with them and compares them. Of their
-- laws none is assumed but those that a theorem names.
use Prim.Native.Nat.{ℕ, ◌+◌, ◌-◌, ◌*◌, ◌/◌}
use mathlib.Core.Path.{◌≡◌}
use mathlib.Core.Bool.{Bool, true, false}
use native.Mathlib.Omega.{arith}
use pywatt_sdk.Prelude.Tests.{if◌then◌else◌, ltb, leb, ◌==◌, nat_eq}

-- `ratio n d` is the float nearest to n / d, as a literal such as 0.5 denotes it, or `n / d` of integers.
pub record Float : Type 1 where
  pub Carrier : Type 0
  pub add : Carrier → Carrier → Carrier
  pub sub : Carrier → Carrier → Carrier
  pub mul : Carrier → Carrier → Carrier
  -- Where the divisor equals zero, Python raises instead; the code that divides says so.
  pub div : Carrier → Carrier → Carrier
  pub ratio : ℕ → ℕ → Carrier
  pub lt : Carrier → Carrier → Bool
  pub le : Carrier → Carrier → Bool
  pub eq : Carrier → Carrier → Bool
  -- No float is less than itself.
  pub lt_irrefl : (a : Carrier) → lt a a ≡ false

-- Python's `min(a, b)`.
abbrev pub min_of : (F : Float) → F.Carrier → F.Carrier → F.Carrier
min_of F a b = if F.lt b a then b else a

-- Python's `max(a, b)`.
abbrev pub max_of : (F : Float) → F.Carrier → F.Carrier → F.Carrier
max_of F a b = if F.lt a b then b else a

-- Whole numbers in place of floats: an instance in which the tests compute.
pub lt_irrefl_nat : (a : ℕ) → ltb a a ≡ false
lt_irrefl_nat a = ground arith

abbrev pub whole : Float
whole = record {
  Carrier = ℕ;
  add = ◌+◌;
  sub = ◌-◌;
  mul = ◌*◌;
  div = ◌/◌;
  ratio = ◌/◌;
  lt = ltb;
  le = leb;
  eq = ◌==◌;
  lt_irrefl = lt_irrefl_nat;
}

-- The order of the floats that are numbers: no value is a NaN.
pub record IsNumeric (F : Float) : Type 0 where
  pub lt_asym : (a b : F.Carrier) → F.lt a b ≡ true → F.lt b a ≡ false
  pub lt_false_trans : (a b c : F.Carrier) → F.lt a b ≡ false → F.lt b c ≡ false → F.lt a c ≡ false
  pub eq_refl : (a : F.Carrier) → F.eq a a ≡ true
  pub lt_of_eq : (a b c : F.Carrier) → F.eq a b ≡ true → F.lt c a ≡ F.lt c b

pub whole-IsNumeric : IsNumeric whole
whole-IsNumeric = record {
  lt_asym = λ a b h. ground arith;
  lt_false_trans = λ a b c h k. ground arith;
  eq_refl = λ a. ground arith;
  lt_of_eq = λ a b c h. ground arith;
}
