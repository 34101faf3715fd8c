-- ===== src/Prelude/Dict/Distinct.antt =====
-- Dictionaries hold each key once: their operations keep it so, and it makes deleting the first keys
-- the same as dropping the first entries.
use Prim.Native.Nat.{ℕ, zero, suc}
use mathlib.Core.Path.{◌≡◌, refl}
use mathlib.Core.Logic.{inl, inr}
use mathlib.Core.Bool.{true}
use mathlib.Core.Option.{none}
use mathlib.Core.List.{[], ◌∷◌}
use native.Mathlib.Omega.{arith}
use pywatt_sdk.Prelude.Tests.{Eq, ◌==◌, ==_refl, Bool-cases}
use pywatt_sdk.Prelude.Lists.{take, drop}
use pywatt_sdk.Prelude.Dict.{Dict, get, put, remove, has, get-put, get-remove}

module _ {ℓ κ} {K : Type ℓ} {V : Type κ} ⦃e : Eq K⦄ where
  abbrev pub Distinct : Dict K V → Type κ
  Distinct [] = Unit
  Distinct ((k, v) ∷ d) = (get d k ≡ none) × Distinct d

  pub remove_absent : (d : Dict K V) (k : K) → get d k ≡ none → remove d k ≡ d
  unfolding get remove
  remove_absent [] k h = refl
  remove_absent ((j, v) ∷ d) k h = ground (arith, remove_absent d k)

  pub remove_head : (k : K) (v : V) (d : Dict K V) → get d k ≡ none → remove ((k, v) ∷ d) k ≡ d
  unfolding remove
  remove_head k v d h = rw (==_refl k) (remove_absent d k h)

  pub put-Distinct : (d : Dict K V) (k : K) (v : V) → Distinct d → Distinct (put d k v)
  unfolding get put
  put-Distinct [] k v h = (refl, tt)
  put-Distinct ((j, w) ∷ d) k v h = elim (Bool-cases (j == k)) [
    | inl t ↦ rw t h
    | inr f ↦
        rw f (ground (arith, get-put d k j v, e.beq_iff j k, e.beq_iff k j), put-Distinct d k v h.1)
  ]

  pub remove-Distinct : (d : Dict K V) (k : K) → Distinct d → Distinct (remove d k)
  unfolding get remove
  remove-Distinct [] k h = tt
  remove-Distinct ((j, w) ∷ d) k h = elim (Bool-cases (j == k)) [
    | inl t ↦ rw t (remove-Distinct d k h.1)
    | inr f ↦
        rw f
          (ground (arith, get-remove d k j, e.beq_iff j k, e.beq_iff k j), remove-Distinct d k h.1)
  ]

  get-drop_absent : (n : ℕ) (d : Dict K V) (k : K) → get d k ≡ none → get (drop n d) k ≡ none
  unfolding get
  get-drop_absent zero d k h = h
  get-drop_absent (suc n) [] k h = refl
  get-drop_absent (suc n) ((j, w) ∷ d) k h = ground (arith, get-drop_absent n d k)

  -- A key among the first entries is not among the others.
  pub get-drop :
      (n : ℕ) (d : Dict K V) (k : K)
      → Distinct d
      → has (take n d) k ≡ true
      → get (drop n d) k ≡ none
  unfolding get has
  get-drop zero d k h t = ground arith
  get-drop (suc n) [] k h t = ground arith
  get-drop (suc n) ((j, w) ∷ d) k h t =
      ground (arith, get-drop n d k h.1, get-drop_absent n d k, e.beq_iff j k)
