-- ===== src/Prelude/Dict.antt =====
-- Python's `dict`: an association list in insertion order, one entry for each key. Assignment to a
-- present key keeps the entry's place, a new key goes to the end.
pub mod Distinct
use Prim.Native.Nat.{◌+◌, ◌≤◌}
use mathlib.Core.Path.{◌≡◌, refl}
use mathlib.Core.Bool.{Bool, true, false}
use mathlib.Core.Option.{Option, none, some}
use mathlib.Core.List.{List, [], ◌∷◌, map}
use native.Mathlib.Omega.{arith}
use pywatt_sdk.Prelude.Tests.{Eq, ◌==◌, if◌then◌else◌, ==_refl}
use pywatt_sdk.Prelude.Lists.{length}

abbrev pub Dict {ℓ κ} : Type ℓ → Type κ → Type (ℓ ⊔ κ)
Dict K V = List (K × V)

module _ {ℓ κ} {K : Type ℓ} {V : Type κ} ⦃e : Eq K⦄ where
  -- d.get(k)
  unfoldable pub get : Dict K V → K → Option V
  get [] k = none
  get ((j, v) ∷ d) k = if j == k then some v else get d k

  -- d[k] = v
  unfoldable pub put : Dict K V → K → V → Dict K V
  put [] k v = (k, v) ∷ []
  put ((j, w) ∷ d) k v = if j == k then (j, v) ∷ d else (j, w) ∷ put d k v

  -- d.pop(k, None), del d[k]
  unfoldable pub remove : Dict K V → K → Dict K V
  remove [] k = []
  remove ((j, v) ∷ d) k = let rest = remove d k in if j == k then rest else (j, v) ∷ rest

  -- k in d
  unfoldable pub has : Dict K V → K → Bool
  unfolding get
  has d k = elim (get d k) [ none ↦ false | some _ ↦ true ]

  pub get-put :
      (d : Dict K V) (k j : K) (v : V) → get (put d k v) j ≡ (if k == j then some v else get d j)
  unfolding get put
  get-put [] k j v = refl
  get-put ((i, w) ∷ d) k j v =
      ground (arith, get-put d k j v, e.beq_iff i k, e.beq_iff i j, e.beq_iff k j)

  pub get-remove :
      (d : Dict K V) (k j : K) → get (remove d k) j ≡ (if k == j then none else get d j)
  unfolding get remove
  get-remove [] k j = ground arith
  get-remove ((i, w) ∷ d) k j =
      ground (arith, get-remove d k j, e.beq_iff i k, e.beq_iff i j, e.beq_iff k j)

  pub get-put_self : (d : Dict K V) (k : K) (v : V) → get (put d k v) k ≡ some v
  get-put_self d k v = simp (get-put, ==_refl)

  pub get-remove_self : (d : Dict K V) (k : K) → get (remove d k) k ≡ none
  get-remove_self d k = simp (get-remove, ==_refl)

  -- Adding a key that was absent and deleting it again.
  pub get-remove-put :
      (d : Dict K V) (k j : K) (v : V) → get d k ≡ none → get (remove (put d k v) k) j ≡ get d j
  get-remove-put d k j v h =
      ground (arith, get-remove (put d k v) k j, get-put d k j v, e.beq_iff k j)

  pub length-put_le : (d : Dict K V) (k : K) (v : V) → length (put d k v) ≤ length d + 1
  unfolding put
  length-put_le [] k v = omega arith
  length-put_le ((j, w) ∷ d) k v = ground (arith, length-put_le d k v)

  pub length-remove_le : (d : Dict K V) (k : K) → length (remove d k) ≤ length d
  unfolding remove
  length-remove_le [] k = omega arith
  length-remove_le ((j, w) ∷ d) k = ground (arith, length-remove_le d k)

  -- list(d.keys()), list(d.values())
  abbrev pub keys : Dict K V → List K
  keys = map λ p. p.0

  abbrev pub values : Dict K V → List V
  values = map λ p. p.1

pub ruleset dict_laws = (get-put, get-remove, get-put_self, get-remove_self)
