-- ===== src/Failover/Pool/Calls.antt =====
-- The calls of the clients of a `ConnectionPool` (communication/failover.py), in any interleaving.
use pywatt_sdk.Prelude.{ℕ, zero, suc, ◌+◌, ◌≡◌, List, [], ◌∷◌, Option, none, some, if◌then◌else◌}
use pywatt_sdk.Failover.Pool.{
  ConnectionPool, PooledConnection, Taken, reuses, creates, new, acquire, take_connection,
  finish_creation, begins_return, finish_return,
}

-- A connection that a client was given, and how many calls of its `return_to_pool` wait for the lock.
pub record Lease {ℓ} (T : Type ℓ) : Type ℓ where
  pub handle : PooledConnection T
  pub pending : ℕ

-- A pool, the calls of `get_connection` that have a permit and wait for the lock, every connection that
-- was given out (newest first), also those that came back, and how often the factory has raised.
pub record Usage {ℓ} (T : Type ℓ) : Type ℓ where
  pub pool : ConnectionPool T
  pub acquired : ℕ
  pub leases : List (Lease T)
  pub failures : ℕ

-- A call of `get_connection` takes a permit, takes the lock, and the factory that it awaits ends; a call
-- of `return_to_pool` on the lease at an index tests `_returned`, and later has the lock.
pub data Event {ℓ} (T : Type ℓ) : Type ℓ where
  acquires takes : Event T
  creation : Option T → Event T
  asks gives : ℕ → Event T

unfoldable pub lease_at {ℓ} : {A : Type ℓ} → List A → ℕ → Option A
lease_at [] i = none
lease_at (x ∷ xs) zero = some x
lease_at (x ∷ xs) (suc i) = lease_at xs i

unfoldable pub replace {ℓ} : {A : Type ℓ} → List A → ℕ → A → List A
replace [] i y = []
replace (x ∷ xs) zero y = y ∷ xs
replace (x ∷ xs) (suc i) y = x ∷ replace xs i y

module _ {ℓ} {T : Type ℓ} where
  abbrev lease : PooledConnection T → Lease T
  lease h = record { handle = h; pending = 0 }

  after_take : Usage T → Taken T × ConnectionPool T → Usage T
  after_take u (reuses h, p) = record u { pool = p; leases = lease h ∷ u.leases }
  after_take u (creates, p) = record u { pool = p }

  after_creation : Usage T → Option (PooledConnection T) × ConnectionPool T → Usage T
  after_creation u (none, p) = record u { pool = p; failures = u.failures + 1 }
  after_creation u (some h, p) = record u { pool = p; leases = lease h ∷ u.leases }

  after_ask : Usage T → ℕ → Lease T → Usage T
  unfolding replace
  after_ask u i l =
      if begins_return l.handle
      then record u { leases = replace u.leases i (record l { pending = l.pending + 1 }) }
      else u

  after_give : Usage T → ℕ → Lease T → Usage T
  unfolding replace
  after_give u i l = elim l.pending [
    | zero ↦ u
    | suc n ↦ record u {
      pool = (finish_return l.handle u.pool).1;
      leases =
          replace u.leases i (record { handle = (finish_return l.handle u.pool).0; pending = n });
    }
  ]

  unfoldable pub step : Usage T → Event T → Usage T
  unfolding after_take after_creation after_ask after_give lease_at
  step u acquires = elim (acquire u.pool) [
    | none ↦ u
    | some p ↦ record u { pool = p; acquired = u.acquired + 1 }
  ]
  step u takes = if u.pool.locked then u else elim u.acquired [
    | zero ↦ u
    | suc n ↦ after_take (record u { acquired = n }) (take_connection u.pool)
  ]
  step u (creation made) =
      if u.pool.locked then after_creation u (finish_creation u.pool made) else u
  step u (asks i) = elim (lease_at u.leases i) [ none ↦ u | some l ↦ after_ask u i l ]
  step u (gives i) =
      if u.pool.locked
      then u
      else elim (lease_at u.leases i) [ none ↦ u | some l ↦ after_give u i l ]

  unfoldable pub run : Usage T → List (Event T) → Usage T
  unfolding step
  run u [] = u
  run u (e ∷ es) = run (step u e) es

  abbrev pub start : ℕ → Usage T
  start n = record { pool = new n; acquired = 0; leases = []; failures = 0 }

  -- No call of `return_to_pool` is made on a connection while another one waits for the lock.
  abbrev pub Unhurried : Usage T → Event T → Type 0
  Unhurried u (asks i) = elim (lease_at u.leases i) [ none ↦ Unit | some l ↦ l.pending ≡ 0 ]
  Unhurried u _ = Unit

  unfoldable pub AllUnhurried : Usage T → List (Event T) → Type 0
  unfolding step
  AllUnhurried u [] = Unit
  AllUnhurried u (e ∷ es) = Unhurried u e × AllUnhurried (step u e) es
