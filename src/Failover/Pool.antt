-- ===== src/Failover/Pool.antt =====
-- `ConnectionPool` and `PooledConnection` of communication/failover.py, for connections of any type.
-- The end of the Python list is the head of the model's. A method is split where it awaits: the
-- semaphore, the lock, and the factory, which `get_connection` awaits while it holds the lock. The
-- factory's outcome is an argument: `none` where it raises.
pub mod Calls
pub mod Permits
mod Tests
use pywatt_sdk.Prelude.{
  ℕ, zero, suc, ◌+◌, Bool, true, false, not, List, [], ◌∷◌, Option, none, some, length, ltb,
  if◌then◌else◌,
}

-- `permits` is the value of the semaphore; the lock is held across steps by a call of the factory
-- only.
pub record ConnectionPool {ℓ} (T : Type ℓ) : Type ℓ where
  pub max_connections : ℕ
  pub connections : List T
  pub permits : ℕ
  pub locked : Bool

pub record PooledConnection {ℓ} (T : Type ℓ) : Type ℓ where
  pub connection : T
  pub returned : Bool

-- `available_connections`, `max_connections` and `active_connections` of `get_stats`. The last is a
-- difference of integers, kept as its two terms.
pub record PoolStats : Type 0 where
  pub available_connections : ℕ
  pub max_connections : ℕ
  pub free_permits : ℕ

-- Under the lock `get_connection` has a connection, or awaits the factory.
pub data Taken {ℓ} (T : Type ℓ) : Type ℓ where
  reuses : PooledConnection T → Taken T
  creates : Taken T

module _ {ℓ} {T : Type ℓ} where
  pub new : ℕ → ConnectionPool T
  new n = record { max_connections = n; connections = []; permits = n; locked = false }

  -- `PooledConnection.__init__`
  abbrev pub pooled : T → PooledConnection T
  pooled c = record { connection = c; returned = false }

  -- `semaphore.acquire`; `none` where the call waits.
  pub acquire : ConnectionPool T → Option (ConnectionPool T)
  acquire p = elim p.permits [ zero ↦ none | suc n ↦ some (record p { permits = n }) ]

  -- With a permit and the free lock: the last connection that came back, or the factory is called,
  -- and the lock stays held.
  pub take_connection : ConnectionPool T → Taken T × ConnectionPool T
  take_connection p = elim p.connections [
    | [] ↦ (creates, record p { locked = true })
    | c ∷ rest ↦ (reuses (pooled c), record p { connections = rest })
  ]

  -- The factory has returned or raised: the lock is released, the permit in neither case.
  pub finish_creation : ConnectionPool T → Option T → Option (PooledConnection T) × ConnectionPool T
  finish_creation p none = (none, record p { locked = false })
  finish_creation p (some c) = (some (pooled c), record p { locked = false })

  -- With the free lock.
  pub return_connection : ConnectionPool T → T → ConnectionPool T
  return_connection p c = record p {
    connections =
        if ltb (length p.connections) p.max_connections then c ∷ p.connections else p.connections;
    permits = p.permits + 1;
  }

  pub get_stats : ConnectionPool T → PoolStats
  get_stats p = record {
    available_connections = length p.connections;
    max_connections = p.max_connections;
    free_permits = p.permits;
  }

  -- `return_to_pool`, which `__aexit__` calls too: its test, before it awaits the lock.
  pub begins_return : PooledConnection T → Bool
  begins_return h = not h.returned

  -- What follows when it has the lock.
  pub finish_return : PooledConnection T → ConnectionPool T → PooledConnection T × ConnectionPool T
  unfolding return_connection
  finish_return h p = (record h { returned = true }, return_connection p h.connection)
