-- ===== src/Failover/Pool/Tests.antt =====
-- Runs of `ConnectionPool` on concrete inputs.
use pywatt_sdk.Prelude.{ℕ, ◌≡◌, refl, false, List, [], ◌∷◌, none, some}
use pywatt_sdk.Failover.Pool.{
  new, acquire, take_connection, finish_creation, begins_return, finish_return,
}
use pywatt_sdk.Failover.Pool.Calls.{
  Event, acquires, takes, creation, asks, gives, start, step, run, lease_at, AllUnhurried,
}
use pywatt_sdk.Failover.Pool.Permits.{out, Inv, run-start-Inv, run-start_exhausted}

-- Two connections are made, one of them comes back twice and both are taken again.
abbrev events : List (Event ℕ)
events =
    acquires
    ∷ takes
    ∷ creation (some 7)
    ∷ acquires
    ∷ takes
    ∷ creation (some 8)
    ∷ asks 0
    ∷ gives 0
    ∷ asks 0
    ∷ gives 0
    ∷ acquires
    ∷ takes
    ∷ asks 2
    ∷ gives 2
    ∷ acquires
    ∷ takes
    ∷ asks 3
    ∷ []

run-start-Inv_example : Inv (run (start 2) events)
unfolding AllUnhurried lease_at step new acquire take_connection finish_creation begins_return
    finish_return
run-start-Inv_example = run-start-Inv 2 events (
  tt,
  (
    tt,
    (
      tt,
      (
        tt,
        (tt, (tt, (refl, (tt, (refl, (tt, (tt, (tt, (refl, (tt, (tt, (tt, (refl, tt))))))))))))),
      ),
    ),
  ),
)

abbrev failing : List (Event ℕ)
failing = acquires ∷ takes ∷ creation none ∷ acquires ∷ takes ∷ creation none ∷ []

run-start_exhausted_example :
    let u = run (start 2) failing in
    (out u.leases ≡ 0) × (u.acquired ≡ 0) × (u.pool.locked ≡ false) × (acquire u.pool ≡ none)
unfolding AllUnhurried run step acquire new take_connection finish_creation
run-start_exhausted_example =
    run-start_exhausted 2 failing (tt, (tt, (tt, (tt, (tt, (tt, tt)))))) refl

-- Two calls give the same connection back while the factory holds the lock: it is put in the pool twice,
-- and the semaphore ends with one permit too many.
abbrev hurried : List (Event ℕ)
hurried =
    acquires
    ∷ takes
    ∷ creation (some 7)
    ∷ acquires
    ∷ takes
    ∷ asks 0
    ∷ asks 0
    ∷ creation (some 8)
    ∷ gives 1
    ∷ gives 1
    ∷ asks 0
    ∷ gives 0
    ∷ []

given_twice : let p = (run (start 2) hurried).pool in (p.permits ≡ 3) × (p.connections ≡ 7 ∷ 7 ∷ [])
unfolding run step lease_at new acquire take_connection finish_creation begins_return finish_return
given_twice = (refl, refl)
