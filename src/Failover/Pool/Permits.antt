-- ===== src/Failover/Pool/Permits.antt =====
-- The permits of a `ConnectionPool` and the connections that its clients hold.
use pywatt_sdk.Prelude.{
  ℕ, zero, suc, ◌+◌, ◌≤◌, ◌<◌, ◌≡◌, refl, sym, ◌⊎◌, true, false, List, [], ◌∷◌, Option, none, some,
  arith, length, All, Option-cases, Bool-cases, inl, inr, if◌then◌else◌,
}
use mathlib.Core.Path.{subst}
use pywatt_sdk.Failover.Pool.{
  ConnectionPool, PooledConnection, reuses, new, acquire, take_connection, finish_creation,
  return_connection, begins_return, finish_return,
}
use pywatt_sdk.Failover.Pool.Calls.{
  Lease, Usage, Event, acquires, takes, creation, asks, gives, lease_at, replace, step, run, start,
  Unhurried, AllUnhurried,
}

module _ {ℓ} {T : Type ℓ} where
  abbrev pub weight : Lease T → ℕ
  weight l = if l.handle.returned then 0 else 1

  -- How many connections were given out and did not come back.
  abbrev pub out : List (Lease T) → ℕ
  out [] = 0
  out (l ∷ ls) = weight l + out ls

  abbrev pub creating : Usage T → ℕ
  creating u = if u.pool.locked then 1 else 0

  -- At most one call waits to give a connection back, and then it is out.
  abbrev pub IsSingle : Lease T → Type 0
  IsSingle l = (l.pending ≡ 0) ⊎ ((l.pending ≡ 1) × (l.handle.returned ≡ false))

  -- Each permit of the semaphore is free, with a call of `get_connection`, behind a connection that is
  -- out, or lost to a failure of the factory; and there are never more connections than permits.
  pub record Inv (u : Usage T) : Type 0 where
    pub permits :
        u.pool.permits + u.acquired + creating u + out u.leases + u.failures
        ≡ u.pool.max_connections
    pub connections : length u.pool.connections + creating u + out u.leases ≤ u.pool.max_connections
    pub single : All IsSingle u.leases

  start-Inv : (n : ℕ) → Inv (start n)
  unfolding new
  start-Inv n = record { permits = omega arith; connections = omega arith; single = tt }

  out-replace :
      (ls : List (Lease T)) (i : ℕ) (l y : Lease T)
      → lease_at ls i ≡ some l
      → out (replace ls i y) + weight l ≡ out ls + weight y
  unfolding lease_at replace
  out-replace [] i l y e = cc
  out-replace (x ∷ ls) zero l y e = ground (arith, e)
  out-replace (x ∷ ls) (suc i) l y e = omega (arith, out-replace ls i l y e)

  All-replace :
      (ls : List (Lease T)) (i : ℕ) (y : Lease T)
      → All IsSingle ls
      → IsSingle y
      → All IsSingle (replace ls i y)
  unfolding replace
  All-replace [] i y v w = tt
  All-replace (x ∷ ls) zero y v w = (w, v.1)
  All-replace (x ∷ ls) (suc i) y v w = (v.0, All-replace ls i y v.1 w)

  All-at :
      (ls : List (Lease T)) (i : ℕ) (l : Lease T)
      → lease_at ls i ≡ some l
      → All IsSingle ls
      → IsSingle l
  unfolding lease_at
  All-at [] i l e v = cc
  All-at (x ∷ ls) zero l e v = ground (arith, e, v.0)
  All-at (x ∷ ls) (suc i) l e v = All-at ls i l e v.1

  acquires-Inv : (u : Usage T) → Inv u → Inv (step u acquires)
  unfolding step acquire
  acquires-Inv u v = ground (arith, v.permits, v.connections, v.single)

  takes-Inv : (u : Usage T) → Inv u → Inv (step u takes)
  unfolding step take_connection
  takes-Inv u v = ground (arith, v.permits, v.connections, v.single)

  creation-Inv : (u : Usage T) (made : Option T) → Inv u → Inv (step u (creation made))
  unfolding step finish_creation
  creation-Inv u made v = ground (arith, v.permits, v.connections, v.single)

  asks-Inv : (u : Usage T) (i : ℕ) → Inv u → Unhurried u (asks i) → Inv (step u (asks i))
  unfolding step begins_return
  asks-Inv u i v q = elim (Option-cases (lease_at u.leases i)) [
    | inl e ↦ rw (e, step) v
    | inr (l, e) ↦ elim (Bool-cases l.handle.returned) [
      | inl r ↦ rw (e, r, step) v
      | inr r ↦
          let y = record l { pending = l.pending + 1 } in
          let single = All-replace u.leases i y v.single (inr (ground (arith, e, q), r)) in
          ground (arith, e, r, v.permits, v.connections, single, out-replace u.leases i l y e)
    ]
  ]

  -- The one call that waits for the lock gets it.
  given-Inv :
      (u : Usage T) (i n : ℕ) (l : Lease T)
      → Inv u
      → u.pool.locked ≡ false
      → lease_at u.leases i ≡ some l
      → l.pending ≡ suc n
      → IsSingle l
      → Inv (step u (gives i))
  unfolding step finish_return return_connection
  given-Inv u i n l v f e p w =
      let y : Lease T = record { handle = record l.handle { returned = true }; pending = n } in
      let single = All-replace u.leases i y v.single (inl (ground (arith, p, w))) in
      ground (arith, f, e, p, w, v.permits, v.connections, single, out-replace u.leases i l y e)

  held_gives : (u : Usage T) (i : ℕ) → u.pool.locked ≡ true → step u (gives i) ≡ u
  unfolding step
  held_gives u i h = ground (arith, h)

  missing_gives : (u : Usage T) (i : ℕ) → lease_at u.leases i ≡ none → step u (gives i) ≡ u
  unfolding step
  missing_gives u i e = ground (arith, e)

  idle_gives :
      (u : Usage T) (i : ℕ) (l : Lease T)
      → lease_at u.leases i ≡ some l
      → l.pending ≡ 0
      → step u (gives i) ≡ u
  unfolding step
  idle_gives u i l e p = ground (arith, e, p)

  lease-Inv :
      (u : Usage T) (i n : ℕ) (l : Lease T)
      → Inv u
      → u.pool.locked ≡ false
      → lease_at u.leases i ≡ some l
      → l.pending ≡ n
      → Inv (step u (gives i))
  lease-Inv u i zero l v f e p = subst Inv (sym (idle_gives u i l e p)) v
  lease-Inv u i (suc n) l v f e p = given-Inv u i n l v f e p (All-at u.leases i l e v.single)

  gives-Inv : (u : Usage T) (i : ℕ) → Inv u → Inv (step u (gives i))
  gives-Inv u i v = elim (Bool-cases u.pool.locked) [
    | inl h ↦ subst Inv (sym (held_gives u i h)) v
    | inr f ↦ elim (Option-cases (lease_at u.leases i)) [
      | inl e ↦ subst Inv (sym (missing_gives u i e)) v
      | inr (l, e) ↦ lease-Inv u i l.pending l v f e refl
    ]
  ]

  step-Inv : (u : Usage T) (e : Event T) → Inv u → Unhurried u e → Inv (step u e)
  step-Inv u acquires v q = acquires-Inv u v
  step-Inv u takes v q = takes-Inv u v
  step-Inv u (creation made) v q = creation-Inv u made v
  step-Inv u (asks i) v q = asks-Inv u i v q
  step-Inv u (gives i) v q = gives-Inv u i v

  run-Inv : (u : Usage T) (es : List (Event T)) → Inv u → AllUnhurried u es → Inv (run u es)
  unfolding run AllUnhurried
  run-Inv u [] v q = v
  run-Inv u (e ∷ es) v q = run-Inv (step u e) es (step-Inv u e v q.0) q.1

  -- In any interleaving of calls on a new pool, in which no connection is given back while an earlier
  -- call gives the same one back, every permit is free, with a call of `get_connection`, behind a
  -- connection that is out, or lost to a failure of the factory; idle connections and those that are
  -- out or being made together are at most `max_connections`. Giving a connection back again later
  -- is among the calls.
  pub run-start-Inv :
      (n : ℕ) (es : List (Event T)) → AllUnhurried (start n) es → Inv (run (start n) es)
  run-start-Inv n es q = run-Inv (start n) es (start-Inv n) q

  none_left :
      (u : Usage T)
      → Inv u
      → u.failures ≡ u.pool.max_connections
      → (out u.leases ≡ 0) × (u.acquired ≡ 0) × (u.pool.locked ≡ false) × (acquire u.pool ≡ none)
  unfolding acquire
  none_left u v h = ground (arith, v.permits)

  -- A failure of the factory loses its permit: in such an interleaving, once the factory has raised as
  -- often as there are permits, no connection is out, no call is on its way to one, and every
  -- further request waits for ever.
  pub run-start_exhausted :
      (n : ℕ) (es : List (Event T))
      → AllUnhurried (start n) es
      → (run (start n) es).failures ≡ (run (start n) es).pool.max_connections
      → let u = run (start n) es in
        (out u.leases ≡ 0) × (u.acquired ≡ 0) × (u.pool.locked ≡ false) × (acquire u.pool ≡ none)
  run-start_exhausted n es q h = none_left (run (start n) es) (run-start-Inv n es q) h

  -- A connection that came back is what the next client gets, and it does not come back again.
  pub finish_return_once :
      (h : PooledConnection T) (p : ConnectionPool T)
      → length p.connections < p.max_connections
      → let (h', p') = finish_return h p in
        ((take_connection p').0 ≡ reuses (record h { returned = false }))
        × (begins_return h' ≡ false)
  unfolding finish_return take_connection begins_return
  finish_return_once h p k = ground arith
