-- ===== src/Failover/Retry/Attempts.antt =====
-- `RetryMechanism.execute` against a plain description: the operation is tried until it returns, at
-- most `max_attempts` times and at least once.
use pywatt_sdk.Prelude.{
  ℕ, zero, suc, ◌+◌, ◌-◌, ◌≤◌, ◌<◌, ◌≡◌, refl, ap, ◌∙◌, false, List, [], ◌∷◌, some, arith, length,
  All, max, Bool-cases, inl, inr,
}
use pywatt_sdk.Prelude.Float.{Float}
use pywatt_sdk.Failover.Retry.{
  RetryConfig, Attempt, returned, raised, Outcome, jittered, backoff, sleeps, loop, execute,
}

module _ {S E A : Type 0} (operation : S → Attempt E A × S) where
  -- One call, and at most `n` more while it raises.
  unfoldable pub try_up_to : ℕ → S → Attempt E A × S
  try_up_to zero s = operation s
  try_up_to (suc n) s =
      let (r, s') = operation s in
      elim r [ returned a ↦ (returned a, s') | raised e ↦ try_up_to n s' ]

  -- How many of those calls were made again.
  unfoldable pub retries : ℕ → S → ℕ
  retries zero s = 0
  retries (suc n) s =
      let (r, s') = operation s in elim r [ returned a ↦ 0 | raised e ↦ suc (retries n s') ]

  pub retries-le : (n : ℕ) (s : S) → retries n s ≤ n
  unfolding retries
  retries-le zero s = omega arith
  retries-le (suc n) s = ground (arith, retries-le n (operation s).1)

module _ (F : Float) {S E A : Type 0} (c : RetryConfig F) (draw : ℕ → F.Carrier)
    (operation : S → Attempt E A × S) where
  -- The delays begin with `first`, and the others do not pass `max_delay`.
  abbrev pub CappedFrom : F.Carrier → List F.Carrier → Type 0
  CappedFrom first [] = Unit
  CappedFrom first (d ∷ ds) = (d ≡ first) × All (λ x. F.lt c.max_delay x ≡ false) ds

  CappedFrom-All :
      (first : F.Carrier) (ds : List F.Carrier)
      → F.lt c.max_delay first ≡ false
      → CappedFrom first ds
      → All (λ x. F.lt c.max_delay x ≡ false) ds
  CappedFrom-All first [] h v = tt
  CappedFrom-All first (d ∷ ds) h v = (rw v.0 h, v.1)

  -- What `execute` returns, set against the description.
  pub record Describes (n : ℕ) (first : F.Carrier) (s : S) (o : Outcome F S E A) : Type 0 where
    pub result : o.result ≡ (try_up_to operation n s).0
    pub state : o.state ≡ (try_up_to operation n s).1
    pub pauses : length o.slept ≡ retries operation n s
    pub capped : CappedFrom first o.delays

  capped-backoff : (d : F.Carrier) → F.lt c.max_delay (backoff F c d) ≡ false
  capped-backoff d = elim (Bool-cases (F.lt c.max_delay (F.mul d c.backoff_multiplier))) [
    | inl h ↦ rw h (F.lt_irrefl c.max_delay)
    | inr h ↦ rw h h
  ]

  abbrev ended : Attempt E A → S → Outcome F S E A
  ended r s = record { result = r; state = s; delays = []; slept = [] }

  -- `loop` makes a last round: it returns what the operation did.
  last_round :
      (attempt : ℕ) (d : F.Carrier) (s : S)
      → c.max_attempts ≤ attempt + 1
      → loop F c draw operation 1 attempt d s ≡ some (ended (operation s).0 (operation s).1)
  unfolding loop
  last_round attempt d s h = ground arith

  -- A round that returns ends the loop.
  returning_round :
      (n attempt : ℕ) (d : F.Carrier) (s s' : S) (a : A)
      → operation s ≡ (returned a, s')
      → loop F c draw operation (suc n) attempt d s ≡ some (ended (returned a) s')
  unfolding loop
  returning_round n attempt d s s' a e = ground arith

  -- A round that raises, before the last, sleeps and goes on.
  raising_round :
      (n attempt : ℕ) (d : F.Carrier) (s s' : S) (x : E)
      → operation s ≡ (raised x, s')
      → attempt + 1 < c.max_attempts
      → loop F c draw operation (suc n) attempt d s
        ≡ sleeps F d
            (jittered F c (draw (attempt + 1)) d)
            (loop F c draw operation n (attempt + 1) (backoff F c d) s')
  unfolding loop
  raising_round n attempt d s s' x e h = ground arith

  loop-Describes :
      (n attempt : ℕ) (d : F.Carrier) (s : S)
      → attempt + suc n ≡ max 1 c.max_attempts
      → (o : Outcome F S E A) × (loop F c draw operation (suc n) attempt d s ≡ some o)
        × Describes n d s o
  unfolding try_up_to retries
  loop-Describes zero attempt d s k =
      (ended (operation s).0 (operation s).1, last_round attempt d s (omega arith), ground arith)
  loop-Describes (suc n) attempt d s k =
      go (operation s).0 (operation s).1 refl
        (λ s'. loop-Describes n (attempt + 1) (backoff F c d) s' (omega arith))
    where
      go :
          (r : Attempt E A) (s' : S)
          → operation s ≡ (r, s')
          → ((u : S)
              → (o : Outcome F S E A) × (loop F c draw operation
                    (suc n)
                    (attempt + 1)
                    (backoff F c d)
                    u
                  ≡ some o)
                × Describes n (backoff F c d) u o)
          → (o : Outcome F S E A) × (loop F c draw operation (suc (suc n)) attempt d s ≡ some o)
            × Describes (suc n) d s o
      go (returned a) s' e rest =
          (ended (returned a) s', returning_round (suc n) attempt d s s' a e, ground arith)
      go (raised x) s' e rest =
          let (o, p, q) = rest s' in
          let j = jittered F c (draw (attempt + 1)) d in
          (
            record o { delays = d ∷ o.delays; slept = j ∷ o.slept },
            raising_round (suc n) attempt d s s' x e (omega arith) ∙ ap (sleeps F d j) p,
            record {
              result = ground arith;
              state = ground arith;
              pauses = ground arith;
              capped = (refl, CappedFrom-All (backoff F c d) o.delays (capped-backoff d) q.capped);
            },
          )

-- The loop always ends. It returns what trying the operation at most `max_attempts` times, and at
-- least once, returns or raises last, in the state that this leaves; it sleeps once before each
-- further attempt; and the delays, before the jitter, begin with `base_delay` and do not pass
-- `max_delay` after that.
pub execute-Describes :
    (F : Float) {S E A : Type 0} (c : RetryConfig F) (draw : ℕ → F.Carrier)
    (operation : S → Attempt E A × S) (s : S)
    → (o : Outcome F S E A) × (execute F c draw operation s ≡ some o)
      × Describes F c draw operation (c.max_attempts - 1) c.base_delay s o
unfolding execute
execute-Describes F c draw operation s =
    let rounds : max 1 c.max_attempts ≡ suc (c.max_attempts - 1) = omega arith in
    rw rounds
      (loop-Describes F c draw operation (c.max_attempts - 1) 0 c.base_delay s (omega arith))
