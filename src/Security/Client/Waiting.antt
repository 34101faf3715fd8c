-- ===== src/Security/Client/Waiting.antt =====
-- What a call of `SecretClient.get_secret` that waits for the orchestrator does to the other tasks.
use pywatt_sdk.Prelude.{
  ℕ, String, Bool, true, false, List, [], ◌∷◌, none, some, ◌≡◌, refl, sym, ◌≢◌, inl, inr, nat_eq,
  string_eq, if◌then◌else◌, Option-cases,
}
use mathlib.Core.Path.{subst, ◌∙◌}
use pywatt_sdk.Security.Client.{
  force_remote, timed_out, unsent, processed, unset, SecretValueResponse, SecretClient, Task, idle,
  getting, asking, waiting, joining, cleaning, delivering, resolving, rotating, notifying, done,
  Turn, get_secret, advance, System, step, run, begin,
}
use pywatt_sdk.Security.Client.Effects.{
  IsCall, IsSettled, Alone, ask-quiet, await-alone, blocked, opened,
}
use pywatt_sdk.Security.Client.Locking.{assign_holds, Inv, Inv-Alone, step-Inv, run-begin-Inv}

-- A call that has no secret: forced and not begun, waiting, timed out, or failed to write.
pub data IsRefused : Task → Type 0 where
  unasked : (key : String) → IsRefused (getting key force_remote)
  asked : (key : String) → IsRefused (waiting key)
  late : IsRefused (done timed_out)
  unwritten : IsRefused (done unsent)

abbrev Told : SecretClient × Task → Type 0
Told r = IsRefused r.1

either_refused :
    (b : Bool) (x y : SecretClient × Task) → Told x → Told y → Told (if b then x else y)
either_refused true x y h k = h
either_refused false x y h k = k

-- A call with no secret stays one.
advance-IsRefused :
    (c : SecretClient) (i : ℕ) (t : Turn) (p : Task)
    → Alone c i p
    → IsRefused p
    → IsRefused (advance c i t p).1
unfolding advance
advance-IsRefused c i t _ a (unasked key) = elim (Option-cases c.cache_lock) [
  | inr (j, e) ↦ subst Told (sym (blocked c i t (getting key force_remote) _ j e)) (unasked key)
  | inl e ↦
      subst Told
        (sym (
          opened c i t (getting key force_remote) (get_secret c i t key force_remote) e
          ∙ ask-quiet c i t key a.free (a.quiet e)))
        (either_refused t.is_sent _ _ (asked key) unwritten)
]
advance-IsRefused c i t _ a (asked key) =
    subst Told (sym (await-alone c i t key a.free (a.alone key refl)))
      (either_refused t.is_expired _ _ late (asked key))
advance-IsRefused c i t _ a late = late
advance-IsRefused c i t _ a unwritten = unwritten

step-IsRefused :
    (s : System) (t : Turn) (i : ℕ) → Inv s → IsRefused (s.tasks i) → IsRefused ((step s t).tasks i)
unfolding step
step-IsRefused s t i v w =
    assign_holds IsRefused s.tasks t.task i
      (λ e.
        advance-IsRefused s.client t.task t _ (Inv-Alone s t.task v)
          (subst (λ k. IsRefused (s.tasks k)) e w))
      (λ _. w)

IsRefused-run :
    (s : System) (ts : List Turn) (i : ℕ)
    → Inv s
    → IsRefused (s.tasks i)
    → IsRefused ((run s ts).tasks i)
unfolding run
IsRefused-run s [] i v w = w
IsRefused-run s (t ∷ ts) i v w =
    IsRefused-run (step s t) ts i (step-Inv s t v) (step-IsRefused s t i v w)

-- A turn that changes neither the cache nor what is pending, and processes no message.
abbrev Unmoved : SecretClient → Task → SecretClient × Task → Type 0
Unmoved c p r =
    (r.0.cache ≡ c.cache)
    × (r.0.pending_requests ≡ c.pending_requests)
    × ((m : SecretValueResponse) → p ≡ delivering m → r.1 ≡ delivering m)

advance-blocked :
    (c : SecretClient) (i j : ℕ) (t : Turn) (p : Task)
    → c.cache_lock ≡ some i
    → IsSettled p
    → ((key : String) → p ≢ waiting key)
    → Unmoved c p (advance c j t p)
unfolding advance
advance-blocked c i j t idle e w n = (refl, refl, λ m q. q)
advance-blocked c i j t (getting key mode) e w n =
    subst (Unmoved c (getting key mode)) (sym (blocked c j t (getting key mode) _ i e))
      (refl, refl, λ m q. q)
advance-blocked c i j t (asking key) e w n = absurd w
advance-blocked c i j t (waiting key) e w n = absurd (n key refl)
advance-blocked c i j t (joining key) e w n = absurd w
advance-blocked c i j t (cleaning key r) e w n = absurd w
advance-blocked c i j t (delivering m) e w n =
    subst (Unmoved c (delivering m)) (sym (blocked c j t (delivering m) _ i e))
      (refl, refl, λ m q. q)
advance-blocked c i j t (resolving m) e w n = absurd w
advance-blocked c i j t (rotating r) e w n =
    subst (Unmoved c (rotating r)) (sym (blocked c j t (rotating r) _ i e)) (refl, refl, λ m q. q)
advance-blocked c i j t (notifying r) e w n = acknowledged t.is_sent
  where
    acknowledged :
        (b : Bool)
        → Unmoved c (notifying r) (
            if b
            then (record c { last_ack = some r.rotation }, done processed)
            else (c, done (if t.is_sent_again then processed else unsent)))
    acknowledged true = (refl, refl, λ m q. cc)
    acknowledged false = (refl, refl, λ m q. cc)
advance-blocked c i j t (done r) e w n = (refl, refl, λ m q. q)

module _ (s : System) (i : ℕ) (key : String) (v : Inv s) (w : s.tasks i ≡ waiting key)
    (t : Turn) where
  turn_of_other :
      t.task ≢ i → Unmoved s.client (s.tasks t.task) (advance s.client t.task t (s.tasks t.task))
  turn_of_other n =
      advance-blocked s.client i t.task t (s.tasks t.task) (v.held i key w) (v.settled t.task)
        (λ k e. n (cc (v.held i key w, v.held t.task k e)))

  abbrev Ended : Bool → SecretClient × Task → Type 0
  Ended b r =
      (r.1 ≡ (if b then done timed_out else waiting key))
      × (r.0.cache_lock ≡ (if b then none else some i))
      × (r.0.pending_requests ≡ (if b then [] else (key, unset) ∷ []))

  Ended-either :
      (b : Bool)
      → Ended b (
          if b
          then (record s.client { cache_lock = none; pending_requests = [] }, done timed_out)
          else (s.client, waiting key))
  Ended-either true = (refl, refl, refl)
  Ended-either false = (refl, v.held i key w, v.alone i key w)

  turn_of_waiting :
      t.task ≡ i
      → advance s.client t.task t (s.tasks t.task) ≡ (
          if t.is_expired
          then (record s.client { cache_lock = none; pending_requests = [] }, done timed_out)
          else (s.client, waiting key))
  unfolding advance
  turn_of_waiting e = rw (e, w) (await-alone s.client i t key v.free (v.alone i key w))

  turn-Ended : t.task ≡ i → Ended t.is_expired (advance s.client t.task t (s.tasks t.task))
  turn-Ended e = subst (Ended t.is_expired) (sym (turn_of_waiting e)) (Ended-either t.is_expired)

module _ (calls : ℕ → Task) (fresh : (j : ℕ) → IsCall (calls j)) (ts : List Turn) (i : ℕ) where
  -- Calls of a new client run in any order, each by a task of its own. From its first wait for the
  -- orchestrator on, and from the start where it is forced to ask, a call of `get_secret` never
  -- returns a secret, whatever messages arrive: it waits, has timed out, or could not write.
  pub run-IsRefused :
      (us : List Turn)
      → IsRefused ((run (begin calls) ts).tasks i)
      → IsRefused ((run (run (begin calls) ts) us).tasks i)
  run-IsRefused us w = IsRefused-run (run (begin calls) ts) us i (run-begin-Inv calls ts fresh) w

  module _ (key : String) (w : (run (begin calls) ts).tasks i ≡ waiting key) (t : Turn) where
    -- While a call of `get_secret` waits for the orchestrator, no other task's turn changes the
    -- cache or the pending requests, the call keeps waiting, and a message that has arrived is not
    -- processed.
    pub waiting_blocks :
        t.task ≢ i
        → let s = run (begin calls) ts in
          let s' = step s t in
          (s'.client.cache ≡ s.client.cache)
          × (s'.client.pending_requests ≡ s.client.pending_requests)
          × (s'.tasks i ≡ waiting key)
          × ((m : SecretValueResponse)
              → s.tasks t.task ≡ delivering m
              → s'.tasks t.task ≡ delivering m)
    unfolding step
    waiting_blocks n =
        let s = run (begin calls) ts in
        let (kept, pending, stays) = turn_of_other s i key (run-begin-Inv calls ts fresh) w t n in
        (
          kept,
          pending,
          assign_holds (λ p. p ≡ waiting key) s.tasks t.task i (λ e. absurd (n (sym e))) (λ _. w),
          λ m e.
              assign_holds (λ p. p ≡ delivering m) s.tasks t.task t.task (λ _. stays m e)
                (λ k. absurd (k refl)),
        )

    -- A call that waits ends only by its time-out: then the lock is free again and nothing is
    -- pending.
    pub waiting_ends :
        t.task ≡ i
        → let s' = step (run (begin calls) ts) t in
          (s'.tasks i ≡ (if t.is_expired then done timed_out else waiting key))
          × (s'.client.cache_lock ≡ (if t.is_expired then none else some i))
          × (s'.client.pending_requests ≡ (if t.is_expired then [] else (key, unset) ∷ []))
    unfolding step
    waiting_ends e =
        let s = run (begin calls) ts in
        let v = run-begin-Inv calls ts fresh in
        let (ended, lock, pending) = turn-Ended s i key v w t e in
        (
          assign_holds (λ p. p ≡ (if t.is_expired then done timed_out else waiting key)) s.tasks
              t.task i (λ _. ended) (λ n. absurd (n (sym e))),
          lock,
          pending,
        )
