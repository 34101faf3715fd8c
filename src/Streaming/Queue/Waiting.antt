-- ===== src/Streaming/Queue/Waiting.antt =====
-- The calls of `dequeue` that wait, with the others between their two steps.
use pywatt_sdk.Prelude.{
  ℕ, zero, suc, ◌≡◌, ◌≤◌, ◌<◌, ◌+◌, ◌-◌, refl, ◌∙◌, List, [], ◌∷◌, none, some, arith, length-append,
}
use pywatt_sdk.Streaming.{StreamPriority, low, normal, high, critical}
use pywatt_sdk.Streaming.Queue.{
  PriorityMessageQueue, new, size, append, enqueue, acquire, take_highest,
}

-- A queue, and how many calls of `dequeue` have passed the semaphore and not yet taken a message.
pub record Served (M : Type 0) : Type 0 where
  pub queue : PriorityMessageQueue M
  pub acquired : ℕ

pub data Event (M : Type 0) : Type 0 where
  enqueues : M → StreamPriority → Event M
  acquires takes : Event M

new_size : (M : Type 0) (limit : ℕ) → size (new M limit) ≡ 0
unfolding size new
new_size M limit = refl

module _ {M : Type 0} where
  -- A step that cannot be taken changes nothing.
  abbrev pub step : Served M → Event M → Served M
  step s (enqueues m p) = elim (enqueue s.queue m p) [ none ↦ s | some q ↦ record s { queue = q } ]
  step s acquires = elim (acquire s.queue) [
    | none ↦ s
    | some q ↦ record { queue = q; acquired = s.acquired + 1 }
  ]
  step s takes = elim s.acquired [
    | zero ↦ s
    | suc n ↦ record { queue = (take_highest s.queue).1; acquired = n }
  ]

  abbrev pub run : Served M → List (Event M) → Served M
  run s [] = s
  run s (e ∷ es) = run (step s e) es

  record Inv (limit : ℕ) (s : Served M) : Type 0 where
    counted : size s.queue ≡ s.queue.semaphore + s.acquired
    limited : s.queue.max_size ≡ limit
    bounded : size s.queue ≤ limit

  size-append :
      (q : PriorityMessageQueue M) (m : M) (p : StreamPriority) → size (append q m p) ≡ size q + 1
  unfolding size append
  size-append q m low = omega (arith, length-append q.low_queue (m ∷ []))
  size-append q m normal = omega (arith, length-append q.normal_queue (m ∷ []))
  size-append q m high = omega (arith, length-append q.high_queue (m ∷ []))
  size-append q m critical = omega (arith, length-append q.critical_queue (m ∷ []))

  append_keeps :
      (q : PriorityMessageQueue M) (m : M) (p : StreamPriority)
      → ((append q m p).max_size ≡ q.max_size) × ((append q m p).semaphore ≡ q.semaphore)
  unfolding append
  append_keeps q m low = (refl, refl)
  append_keeps q m normal = (refl, refl)
  append_keeps q m high = (refl, refl)
  append_keeps q m critical = (refl, refl)

  size_released : (q : PriorityMessageQueue M) (n : ℕ) → size (record q { semaphore = n }) ≡ size q
  unfolding size
  size_released q n = refl

  -- A message is taken from a queue that has one.
  record Taken (q : PriorityMessageQueue M) : Type 0 where
    message : M
    taken : (take_highest q).0 ≡ some message
    smaller : size (take_highest q).1 + 1 ≡ size q
    limit_kept : (take_highest q).1.max_size ≡ q.max_size
    semaphore_kept : (take_highest q).1.semaphore ≡ q.semaphore

  abbrev of_lists : ℕ → ℕ → List M → List M → List M → List M → PriorityMessageQueue M
  of_lists max_size semaphore c h n l = record {
    max_size = max_size;
    low_queue = l;
    normal_queue = n;
    high_queue = h;
    critical_queue = c;
    semaphore = semaphore;
  }

  of_lists-Taken :
      (s w : ℕ) (c h n l : List M) → 0 < size (of_lists s w c h n l) → Taken (of_lists s w c h n l)
  unfolding take_highest size
  of_lists-Taken s w (m ∷ c) h n l p = record {
    message = m;
    taken = refl;
    smaller = omega arith;
    limit_kept = refl;
    semaphore_kept = refl;
  }
  of_lists-Taken s w [] (m ∷ h) n l p = record {
    message = m;
    taken = refl;
    smaller = omega arith;
    limit_kept = refl;
    semaphore_kept = refl;
  }
  of_lists-Taken s w [] [] (m ∷ n) l p = record {
    message = m;
    taken = refl;
    smaller = omega arith;
    limit_kept = refl;
    semaphore_kept = refl;
  }
  of_lists-Taken s w [] [] [] (m ∷ l) p = record {
    message = m;
    taken = refl;
    smaller = omega arith;
    limit_kept = refl;
    semaphore_kept = refl;
  }
  of_lists-Taken s w [] [] [] [] p = ground (arith, p)

  take_highest-Taken : (q : PriorityMessageQueue M) → 0 < size q → Taken q
  take_highest-Taken q p =
      of_lists-Taken q.max_size q.semaphore q.critical_queue q.high_queue q.normal_queue q.low_queue
        p

  takes-Inv :
      (limit : ℕ) (q : PriorityMessageQueue M) (n : ℕ)
      → Inv limit (record { queue = q; acquired = n })
      → Inv limit (step (record { queue = q; acquired = n }) takes)
  takes-Inv limit q zero i = i
  takes-Inv limit q (suc n) i =
      let t = take_highest-Taken q (omega (arith, i.counted)) in
      record {
        counted = omega (arith, i.counted, t.smaller, t.semaphore_kept);
        limited = t.limit_kept ∙ i.limited;
        bounded = omega (arith, i.bounded, t.smaller);
      }

  step-Inv : (limit : ℕ) (s : Served M) (e : Event M) → Inv limit s → Inv limit (step s e)
  unfolding enqueue acquire
  step-Inv limit s (enqueues m p) i = ground (
    arith,
    i.counted,
    i.limited,
    i.bounded,
    size-append s.queue m p,
    append_keeps s.queue m p,
    size_released (append s.queue m p) (s.queue.semaphore + 1),
  )
  step-Inv limit s acquires i =
      ground (arith, i.counted, i.limited, i.bounded, size_released s.queue (s.queue.semaphore - 1))
  step-Inv limit s takes i = takes-Inv limit s.queue s.acquired i

  run-Inv : (limit : ℕ) (s : Served M) (es : List (Event M)) → Inv limit s → Inv limit (run s es)
  run-Inv limit s [] i = i
  run-Inv limit s (e ∷ es) i = run-Inv limit (step s e) es (step-Inv limit s e i)

  -- At most `limit` messages wait, and a call that has passed the semaphore gets one.
  pub record IsServed (limit : ℕ) (s : Served M) : Type 0 where
    pub bounded : size s.queue ≤ limit
    pub answered : 0 < s.acquired → (m : M) × ((take_highest s.queue).0 ≡ some m)

  -- In whatever order the calls' steps come, from a new queue: its size stays within the limit, and no
  -- call of `dequeue` that has passed the semaphore is left without a message.
  pub run-new-IsServed :
      (limit : ℕ) (es : List (Event M))
      → IsServed limit (run (record { queue = new M limit; acquired = 0 }) es)
  unfolding new
  run-new-IsServed limit es =
      let s = run (record { queue = new M limit; acquired = 0 }) es in
      let i =
        run-Inv limit (record { queue = new M limit; acquired = 0 }) es
          (record {
            counted = new_size M limit;
            limited = refl;
            bounded = omega (arith, new_size M limit);
          }) in
      record {
        bounded = i.bounded;
        answered = λ p.
            let t = take_highest-Taken s.queue (omega (arith, i.counted, p)) in
            (t.message, t.taken);
      }
