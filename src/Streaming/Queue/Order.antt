-- ===== src/Streaming/Queue/Order.antt =====
-- The priority queue against one list of messages with their priorities.
use pywatt_sdk.Prelude.{
  ℕ, ◌≡◌, ◌≤◌, ◌<◌, ◌+◌, ◌⊎◌, inl, inr, Bool-cases, leb→le, length-append, refl, ap, sym, ◌∙◌, Bool,
  true, false, List, [], ◌∷◌, ◌++◌, map, Option, none, some, arith, length, leb, if◌then◌else◌,
}
use pywatt_sdk.Streaming.{StreamPriority, low, normal, high, critical}
use pywatt_sdk.Streaming.Queue.{PriorityMessageQueue, size, append, enqueue, take_highest}

-- Whether the first priority is below the second.
abbrev pub below : StreamPriority → StreamPriority → Bool
below low low = false
below low _ = true
below normal low = false
below normal normal = false
below normal _ = true
below high critical = true
below high _ = false
below critical _ = false

module _ {M : Type 0} where
  abbrev tagged : StreamPriority → List M → List (StreamPriority × M)
  tagged p = map λ m. (p, m)

  -- The messages in the order in which they leave.
  unfoldable pub contents : PriorityMessageQueue M → List (StreamPriority × M)
  contents q =
      tagged critical q.critical_queue
      ++ (tagged high q.high_queue ++ (tagged normal q.normal_queue ++ tagged low q.low_queue))

  -- A message goes behind those that are as urgent, and before those that are less.
  unfoldable pub insert : StreamPriority → M → List (StreamPriority × M) → List (StreamPriority × M)
  insert p m [] = (p, m) ∷ []
  insert p m (x ∷ xs) = if below x.0 p then (p, m) ∷ x ∷ xs else x ∷ insert p m xs

  -- The first message of the list, and the rest.
  abbrev pub pop : List (StreamPriority × M) → Option M × List (StreamPriority × M)
  pop [] = (none, [])
  pop (x ∷ xs) = (some x.1, xs)

  -- Past messages that are not below.
  insert_past :
      (p k : StreamPriority) (m : M) (ms : List M) (xs : List (StreamPriority × M))
      → below k p ≡ false
      → insert p m (tagged k ms ++ xs) ≡ tagged k ms ++ insert p m xs
  unfolding insert
  insert_past p k m [] xs e = refl
  insert_past p k m (n ∷ ms) xs e = rw e (ap (λ r. (k, n) ∷ r) (insert_past p k m ms xs e))

  -- In front of messages that are all below.
  insert_front :
      (p k : StreamPriority) (m : M) (ms : List M) (xs : List (StreamPriority × M))
      → below k p ≡ true
      → insert p m xs ≡ (p, m) ∷ xs
      → insert p m (tagged k ms ++ xs) ≡ (p, m) ∷ (tagged k ms ++ xs)
  unfolding insert
  insert_front p k m [] xs e f = f
  insert_front p k m (n ∷ ms) xs e f = rw e refl

  tagged-append :
      (k : StreamPriority) (m : M) (ms : List M) (xs : List (StreamPriority × M))
      → tagged k (ms ++ (m ∷ [])) ++ xs ≡ tagged k ms ++ ((k, m) ∷ xs)
  tagged-append k m [] xs = refl
  tagged-append k m (n ∷ ms) xs = ap (λ r. (k, n) ∷ r) (tagged-append k m ms xs)

  insert_last :
      (p : StreamPriority) (m : M) (ms : List M)
      → below p p ≡ false
      → insert p m (tagged p ms) ≡ tagged p (ms ++ (m ∷ []))
  unfolding insert
  insert_last p m [] e = refl
  insert_last p m (n ∷ ms) e = rw e (ap (λ r. (p, n) ∷ r) (insert_last p m ms e))

  front_last :
      (p k : StreamPriority) (m : M) (ms : List M)
      → below k p ≡ true
      → insert p m (tagged k ms) ≡ (p, m) ∷ tagged k ms
  unfolding insert
  front_last p k m [] e = refl
  front_last p k m (n ∷ ms) e = rw e refl

  placed :
      (p : StreamPriority) (m : M) (ms : List M) (xs : List (StreamPriority × M))
      → below p p ≡ false
      → insert p m xs ≡ (p, m) ∷ xs
      → insert p m (tagged p ms ++ xs) ≡ tagged p (ms ++ (m ∷ [])) ++ xs
  placed p m ms xs e f =
      insert_past p p m ms xs e ∙ ap (λ r. tagged p ms ++ r) f ∙ sym (tagged-append p m ms xs)

  contents-append :
      (q : PriorityMessageQueue M) (m : M) (p : StreamPriority)
      → contents (append q m p) ≡ insert p m (contents q)
  unfolding contents append
  contents-append q m low = sym (
      insert_past low critical m q.critical_queue _ refl
      ∙ ap (λ r. tagged critical q.critical_queue ++ r)
          (insert_past low high m q.high_queue _ refl
            ∙ ap (λ r. tagged high q.high_queue ++ r)
                (insert_past low normal m q.normal_queue _ refl
                  ∙ ap (λ r. tagged normal q.normal_queue ++ r)
                      (insert_last low m q.low_queue refl))))
  contents-append q m normal = sym (
      insert_past normal critical m q.critical_queue _ refl
      ∙ ap (λ r. tagged critical q.critical_queue ++ r)
          (insert_past normal high m q.high_queue _ refl
            ∙ ap (λ r. tagged high q.high_queue ++ r)
                (placed normal m q.normal_queue _ refl (front_last normal low m q.low_queue refl))))
  contents-append q m high = sym (
      insert_past high critical m q.critical_queue _ refl
      ∙ ap (λ r. tagged critical q.critical_queue ++ r)
          (placed high m q.high_queue _ refl (
            insert_front high normal m q.normal_queue _ refl
              (front_last high low m q.low_queue refl))))
  contents-append q m critical = sym (
      placed critical m q.critical_queue _ refl (
        insert_front critical high m q.high_queue _ refl (
          insert_front critical normal m q.normal_queue _ refl
            (front_last critical low m q.low_queue refl))))

  abbrev of_lists : ℕ → ℕ → List M → List M → List M → List M → PriorityMessageQueue M
  of_lists max_size semaphore c h n l = record {
    max_size = max_size;
    low_queue = l;
    normal_queue = n;
    high_queue = h;
    critical_queue = c;
    semaphore = semaphore;
  }

  taken_lem :
      (s w : ℕ) (c h n l : List M)
      → pop (contents (of_lists s w c h n l)) ≡ (
        (take_highest (of_lists s w c h n l)).0,
        contents (take_highest (of_lists s w c h n l)).1,
      )
  unfolding contents take_highest
  taken_lem s w (_ ∷ _) h n l = refl
  taken_lem s w [] (_ ∷ _) n l = refl
  taken_lem s w [] [] (_ ∷ _) l = refl
  taken_lem s w [] [] [] (_ ∷ _) = refl
  taken_lem s w [] [] [] [] = refl

  -- `dequeue` takes the head of the list, and leaves the rest.
  pub contents-take_highest :
      (q : PriorityMessageQueue M)
      → pop (contents q) ≡ ((take_highest q).0, contents (take_highest q).1)
  contents-take_highest q =
      taken_lem q.max_size q.semaphore q.critical_queue q.high_queue q.normal_queue q.low_queue

  length-tagged : (p : StreamPriority) (ms : List M) → length (tagged p ms) ≡ length ms
  length-tagged p [] = refl
  length-tagged p (m ∷ ms) = omega (arith, length-tagged p ms)

  pub length-contents : (q : PriorityMessageQueue M) → length (contents q) ≡ size q
  unfolding contents size
  length-contents q = omega (
    arith,
    length-append (tagged critical q.critical_queue)
        (tagged high q.high_queue ++ (tagged normal q.normal_queue ++ tagged low q.low_queue)),
    length-append (tagged high q.high_queue)
        (tagged normal q.normal_queue ++ tagged low q.low_queue),
    length-append (tagged normal q.normal_queue) (tagged low q.low_queue),
    length-tagged critical q.critical_queue,
    length-tagged high q.high_queue,
    length-tagged normal q.normal_queue,
    length-tagged low q.low_queue,
  )

  contents_released :
      (q : PriorityMessageQueue M) (n : ℕ) → contents (record q { semaphore = n }) ≡ contents q
  unfolding contents
  contents_released q n = refl

  -- `enqueue` is refused when the list is at its limit, and otherwise puts the message behind those that
  -- are as urgent, before those that are less.
  pub enqueue_lem :
      (q : PriorityMessageQueue M) (m : M) (p : StreamPriority)
      → ((enqueue q m p ≡ none) × (q.max_size ≤ length (contents q)))
        ⊎ ((q' : PriorityMessageQueue M) × (enqueue q m p ≡ some q')
            × (contents q' ≡ insert p m (contents q))
            × (length (contents q) < q.max_size))
  unfolding enqueue
  enqueue_lem q m p = elim (Bool-cases (leb q.max_size (size q))) [
    | inl full ↦
        inl (rw full refl, omega (arith, leb→le q.max_size (size q) full, length-contents q))
    | inr room ↦ inr (
      record (append q m p) { semaphore = q.semaphore + 1 },
      rw room refl,
      contents_released (append q m p) (q.semaphore + 1) ∙ contents-append q m p,
      ground (arith, room, length-contents q),
    )
  ]
