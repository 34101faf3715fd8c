-- ===== src/Streaming/Queue.antt =====
-- `PriorityMessageQueue` of communication/streaming.py. Its dictionary of deques has one field for each
-- priority. `dequeue` waits for the semaphore before it takes the lock, so it is two steps.
pub mod Order
pub mod Waiting
use pywatt_sdk.Prelude.{
  ℕ, zero, suc, ◌+◌, ◌-◌, List, [], ◌∷◌, ◌++◌, Option, none, some, length, leb, if◌then◌else◌, ltb,
}
use pywatt_sdk.Streaming.{StreamPriority, low, normal, high, critical}

pub record PriorityMessageQueue (M : Type 0) : Type 0 where
  pub max_size : ℕ
  pub low_queue : List M
  pub normal_queue : List M
  pub high_queue : List M
  pub critical_queue : List M
  pub semaphore : ℕ

unfoldable pub new : (M : Type 0) → ℕ → PriorityMessageQueue M
new M max_size = record {
  max_size = max_size;
  low_queue = [];
  normal_queue = [];
  high_queue = [];
  critical_queue = [];
  semaphore = 0;
}

module _ {M : Type 0} where
  unfoldable pub size : PriorityMessageQueue M → ℕ
  size q =
      length q.low_queue + length q.normal_queue + length q.high_queue + length q.critical_queue

  -- `self.queues[priority].append(message)`
  unfoldable pub append : PriorityMessageQueue M → M → StreamPriority → PriorityMessageQueue M
  append q m low = record q { low_queue = q.low_queue ++ (m ∷ []) }
  append q m normal = record q { normal_queue = q.normal_queue ++ (m ∷ []) }
  append q m high = record q { high_queue = q.high_queue ++ (m ∷ []) }
  append q m critical = record q { critical_queue = q.critical_queue ++ (m ∷ []) }

  -- `none` is a `MessageError`.
  unfoldable pub enqueue :
      PriorityMessageQueue M → M → StreamPriority → Option (PriorityMessageQueue M)
  unfolding append size
  enqueue q m p =
      if leb q.max_size (size q)
      then none
      else some (record (append q m p) { semaphore = q.semaphore + 1 })

  -- `await self.semaphore.acquire()`; `none` while it waits.
  unfoldable pub acquire : PriorityMessageQueue M → Option (PriorityMessageQueue M)
  acquire q = if ltb 0 q.semaphore then some (record q { semaphore = q.semaphore - 1 }) else none

  abbrev take_low : PriorityMessageQueue M → List M → Option M × PriorityMessageQueue M
  take_low q [] = (none, q)
  take_low q (m ∷ ms) = (some m, record q { low_queue = ms })

  abbrev take_normal : PriorityMessageQueue M → List M → Option M × PriorityMessageQueue M
  take_normal q [] = take_low q q.low_queue
  take_normal q (m ∷ ms) = (some m, record q { normal_queue = ms })

  abbrev take_high : PriorityMessageQueue M → List M → Option M × PriorityMessageQueue M
  take_high q [] = take_normal q q.normal_queue
  take_high q (m ∷ ms) = (some m, record q { high_queue = ms })

  abbrev take_critical : PriorityMessageQueue M → List M → Option M × PriorityMessageQueue M
  take_critical q [] = take_high q q.high_queue
  take_critical q (m ∷ ms) = (some m, record q { critical_queue = ms })

  -- What `dequeue` does under the lock: the highest priority first.
  unfoldable pub take_highest : PriorityMessageQueue M → Option M × PriorityMessageQueue M
  take_highest q = take_critical q q.critical_queue
