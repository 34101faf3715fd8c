-- ===== src/Failover/Batch/Bounds.antt =====
-- The sizes of the batches that a `MessageBatcher` builds.
use pywatt_sdk.Prelude.{
  ℕ, ◌+◌, ◌≤◌, ◌<◌, ◌≡◌, refl, ap, ◌↔◌, Bool, true, false, List, [], ◌∷◌, ◌++◌, arith, length,
  length-append, All, All-append,
}
use pywatt_sdk.Message.{EncodedMessage}
use pywatt_sdk.Failover.Batch.{
  MessageBatch, MessageBatcher, BatchConfig, Fresh, Readings, too_large, append_message,
  enqueue_pending, enqueue_ready, flush, add_again, add_message, receive_batch, max_total, new,
}
use pywatt_sdk.Failover.Batch.Delivery.{Op, adds, flushes, receives, step, run}

abbrev pub bytes_of : List EncodedMessage → ℕ
bytes_of [] = 0
bytes_of (m ∷ ms) = length m.data_bytes + bytes_of ms

bytes_of-append : (xs ys : List EncodedMessage) → bytes_of (xs ++ ys) ≡ bytes_of xs + bytes_of ys
bytes_of-append [] ys = omega arith
bytes_of-append (x ∷ xs) ys = omega (arith, bytes_of-append xs ys)

-- The running size is exact and stays within the limit.
pub record IsSized (b : MessageBatch) : Type 0 where
  pub exact : b.total_size ≡ bytes_of b.messages
  pub within : b.total_size ≤ max_total

-- All but the last.
abbrev pub init : List EncodedMessage → List EncodedMessage
init [] = []
init (m ∷ []) = []
init (m ∷ n ∷ ms) = m ∷ init (n ∷ ms)

init-append : (ms : List EncodedMessage) (m : EncodedMessage) → init (ms ++ (m ∷ [])) ≡ ms
init-append [] m = refl
init-append (k ∷ []) m = refl
init-append (k ∷ n ∷ ms) m = ap (◌∷◌ k) (init-append (n ∷ ms) m)

bytes_of-init : (ms : List EncodedMessage) → bytes_of (init ms) ≤ bytes_of ms
bytes_of-init [] = omega arith
bytes_of-init (m ∷ []) = omega arith
bytes_of-init (m ∷ n ∷ ms) = omega (arith, bytes_of-init (n ∷ ms))

-- A batch on the queue is not empty, is sized, has at most `max_batch_size` messages, and before the
-- last of them was below `max_batch_bytes`.
pub record IsSendable (limit bytes : ℕ) (b : MessageBatch) : Type 0 where
  pub unfilled : bytes_of (init b.messages) < bytes
  pub sized : IsSized b
  pub nonempty : 0 < length b.messages
  pub few : length b.messages ≤ limit

-- The pending batch is below both limits: it is sent as soon as it reaches one.
pub record Inv (s : MessageBatcher) : Type 0 where
  pub sized : IsSized s.pending_batch
  pub below_size : length s.pending_batch.messages < s.config.max_batch_size
  pub below_bytes : s.pending_batch.total_size < s.config.max_batch_bytes
  pub queued : All (IsSendable s.config.max_batch_size s.config.max_batch_bytes) s.batch_queue

module _ (s : MessageBatcher) (v : Inv s) where
  enqueue_pending-Inv :
      (b : MessageBatch) (f : Fresh)
      → IsSendable s.config.max_batch_size s.config.max_batch_bytes b
      → Inv (enqueue_pending (record s { pending_batch = b }) f)
  unfolding enqueue_pending
  enqueue_pending-Inv b f h = record {
    sized = record { exact = refl; within = omega arith };
    below_size = omega (arith, v.below_size);
    below_bytes = omega (arith, v.below_bytes);
    queued =
        All-append (IsSendable s.config.max_batch_size s.config.max_batch_bytes) s.batch_queue
          (b ∷ []) v.queued (h, tt);
  }

  enqueue_ready-Inv :
      (b : MessageBatch) (now : ℕ) (f : Fresh)
      → IsSendable s.config.max_batch_size s.config.max_batch_bytes b
      → Inv (enqueue_ready (record s { pending_batch = b }) now f)
  unfolding enqueue_ready
  enqueue_ready-Inv b now f h = ground (arith, enqueue_pending-Inv b f h)

  pending-IsSendable :
      0 < length s.pending_batch.messages
      → IsSendable s.config.max_batch_size s.config.max_batch_bytes s.pending_batch
  pending-IsSendable h = record {
    unfilled = omega (arith, bytes_of-init s.pending_batch.messages, v.sized.exact, v.below_bytes);
    sized = v.sized;
    nonempty = h;
    few = omega (arith, v.below_size);
  }

  flush-Inv : (f : Fresh) → Inv (flush s f)
  unfolding flush
  flush-Inv f = ground (arith, enqueue_pending-Inv s.pending_batch f, pending-IsSendable)

  append-IsSendable :
      (m : EncodedMessage) (b : MessageBatch)
      → append_message s.pending_batch m ≡ (true, b)
      → IsSendable s.config.max_batch_size s.config.max_batch_bytes b
  unfolding append_message
  append-IsSendable m b h = ground (
    arith,
    length-append s.pending_batch.messages (m ∷ []),
    bytes_of-append s.pending_batch.messages (m ∷ []),
    init-append s.pending_batch.messages m,
  )

  add_again-Inv : (m : EncodedMessage) (r : Readings) → Inv (add_again s m r).1
  unfolding add_again
  add_again-Inv m r = let (done, b) = append_message s.pending_batch m in go done b refl
    where
      go :
          (done : Bool) (b : MessageBatch)
          → append_message s.pending_batch m ≡ (done, b)
          → Inv (add_again s m r).1
      go true b e =
          rw (e, add_again) (enqueue_ready-Inv b r.now r.after_ready (append-IsSendable m b e))
      go false b e = rw (e, add_again) v

-- Each call keeps the running size exact, the pending batch below its limits, and every queued batch
-- nonempty and within the configured number of messages.
pub add_message-Inv :
    (s : MessageBatcher) (m : EncodedMessage) (r : Readings) → Inv s → Inv (add_message s m r).1
unfolding add_message
add_message-Inv s m r v = let (done, b) = append_message s.pending_batch m in go done b refl
  where
    go :
        (done : Bool) (b : MessageBatch)
        → append_message s.pending_batch m ≡ (done, b)
        → Inv (add_message s m r).1
    go true b e =
        rw (e, add_message)
          (enqueue_ready-Inv s v b r.now r.after_ready (append-IsSendable s v m b e))
    go false b e =
        rw (e, add_message) (add_again-Inv (flush s r.after_full) (flush-Inv s v r.after_full) m r)

step-Inv : (s : MessageBatcher) (op : Op) → Inv s → Inv (step s op)
unfolding step receive_batch
step-Inv s (adds m r) v = add_message-Inv s m r v
step-Inv s (flushes f) v = flush-Inv s v f
step-Inv s receives v = ground arith

run-Inv : (s : MessageBatcher) (ops : List Op) → Inv s → Inv (run s ops)
unfolding run
run-Inv s [] v = v
run-Inv s (op ∷ ops) v = run-Inv (step s op) ops (step-Inv s op v)

-- After any history of a new batcher with positive limits, the running size of the pending batch is
-- exact and below `max_batch_bytes`, its messages are fewer than `max_batch_size`, and every queued
-- batch holds between one and `max_batch_size` messages, of 2^31 - 1 bytes at most, and of fewer than
-- `max_batch_bytes` without the last.
pub run-new-Inv :
    (c : BatchConfig) (f : Fresh) (ops : List Op)
    → 0 < c.max_batch_size
    → 0 < c.max_batch_bytes
    → Inv (run (new c f) ops)
run-new-Inv c f ops h k = run-Inv (new c f) ops start
  where
    start : Inv (new c f)
    start = unfold new in ground arith

-- A batcher that keeps its limits refuses a message exactly when it alone passes 2^31 - 1 bytes.
pub add_message_too_large :
    (s : MessageBatcher) (m : EncodedMessage) (r : Readings)
    → Inv s
    → ((add_message s m r).0 ≡ too_large) ↔ (max_total < length m.data_bytes)
unfolding add_message add_again append_message flush
add_message_too_large s m r v = ground arith
