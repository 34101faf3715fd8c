-- ===== src/Failover/Batch.antt =====
-- `MessageBatch` and `MessageBatcher` of communication/failover.py. A batch's default fields (a
-- reading of the clock and a random UUID) are arguments, and so is the reading of `is_ready`. The
-- queue of batches is a list, its oldest first; `preserve_order` is read nowhere in the source.
pub mod Delivery
pub mod Bounds
mod Tests
use pywatt_sdk.Prelude.{
  ℕ, ◌+◌, ◌-◌, String, Bool, true, false, ◌||◌, List, [], ◌∷◌, ◌++◌, Option, none, some, length,
  leb, if◌then◌else◌,
}
use pywatt_sdk.Message.{EncodedMessage}

pub record BatchConfig : Type 0 where
  pub max_batch_size : ℕ
  pub max_batch_delay : ℕ
  pub max_batch_bytes : ℕ
  pub preserve_order : Bool

pub record MessageBatch : Type 0 where
  pub messages : List EncodedMessage
  pub total_size : ℕ
  pub created_at : ℕ
  pub batch_id : String

-- The values of the default factories.
pub record Fresh : Type 0 where
  pub time : ℕ
  pub uuid : String

abbrev pub new_batch : Fresh → MessageBatch
new_batch f = record { messages = []; total_size = 0; created_at = f.time; batch_id = f.uuid }

-- 2**31 - 1
abbrev pub max_total : ℕ
max_total = 2147483647

can_add : MessageBatch → ℕ → Bool
can_add b message_size = leb (b.total_size + message_size) max_total

-- `MessageBatch.add_message`
append_message : MessageBatch → EncodedMessage → Bool × MessageBatch
unfolding can_add
append_message b m =
    if can_add b (length m.data_bytes)
    then (
      true,
      record b { total_size = b.total_size + length m.data_bytes; messages = b.messages ++ m ∷ [] },
    )
    else (false, b)

is_ready : MessageBatch → BatchConfig → ℕ → Bool
is_ready b c now =
    leb c.max_batch_size (length b.messages)
    || leb c.max_batch_bytes b.total_size
    || leb c.max_batch_delay (now - b.created_at)

is_empty : MessageBatch → Bool
is_empty b = elim b.messages [ [] ↦ true | _ ∷ _ ↦ false ]

pub record MessageBatcher : Type 0 where
  pub config : BatchConfig
  pub pending_batch : MessageBatch
  pub batch_queue : List MessageBatch

pub new : BatchConfig → Fresh → MessageBatcher
new c f = record { config = c; pending_batch = new_batch f; batch_queue = [] }

-- `put` of the pending batch, and a new one in its place.
enqueue_pending : MessageBatcher → Fresh → MessageBatcher
enqueue_pending s f = record s {
  batch_queue = s.batch_queue ++ s.pending_batch ∷ [];
  pending_batch = new_batch f;
}

enqueue_ready : MessageBatcher → ℕ → Fresh → MessageBatcher
unfolding is_ready enqueue_pending
enqueue_ready s now f = if is_ready s.pending_batch s.config now then enqueue_pending s f else s

pub flush : MessageBatcher → Fresh → MessageBatcher
unfolding is_empty enqueue_pending
flush s f = if is_empty s.pending_batch then s else enqueue_pending s f

-- `MessageError("Message too large for batch")`; what was queued before it stays queued.
pub data Outcome : Type 0 where
  added too_large : Outcome

-- The readings of one call: the batch after a full one, the time of `is_ready`, the batch after a
-- ready one.
pub record Readings : Type 0 where
  pub after_full : Fresh
  pub now : ℕ
  pub after_ready : Fresh

-- The second attempt, on the batch that replaced a full one.
add_again : MessageBatcher → EncodedMessage → Readings → Outcome × MessageBatcher
unfolding append_message enqueue_ready
add_again s m r =
    let (done, batch) = append_message s.pending_batch m in
    if done
    then (added, enqueue_ready (record s { pending_batch = batch }) r.now r.after_ready)
    else (too_large, s)

pub add_message : MessageBatcher → EncodedMessage → Readings → Outcome × MessageBatcher
unfolding append_message enqueue_ready flush add_again
add_message s m r =
    let (done, batch) = append_message s.pending_batch m in
    if done
    then (added, enqueue_ready (record s { pending_batch = batch }) r.now r.after_ready)
    else add_again (flush s r.after_full) m r

-- `none` where the call waits for a batch.
pub receive_batch : MessageBatcher → Option (MessageBatch × MessageBatcher)
receive_batch s = elim s.batch_queue [
  | [] ↦ none
  | batch ∷ rest ↦ some (batch, record s { batch_queue = rest })
]
