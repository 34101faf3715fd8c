-- ===== src/Failover/Batch/Delivery.antt =====
-- `MessageBatcher` neither loses, repeats nor reorders a message.
use mathlib.Core.List.{append_assoc, append-nil}
use pywatt_sdk.Prelude.{
  ℕ, ◌≡◌, refl, ap, ◌∙◌, sym, Bool, true, false, List, [], ◌∷◌, ◌++◌, none, some, arith,
}
use pywatt_sdk.Message.{EncodedMessage}
use pywatt_sdk.Failover.Batch.{
  MessageBatch, MessageBatcher, Fresh, Readings, Outcome, added, too_large, append_message,
  enqueue_pending, enqueue_ready, flush, add_again, add_message, receive_batch,
}

-- The messages of a list of batches, in order.
abbrev pub unbatch : List MessageBatch → List EncodedMessage
unbatch [] = []
unbatch (b ∷ bs) = b.messages ++ unbatch bs

-- The messages that the batcher holds, oldest first.
abbrev pub contents : MessageBatcher → List EncodedMessage
contents s = unbatch s.batch_queue ++ s.pending_batch.messages

unbatch-append : (xs ys : List MessageBatch) → unbatch (xs ++ ys) ≡ unbatch xs ++ unbatch ys
unbatch-append [] ys = refl
unbatch-append (x ∷ xs) ys =
    rw (unbatch-append xs ys) (sym (append_assoc x.messages (unbatch xs) (unbatch ys)))

contents-enqueue_pending :
    (s : MessageBatcher) (f : Fresh) → contents (enqueue_pending s f) ≡ contents s
unfolding enqueue_pending
contents-enqueue_pending s f = rw (unbatch-append s.batch_queue) (simp append-nil)

contents-enqueue_ready :
    (s : MessageBatcher) (now : ℕ) (f : Fresh) → contents (enqueue_ready s now f) ≡ contents s
unfolding enqueue_ready
contents-enqueue_ready s now f = ground (arith, contents-enqueue_pending s f)

pub contents-flush : (s : MessageBatcher) (f : Fresh) → contents (flush s f) ≡ contents s
unfolding flush
contents-flush s f = ground (arith, contents-enqueue_pending s f)

-- What a call adds to the contents.
abbrev pub taken : Outcome → EncodedMessage → List EncodedMessage
taken added m = m ∷ []
taken too_large m = []

contents-put :
    (s : MessageBatcher) (m : EncodedMessage) (b : MessageBatch)
    → append_message s.pending_batch m ≡ (true, b)
    → contents (record s { pending_batch = b }) ≡ contents s ++ m ∷ []
unfolding append_message
contents-put s m b h =
    ground (arith, append_assoc (unbatch s.batch_queue) s.pending_batch.messages (m ∷ []))

contents-add_again :
    (s : MessageBatcher) (m : EncodedMessage) (r : Readings)
    → contents (add_again s m r).1 ≡ contents s ++ taken (add_again s m r).0 m
unfolding add_again
contents-add_again s m r = let (done, b) = append_message s.pending_batch m in go done b refl
  where
    go :
        (done : Bool) (b : MessageBatch)
        → append_message s.pending_batch m ≡ (done, b)
        → contents (add_again s m r).1 ≡ contents s ++ taken (add_again s m r).0 m
    go true b e =
        rw (e, add_again)
          (contents-enqueue_ready (record s { pending_batch = b }) r.now r.after_ready
            ∙ contents-put s m b e)
    go false b e = rw (e, add_again) (sym (append-nil _))

-- `add_message` appends the message to what the batcher holds, or raises and adds nothing; what was
-- held before stays, in its order.
pub contents-add_message :
    (s : MessageBatcher) (m : EncodedMessage) (r : Readings)
    → contents (add_message s m r).1 ≡ contents s ++ taken (add_message s m r).0 m
unfolding add_message
contents-add_message s m r = let (done, b) = append_message s.pending_batch m in go done b refl
  where
    go :
        (done : Bool) (b : MessageBatch)
        → append_message s.pending_batch m ≡ (done, b)
        → contents (add_message s m r).1 ≡ contents s ++ taken (add_message s m r).0 m
    go true b e =
        rw (e, add_message)
          (contents-enqueue_ready (record s { pending_batch = b }) r.now r.after_ready
            ∙ contents-put s m b e)
    go false b e =
        rw (e, add_message)
          (contents-add_again (flush s r.after_full) m r
            ∙ ap (λ l. l ++ taken (add_again (flush s r.after_full) m r).0 m)
                (contents-flush s r.after_full))

pub data Op : Type 0 where
  adds : EncodedMessage → Readings → Op
  flushes : Fresh → Op
  receives : Op

-- The state after a call, the messages that it accepted, and those that it delivered.
unfoldable pub step : MessageBatcher → Op → MessageBatcher
step s (adds m r) = (add_message s m r).1
step s (flushes f) = flush s f
step s receives = elim (receive_batch s) [ none ↦ s | some (_, s') ↦ s' ]

pub accepted : MessageBatcher → Op → List EncodedMessage
accepted s (adds m r) = taken (add_message s m r).0 m
accepted s (flushes f) = []
accepted s receives = []

unfoldable pub delivered : MessageBatcher → Op → List EncodedMessage
delivered s (adds m r) = []
delivered s (flushes f) = []
delivered s receives = elim (receive_batch s) [ none ↦ [] | some (b, _) ↦ b.messages ]

step-conserves :
    (s : MessageBatcher) (op : Op)
    → delivered s op ++ contents (step s op) ≡ contents s ++ accepted s op
unfolding step accepted delivered receive_batch
step-conserves s (adds m r) = contents-add_message s m r
step-conserves s (flushes f) = contents-flush s f ∙ sym (append-nil _)
step-conserves s receives = go s.batch_queue refl
  where
    go :
        (q : List MessageBatch)
        → s.batch_queue ≡ q
        → delivered s receives ++ contents (step s receives) ≡ contents s ++ accepted s receives
    go [] e = ground (arith, append-nil (contents s))
    go (b ∷ q) e = ground (
      arith,
      append-nil (contents s),
      append_assoc b.messages (unbatch q) s.pending_batch.messages,
    )

unfoldable pub run : MessageBatcher → List Op → MessageBatcher
run s [] = s
run s (op ∷ ops) = run (step s op) ops

pub all_accepted : MessageBatcher → List Op → List EncodedMessage
all_accepted s [] = []
all_accepted s (op ∷ ops) = accepted s op ++ all_accepted (step s op) ops

unfoldable pub all_delivered : MessageBatcher → List Op → List EncodedMessage
all_delivered s [] = []
all_delivered s (op ∷ ops) = delivered s op ++ all_delivered (step s op) ops

-- Over any history, the messages delivered in batches, followed by those still held, are the messages
-- held at first, followed by those accepted: none is lost, repeated or overtaken.
pub run-conserves :
    (s : MessageBatcher) (ops : List Op)
    → all_delivered s ops ++ contents (run s ops) ≡ contents s ++ all_accepted s ops
unfolding run all_accepted all_delivered
run-conserves s [] = sym (append-nil (contents s))
run-conserves s (op ∷ ops) =
    append_assoc (delivered s op) (all_delivered (step s op) ops) (contents (run (step s op) ops))
    ∙ ap (◌++◌ (delivered s op)) (run-conserves (step s op) ops)
    ∙ sym (append_assoc (delivered s op) (contents (step s op)) (all_accepted (step s op) ops))
    ∙ ap (λ l. l ++ all_accepted (step s op) ops) (step-conserves s op)
    ∙ append_assoc (contents s) (accepted s op) (all_accepted (step s op) ops)
