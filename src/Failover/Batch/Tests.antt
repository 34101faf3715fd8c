-- ===== src/Failover/Batch/Tests.antt =====
-- Runs of `MessageBatcher` on concrete inputs.
use pywatt_sdk.Prelude.{ℕ, ◌≡◌, refl, true, List, [], ◌∷◌, ◌++◌, arith}
use pywatt_sdk.Message.{EncodedMessage, json, encoded}
use pywatt_sdk.Failover.Batch.{
  BatchConfig, Fresh, Readings, MessageBatcher, new, receive_batch, add_message,
}
use pywatt_sdk.Failover.Batch.Delivery.{
  Op, adds, receives, run, step, delivered, contents, all_accepted, all_delivered, run-conserves,
}
use pywatt_sdk.Failover.Batch.Bounds.{Inv, run-new-Inv}

abbrev config : BatchConfig
config = record {
  max_batch_size = 2;
  max_batch_delay = 100;
  max_batch_bytes = 50;
  preserve_order = true;
}

abbrev fresh : Fresh
fresh = record { time = 5; uuid = "batch" }

abbrev readings : Readings
readings = record { after_full = fresh; now = 6; after_ready = fresh }

abbrev message : ℕ → EncodedMessage
message b = encoded (b ∷ []) json

abbrev ops : List Op
ops =
    adds (message 1) readings
    ∷ adds (message 2) readings
    ∷ adds (message 3) readings
    ∷ receives
    ∷ []

abbrev start : MessageBatcher
start = run (new config fresh) []

-- The second message fills a batch, which is delivered; the third stays pending.
two_batches :
    (all_delivered (new config fresh) ops ≡ message 1 ∷ message 2 ∷ [])
    × (contents (run (new config fresh) ops) ≡ message 3 ∷ [])
unfolding all_delivered delivered run step receive_batch new add_message
two_batches = (refl, refl)

run-conserves_example :
    all_delivered (new config fresh) ops ++ contents (run (new config fresh) ops)
    ≡ contents (new config fresh) ++ all_accepted (new config fresh) ops
run-conserves_example = run-conserves (new config fresh) ops

run-new-Inv_example : Inv (run (new config fresh) ops)
run-new-Inv_example = run-new-Inv config fresh ops (omega arith) (omega arith)

new-Inv : Inv (run (new config fresh) [])
new-Inv = run-new-Inv config fresh [] (omega arith) (omega arith)
