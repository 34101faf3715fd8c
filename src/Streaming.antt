-- ===== src/Streaming.antt =====
-- communication/streaming.py: the flow-control window, the priority queue and the request multiplexer.
-- The sender and the receiver of chunks are not modelled: both call `hashlib.crc32`, which does not
-- exist.
pub mod Window
pub mod Queue
pub mod Multiplexer
mod Tests
use pywatt_sdk.Prelude.{ℕ}

pub data StreamPriority : Type 0 where
  low normal high critical : StreamPriority
