-- ===== src/Streaming/Window.antt =====
-- `FlowControlWindow` of communication/streaming.py. A sequence number is a natural number.
pub mod Bounds
use pywatt_sdk.Prelude.{
  ℕ, ◌+◌, ◌-◌, max, Bool, true, false, ◌&&◌, List, [], ◌∷◌, Option, none, some, length, ltb, leb,
  nat_eq, if◌then◌else◌,
}
use pywatt_sdk.Prelude.Dict.{Dict, get, put, remove}

pub record FlowControlWindow : Type 0 where
  pub max_window : ℕ
  pub outstanding : Dict ℕ ℕ
  pub next_sequence : ℕ
  pub acknowledged : Dict ℕ Bool

unfoldable pub new : ℕ → FlowControlWindow
new max_window = record {
  max_window = max_window;
  outstanding = [];
  next_sequence = 0;
  acknowledged = [];
}

unfoldable pub can_send : FlowControlWindow → Bool
can_send w = ltb (length w.outstanding) w.max_window

unfoldable pub record_sent : FlowControlWindow → ℕ → ℕ → FlowControlWindow
record_sent w sequence now = record w {
  outstanding = put w.outstanding sequence now;
  next_sequence = max w.next_sequence (sequence + 1);
}

unfoldable pub record_ack : FlowControlWindow → ℕ → Bool → FlowControlWindow
record_ack w sequence success = record w {
  outstanding = remove w.outstanding sequence;
  acknowledged = put w.acknowledged sequence success;
}

unfoldable pub timed_out : ℕ → ℕ → Dict ℕ ℕ → List ℕ
timed_out now timeout [] = []
timed_out now timeout ((s, sent) ∷ d) =
    let rest = timed_out now timeout d in if ltb timeout (now - sent) then s ∷ rest else rest

unfoldable pub get_timed_out_chunks : FlowControlWindow → ℕ → ℕ → List ℕ
unfolding timed_out
get_timed_out_chunks w timeout now = timed_out now timeout w.outstanding

abbrev pub all_true : Dict ℕ Bool → Bool
all_true [] = true
all_true ((_, b) ∷ d) = b && all_true d

abbrev pub none_outstanding : Dict ℕ ℕ → Bool
none_outstanding [] = true
none_outstanding (_ ∷ _) = false

unfoldable pub is_complete : FlowControlWindow → ℕ → Bool
is_complete w total_chunks =
    none_outstanding w.outstanding
    && (leb total_chunks (length w.acknowledged) && all_true w.acknowledged)
