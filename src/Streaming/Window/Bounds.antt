-- ===== src/Streaming/Window/Bounds.antt =====
-- The window over the sends and acknowledgments of a stream.
use pywatt_sdk.Prelude.{
  ℕ, ◌≡◌, ◌≤◌, refl, Bool, List, [], ◌∷◌, none, arith, length, ltb, ltb→lt, nat_eq, if◌then◌else◌,
  Bool-cases, inl, inr,
}
use pywatt_sdk.Prelude.Dict.{get, length-put_le, length-remove_le, get-put, get-remove}
use pywatt_sdk.Streaming.Window.{FlowControlWindow, new, can_send, record_sent, record_ack}

-- What a sender does: it sends where the window allows it, and takes acknowledgments as they come.
pub data Event : Type 0 where
  sends : ℕ → ℕ → Event
  acknowledges : ℕ → Bool → Event

abbrev pub step : FlowControlWindow → Event → FlowControlWindow
step w (sends sequence now) = if can_send w then record_sent w sequence now else w
step w (acknowledges sequence success) = record_ack w sequence success

abbrev pub run : FlowControlWindow → List Event → FlowControlWindow
run w [] = w
run w (e ∷ es) = run (step w e) es

-- The window is not exceeded, and no chunk that is outstanding has the next number or a later one.
pub record Fits (limit : ℕ) (w : FlowControlWindow) : Type 0 where
  pub limited : w.max_window ≡ limit
  pub bounded : length w.outstanding ≤ limit
  pub numbered : (s : ℕ) → w.next_sequence ≤ s → get w.outstanding s ≡ none

step-Fits : (limit : ℕ) (w : FlowControlWindow) (e : Event) → Fits limit w → Fits limit (step w e)
unfolding can_send record_sent record_ack
step-Fits limit w (sends sequence now) f =
    elim (Bool-cases (ltb (length w.outstanding) w.max_window)) [
      | inl room ↦ rw room (record {
        limited = f.limited;
        bounded = omega (
          arith,
          f.limited,
          ltb→lt (length w.outstanding) w.max_window room,
          length-put_le w.outstanding sequence now,
        );
        numbered = λ s p. ground (arith, get-put w.outstanding sequence s now, f.numbered s, p);
      })
      | inr full ↦ rw full f
    ]
step-Fits limit w (acknowledges sequence success) f = record {
  limited = f.limited;
  bounded = omega (arith, f.bounded, length-remove_le w.outstanding sequence);
  numbered = λ s p. ground (arith, get-remove w.outstanding sequence s, f.numbered s p);
}

run-Fits :
    (limit : ℕ) (w : FlowControlWindow) (es : List Event) → Fits limit w → Fits limit (run w es)
run-Fits limit w [] f = f
run-Fits limit w (e ∷ es) f = run-Fits limit (step w e) es (step-Fits limit w e f)

-- Over any sequence of sends and acknowledgments, the chunks that are outstanding fit the window and have
-- numbers below the next one.
pub run-new-Fits : (limit : ℕ) (es : List Event) → Fits limit (run (new limit) es)
unfolding new get
run-new-Fits limit es =
    run-Fits limit (new limit) es
      (record { limited = refl; bounded = omega arith; numbered = λ s p. refl })
