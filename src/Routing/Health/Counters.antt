-- ===== src/Routing/Health/Counters.antt =====
-- What the counts of a channel's health amount to.
use pywatt_sdk.Prelude.{
  ℕ, suc, ◌+◌, ◌-◌, ◌*◌, ◌≤◌, ◌≡◌, refl, List, [], ◌∷◌, ◌++◌, some, arith, length, length-append,
  length-drop, All,
}
use pywatt_sdk.Prelude.Float.{Float}
use pywatt_sdk.Routing.Health.{
  ChannelHealth, new_health, minute, append_latency, update_metrics, reset_if_old, record_success,
  record_failure,
}

-- A call of `record_success` or `record_failure`, with its readings of the clock.
pub data Outcome (F : Float) : Type 0 where
  succeeds : F.Carrier → ℕ → ℕ → ℕ → Outcome F
  fails : ℕ → ℕ → ℕ → ℕ → Outcome F

module _ (F : Float) where
  length-append_latency :
      (ls : List F.Carrier) (l : F.Carrier) → length ls ≤ 100 → length (append_latency F ls l) ≤ 100
  unfolding append_latency
  length-append_latency ls l h =
      omega (arith, length-drop (length ls + 1 - 100) (ls ++ (l ∷ [])), length-append ls (l ∷ []))

module _ {F : Float} where
  -- The last reading of the clock comes at most five minutes after that of the update.
  abbrev pub IsPrompt : Outcome F → Type 0
  IsPrompt (succeeds l updated now₁ now₂) = now₂ ≤ updated + 5 * minute
  IsPrompt (fails failed updated now₁ now₂) = now₂ ≤ updated + 5 * minute

  abbrev pub successes : List (Outcome F) → ℕ
  successes [] = 0
  successes (succeeds _ _ _ _ ∷ os) = suc (successes os)
  successes (fails _ _ _ _ ∷ os) = successes os

  abbrev pub failures : List (Outcome F) → ℕ
  failures [] = 0
  failures (succeeds _ _ _ _ ∷ os) = failures os
  failures (fails _ _ _ _ ∷ os) = suc (failures os)

  module _ (p95_index : ℕ → ℕ) where
    step : ChannelHealth F → Outcome F → ChannelHealth F
    step h (succeeds l updated now₁ now₂) = record_success F p95_index h l updated now₁ now₂
    step h (fails failed updated now₁ now₂) = record_failure F p95_index h failed updated now₁ now₂

    pub run : ChannelHealth F → List (Outcome F) → ChannelHealth F
    run h [] = h
    run h (o ∷ os) = run (step h o) os

    pub record Tallied (s f : ℕ) (h : ChannelHealth F) : Type 0 where
      pub successes_kept : h.recent_successes ≡ s
      pub failures_kept : h.recent_errors ≡ f
      pub latencies_bounded : length h.recent_latencies ≤ 100

    -- Computing the rates keeps the counts, unless the clock is read long after the update.
    record Keeps (h k : ChannelHealth F) : Type 0 where
      successes : k.recent_successes ≡ h.recent_successes
      errors : k.recent_errors ≡ h.recent_errors
      latencies : k.recent_latencies ≡ h.recent_latencies

    update_metrics-Keeps :
        (h : ChannelHealth F) (now₁ now₂ : ℕ)
        → now₂ ≤ h.last_update + 5 * minute
        → Keeps h (update_metrics F p95_index h now₁ now₂)
    unfolding update_metrics reset_if_old
    update_metrics-Keeps h now₁ now₂ p = ground arith

    step-Tallied :
        (s f : ℕ) (h : ChannelHealth F) (o : Outcome F)
        → IsPrompt o
        → Tallied s f h
        → Tallied (s + successes (o ∷ [])) (f + failures (o ∷ [])) (step h o)
    unfolding step record_success record_failure
    step-Tallied s f h (succeeds l updated now₁ now₂) p t =
        let k =
          update_metrics-Keeps
            (record h {
              recent_latencies = append_latency F h.recent_latencies l;
              recent_successes = h.recent_successes + 1;
              last_update = updated;
            })
            now₁ now₂ p in
        record {
          successes_kept = omega (arith, k.successes, t.successes_kept);
          failures_kept = omega (arith, k.errors, t.failures_kept);
          latencies_bounded =
              rw k.latencies (length-append_latency F h.recent_latencies l t.latencies_bounded);
        }
    step-Tallied s f h (fails failed updated now₁ now₂) p t =
        let k =
          update_metrics-Keeps
            (record h {
              recent_errors = h.recent_errors + 1;
              last_failure = some failed;
              last_update = updated;
            })
            now₁ now₂ p in
        record {
          successes_kept = omega (arith, k.successes, t.successes_kept);
          failures_kept = omega (arith, k.errors, t.failures_kept);
          latencies_bounded = rw k.latencies t.latencies_bounded;
        }

    run-Tallied :
        (s f : ℕ) (h : ChannelHealth F) (os : List (Outcome F))
        → All IsPrompt os
        → Tallied s f h
        → Tallied (s + successes os) (f + failures os) (run h os)
    unfolding run
    run-Tallied s f h [] p t = ground arith
    run-Tallied s f h (succeeds l u v w ∷ os) p t = ground (
      arith,
      run-Tallied (s + 1) (f + 0) (step h (succeeds l u v w)) os p.1
          (step-Tallied s f h (succeeds l u v w) p.0 t),
    )
    run-Tallied s f h (fails l u v w ∷ os) p t = ground (
      arith,
      run-Tallied (s + 0) (f + 1) (step h (fails l u v w)) os p.1
          (step-Tallied s f h (fails l u v w) p.0 t),
    )

    -- However long a history is, if no call takes five minutes, the counts of a channel's health are never
    -- reset: they are the successes and failures since the start. At most 100 latencies are kept.
    pub run-new-Tallied :
        (now : ℕ) (os : List (Outcome F))
        → All IsPrompt os
        → Tallied (successes os) (failures os) (run (new_health F now) os)
    run-new-Tallied now os p =
        let h = run-Tallied 0 0 (new_health F now) os p (record {
          successes_kept = refl;
          failures_kept = refl;
          latencies_bounded = omega arith;
        }) in
        record {
          successes_kept = omega (arith, h.successes_kept);
          failures_kept = omega (arith, h.failures_kept);
          latencies_bounded = h.latencies_bounded;
        }
