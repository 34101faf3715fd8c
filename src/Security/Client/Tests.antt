-- ===== src/Security/Client/Tests.antt =====
-- Runs of a `SecretClient`.
use pywatt_sdk.Prelude.{ℕ, zero, suc, true, false, [], ◌∷◌, none, some, ◌≡◌, refl, arith}
use pywatt_sdk.Security.Client.{
  force_remote, cache_only, cache_then_remote, secret, timed_out, processed, SecretValueResponse,
  Task, idle, getting, waiting, delivering, rotating, done, Turn, new, step, run, begin,
}
use pywatt_sdk.Prelude.Dict.{get, put, remove}
use pywatt_sdk.Security.Client.Effects.{IsCall}
use pywatt_sdk.Security.Client.Waiting.{IsRefused, asked, run-IsRefused, waiting_blocks}

abbrev password : SecretValueResponse
password = record { name = "db"; value = "hunter2"; rotation_id = none }

-- A forced call, the orchestrator's answer to it, a rotation and two local calls.
abbrev calls : ℕ → Task
calls zero = getting "db" force_remote
calls (suc zero) = delivering password
calls (suc (suc zero)) = getting "db" cache_then_remote
calls (suc (suc (suc zero))) = rotating (record { rotated = "db" ∷ []; rotation = "r1" })
calls (suc (suc (suc (suc zero)))) = getting "db" cache_only
calls (suc (suc (suc (suc (suc n))))) = idle

calls-IsCall : (j : ℕ) → IsCall (calls j)
calls-IsCall zero = tt
calls-IsCall (suc zero) = tt
calls-IsCall (suc (suc zero)) = tt
calls-IsCall (suc (suc (suc zero))) = tt
calls-IsCall (suc (suc (suc (suc zero)))) = tt
calls-IsCall (suc (suc (suc (suc (suc n))))) = tt

abbrev turn : ℕ → Turn
turn i = record { task = i; is_sent = true; is_sent_again = true; is_expired = false }

abbrev late_turn : ℕ → Turn
late_turn i = record { task = i; is_sent = true; is_sent_again = true; is_expired = true }

-- The answer waits for the call that waits for it; after the time-out it is in the cache.
answered_too_late :
    let s = run (begin calls) (turn 0 ∷ turn 1 ∷ turn 0 ∷ late_turn 0 ∷ turn 1 ∷ turn 2 ∷ []) in
    (s.tasks 0 ≡ done timed_out)
    × (s.tasks 1 ≡ done processed)
    × (s.tasks 2 ≡ done (secret "hunter2"))
unfolding run new get put remove
answered_too_late = (refl, refl, refl)

rotated_away :
    let s = run (begin calls) (turn 1 ∷ turn 2 ∷ turn 3 ∷ turn 3 ∷ turn 4 ∷ []) in
    (s.tasks 2 ≡ done (secret "hunter2")) × (s.client.last_ack ≡ some "r1") × (s.client.cache ≡ [])
unfolding run new get put remove
rotated_away = (refl, refl, refl)

run-IsRefused_example :
    IsRefused ((run (run (begin calls) (turn 0 ∷ [])) (turn 1 ∷ late_turn 0 ∷ turn 1 ∷ [])).tasks 0)
unfolding run new get put remove
run-IsRefused_example =
    run-IsRefused calls calls-IsCall (turn 0 ∷ []) 0 (turn 1 ∷ late_turn 0 ∷ turn 1 ∷ [])
      (asked "db")

waiting_blocks_example :
    let s = run (begin calls) (turn 0 ∷ []) in
    let s' = step s (turn 1) in
    (s'.client.cache ≡ s.client.cache)
    × (s'.client.pending_requests ≡ s.client.pending_requests)
    × (s'.tasks 0 ≡ waiting "db")
    × ((m : SecretValueResponse) → s.tasks 1 ≡ delivering m → s'.tasks 1 ≡ delivering m)
unfolding run new get put remove
waiting_blocks_example =
    waiting_blocks calls calls-IsCall (turn 0 ∷ []) 0 "db" refl (turn 1) (λ e. omega (arith, e))
