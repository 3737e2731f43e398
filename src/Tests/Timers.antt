-- ===== src/Tests/Timers.antt =====
-- The heartbeat of endpoint/timers.ts and the coordinator of endpoint/reconnect.ts at concrete inputs.
use axtp_ts_runtime.Common.{◌-◌, ◌≤◌, List, [], ◌∷◌, some, Bool, true, false, All, ◌≡◌, refl, arith}
use axtp_ts_runtime.Heartbeat.{Heartbeat, new_heartbeat, on_tick, on_timeout, start, elapse}
use axtp_ts_runtime.Heartbeat.Peer.{falls_silent, Outcome, elapse-start}
use axtp_ts_runtime.Reconnect.{
  ResolvedPolicy, default_reconnect_policy, new_coordinator, arms, calls_factory, on_failed,
  on_error, ReconnectInput, starts, rejects, fires, reconnect_run,
}
use axtp_ts_runtime.Reconnect.Bounds.{
  armings, reports, budget, start_count, IsTimely, reconnect_run-bounds,
}

-- A probe every 2 milliseconds, and a timeout of 3.
abbrev fast : Heartbeat
fast = new_heartbeat 2 3

-- An answer in the second millisecond, and none from then on.
abbrev answers : List Bool
answers = false ∷ true ∷ false ∷ false ∷ false ∷ false ∷ []

run_elapse : (elapse answers 11 (start 10 fast)).1 ≡ on_tick ∷ on_tick ∷ on_timeout ∷ []
unfolding elapse start
run_elapse = refl

elapse-start_example : Outcome (falls_silent 3 (3 - 1) answers) (elapse answers 11 (start 10 fast))
elapse-start_example = elapse-start answers 10 fast (omega arith) refl

-- Two attempts, without jitter.
abbrev twice : ResolvedPolicy
twice = record default_reconnect_policy { max_attempts = some 2; jitter = false }

abbrev inputs : List ReconnectInput
inputs = starts ∷ fires 0 ∷ rejects ∷ fires 1 ∷ rejects ∷ []

run_reconnect :
    (reconnect_run twice (λ n bound. 0) inputs new_coordinator).1
    ≡ arms 1000 ∷ calls_factory ∷ on_error ∷ arms 2000 ∷ calls_factory ∷ on_error ∷ on_failed ∷ []
unfolding reconnect_run
run_reconnect = refl

reconnect_run-bounds_example :
    let outputs = (reconnect_run twice (λ n bound. 0) inputs new_coordinator).1 in
    (armings outputs ≤ budget 2 inputs)
    × (reports outputs ≤ start_count inputs)
    × All (IsTimely twice 2 (λ n bound. 0) (λ n bound. omega arith)) outputs
reconnect_run-bounds_example =
    reconnect_run-bounds twice 2 (λ n bound. 0) (λ n bound. omega arith) inputs
