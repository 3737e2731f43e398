-- ===== src/Tests/Requests.antt =====
-- The pending requests of core/pendingCalls.ts at concrete inputs.
use axtp_ts_runtime.Common.{
  ℕ, ◌+◌, List, [], ◌∷◌, true, false, ltb, if◌then◌else◌, ◌≡◌, refl, arith,
}
use axtp_ts_runtime.Common.Maps.{lookup, insert, delete}
use axtp_ts_runtime.Pending.{
  new_calls, resolves, rejects, drops, Call, requests, responds, rejects_all, times_out, run,
}
use axtp_ts_runtime.Pending.Once.{settled, waiting}
use axtp_ts_runtime.Pending.Runs.{run_once}

-- Three requests, of which the second cannot be sent; a response; a response to an unknown id; the
-- timer of the third; and a disconnection with nothing left.
abbrev calls : List (Call ℕ)
calls =
    requests true
    ∷ requests false
    ∷ requests true
    ∷ responds 1 77
    ∷ responds 9 78
    ∷ times_out 2
    ∷ rejects_all 0x1e
    ∷ []

settles_in_order : (run calls new_calls).1 ≡ drops 1 ∷ resolves 0 77 ∷ rejects 2 0x3e ∷ []
unfolding run lookup insert delete
settles_in_order = refl

run_once_example :
    let (s, log) = run calls new_calls in
    settled 2 log + waiting 2 s.pending ≡ (if ltb 2 s.promises then 1 else 0)
run_once_example = run_once calls 2 (omega arith)
