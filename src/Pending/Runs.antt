-- ===== src/Pending/Runs.antt =====
-- Whole runs of the table of pending requests.
use mathlib.Core.List.{append_assoc, append-nil}
use axtp_ts_runtime.Common.{
  ℕ, ◌+◌, ◌≤◌, ◌<◌, List, [], ◌∷◌, ◌++◌, true, false, ltb, if◌then◌else◌, length, ◌≡◌, refl, sym,
  subst, arith,
}
use axtp_ts_runtime.Pending.{
  PendingCalls, new_calls, Settled, allocate_request_id, cancel, request, resolve, reject_all,
  on_timeout, Call, requests, responds, rejects_all, times_out, step, run,
}
use axtp_ts_runtime.Pending.Once.{settled, waiting, IsOnce, step-IsOnce}

module _ {R : Type 0} where
  step-promises : (call : Call R) (s : PendingCalls) → (step call s).0.promises ≤ s.promises + 1
  unfolding step request cancel resolve reject_all on_timeout allocate_request_id
  step-promises (requests true) s = omega arith
  step-promises (requests false) s = ground arith
  step-promises (responds id payload) s = ground arith
  step-promises (rejects_all code) s = omega arith
  step-promises (times_out p) s = ground arith

  run-IsOnce :
      (calls : List (Call R)) (log : List (Settled R)) (s : PendingCalls)
      → s.promises + length calls < 0xffffffff
      → IsOnce log s
      → IsOnce (log ++ (run calls s).1) (run calls s).0
  unfolding run
  run-IsOnce [] log s bound h = subst (λ l. IsOnce l s) (sym (append-nil log)) h
  run-IsOnce (call ∷ rest) log s bound h =
      let s' = (step call s).0 in
      let done = (step call s).1 in
      let later =
        run-IsOnce rest (log ++ done) s' (omega (arith, bound, step-promises call s))
          (step-IsOnce call log s (omega (arith, bound)) h) in
      subst (λ l. IsOnce l (run rest s').0) (append_assoc log done (run rest s').1) later

  -- In any run of fewer than 2 ^ 32 - 1 calls, in any order of requests, responses, timeouts and
  -- disconnections, each promise that was made is settled once and is not waiting any more, or is
  -- waiting and was not settled, and no other promise is settled.
  pub run_once :
      (calls : List (Call R)) (p : ℕ)
      → length calls < 0xffffffff
      → let (s, log) = run calls new_calls in
        settled p log + waiting p s.pending ≡ (if ltb p s.promises then 1 else 0)
  unfolding settled waiting
  run_once calls p bound =
      (run-IsOnce calls [] new_calls (omega (arith, bound))
          (record { next = refl; numbered = tt; timed = tt; once = λ q. ground arith })).once
        p
