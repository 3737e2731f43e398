-- ===== src/Pending.antt =====
-- src/core/pendingCalls.ts: the table of the outgoing requests that wait for a response. A promise
-- is the number of promises that were made before it; what is settled is the list of outputs. The
-- timers that are armed are a table of their own, from the promise to its request id.
pub mod Once
pub mod Runs
use axtp_ts_runtime.Common.{
  ℕ, ◌+◌, List, [], ◌∷◌, ◌++◌, Option, none, some, Bool, true, false, leb, if◌then◌else◌,
}
use axtp_ts_runtime.Common.Maps.{lookup, insert, delete}
use axtp_ts_runtime.Model.ErrorCode

pub record PendingCalls : Type 0 where
  pub pending : List (ℕ × ℕ)
  pub timers : List (ℕ × ℕ)
  pub next_request_id : ℕ
  pub promises : ℕ

abbrev pub max_request_id : ℕ
max_request_id = 0xffffffff

abbrev pub new_calls : PendingCalls
new_calls = record { pending = []; timers = []; next_request_id = 1; promises = 0 }

-- A promise resolves with a payload, rejects with a code, or is dropped since `request` throws.
pub data Settled (R : Type 0) : Type 0 where
  resolves : ℕ → R → Settled R
  rejects : ℕ → ℕ → Settled R
  drops : ℕ → Settled R

unfoldable pub allocate_request_id : PendingCalls → ℕ × PendingCalls
allocate_request_id s =
    let id = s.next_request_id in
    (id, record s { next_request_id = if leb max_request_id id then 1 else id + 1 })

-- An entry leaves the table, and its timer is cleared.
abbrev pub remove_entry : ℕ → ℕ → PendingCalls → PendingCalls
remove_entry id promise s = record s {
  pending = delete id s.pending;
  timers = delete promise s.timers;
}

module _ {R : Type 0} where
  unfoldable pub cancel : ℕ → PendingCalls → PendingCalls × List (Settled R)
  cancel id s = elim (lookup id s.pending) [
    | none ↦ (s, [])
    | some promise ↦ (remove_entry id promise s, drops promise ∷ [])
  ]

  -- The Boolean says whether `send` returns, or throws.
  unfoldable pub request : Bool → PendingCalls → PendingCalls × List (Settled R)
  unfolding allocate_request_id cancel
  request sends s =
      let (id, s') = allocate_request_id s in
      let armed = record s' {
        pending = insert id s.promises s'.pending;
        timers = insert s.promises id s'.timers;
        promises = s.promises + 1;
      } in
      if sends then (armed, []) else cancel id armed

  unfoldable pub resolve : ℕ → R → PendingCalls → PendingCalls × List (Settled R)
  resolve id payload s = elim (lookup id s.pending) [
    | none ↦ (s, [])
    | some promise ↦ (remove_entry id promise s, resolves promise payload ∷ [])
  ]

  unfoldable pub reject_loop : ℕ → List (ℕ × ℕ) → List (ℕ × ℕ) → List (ℕ × ℕ) × List (Settled R)
  reject_loop code [] timers = (timers, [])
  reject_loop code ((id, promise) ∷ rest) timers =
      let (timers', rejected) = reject_loop code rest (delete promise timers) in
      (timers', rejects promise code ∷ rejected)

  unfoldable pub reject_all : ℕ → PendingCalls → PendingCalls × List (Settled R)
  unfolding reject_loop
  reject_all code s =
      let (timers, rejected) = reject_loop code s.pending s.timers in
      (record s { pending = []; timers = timers }, rejected)

  -- The callback of the timer of this promise, which runs only while the timer is armed.
  unfoldable pub on_timeout : ℕ → PendingCalls → PendingCalls × List (Settled R)
  on_timeout promise s = elim (lookup promise s.timers) [
    | none ↦ (s, [])
    | some id ↦
        let fired = record s { timers = delete promise s.timers } in
        elim (lookup id s.pending) [
          | none ↦ (fired, [])
          | some held ↦ (
            record fired { pending = delete id s.pending },
            rejects promise ErrorCode.rpc_response_timeout ∷ [],
          )
        ]
  ]

pub data Call (R : Type 0) : Type 0 where
  requests : Bool → Call R
  responds : ℕ → R → Call R
  rejects_all : ℕ → Call R
  times_out : ℕ → Call R

module _ {R : Type 0} where
  unfoldable pub step : Call R → PendingCalls → PendingCalls × List (Settled R)
  unfolding request resolve reject_all on_timeout
  step (requests sends) s = request sends s
  step (responds id payload) s = resolve id payload s
  step (rejects_all code) s = reject_all code s
  step (times_out promise) s = on_timeout promise s

  unfoldable pub run : List (Call R) → PendingCalls → PendingCalls × List (Settled R)
  unfolding step
  run [] s = (s, [])
  run (call ∷ rest) s =
      let (s', settled) = step call s in let (s'', more) = run rest s' in (s'', settled ++ more)
