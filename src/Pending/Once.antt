-- ===== src/Pending/Once.antt =====
-- Each promise is settled once.
use axtp_ts_runtime.Common.{
  ℕ, ◌+◌, ◌≤◌, ◌<◌, List, [], ◌∷◌, ◌++◌, none, some, Bool, true, false, ltb, leb, ◌==◌,
  if◌then◌else◌, ◌≡◌, refl, ap, ◌∙◌, arith, inl, inr, Option-cases,
}
use axtp_ts_runtime.Common.Maps.{
  lookup, insert, delete, Entries, Entries-lookup, Entries-insert, Entries-delete,
}
use axtp_ts_runtime.Model.ErrorCode
use axtp_ts_runtime.Pending.{
  PendingCalls, remove_entry, Settled, resolves, rejects, drops, allocate_request_id, cancel,
  request, resolve, reject_loop, reject_all, on_timeout, Call, requests, responds, rejects_all,
  times_out, step,
}

-- How often a promise waits in the table.
unfoldable pub waiting : ℕ → List (ℕ × ℕ) → ℕ
waiting p [] = 0
waiting p ((id, q) ∷ rest) = (if q == p then 1 else 0) + waiting p rest

-- The id of a request, as long as the ids have not run over, is one more than its promise.
abbrev pub Numbered : List (ℕ × ℕ) → Type 0
Numbered = Entries (λ id p. id ≡ p + 1)

abbrev pub TimerNumbered : List (ℕ × ℕ) → Type 0
TimerNumbered = Entries (λ p id. id ≡ p + 1)

waiting-delete :
    (p id : ℕ) (m : List (ℕ × ℕ))
    → Numbered m
    → waiting p (delete id m) ≡ (if id == p + 1 then 0 else waiting p m)
unfolding waiting delete
waiting-delete p id [] h = ground arith
waiting-delete p id ((k, q) ∷ rest) h = ground (arith, h.0, waiting-delete p id rest h.1)

waiting-insert :
    (p id q : ℕ) (m : List (ℕ × ℕ))
    → lookup id m ≡ none
    → waiting p (insert id q m) ≡ (if q == p then 1 else 0) + waiting p m
unfolding waiting insert lookup
waiting-insert p id q [] h = refl
waiting-insert p id q ((k, r) ∷ rest) h = ground (arith, h, waiting-insert p id q rest)

waiting-lookup : (p id : ℕ) (m : List (ℕ × ℕ)) → lookup id m ≡ some p → 1 ≤ waiting p m
unfolding waiting lookup
waiting-lookup p id [] h = absurd (cc h)
waiting-lookup p id ((k, q) ∷ rest) h = ground (arith, h, waiting-lookup p id rest)

module _ {R : Type 0} where
  abbrev pub promise_of : Settled R → ℕ
  promise_of (resolves p payload) = p
  promise_of (rejects p code) = p
  promise_of (drops p) = p

  -- How often a promise is settled.
  unfoldable pub settled : ℕ → List (Settled R) → ℕ
  settled p [] = 0
  settled p (x ∷ rest) = (if promise_of x == p then 1 else 0) + settled p rest

  settled-append :
      (p : ℕ) (xs ys : List (Settled R)) → settled p (xs ++ ys) ≡ settled p xs + settled p ys
  unfolding settled
  settled-append p [] ys = omega arith
  settled-append p (x ∷ xs) ys = omega (arith, settled-append p xs ys)

module _ (R : Type 0) where
  settled-reject_loop :
      (p code : ℕ) (m timers : List (ℕ × ℕ))
      → settled p (reject_loop {R = R} code m timers).1 ≡ waiting p m
  unfolding settled reject_loop waiting
  settled-reject_loop p code [] timers = refl
  settled-reject_loop p code ((id, q) ∷ rest) timers =
      omega (arith, settled-reject_loop p code rest (delete q timers))

  reject_loop-TimerNumbered :
      (code : ℕ) (m timers : List (ℕ × ℕ))
      → TimerNumbered timers
      → TimerNumbered (reject_loop {R = R} code m timers).0
  unfolding reject_loop
  reject_loop-TimerNumbered code [] timers h = h
  reject_loop-TimerNumbered code ((id, q) ∷ rest) timers h =
      reject_loop-TimerNumbered code rest (delete q timers)
        (Entries-delete (λ p i. i ≡ p + 1) q timers h)

module _ {R : Type 0} where
  -- Each promise that was made waits in the table or is settled, and not more than once in all.
  pub record IsOnce (log : List (Settled R)) (s : PendingCalls) : Type 0 where
    pub next : s.next_request_id ≡ s.promises + 1
    pub numbered : Numbered s.pending
    pub timed : TimerNumbered s.timers
    pub once : (p : ℕ) → settled p log + waiting p s.pending ≡ (if ltb p s.promises then 1 else 0)

  -- An entry leaves the table, and its promise is settled.
  remove-IsOnce :
      (id p : ℕ) (x : Settled R) (log : List (Settled R)) (s : PendingCalls)
      → promise_of x ≡ p
      → lookup id s.pending ≡ some p
      → IsOnce log s
      → IsOnce (log ++ (x ∷ [])) (remove_entry id p s)
  unfolding settled
  remove-IsOnce id p x log s same found h =
      let key : id ≡ p + 1 = Entries-lookup (λ i q. i ≡ q + 1) id s.pending h.numbered found in
      let there = waiting-lookup p id s.pending found in
      record {
        next = h.next;
        numbered = Entries-delete (λ i q. i ≡ q + 1) id s.pending h.numbered;
        timed = Entries-delete (λ q i. i ≡ q + 1) p s.timers h.timed;
        once = λ q. ground (
          arith,
          settled-append q log (x ∷ []),
          waiting-delete q id s.pending h.numbered,
          h.once q,
          h.once p,
          same,
          key,
          there,
        );
      }

  none-IsOnce : (log : List (Settled R)) (s : PendingCalls) → IsOnce log s → IsOnce (log ++ []) s
  unfolding settled
  none-IsOnce log s h = record {
    next = h.next;
    numbered = h.numbered;
    timed = h.timed;
    once = λ q. omega (arith, settled-append q log [], h.once q);
  }

  resolve-IsOnce :
      (id : ℕ) (payload : R) (log : List (Settled R)) (s : PendingCalls)
      → IsOnce log s
      → IsOnce (log ++ (resolve id payload s).1) (resolve id payload s).0
  unfolding resolve
  resolve-IsOnce id payload log s h = elim (Option-cases (lookup id s.pending)) [
    | inl e ↦ rw (e, resolve) (none-IsOnce log s h)
    | inr (p, e) ↦ rw (e, resolve) (remove-IsOnce id p (resolves p payload) log s refl e h)
  ]

  cancel-IsOnce :
      (id : ℕ) (log : List (Settled R)) (s : PendingCalls)
      → IsOnce log s
      → IsOnce (log ++ (cancel {R = R} id s).1) (cancel {R = R} id s).0
  unfolding cancel
  cancel-IsOnce id log s h = elim (Option-cases (lookup id s.pending)) [
    | inl e ↦ rw (e, cancel) (none-IsOnce log s h)
    | inr (p, e) ↦ rw (e, cancel) (remove-IsOnce id p (drops p) log s refl e h)
  ]

  reject_all-IsOnce :
      (code : ℕ) (log : List (Settled R)) (s : PendingCalls)
      → IsOnce log s
      → IsOnce (log ++ (reject_all {R = R} code s).1) (reject_all {R = R} code s).0
  unfolding reject_all waiting
  reject_all-IsOnce code log s h = record {
    next = h.next;
    numbered = tt;
    timed = reject_loop-TimerNumbered R code s.pending s.timers h.timed;
    once = λ q. omega (
      arith,
      settled-append q log (reject_loop {R = R} code s.pending s.timers).1,
      settled-reject_loop R q code s.pending s.timers,
      h.once q,
    );
  }

  -- A promise above those that were made waits nowhere.
  fresh :
      (log : List (Settled R)) (s : PendingCalls)
      → IsOnce log s
      → lookup s.next_request_id s.pending ≡ none
  fresh log s h = elim (Option-cases (lookup s.next_request_id s.pending)) [
    | inl e ↦ e
    | inr (p, e) ↦
        let key = Entries-lookup (λ i q. i ≡ q + 1) s.next_request_id s.pending h.numbered e in
        absurd
          (ground (arith, key, h.next, h.once p, waiting-lookup p s.next_request_id s.pending e))
  ]

  arm-IsOnce :
      (log : List (Settled R)) (s : PendingCalls)
      → s.promises + 1 < 0xffffffff
      → IsOnce log s
      → IsOnce log (record s {
        next_request_id = if leb 0xffffffff s.next_request_id then 1 else s.next_request_id + 1;
        pending = insert s.next_request_id s.promises s.pending;
        timers = insert s.promises s.next_request_id s.timers;
        promises = s.promises + 1;
      })
  arm-IsOnce log s bound h = record {
    next = ground (arith, bound, h.next);
    numbered =
        Entries-insert (λ i q. i ≡ q + 1) s.next_request_id s.promises s.pending h.next h.numbered;
    timed = Entries-insert (λ q i. i ≡ q + 1) s.promises s.next_request_id s.timers h.next h.timed;
    once = λ q.
        ground (
          arith,
          waiting-insert q s.next_request_id s.promises s.pending (fresh log s h),
          h.once q,
        );
  }

  request-IsOnce :
      (sends : Bool) (log : List (Settled R)) (s : PendingCalls)
      → s.promises + 1 < 0xffffffff
      → IsOnce log s
      → IsOnce (log ++ (request {R = R} sends s).1) (request {R = R} sends s).0
  unfolding request allocate_request_id
  request-IsOnce true log s bound h = none-IsOnce log _ (arm-IsOnce log s bound h)
  request-IsOnce false log s bound h =
      cancel-IsOnce s.next_request_id log _ (arm-IsOnce log s bound h)

  on_timeout-IsOnce :
      (p : ℕ) (log : List (Settled R)) (s : PendingCalls)
      → IsOnce log s
      → IsOnce (log ++ (on_timeout {R = R} p s).1) (on_timeout {R = R} p s).0
  unfolding on_timeout
  on_timeout-IsOnce p log s h = elim (Option-cases (lookup p s.timers)) [
    | inl e ↦ rw (e, on_timeout) (none-IsOnce log s h)
    | inr (id, e) ↦
        let armed : id ≡ p + 1 = Entries-lookup (λ q i. i ≡ q + 1) p s.timers h.timed e in
        elim (Option-cases (lookup id s.pending)) [
          | inl e' ↦
              rw (e, on_timeout)
                (rw e' (
                  none-IsOnce log (record s { timers = delete p s.timers })
                    (record {
                      next = h.next;
                      numbered = h.numbered;
                      timed = Entries-delete (λ q i. i ≡ q + 1) p s.timers h.timed;
                      once = h.once;
                    })))
          | inr (held, e') ↦
              let key = Entries-lookup (λ i q. i ≡ q + 1) id s.pending h.numbered e' in
              let same : held ≡ p = omega (arith, armed, key) in
              rw (e, on_timeout)
                (rw e' (
                  remove-IsOnce id p (rejects p ErrorCode.rpc_response_timeout) log s refl
                    (e' ∙ ap some same) h))
        ]
  ]

  pub step-IsOnce :
      (call : Call R) (log : List (Settled R)) (s : PendingCalls)
      → s.promises + 1 < 0xffffffff
      → IsOnce log s
      → IsOnce (log ++ (step call s).1) (step call s).0
  unfolding step
  step-IsOnce (requests sends) log s bound h = request-IsOnce sends log s bound h
  step-IsOnce (responds id payload) log s bound h = resolve-IsOnce id payload log s h
  step-IsOnce (rejects_all code) log s bound h = reject_all-IsOnce code log s h
  step-IsOnce (times_out p) log s bound h = on_timeout-IsOnce p log s h
