-- ===== src/Client/Settled/Calls.antt =====
-- The queue of calls loses no promise.
use axtp_ts_runtime.Common.{
  Result-cases, ℕ, ◌+◌, List, [], ◌∷◌, ◌++◌, Option, none, some, leb, length, ◌≡◌, inl, inr, refl,
  ap, arith, Bool-cases,
}
use axtp_ts_runtime.Model.Rpc.{Text}
use axtp_ts_runtime.Model.ErrorCode
use axtp_ts_runtime.JsonRpc.{Value}
use axtp_ts_runtime.Client.State.{
  Overflow, drop_oldest, drop_newest, rejects_new, QueuedCallCoalescePrevious, resolve_with_next,
  reject_previous, drop_previous, ClientOptions, QueuedCall, Client, ClientOutput, require_usable,
  ◌and_then◌,
}
use axtp_ts_runtime.Client.Events.{code_or_disconnected}
use axtp_ts_runtime.Client.Calls.{
  CallOutcome, succeeds, breaks, resolve_all, reject_all_waiters, with_first, next_call, when_idle,
  flush_call_queue, settle_waiters, settle_in_flight, settle_call, reject_calls, reject_call_queue,
  has_key, kept_waiters, replaced_waiters, coalesce, push_call, shift_call, overflow_call,
  append_call, coalesced, find_key, enqueue_open,
}
use axtp_ts_runtime.Client.Settled.{
  let_go, in_list, in_calls, in_flight_call, Accounts, Accounts-after, Accounts-before, Accounts-if,
  let_go-append, in_list-append,
}

module _ (p : ℕ) where
  let_go-resolve_all :
      (value : Value) (ps : List ℕ) → let_go p (resolve_all value ps) ≡ in_list p ps
  let_go-resolve_all value [] = refl
  let_go-resolve_all value (q ∷ ps) = omega (arith, let_go-resolve_all value ps)

  let_go-reject_all_waiters :
      (code : ℕ) (ps : List ℕ) → let_go p (reject_all_waiters code ps) ≡ in_list p ps
  let_go-reject_all_waiters code [] = refl
  let_go-reject_all_waiters code (q ∷ ps) = omega (arith, let_go-reject_all_waiters code ps)

  let_go-settle_waiters :
      (outcome : CallOutcome) (ps : List ℕ) → let_go p (settle_waiters outcome ps) ≡ in_list p ps
  let_go-settle_waiters (succeeds value) ps = let_go-resolve_all value ps
  let_go-settle_waiters (breaks code) ps = let_go-reject_all_waiters (code_or_disconnected code) ps

  -- The loop of flushCallQueue goes on when no call is awaited.
  next_call-Accounts : (c : Client) → c.in_flight ≡ none → Accounts p 0 c (next_call c)
  unfolding next_call
  next_call-Accounts c free = elim (Result-cases (require_usable c)) [
    | inl (code, e) ↦ rw (e, next_call) (omega (arith, ap (in_flight_call p) free))
    | inr (ep, e) ↦ rw (e, next_call) (first ep c.call_queue refl)
  ]
    where
      first :
          (ep : ℕ) (items : List QueuedCall)
          → c.call_queue ≡ items
          → Accounts p 0 c (with_first ep items c)
      first ep [] e = omega (arith, ap (in_flight_call p) free)
      first ep (item ∷ items) e = omega (arith, ap (in_flight_call p) free, ap (in_calls p) e)

  pub flush_call_queue-Accounts : (c : Client) → Accounts p 0 c (flush_call_queue c)
  unfolding flush_call_queue when_idle
  flush_call_queue-Accounts c = idle c.in_flight refl
    where
      idle : (o : Option QueuedCall) → c.in_flight ≡ o → Accounts p 0 c (when_idle o c)
      idle none e = next_call-Accounts c e
      idle (some item) e = refl

  pub settle_call-Accounts :
      (outcome : CallOutcome) (c : Client) → Accounts p 0 c (settle_call outcome c)
  unfolding settle_call settle_in_flight ◌and_then◌
  settle_call-Accounts outcome c = awaited c.in_flight refl
    where
      awaited :
          (o : Option QueuedCall) → c.in_flight ≡ o → Accounts p 0 c (settle_in_flight outcome o c)
      awaited none e = refl
      awaited (some item) e =
          let d : Client = record c { in_flight = none } in
          omega (
            arith,
            next_call-Accounts d refl,
            let_go-settle_waiters outcome item.waiters,
            let_go-append p (settle_waiters outcome item.waiters) (next_call d).1,
            ap (in_flight_call p) e,
          )

  let_go-reject_calls :
      (code : ℕ) (items : List QueuedCall) → let_go p (reject_calls code items) ≡ in_calls p items
  unfolding reject_calls
  let_go-reject_calls code [] = refl
  let_go-reject_calls code (item ∷ items) = omega (
    arith,
    let_go-append p (reject_all_waiters code item.waiters) (reject_calls code items),
    let_go-reject_all_waiters code item.waiters,
    let_go-reject_calls code items,
  )

  pub reject_call_queue-Accounts :
      (code : ℕ) (c : Client) → Accounts p 0 c (reject_call_queue code c)
  unfolding reject_call_queue
  reject_call_queue-Accounts code c = omega (arith, let_go-reject_calls code c.call_queue)

  replaced-Accounts :
      (previous : QueuedCallCoalescePrevious) (ps : List ℕ)
      → let_go p (replaced_waiters previous ps) + in_list p (kept_waiters previous ps)
        ≡ in_list p ps
  replaced-Accounts resolve_with_next ps = omega arith
  replaced-Accounts reject_previous ps =
      omega (arith, let_go-reject_all_waiters ErrorCode.invalid_state ps)
  replaced-Accounts drop_previous ps = omega (arith, let_go-resolve_all none ps)

  -- What a coalesced call does to the promises.
  abbrev Coalesces :
      QueuedCall → List QueuedCall → Option (List QueuedCall × List ClientOutput) → Type 0
  Coalesces new items none = Unit
  Coalesces new items (some (queued, os)) =
      let_go p os + in_calls p queued ≡ in_list p new.waiters + in_calls p items

  coalesce-Coalesces :
      (previous : QueuedCallCoalescePrevious) (key : Text) (new : QueuedCall)
      (items : List QueuedCall)
      → Coalesces new items (coalesce previous key new items)
  unfolding coalesce
  coalesce-Coalesces previous key new [] = tt
  coalesce-Coalesces previous key new (item ∷ items) = elim (Bool-cases (has_key key item.key)) [
    | inl same ↦
        rw (same, coalesce)
          (omega (
            arith,
            replaced-Accounts previous item.waiters,
            in_list-append p (kept_waiters previous item.waiters) new.waiters,
          ))
    | inr differs ↦
        rw (differs, coalesce)
          (later (coalesce previous key new items) (coalesce-Coalesces previous key new items))
  ]
    where
      later :
          (o : Option (List QueuedCall × List ClientOutput))
          → Coalesces new items o
          → Coalesces new
              (item ∷ items)
              (elim o [ none ↦ none | some (queued, os) ↦ some (item ∷ queued, os) ])
      later none h = tt
      later (some (queued, os)) h = omega (arith, h)

  in_calls-append :
      (xs ys : List QueuedCall) → in_calls p (xs ++ ys) ≡ in_calls p xs + in_calls p ys
  in_calls-append [] ys = omega arith
  in_calls-append (item ∷ xs) ys = omega (arith, in_calls-append xs ys)

  push_call-Accounts :
      (item : QueuedCall) (c : Client) → Accounts p (in_list p item.waiters) c (push_call item c)
  unfolding push_call
  push_call-Accounts item c = omega (
    arith,
    flush_call_queue-Accounts (record c { call_queue = c.call_queue ++ (item ∷ []) }),
    in_calls-append c.call_queue (item ∷ []),
  )

  shift_call-Accounts :
      (c : Client) (items : List QueuedCall)
      → c.call_queue ≡ items
      → Accounts p 0 c (shift_call c items)
  unfolding shift_call
  shift_call-Accounts c [] e = refl
  shift_call-Accounts c (item ∷ items) e =
      omega (arith, ap (in_calls p) e, let_go-resolve_all none item.waiters)

  overflow_call-Accounts :
      (overflow : Overflow) (item : QueuedCall) (c : Client)
      → Accounts p (in_list p item.waiters) c (overflow_call overflow item c)
  unfolding overflow_call
  overflow_call-Accounts rejects_new item c =
      omega (arith, let_go-reject_all_waiters ErrorCode.invalid_state item.waiters)
  overflow_call-Accounts drop_newest item c = omega (arith, let_go-resolve_all none item.waiters)
  overflow_call-Accounts drop_oldest item c =
      Accounts-before p (in_list p item.waiters) c (shift_call c c.call_queue) (push_call item)
        (shift_call-Accounts c c.call_queue refl) (push_call-Accounts item)

  append_call-Accounts :
      (opts : ClientOptions) (item : QueuedCall) (c : Client)
      → Accounts p (in_list p item.waiters) c (append_call opts item c)
  unfolding append_call
  append_call-Accounts opts item c =
      Accounts-if p (in_list p item.waiters) c (leb opts.call_max_size (length c.call_queue)) _ _
        (overflow_call-Accounts opts.call_overflow item c) (push_call-Accounts item c)

  find_key-Coalesces :
      (previous : QueuedCallCoalescePrevious) (key : Option Text) (new : QueuedCall)
      (items : List QueuedCall)
      → Coalesces new items (find_key previous new key items)
  unfolding find_key
  find_key-Coalesces previous none new items = tt
  find_key-Coalesces previous (some key) new items = coalesce-Coalesces previous key new items

  coalesced-Accounts :
      (o : Option (List QueuedCall × List ClientOutput)) (opts : ClientOptions) (item : QueuedCall)
      (c : Client)
      → Coalesces item c.call_queue o
      → Accounts p (in_list p item.waiters) c (coalesced o c (append_call opts item c))
  unfolding coalesced
  coalesced-Accounts none opts item c h = append_call-Accounts opts item c
  coalesced-Accounts (some (queued, os)) opts item c h =
      Accounts-after p (in_list p item.waiters) c (record c { call_queue = queued }, os)
        flush_call_queue (omega (arith, h)) flush_call_queue-Accounts

  pub enqueue_open-Accounts :
      (opts : ClientOptions) (previous : QueuedCallCoalescePrevious) (item : QueuedCall)
      (c : Client)
      → Accounts p (in_list p item.waiters) c (enqueue_open opts previous item c)
  unfolding enqueue_open
  enqueue_open-Accounts opts previous item c =
      coalesced-Accounts (find_key previous item item.key c.call_queue) opts item c
        (find_key-Coalesces previous item.key item c.call_queue)
