-- ===== src/Client/Settled/Waiting.antt =====
-- callRaw and the calls that wait for an endpoint lose no promise.
use axtp_ts_runtime.Common.{
  Result-cases, ℕ, ◌+◌, List, [], ◌∷◌, ◌++◌, Option, throws, ◌≡◌, inl, inr, refl, arith,
}
use axtp_ts_runtime.Model.Rpc.{Text}
use axtp_ts_runtime.JsonRpc.{Value}
use axtp_ts_runtime.Client.State.{
  CallOfflinePolicy, fail_fast, wait_ready, queue, reject_previous, CallOptions, ClientOptions,
  QueuedCall, WaitingCall, Client, require_usable, is_closed,
}
use axtp_ts_runtime.Client.Calls.{
  or_default, enqueue_call, hand_over_waiting, reject_waiting, resolve_if_ready, call_by_policy,
  call_raw, resolve_call_options,
}
use axtp_ts_runtime.Client.Settled.{one_if, let_go, in_waiting, Accounts, Accounts-if}
use axtp_ts_runtime.Client.Settled.Calls.{enqueue_open-Accounts}

module _ (p : ℕ) where
  enqueue_call-Accounts :
      (opts : ClientOptions) (options : CallOptions) (method : Text) (params : Value) (promise : ℕ)
      (c : Client)
      → Accounts p (one_if p promise) c (enqueue_call opts options method params promise c)
  unfolding enqueue_call
  enqueue_call-Accounts opts options method params promise c =
      let item : QueuedCall = record {
        method = method;
        params = params;
        call_timeout = options.timeout_ms;
        key = options.coalesce_key;
        waiters = promise ∷ [];
      } in
      Accounts-if p (one_if p promise) c (is_closed c.state) _ _ (omega arith) (
        omega (
          arith,
          enqueue_open-Accounts p opts (or_default options.coalesce_previous reject_previous) item
              c,
        ))

  in_waiting-append :
      (xs ys : List WaitingCall) → in_waiting p (xs ++ ys) ≡ in_waiting p xs + in_waiting p ys
  in_waiting-append [] ys = omega arith
  in_waiting-append (w ∷ xs) ys = omega (arith, in_waiting-append xs ys)

  call_by_policy-Accounts :
      (opts : ClientOptions) (options : CallOptions) (policy : Option CallOfflinePolicy)
      (method : Text) (params : Value) (promise : ℕ) (c : Client)
      → Accounts p (one_if p promise) c (call_by_policy opts options policy method params promise c)
  unfolding call_by_policy
  call_by_policy-Accounts opts options policy method params promise c =
      elim (Result-cases (require_usable c)) [
        | inl (code, e) ↦ unusable code e (or_default policy fail_fast) refl
        | inr (ep, e) ↦ rw (e, call_by_policy) (omega arith)
      ]
    where
      unusable :
          (code : ℕ)
          → require_usable c ≡ throws code
          → (policy' : CallOfflinePolicy) → or_default policy fail_fast ≡ policy'
          → Accounts p
              (one_if p promise)
              c
              (call_by_policy opts options policy method params promise c)
      unusable code e fail_fast at = rw (e, call_by_policy) (rw at (omega arith))
      unusable code e queue at =
          rw (e, call_by_policy)
            (rw at (enqueue_call-Accounts opts options method params promise c))
      unusable code e wait_ready at =
          rw (e, call_by_policy)
            (rw at (
              Accounts-if p (one_if p promise) c (is_closed c.state) _ _ (omega arith) (
                omega (
                  arith,
                  in_waiting-append c.waiting_calls (
                      record {
                        wait_method = method;
                        wait_params = params;
                        wait_timeout = options.timeout_ms;
                        wait_promise = promise;
                      }
                      ∷ []),
                ))))

  pub call_raw-Accounts :
      (opts : ClientOptions) (given : CallOptions) (method : Text) (params : Value) (promise : ℕ)
      (c : Client)
      → Accounts p (one_if p promise) c (call_raw opts given method params promise c)
  unfolding call_raw
  call_raw-Accounts opts given method params promise c =
      let options = resolve_call_options opts method given in
      call_by_policy-Accounts opts options options.offline_policy method params promise c

  let_go-hand_over_waiting :
      (ep : ℕ) (ws : List WaitingCall) → let_go p (hand_over_waiting ep ws) ≡ in_waiting p ws
  unfolding hand_over_waiting
  let_go-hand_over_waiting ep [] = refl
  let_go-hand_over_waiting ep (w ∷ ws) = omega (arith, let_go-hand_over_waiting ep ws)

  pub let_go-reject_waiting :
      (code : ℕ) (ws : List WaitingCall) → let_go p (reject_waiting code ws) ≡ in_waiting p ws
  unfolding reject_waiting
  let_go-reject_waiting code [] = refl
  let_go-reject_waiting code (w ∷ ws) = omega (arith, let_go-reject_waiting code ws)

  pub resolve_if_ready-Accounts : (c : Client) → Accounts p 0 c (resolve_if_ready c)
  unfolding resolve_if_ready
  resolve_if_ready-Accounts c = elim (Result-cases (require_usable c)) [
    | inl (code, e) ↦ rw (e, resolve_if_ready) (omega arith)
    | inr (ep, e) ↦
        rw (e, resolve_if_ready) (omega (arith, let_go-hand_over_waiting ep c.waiting_calls))
  ]
