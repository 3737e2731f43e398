-- ===== src/Client/Settled/Connection.antt =====
-- The changes of state lose no promise.
use axtp_ts_runtime.Common.{
  ℕ, ◌+◌, [], ◌∷◌, Option, none, some, Bool, true, false, not, ◌||◌, ◌&&◌, if◌then◌else◌, refl,
  arith,
}
use axtp_ts_runtime.Model.Rpc.{Text}
use axtp_ts_runtime.Model.ErrorCode
use axtp_ts_runtime.JsonRpc.{Value}
use axtp_ts_runtime.Client.State.{
  ClientOptions, ClientState, idle, connecting, ready, reconnecting, closed, Client, reports,
  starts_coordinator, connects, connect_returns, connect_throws, state_changes, closes_endpoint,
  disconnects, reconnect_fails, Step, ◌and_then◌, same_state, is_closed, opens_transport,
  coordinator_succeeds, stops_coordinator,
}
use axtp_ts_runtime.Client.Events.{
  EmitOutcome, outputs, flush_outbox, reject_outbox, code_or_disconnected,
}
use axtp_ts_runtime.Client.Calls.{flush_call_queue, reject_call_queue, resolve_if_ready}
use axtp_ts_runtime.Client.Connection.{
  notify_waiting, set_state, clear_handshake_timeout, resolve_ready, fail_ready, connect, flush_all,
  resume_connect, connect_times_out, connecting_again, arm_handshake_timeout, spawn_endpoint,
  open_fails, is_endpoint, give_up, handshake_times_out, on_fatal_handshake_error, stop_coordinator,
  tell_coordinator, on_endpoint_ready, on_endpoint_close, handle_reconnect_failed, close_endpoint,
  close,
}
use axtp_ts_runtime.Client.Settled.{Accounts, Accounts-after, Accounts-if}
use axtp_ts_runtime.Client.Settled.Events.{flush_outbox-Accounts, reject_outbox-Accounts}
use axtp_ts_runtime.Client.Settled.Waiting.{resolve_if_ready-Accounts, let_go-reject_waiting}
use axtp_ts_runtime.Client.Settled.Calls.{flush_call_queue-Accounts, reject_call_queue-Accounts}

module _ (p : ℕ) where
  abbrev pub Keeps : Client → Step → Type 0
  Keeps c s = Accounts p 0 c s

  pub Keeps-then :
      (c : Client) (s : Step) (f : Client → Step)
      → Keeps c s
      → ((d : Client) → Keeps d (f d))
      → Keeps c (s and_then f)
  Keeps-then c s f h k = Accounts-after p 0 c s f h k

  pub Keeps-if :
      (c : Client) (b : Bool) (s t : Step) → Keeps c s → Keeps c t → Keeps c (if b then s else t)
  Keeps-if c b s t h k = Accounts-if p 0 c b s t h k

  notify_waiting-Keeps : (state : ClientState) (c : Client) → Keeps c (notify_waiting state c)
  unfolding notify_waiting
  notify_waiting-Keeps closed c =
      omega (arith, let_go-reject_waiting p ErrorCode.transport_disconnected c.waiting_calls)
  notify_waiting-Keeps ready c = resolve_if_ready-Accounts p c
  notify_waiting-Keeps idle c = refl
  notify_waiting-Keeps connecting c = refl
  notify_waiting-Keeps reconnecting c = refl

  set_state-Keeps : (state : ClientState) (c : Client) → Keeps c (set_state state c)
  unfolding set_state
  set_state-Keeps state c = Keeps-if c (same_state c.state state || is_closed c.state) _ _ refl (
      Keeps-then c (record c { state = state }, state_changes state ∷ []) (notify_waiting state)
        refl (notify_waiting-Keeps state))

  fail_ready-Keeps : (code : ℕ) (c : Client) → Keeps c (fail_ready code c)
  unfolding fail_ready
  fail_ready-Keeps code c = Keeps-if c c.ready_wait _ _ refl refl

  resolve_ready-Keeps : (c : Client) → Keeps c (resolve_ready c)
  unfolding resolve_ready
  resolve_ready-Keeps c = Keeps-if c c.ready_wait _ _ refl refl

  flush_all-Keeps :
      (emit_outcome : Text → Value → EmitOutcome) (c : Client) → Keeps c (flush_all emit_outcome c)
  unfolding flush_all
  flush_all-Keeps emit_outcome c =
      Keeps-then c (flush_outbox emit_outcome c) flush_call_queue
        (flush_outbox-Accounts p emit_outcome c) (flush_call_queue-Accounts p)

  pub connect-Keeps : (opts : ClientOptions) (c : Client) → Keeps c (connect opts c)
  unfolding connect
  connect-Keeps opts c =
      elim (same_state c.state idle)
        as (λ b. Keeps c (elim b [
          | false ↦ (c, connect_throws ErrorCode.invalid_state ∷ [])
          | true ↦ set_state connecting (record c { first_ready = true }) and_then (λ d. (
            record d { has_coordinator = d.has_coordinator || opts.reconnects; ready_wait = true },
            opens_transport ∷ [],
          ))
        ])) [
          | false ↦ refl
          | true ↦
              Keeps-then c (set_state connecting (record c { first_ready = true })) _
                (set_state-Keeps connecting (record c { first_ready = true })) (λ d. refl)
        ]

  pub resume_connect-Keeps :
      (emit_outcome : Text → Value → EmitOutcome) (c : Client)
      → Keeps c (resume_connect emit_outcome c)
  unfolding resume_connect
  resume_connect-Keeps emit_outcome c =
      Keeps-if c c.connect_resumes _ _
        (Keeps-then c _ (outputs (connect_returns ∷ []))
          (Keeps-then c _ resolve_if_ready
            (Keeps-then c _ (outputs (connects ∷ []))
              (Keeps-then c (set_state ready (record c { connect_resumes = false }))
                (flush_all emit_outcome)
                (set_state-Keeps ready (record c { connect_resumes = false }))
                (flush_all-Keeps emit_outcome))
              (λ d. refl))
            (resolve_if_ready-Accounts p))
          (λ d. refl))
        refl

  pub connect_times_out-Keeps : (c : Client) → Keeps c (connect_times_out c)
  unfolding connect_times_out
  connect_times_out-Keeps c = fail_ready-Keeps ErrorCode.timeout c

  pub spawn_endpoint-Keeps : (opts : ClientOptions) (c : Client) → Keeps c (spawn_endpoint opts c)
  unfolding spawn_endpoint connecting_again
  spawn_endpoint-Keeps opts c =
      let d : Client = record c {
        endpoint = some c.endpoint_count;
        endpoint_count = c.endpoint_count + 1;
      } in
      Keeps-if c (is_closed c.state) _ _ refl (
        Keeps-then c _ _
          (Keeps-then c (connecting_again d) (arm_handshake_timeout opts c.endpoint_count)
            (Keeps-if c (same_state c.state ready) _ _ refl (set_state-Keeps connecting d))
            (λ e. refl))
          (λ e. refl))

  pub open_fails-Keeps :
      (opts : ClientOptions) (code : Option ℕ) (c : Client) → Keeps c (open_fails opts code c)
  unfolding open_fails
  open_fails-Keeps opts code c = Keeps-if c (is_closed c.state) _ _ refl (
      Keeps-then c (c, reports (code_or_disconnected code) ∷ []) _ refl
        (λ d.
          Keeps-if d (opts.reconnects && d.has_coordinator) _ _
            (Keeps-then d (set_state reconnecting d) (outputs (starts_coordinator ∷ []))
              (set_state-Keeps reconnecting d) (λ e. refl))
            (fail_ready-Keeps ErrorCode.transport_disconnected d)))

  give_up-Keeps : (code : ℕ) (c : Client) → Keeps c (give_up code c)
  unfolding give_up
  give_up-Keeps code c =
      Keeps-then c _ (set_state closed)
        (Keeps-then c _ (reject_outbox code)
          (Keeps-then c (fail_ready code c) (reject_call_queue code) (fail_ready-Keeps code c)
            (reject_call_queue-Accounts p code))
          (λ d. reject_outbox-Accounts p code d))
        (set_state-Keeps closed)

  pub handshake_times_out-Keeps :
      (ep : ℕ) (is_ready : Bool) (c : Client) → Keeps c (handshake_times_out ep is_ready c)
  unfolding handshake_times_out
  handshake_times_out-Keeps ep is_ready c =
      Keeps-if c (not (is_endpoint ep c.endpoint) || is_ready || is_closed c.state) _ _ refl (
        Keeps-then c _ (outputs (closes_endpoint ep true ∷ []))
          (Keeps-then c (c, reports ErrorCode.timeout ∷ []) _ refl
            (λ d. Keeps-if d d.has_coordinator _ _ refl (give_up-Keeps ErrorCode.timeout d)))
          (λ d. refl))

  stop_coordinator-Keeps : (c : Client) → Keeps c (stop_coordinator c)
  stop_coordinator-Keeps c = one_output c.has_coordinator
    where
      one_output : (b : Bool) → Keeps c (c, if b then stops_coordinator ∷ [] else [])
      one_output true = refl
      one_output false = refl

  tell_coordinator-Keeps : (c : Client) → Keeps c (tell_coordinator c)
  tell_coordinator-Keeps c = one_output c.has_coordinator
    where
      one_output : (b : Bool) → Keeps c (c, if b then coordinator_succeeds ∷ [] else [])
      one_output true = refl
      one_output false = refl

  pub on_fatal_handshake_error-Keeps :
      (ep code : ℕ) (c : Client) → Keeps c (on_fatal_handshake_error ep code c)
  unfolding on_fatal_handshake_error clear_handshake_timeout
  on_fatal_handshake_error-Keeps ep code c =
      Keeps-if c (not (is_endpoint ep c.endpoint) || is_closed c.state) _ _ refl (
        Keeps-then c _ (give_up code)
          (Keeps-then c (clear_handshake_timeout c) stop_coordinator refl stop_coordinator-Keeps)
          (give_up-Keeps code))

  pub on_endpoint_ready-Keeps :
      (emit_outcome : Text → Value → EmitOutcome) (attempts : ℕ) (c : Client)
      → Keeps c (on_endpoint_ready emit_outcome attempts c)
  unfolding on_endpoint_ready clear_handshake_timeout
  on_endpoint_ready-Keeps emit_outcome attempts c =
      Keeps-then c _ (flush_all emit_outcome)
        (Keeps-then c _ _
          (Keeps-then c (clear_handshake_timeout c) tell_coordinator refl tell_coordinator-Keeps)
          (λ d.
            Keeps-if d d.first_ready _ _ (resolve_ready-Keeps (record d { first_ready = false }))
              (Keeps-then d (set_state ready d) _ (set_state-Keeps ready d) (λ e. refl))))
        (flush_all-Keeps emit_outcome)

  pub on_endpoint_close-Keeps : (remote : Bool) (c : Client) → Keeps c (on_endpoint_close remote c)
  unfolding on_endpoint_close clear_handshake_timeout
  on_endpoint_close-Keeps remote c = Keeps-then c (clear_handshake_timeout c) _ refl (λ d.
      let e : Client = record d { endpoint = none } in
      Keeps-if d (is_closed d.state) _ _ refl (
        Keeps-if d d.first_ready _ _
          (Keeps-if d d.has_coordinator _ _
            (Keeps-then d (set_state reconnecting e)
              (outputs (disconnects remote ∷ starts_coordinator ∷ []))
              (set_state-Keeps reconnecting e) (λ f. refl))
            (fail_ready-Keeps ErrorCode.transport_disconnected e))
          (Keeps-then d (e, disconnects remote ∷ []) _ refl
            (λ f.
              Keeps-if f f.has_coordinator _ _
                (Keeps-then f (set_state reconnecting f) (outputs (starts_coordinator ∷ []))
                  (set_state-Keeps reconnecting f) (λ g. refl))
                (set_state-Keeps closed f)))))

  pub handle_reconnect_failed-Keeps : (c : Client) → Keeps c (handle_reconnect_failed c)
  unfolding handle_reconnect_failed
  handle_reconnect_failed-Keeps c =
      let code : ℕ = ErrorCode.transport_disconnected in
      Keeps-then c _ (outputs (reconnect_fails ∷ []))
        (Keeps-then c _ (reject_outbox code)
          (Keeps-then c _ (set_state closed)
            (Keeps-then c (fail_ready code c) (reject_call_queue code) (fail_ready-Keeps code c)
              (reject_call_queue-Accounts p code))
            (set_state-Keeps closed))
          (λ d. reject_outbox-Accounts p code d))
        (λ d. refl)

  close_endpoint-Keeps : (c : Client) → Keeps c (close_endpoint c)
  close_endpoint-Keeps c = held c.endpoint
    where
      held :
          (o : Option ℕ)
          → Keeps c (elim o [ none ↦ (c, []) | some ep ↦ (c, closes_endpoint ep false ∷ []) ])
      held none = refl
      held (some ep) = refl

  pub close-Keeps : (c : Client) → Keeps c (close c)
  unfolding close clear_handshake_timeout
  close-Keeps c =
      let code : ℕ = ErrorCode.transport_disconnected in
      Keeps-then c _ (reject_outbox code)
        (Keeps-then c _ (reject_call_queue code)
          (Keeps-then c _ (fail_ready code)
            (Keeps-then c _ close_endpoint
              (Keeps-then c _ (set_state closed)
                (Keeps-then c (stop_coordinator c) clear_handshake_timeout
                  (stop_coordinator-Keeps c) (λ d. refl))
                (set_state-Keeps closed))
              close_endpoint-Keeps)
            (fail_ready-Keeps code))
          (reject_call_queue-Accounts p code))
        (λ d. reject_outbox-Accounts p code d)
