-- ===== src/Client/Final/Connection.antt =====
-- A closed client stays closed: the changes of state.
use axtp_ts_runtime.Common.{ℕ, [], ◌∷◌, Option, none, some, false, ◌≡◌, ap}
use axtp_ts_runtime.Model.Rpc.{Text}
use axtp_ts_runtime.Model.ErrorCode
use axtp_ts_runtime.JsonRpc.{Value}
use axtp_ts_runtime.Client.State.{
  ClientOptions, ClientState, idle, ready, closed, connects, connect_returns, reconnect_fails,
  closes_endpoint, Step, same_state,
}
use axtp_ts_runtime.Client.Events.{EmitOutcome, outputs, reject_outbox}
use axtp_ts_runtime.Client.Calls.{reject_call_queue, resolve_if_ready}
use axtp_ts_runtime.Client.Connection.{
  set_state, clear_handshake_timeout, resolve_ready, fail_ready, connect, flush_all, resume_connect,
  stop_coordinator, tell_coordinator, give_up, on_endpoint_ready, handle_reconnect_failed,
  close_endpoint, close,
}
use axtp_ts_runtime.Client.Final.{
  Stays, KeepsClosed, Stays-then, Stays-if, unusable, set_state-Stays, flush_all-Stays,
  reject_call_queue-Stays, reject_outbox-Stays, fail_ready-Stays, stop_coordinator-Stays,
  tell_coordinator-Stays,
}

pub resolve_if_ready-Stays : KeepsClosed resolve_if_ready
unfolding resolve_if_ready
resolve_if_ready-Stays c h = rw (unusable c h, resolve_if_ready) (h, tt)

pub resolve_ready-Stays : KeepsClosed resolve_ready
unfolding resolve_ready
resolve_ready-Stays c h = Stays-if c.ready_wait _ _ (h, tt) (h, tt)

pub close_endpoint-Stays : KeepsClosed close_endpoint
close_endpoint-Stays c h = held c.endpoint
  where
    held :
        (o : Option ℕ)
        → Stays (elim o as (λ o. Step) [
          | none ↦ (c, [])
          | some ep ↦ (c, closes_endpoint ep false ∷ [])
        ])
    held none = (h, tt)
    held (some ep) = (h, (tt, tt))

pub give_up-Stays : (code : ℕ) → KeepsClosed (give_up code)
unfolding give_up
give_up-Stays code c h =
    Stays-then _ (set_state closed)
      (Stays-then _ (reject_outbox code)
        (Stays-then (fail_ready code c) (reject_call_queue code) (fail_ready-Stays code c h)
          (reject_call_queue-Stays code))
        (reject_outbox-Stays code))
      (set_state-Stays closed)

pub connect-Stays : (opts : ClientOptions) → KeepsClosed (connect opts)
unfolding connect
connect-Stays opts c h =
    let e : same_state c.state idle ≡ false = ap (λ (s : ClientState). same_state s idle) h in
    rw (e, connect) (h, (tt, tt))

pub resume_connect-Stays :
    (emit_outcome : Text → Value → EmitOutcome) → KeepsClosed (resume_connect emit_outcome)
unfolding resume_connect
resume_connect-Stays emit_outcome c h =
    Stays-if c.connect_resumes _ _
      (Stays-then _ (outputs (connect_returns ∷ []))
        (Stays-then _ resolve_if_ready
          (Stays-then _ (outputs (connects ∷ []))
            (Stays-then (set_state ready (record c { connect_resumes = false }))
              (flush_all emit_outcome)
              (set_state-Stays ready (record c { connect_resumes = false }) h)
              (flush_all-Stays emit_outcome))
            (λ d k. (k, (tt, tt))))
          resolve_if_ready-Stays)
        (λ d k. (k, (tt, tt))))
      (h, tt)

pub on_endpoint_ready-Stays :
    (emit_outcome : Text → Value → EmitOutcome) (attempts : ℕ)
    → KeepsClosed (on_endpoint_ready emit_outcome attempts)
unfolding on_endpoint_ready clear_handshake_timeout
on_endpoint_ready-Stays emit_outcome attempts c h =
    Stays-then _ (flush_all emit_outcome)
      (Stays-then _ _
        (Stays-then (clear_handshake_timeout c) tell_coordinator (h, tt) tell_coordinator-Stays)
        (λ d k.
          Stays-if d.first_ready _ _ (resolve_ready-Stays (record d { first_ready = false }) k)
            (Stays-then (set_state ready d) _ (set_state-Stays ready d k) (λ e l. (l, (tt, tt))))))
      (flush_all-Stays emit_outcome)

pub handle_reconnect_failed-Stays : KeepsClosed handle_reconnect_failed
unfolding handle_reconnect_failed
handle_reconnect_failed-Stays c h =
    let code : ℕ = ErrorCode.transport_disconnected in
    Stays-then _ (outputs (reconnect_fails ∷ []))
      (Stays-then _ (reject_outbox code)
        (Stays-then _ (set_state closed)
          (Stays-then (fail_ready code c) (reject_call_queue code) (fail_ready-Stays code c h)
            (reject_call_queue-Stays code))
          (set_state-Stays closed))
        (reject_outbox-Stays code))
      (λ d k. (k, (tt, tt)))

pub close-Stays : KeepsClosed close
unfolding close clear_handshake_timeout
close-Stays c h =
    let code : ℕ = ErrorCode.transport_disconnected in
    Stays-then _ (reject_outbox code)
      (Stays-then _ (reject_call_queue code)
        (Stays-then _ (fail_ready code)
          (Stays-then _ close_endpoint
            (Stays-then _ (set_state closed)
              (Stays-then (stop_coordinator c) clear_handshake_timeout (stop_coordinator-Stays c h)
                (λ d k. (k, tt)))
              (set_state-Stays closed))
            close_endpoint-Stays)
          (fail_ready-Stays code))
        (reject_call_queue-Stays code))
      (reject_outbox-Stays code)
