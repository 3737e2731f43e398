-- ===== src/Client/Connection.antt =====
-- src/sdk/client.ts: the states of the connection. The transport, the endpoints and the reconnect
-- coordinator call back as inputs; the listeners of the client's event streams do not call it.
use axtp_ts_runtime.Common.{
  ℕ, ◌+◌, List, [], ◌∷◌, Option, none, some, Bool, true, false, not, ◌==◌, ◌||◌, ◌&&◌,
  if◌then◌else◌,
}
use axtp_ts_runtime.Model.ErrorCode
use axtp_ts_runtime.Model.Rpc.{Text}
use axtp_ts_runtime.JsonRpc.{Value}
use axtp_ts_runtime.Broker.{add_text}
use axtp_ts_runtime.Registry.Events.{event_registry}
use axtp_ts_runtime.EventMasks.{compute_event_masks}
use axtp_ts_runtime.Client.State.{
  ClientOptions, ClientState, idle, connecting, ready, reconnecting, closed, Client, state_changes,
  connects, disconnects, reconnects_after, reconnect_fails, reports, opens_transport,
  closes_transport, starts_endpoint, closes_endpoint, starts_coordinator, stops_coordinator,
  coordinator_succeeds, connect_returns, connect_throws, Step, ◌and_then◌, same_state, is_closed,
}
use axtp_ts_runtime.Client.Events.{
  EmitOutcome, outputs, code_or_disconnected, flush_outbox, reject_outbox,
}
use axtp_ts_runtime.Client.Calls.{
  flush_call_queue, reject_call_queue, reject_waiting, resolve_if_ready,
}

-- The calls that wait listen to the states.
unfoldable pub notify_waiting : ClientState → Client → Step
unfolding reject_waiting resolve_if_ready
notify_waiting closed c = (
  record c { waiting_calls = [] },
  reject_waiting ErrorCode.transport_disconnected c.waiting_calls,
)
notify_waiting ready c = resolve_if_ready c
notify_waiting state c = (c, [])

unfoldable pub set_state : ClientState → Client → Step
unfolding notify_waiting
set_state state c =
    if same_state c.state state || is_closed c.state
    then (c, [])
    else (record c { state = state }, state_changes state ∷ []) and_then notify_waiting state

unfoldable pub clear_handshake_timeout : Client → Step
clear_handshake_timeout c = (record c { handshake_timer = none }, [])

unfoldable pub resolve_ready : Client → Step
resolve_ready c =
    if c.ready_wait then (record c { ready_wait = false; connect_resumes = true }, []) else (c, [])

unfoldable pub fail_ready : ℕ → Client → Step
fail_ready code c =
    if c.ready_wait then (record c { ready_wait = false }, connect_throws code ∷ []) else (c, [])

-- connect, up to its `await`
unfoldable pub connect : ClientOptions → Client → Step
unfolding set_state
connect opts c = elim (same_state c.state idle) [
  | false ↦ (c, connect_throws ErrorCode.invalid_state ∷ [])
  | true ↦ set_state connecting (record c { first_ready = true }) and_then (λ d. (
    record d { has_coordinator = d.has_coordinator || opts.reconnects; ready_wait = true },
    opens_transport ∷ [],
  ))
]

unfoldable pub flush_all : (Text → Value → EmitOutcome) → Client → Step
unfolding flush_outbox flush_call_queue
flush_all emit_outcome c = flush_outbox emit_outcome c and_then flush_call_queue

-- connect, after its `await`
unfoldable pub resume_connect : (Text → Value → EmitOutcome) → Client → Step
unfolding set_state flush_all resolve_if_ready
resume_connect emit_outcome c =
    if c.connect_resumes
    then set_state ready (record c { connect_resumes = false })
      and_then flush_all emit_outcome
      and_then outputs (connects ∷ [])
      and_then resolve_if_ready
      and_then outputs (connect_returns ∷ [])
    else (c, [])

unfoldable pub connect_times_out : Client → Step
unfolding fail_ready
connect_times_out c = fail_ready ErrorCode.timeout c

-- The client's computeEventMasks
unfoldable pub event_masks : List Text → Option Text
unfolding compute_event_masks
event_masks [] = none
event_masks (name ∷ names) = some (compute_event_masks event_registry (name ∷ names))

unfoldable pub connecting_again : Client → Step
unfolding set_state
connecting_again c = if same_state c.state ready then (c, []) else set_state connecting c

abbrev pub arm_handshake_timeout : ClientOptions → ℕ → Client → Step
arm_handshake_timeout opts ep c =
    (record c { handshake_timer = if opts.has_handshake_timeout then some ep else none }, [])

unfoldable pub spawn_endpoint : ClientOptions → Client → Step
unfolding connecting_again event_masks
spawn_endpoint opts c =
    let ep = c.endpoint_count in
    if is_closed c.state
    then (c, closes_transport ∷ [])
    else connecting_again (record c { endpoint = some ep; endpoint_count = ep + 1 })
      and_then arm_handshake_timeout opts ep
      and_then (λ d. (d, starts_endpoint ep (event_masks d.subscribed_events) ∷ []))

-- tryOpen, where the transport does not connect: the code of an AxtpError, if it is one
unfoldable pub open_fails : ClientOptions → Option ℕ → Client → Step
unfolding set_state fail_ready
open_fails opts code c =
    if is_closed c.state
    then (c, [])
    else outputs (reports (code_or_disconnected code) ∷ []) c and_then (λ d.
      if opts.reconnects && d.has_coordinator
      then set_state reconnecting d and_then outputs (starts_coordinator ∷ [])
      else fail_ready ErrorCode.transport_disconnected d)

abbrev pub stop_coordinator : Client → Step
stop_coordinator c = (c, if c.has_coordinator then stops_coordinator ∷ [] else [])

abbrev pub is_endpoint : ℕ → Option ℕ → Bool
is_endpoint ep none = false
is_endpoint ep (some other) = other == ep

-- Every promise that waits is rejected, and the client is closed.
unfoldable pub give_up : ℕ → Client → Step
unfolding fail_ready set_state reject_call_queue reject_outbox
give_up code c =
    fail_ready code c
    and_then reject_call_queue code
    and_then reject_outbox code
    and_then set_state closed

-- The timer of armHandshakeTimeout fires; `is_ready` is of its endpoint.
unfoldable pub handshake_times_out : ℕ → Bool → Client → Step
unfolding give_up
handshake_times_out ep is_ready c =
    if not (is_endpoint ep c.endpoint) || is_ready || is_closed c.state
    then (c, [])
    else outputs (reports ErrorCode.timeout ∷ []) c
      and_then (λ d. if d.has_coordinator then (d, []) else give_up ErrorCode.timeout d)
      and_then outputs (closes_endpoint ep true ∷ [])

unfoldable pub on_fatal_handshake_error : ℕ → ℕ → Client → Step
unfolding clear_handshake_timeout give_up
on_fatal_handshake_error ep code c =
    if not (is_endpoint ep c.endpoint) || is_closed c.state
    then (c, [])
    else clear_handshake_timeout c and_then stop_coordinator and_then give_up code

abbrev pub tell_coordinator : Client → Step
tell_coordinator c = (c, if c.has_coordinator then coordinator_succeeds ∷ [] else [])

unfoldable pub on_endpoint_ready : (Text → Value → EmitOutcome) → ℕ → Client → Step
unfolding clear_handshake_timeout resolve_ready set_state flush_all
on_endpoint_ready emit_outcome attempts c =
    clear_handshake_timeout c
    and_then tell_coordinator
    and_then (λ d.
        if d.first_ready
        then resolve_ready (record d { first_ready = false })
        else set_state ready d
          and_then (λ e. (e, reconnects_after (if e.has_coordinator then attempts else 0) ∷ [])))
    and_then flush_all emit_outcome

unfoldable pub on_endpoint_close : Bool → Client → Step
unfolding clear_handshake_timeout set_state fail_ready
on_endpoint_close remote c = clear_handshake_timeout c and_then (λ d.
    if is_closed d.state
    then (d, [])
    else let e : Client = record d { endpoint = none } in
      if e.first_ready
      then (if e.has_coordinator
          then set_state reconnecting e
            and_then outputs (disconnects remote ∷ starts_coordinator ∷ [])
          else fail_ready ErrorCode.transport_disconnected e)
      else outputs (disconnects remote ∷ []) e and_then (λ f.
        if f.has_coordinator
        then set_state reconnecting f and_then outputs (starts_coordinator ∷ [])
        else set_state closed f))

unfoldable pub handle_reconnect_failed : Client → Step
unfolding fail_ready set_state reject_call_queue reject_outbox
handle_reconnect_failed c =
    fail_ready ErrorCode.transport_disconnected c
    and_then reject_call_queue ErrorCode.transport_disconnected
    and_then set_state closed
    and_then reject_outbox ErrorCode.transport_disconnected
    and_then outputs (reconnect_fails ∷ [])

abbrev pub close_endpoint : Client → Step
close_endpoint c = elim c.endpoint [ none ↦ (c, []) | some ep ↦ (c, closes_endpoint ep false ∷ []) ]

unfoldable pub close : Client → Step
unfolding clear_handshake_timeout set_state fail_ready reject_call_queue reject_outbox
close c =
    stop_coordinator c
    and_then clear_handshake_timeout
    and_then set_state closed
    and_then close_endpoint
    and_then fail_ready ErrorCode.transport_disconnected
    and_then reject_call_queue ErrorCode.transport_disconnected
    and_then reject_outbox ErrorCode.transport_disconnected

-- onRaw, where the handler goes to the router
unfoldable pub subscribe : Text → Client → Step
subscribe name c = (record c { subscribed_events = add_text name c.subscribed_events }, [])
