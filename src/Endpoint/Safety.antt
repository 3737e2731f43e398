-- ===== src/Endpoint/Safety.antt =====
-- Every input keeps the account of an endpoint's lifecycle.
use axtp_ts_runtime.Common.{
  ℕ, ◌+◌, ◌≤◌, List, [], ◌∷◌, ◌++◌, map, Bool, true, false, not, ◌&&◌, ◌≡◌, refl, sym, ap, ◌∙◌,
  arith,
}
use axtp_ts_runtime.Model.Rpc.{
  Text, RpcMessage, hello, identify, identified, reidentify, event, request, response,
}
use axtp_ts_runtime.JsonRpc.{Value}
use axtp_ts_runtime.Core.{
  Core, CoreEvent, CoreOutput, rpc_request, rpc_event, stream_data, link_ready, link_open_rejected,
  link_closing, handshake_ready, handshake_error, heartbeat_ack, error,
}
use axtp_ts_runtime.Core as Core
use axtp_ts_runtime.Core.Gate.{core_step}
use axtp_ts_runtime.Broker.{BasicBroker, GlobalHandlerSource, BrokerOutput, settle_task}
use axtp_ts_runtime.Profile.{supports_stream}
use axtp_ts_runtime.StreamManager.{new_stream_data}
use axtp_ts_runtime.StreamManager.Calls.{StreamCall, stream_call}
use axtp_ts_runtime.StreamManager.Growth.{stream_call-count}
use axtp_ts_runtime.Endpoint.{
  Endpoint, idle, EndpointOutput, stream_output, emits_error, emits_handshake_error, is_closed,
  is_ready, on_streams, broker_output, on_broker, on_streams, close, start_heartbeat,
  reset_heartbeat, require_ready, dispatch_message, take_event, on_core_event,
}
use axtp_ts_runtime.Endpoint.Lifecycle.{
  EndpointInput, starts, gets, feeds, closes, calls, emits, settles, ticks, times_out,
  keepalive_acks, opens_stream, streams_go_on, open_stream, late, late_openings, rank, plain-counts,
  endpoint_step, endpoint_run, readies, closings, IsReleased, one_if, IsStep, if-IsStep,
  same-IsStep, open-IsStep,
}
use axtp_ts_runtime.Endpoint.Steps.{
  close-IsStep, closings-append, of_broker-IsPlain, stream_output-IsPlain, on_core-IsStep,
  plain-IsStep, prefix-IsStep, rank_small, rank_zero, readies-append, ready_call-IsStep, required,
  start-IsStep, tick_fires-IsStep, timeout_fires-IsStep,
}

module _ (random : ℕ → ℕ) (source : GlobalHandlerSource) (known_method known_event : Text → Bool)
    (throwing : ℕ → Bool) where
  on_broker-IsStep :
      (e : Endpoint) (step : BasicBroker × List BrokerOutput)
      → is_closed e.lifecycle ≡ false
      → IsStep e (on_broker e step)
  on_broker-IsStep e (broker, xs) going =
      open-IsStep e (record e { broker = broker }) (map broker_output xs) going refl
        (of_broker-IsPlain xs)

  dispatch_message-IsStep :
      (msg : RpcMessage Value) (e : Endpoint)
      → is_closed e.lifecycle ≡ false
      → IsStep e (dispatch_message random source known_method known_event throwing msg e)
  unfolding dispatch_message
  dispatch_message-IsStep (request sid id method params) e going = on_broker-IsStep e _ going
  dispatch_message-IsStep (event sid name value) e going = on_broker-IsStep e _ going
  dispatch_message-IsStep (hello sid version) e going = same-IsStep e
  dispatch_message-IsStep (identify sid seed masks) e going = same-IsStep e
  dispatch_message-IsStep (identified sid) e going = same-IsStep e
  dispatch_message-IsStep (reidentify sid masks) e going = same-IsStep e
  dispatch_message-IsStep (response sid id status result) e going = same-IsStep e

  take_event-IsStep :
      (ev : CoreEvent) (now : ℕ) (e : Endpoint)
      → is_closed e.lifecycle ≡ false
      → IsStep e (take_event random source known_method known_event throwing ev now e)
  unfolding take_event start_heartbeat
  take_event-IsStep (link_ready interval_ms) now e going =
      open-IsStep e (start_heartbeat interval_ms now e) [] going refl tt
  take_event-IsStep (handshake_ready sid) now e going =
      if-IsStep (is_ready e.lifecycle) e _ _ (λ again. same-IsStep e)
        (λ fresh. record {
          closes_once = omega (arith, ap one_if going);
          readies_once = omega (arith, rank_zero e.lifecycle fresh going);
          released = λ n h gone. absurd (cc gone);
        })
  take_event-IsStep (rpc_request msg) now e going = dispatch_message-IsStep msg e going
  take_event-IsStep (rpc_event msg) now e going = dispatch_message-IsStep msg e going
  take_event-IsStep (stream_data msg) now e going =
      open-IsStep e (record e { streams = (new_stream_data msg e.streams).0 })
        (map stream_output (new_stream_data msg e.streams).1) going refl
        (stream_output-IsPlain (new_stream_data msg e.streams).1)
  take_event-IsStep (link_open_rejected code) now e going = close-IsStep true false e
  take_event-IsStep link_closing now e going = close-IsStep true false e
  take_event-IsStep (handshake_error code) now e going =
      let step = close false true e in
      prefix-IsStep e (emits_handshake_error code) (step.0, emits_error code ∷ step.1) (refl, refl)
        (prefix-IsStep e (emits_error code) step (refl, refl) (close-IsStep false true e))
  take_event-IsStep (error code) now e going =
      open-IsStep e e (emits_error code ∷ []) going refl ((refl, refl), tt)
  take_event-IsStep heartbeat_ack now e going =
      open-IsStep e (record e { heartbeat = reset_heartbeat now e.heartbeat }) [] going refl tt

  on_core_event-IsStep :
      (ev : CoreEvent) (now : ℕ) (e : Endpoint)
      → IsStep e (on_core_event random source known_method known_event throwing ev now e)
  unfolding on_core_event
  on_core_event-IsStep ev now e =
      if-IsStep (is_closed e.lifecycle) e _ _ (λ gone. same-IsStep e)
        (λ going. take_event-IsStep ev now e going)

  open_stream-IsStep :
      (method : Text) (params : Value) (e : Endpoint) → IsStep e (open_stream method params e)
  unfolding open_stream
  open_stream-IsStep method params e =
      if-IsStep (is_ready e.lifecycle && not (supports_stream e.profile)) e _ _
        (λ unframed. same-IsStep e)
        (λ framed.
          ready_call-IsStep (require_ready e.lifecycle) (Core.call method params) e
            (required e.lifecycle))

  -- A part of a run that opens `k` streams on the closed endpoint.
  record IsPart (k : ℕ) (e : Endpoint) (part : Endpoint × List EndpointOutput) : Type 0 where
    closes_once :
        closings part.1 + one_if (is_closed e.lifecycle) ≡ one_if (is_closed part.0.lifecycle)
    readies_once : readies part.1 + rank e.lifecycle ≤ rank part.0.lifecycle
    released : (n : ℕ) → IsReleased n e → IsReleased (n + k) part.0

  streams_go_on-IsPart :
      (call : StreamCall) (e : Endpoint)
      → IsPart
          (late random source known_method known_event throwing (streams_go_on call) e)
          e
          (on_streams e (stream_call call e.streams))
  streams_go_on-IsPart call e =
      let counts = plain-counts _ (stream_output-IsPlain (stream_call call e.streams).1) in
      record {
        closes_once = omega (arith, counts.1);
        readies_once = omega (arith, counts.0);
        released = λ n kept gone.
            let is_late : is_closed e.lifecycle ≡ true = ap is_closed gone in
            let left = kept gone in
            (left.0, left.1, rw is_late (omega (arith, left.2, stream_call-count call e.streams)));
      }

  step-IsPart :
      (e : Endpoint) (step : Endpoint × List EndpointOutput) → IsStep e step → IsPart 0 e step
  step-IsPart e step h = record {
    closes_once = h.closes_once;
    readies_once = h.readies_once;
    released =
        λ n kept gone. let left = h.released n kept gone in (left.0, left.1, omega (arith, left.2));
  }

  endpoint_step-IsPart :
      (input : EndpointInput) (e : Endpoint)
      → IsPart
          (late random source known_method known_event throwing input e)
          e
          (endpoint_step random source known_method known_event throwing input e)
  unfolding endpoint_step
  endpoint_step-IsPart starts e = step-IsPart e _ (start-IsStep e)
  endpoint_step-IsPart (gets ev now) e = step-IsPart e _ (on_core_event-IsStep ev now e)
  endpoint_step-IsPart (feeds input) e = step-IsPart e _ (
      if-IsStep (is_closed e.lifecycle) e _ _ (λ gone. same-IsStep e)
        (on_core-IsStep e (core_step random input e.core)))
  endpoint_step-IsPart (closes remote terminate) e =
      step-IsPart e _ (close-IsStep remote terminate e)
  endpoint_step-IsPart (calls method params) e = step-IsPart e _ (
      ready_call-IsStep (require_ready e.lifecycle) (Core.call method params) e
        (required e.lifecycle))
  endpoint_step-IsPart (emits name payload) e = step-IsPart e _ (
      ready_call-IsStep (require_ready e.lifecycle) (Core.emit name payload) e
        (required e.lifecycle))
  endpoint_step-IsPart (settles i outcome) e = step-IsPart e _ (
      let done = settle_task source known_method known_event i outcome e.broker in
      if-IsStep (is_closed e.lifecycle) e (record e { broker = done.0 }, []) (on_broker e done)
        (λ gone. plain-IsStep e (record e { broker = done.0 }) [] refl (λ n kept. kept) tt)
        (on_broker-IsStep e done))
  endpoint_step-IsPart (ticks now) e = step-IsPart e _ (tick_fires-IsStep e.heartbeat now e refl)
  endpoint_step-IsPart times_out e = step-IsPart e _ (timeout_fires-IsStep e.heartbeat e)
  endpoint_step-IsPart (keepalive_acks now) e = step-IsPart e _ (
      plain-IsStep e (record e { heartbeat = reset_heartbeat now e.heartbeat }) [] refl
        (λ n kept gone. (ap (reset_heartbeat now) (kept gone).0, (kept gone).1, (kept gone).2)) tt)
  endpoint_step-IsPart (opens_stream method params) e =
      step-IsPart e _ (open_stream-IsStep method params e)
  endpoint_step-IsPart (streams_go_on call) e = streams_go_on-IsPart call e

  then-IsPart :
      (k l : ℕ) (e e' : Endpoint) (xs : List EndpointOutput) (more : Endpoint × List EndpointOutput)
      → IsPart k e (e', xs)
      → IsPart l e' more
      → IsPart (k + l) e (more.0, xs ++ more.1)
  then-IsPart k l e e' xs more h i = record {
    closes_once = omega (arith, closings-append xs more.1, h.closes_once, i.closes_once);
    readies_once = omega (arith, readies-append xs more.1, h.readies_once, i.readies_once);
    released = λ n kept gone.
        let left = i.released (n + k) (h.released n kept) gone in
        (left.0, left.1, omega (arith, left.2));
  }

  run-IsPart :
      (inputs : List EndpointInput) (e : Endpoint)
      → IsPart
          (late_openings random source known_method known_event throwing inputs e)
          e
          (endpoint_run random source known_method known_event throwing inputs e)
  unfolding endpoint_run
  run-IsPart [] e = step-IsPart e (e, []) (same-IsStep e)
  run-IsPart (input ∷ rest) e =
      let step = endpoint_step random source known_method known_event throwing input e in
      then-IsPart _ _ e step.0 step.1 _ (endpoint_step-IsPart input e) (run-IsPart rest step.0)

  -- An idle endpoint, whatever happens to it and in whatever order: it tells that it is ready at most
  -- once; it tells that it closes once if it is closed afterwards, and else not; and when it is closed
  -- it has no heartbeat, no pending call, and at most as many streams as calls of openStream have
  -- returned, and handlers of onStream have started, after it was closed.
  pub endpoint_run-IsReleased :
      (inputs : List EndpointInput) (e : Endpoint)
      → e.lifecycle ≡ idle
      → let (e', outputs) = endpoint_run random source known_method known_event throwing inputs e in
        (readies outputs ≤ 1)
        × (closings outputs ≡ one_if (is_closed e'.lifecycle))
        × IsReleased (late_openings random source known_method known_event throwing inputs e) e'
  endpoint_run-IsReleased inputs e fresh =
      let part = run-IsPart inputs e in
      let after = endpoint_run random source known_method known_event throwing inputs e in
      (
        omega (arith, part.readies_once, rank_small after.0.lifecycle),
        omega (arith, part.closes_once, ap (λ l. one_if (is_closed l)) fresh),
        λ gone.
            let left = part.released 0 (λ was. absurd (cc (sym fresh ∙ was))) gone in
            (left.0, left.1, omega (arith, left.2)),
      )
