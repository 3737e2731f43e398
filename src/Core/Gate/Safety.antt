-- ===== src/Core/Gate/Safety.antt =====
-- Every input keeps the link between the gate and what the endpoint was told.
use axtp_ts_runtime.Common.{
  ℕ, List, [], ◌∷◌, Option, none, true, ◌≡◌, refl, inl, inr, Bool-cases, Option-cases,
}
use axtp_ts_runtime.Model.Rpc.{Text, RpcMessage}
use axtp_ts_runtime.StreamCodec.{StreamPayload}
use axtp_ts_runtime.JsonRpc.{Value}
use axtp_ts_runtime.Control.Session.{
  SessionOutput, on_link_ready, on_open_rejected, on_send_bytes, on_heartbeat, on_heartbeat_ack,
  on_closing, on_error, ControlSession,
}
use axtp_ts_runtime.Handshake.{
  GateState, link_connected, framing_ready, app_ready, closing, handle, classify_inbound, handshake,
  business, respond_open_required, drops, InboundDisposition,
}
use axtp_ts_runtime.Handshake.Sid.{classify_business}
use axtp_ts_runtime.Pending.{PendingCalls, Settled, resolves, rejects}
use axtp_ts_runtime.Pending as Pending
use axtp_ts_runtime.Core.{
  Core, is_app_ready, CoreOptions, on_link_ready_internal, handle_handshake, handle_as, new_core,
  handle_stream, handle_rpc, on_control, send_control_open, send_close, send_heartbeat,
  mark_link_ready, call, emit, send_stream, reject_all_pending,
}
use axtp_ts_runtime.Control.Session as Session
use axtp_ts_runtime.Core.Gate.{
  CoreInput, receives_control, receives_rpc, receives_stream, receives_error, marks_link_ready,
  calls, emits, sends_rpc, sends_stream, opens_control, closes_control, beats, rejects_pending,
  times_out, core_step, core_run, AreAllowed,
}
use axtp_ts_runtime.Core.Gate.Trace.{
  Knows, Keeps, Keeps-then, link_ready_at-Keeps, with_control-Keeps,
}
use axtp_ts_runtime.Core.Gate.Inbound.{
  handle-KeepsSid, after_handshake-Keeps, with_pending-Keeps, reject_all-Allowed,
  on_timeout-Allowed, dispatch_business-Keeps, open_required-Keeps,
}

is_app_ready→eq : (gate : GateState) → is_app_ready gate ≡ true → gate ≡ app_ready
is_app_ready→eq app_ready h = refl
is_app_ready→eq link_connected h = absurd (cc h)
is_app_ready→eq framing_ready h = absurd (cc h)
is_app_ready→eq closing h = absurd (cc h)

module _ (random : ℕ → ℕ) where
  handle_as-Keeps :
      (sid : Option Text) (d : InboundDisposition) (msg : RpcMessage Value) (c : Core)
      → (d ≡ business → c.gate ≡ app_ready)
      → Knows sid c
      → Keeps sid (handle_as random d msg c)
  unfolding handle_as handle_handshake
  handle_as-Keeps sid handshake msg c ready k =
      let done = handle (random c.draws) msg c.handshake in
      after_handshake-Keeps sid c done.0 done.1.outbound done.1.became_ready done.1.error
        (handle-KeepsSid (random c.draws) msg c.handshake) k
  handle_as-Keeps sid business msg c ready k = dispatch_business-Keeps sid msg c (ready refl) k
  handle_as-Keeps sid respond_open_required msg c ready k = open_required-Keeps sid msg c k
  handle_as-Keeps sid drops msg c ready k = (tt, k)

  handle_rpc-Keeps :
      (sid : Option Text) (msg : RpcMessage Value) (c : Core)
      → Knows sid c
      → Keeps sid (handle_rpc random msg c)
  unfolding handle_rpc
  handle_rpc-Keeps sid msg c k =
      handle_as-Keeps sid (classify_inbound c.gate msg) msg c (classify_business c.gate msg) k

  handle_stream-Keeps :
      (sid : Option Text) (msg : StreamPayload) (c : Core)
      → Knows sid c
      → Keeps sid (handle_stream msg c)
  unfolding handle_stream
  handle_stream-Keeps sid msg c k = elim (Bool-cases (is_app_ready c.gate)) [
    | inr shut ↦ rw (shut, handle_stream) (tt, k)
    | inl opened ↦
        rw (opened, handle_stream)
          ((λ e. absurd (cc (e, k (is_app_ready→eq c.gate opened))), tt), k)
  ]

  mark_link_ready-Keeps :
      (sid : Option Text) (c : Core) → Knows sid c → Keeps sid (mark_link_ready c)
  unfolding mark_link_ready on_link_ready_internal
  mark_link_ready-Keeps sid c k = elim (Option-cases c.control) [
    | inr (session, e) ↦ rw (e, mark_link_ready) (tt, k)
    | inl e ↦
        rw (e, mark_link_ready) (link_ready_at-Keeps sid c.gate none c.heartbeat_interval_ms c k)
  ]

  send_heartbeat-Keeps : (sid : Option Text) (c : Core) → Knows sid c → Keeps sid (send_heartbeat c)
  unfolding send_heartbeat
  send_heartbeat-Keeps sid c k = elim (Option-cases c.control) [
    | inl e ↦ rw (e, send_heartbeat) (tt, k)
    | inr (session, e) ↦ rw (e, send_heartbeat) ((tt, tt), k)
  ]

  core_step-Keeps :
      (sid : Option Text) (input : CoreInput) (c : Core)
      → Knows sid c
      → Keeps sid (core_step random input c)
  unfolding core_step on_control send_control_open send_close Pending.request call emit send_stream
      reject_all_pending
  core_step-Keeps sid (receives_control body) c k =
      with_control-Keeps sid (Session.handle_control_body body) c k
  core_step-Keeps sid (receives_rpc msg) c k = handle_rpc-Keeps sid msg c k
  core_step-Keeps sid (receives_stream msg) c k = handle_stream-Keeps sid msg c k
  core_step-Keeps sid (receives_error code) c k = ((tt, tt), k)
  core_step-Keeps sid marks_link_ready c k = mark_link_ready-Keeps sid c k
  core_step-Keeps sid (calls method params) c k = ((tt, tt), k)
  core_step-Keeps sid (emits name payload) c k = ((tt, tt), k)
  core_step-Keeps sid (sends_rpc msg) c k = ((tt, tt), k)
  core_step-Keeps sid (sends_stream msg) c k = ((tt, tt), k)
  core_step-Keeps sid opens_control c k = with_control-Keeps sid Session.send_open c k
  core_step-Keeps sid closes_control c k = with_control-Keeps sid Session.send_close c k
  core_step-Keeps sid beats c k = send_heartbeat-Keeps sid c k
  core_step-Keeps sid (rejects_pending code) c k =
      with_pending-Keeps sid c (Pending.reject_all code c.pending)
        (reject_all-Allowed sid code c.pending) k
  core_step-Keeps sid (times_out promise) c k =
      with_pending-Keeps sid c (Pending.on_timeout promise c.pending)
        (on_timeout-Allowed sid promise c.pending) k

  core_run-Keeps :
      (inputs : List CoreInput) (sid : Option Text) (c : Core)
      → Knows sid c
      → Keeps sid (core_run random inputs c)
  unfolding core_run
  core_run-Keeps [] sid c k = (tt, k)
  core_run-Keeps (input ∷ rest) sid c k =
      let one = core_step-Keeps sid input c k in
      let c' = (core_step random input c).0 in
      Keeps-then sid (core_step random input c).1 (core_run random rest c') one.0
        (core_run-Keeps rest _ c' one.1)

  -- Whatever a new core is fed and asked for: every request, event and stream that it hands to the
  -- endpoint, and every response that settles a call, comes after the endpoint was told of a ready
  -- session; the request, the event and the response carry the id of the session it was told last.
  pub core_run-AreAllowed :
      (opts : CoreOptions) (inputs : List CoreInput)
      → AreAllowed none (core_run random inputs (new_core opts)).1
  unfolding new_core
  core_run-AreAllowed opts inputs =
      (core_run-Keeps inputs none (new_core opts) (λ ready. absurd (cc ready))).0
