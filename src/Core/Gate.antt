-- ===== src/Core/Gate.antt =====
-- What reaches the endpoint: no request, event, stream or response but those of a ready session.
pub mod Trace
pub mod Inbound
pub mod Safety
use axtp_ts_runtime.Common.{ℕ, List, [], ◌∷◌, ◌++◌, map, Option, none, some, ◌≡◌, ◌≢◌}
use axtp_ts_runtime.Model.Rpc.{Text, RpcMessage}
use axtp_ts_runtime.StreamCodec.{StreamPayload}
use axtp_ts_runtime.JsonRpc.{Value}
use axtp_ts_runtime.Pending.{on_timeout, Settled, resolves}
use axtp_ts_runtime.Core.{
  Core, CoreOutput, enqueues, sends, settles, rpc_request, rpc_event, stream_data, handshake_ready,
  error, sid_of, on_control, handle_rpc, handle_stream, mark_link_ready, call, emit, send_rpc,
  send_stream, send_control_open, send_close, send_heartbeat, reject_all_pending, with_pending,
}

-- All that can happen to a core: what its wire sink is called with, the calls of the endpoint, and
-- the timers of the pending calls.
pub data CoreInput : Type 0 where
  receives_control : List ℕ → CoreInput
  receives_rpc : RpcMessage Value → CoreInput
  receives_stream : StreamPayload → CoreInput
  receives_error : ℕ → CoreInput
  marks_link_ready : CoreInput
  calls : Text → Value → CoreInput
  emits : Text → Value → CoreInput
  sends_rpc : RpcMessage Value → CoreInput
  sends_stream : StreamPayload → CoreInput
  opens_control : CoreInput
  closes_control : CoreInput
  beats : CoreInput
  rejects_pending : ℕ → CoreInput
  times_out : ℕ → CoreInput

module _ (random : ℕ → ℕ) where
  unfoldable pub core_step : CoreInput → Core → Core × List CoreOutput
  core_step (receives_control body) c = on_control body c
  core_step (receives_rpc msg) c = handle_rpc random msg c
  core_step (receives_stream msg) c = handle_stream msg c
  core_step (receives_error code) c = (c, enqueues (error code) ∷ [])
  core_step marks_link_ready c = mark_link_ready c
  core_step (calls method params) c = call method params c
  core_step (emits name payload) c = emit name payload c
  core_step (sends_rpc msg) c = send_rpc msg c
  core_step (sends_stream msg) c = send_stream msg c
  core_step opens_control c = send_control_open c
  core_step closes_control c = send_close c
  core_step beats c = send_heartbeat c
  core_step (rejects_pending code) c = reject_all_pending code c
  core_step (times_out promise) c = with_pending c (on_timeout promise c.pending)

  unfoldable pub core_run : List CoreInput → Core → Core × List CoreOutput
  unfolding core_step
  core_run [] c = (c, [])
  core_run (input ∷ rest) c =
      let (c', outputs) = core_step input c in
      let (c'', more) = core_run rest c' in (c'', outputs ++ more)

-- The session id that the endpoint was last told.
abbrev pub told : Option Text → CoreOutput → Option Text
told sid (enqueues (handshake_ready new)) = some new
told sid _ = sid

-- An output that the endpoint may get, when it was told this session id.
abbrev pub IsAllowed : Option Text → CoreOutput → Type 0
IsAllowed sid (enqueues (rpc_request msg)) = sid ≡ some (sid_of msg)
IsAllowed sid (enqueues (rpc_event msg)) = sid ≡ some (sid_of msg)
IsAllowed sid (enqueues (stream_data msg)) = sid ≢ none
IsAllowed sid (settles (resolves promise msg)) = sid ≡ some (sid_of msg)
IsAllowed sid _ = Unit {0}

abbrev pub AreAllowed : Option Text → List CoreOutput → Type 0
AreAllowed sid [] = Unit {0}
AreAllowed sid (output ∷ rest) = IsAllowed sid output × AreAllowed (told sid output) rest
