-- ===== src/Client/Runs.antt =====
-- src/sdk/client.ts: what calls a client, and runs of such calls.
use axtp_ts_runtime.Common.{ℕ, List, [], ◌∷◌, ◌++◌, Option, Bool, if◌then◌else◌}
use axtp_ts_runtime.Model.Rpc.{Text}
use axtp_ts_runtime.JsonRpc.{Value}
use axtp_ts_runtime.Client.State.{CallOptions, ClientOptions, QueuedEvent, Client, reports, Step}
use axtp_ts_runtime.Client.Events.{EmitOutcome, emit_raw, outputs}
use axtp_ts_runtime.Client.Calls.{CallOutcome, settle_call, call_raw}
use axtp_ts_runtime.Client.Connection.{
  connect, resume_connect, connect_times_out, spawn_endpoint, open_fails, handshake_times_out,
  on_fatal_handshake_error, on_endpoint_ready, on_endpoint_close, handle_reconnect_failed, close,
  subscribe, is_endpoint,
}

-- A promise of the caller is a number that the caller picks.
pub data ClientInput : Type 0 where
  connects_now : ClientInput
  connect_goes_on : ClientInput
  connect_timer : ClientInput
  -- the transport's connect, by the client or by its coordinator
  transport_opens : ClientInput
  transport_fails : Option ℕ → ClientInput
  coordinator_gives_up : ClientInput
  coordinator_reports : ℕ → ClientInput
  endpoint_ready : ℕ → ClientInput
  endpoint_closes : Bool → ClientInput
  endpoint_reports : ℕ → ClientInput
  -- the endpoint, with the code
  handshake_fails : ℕ → ℕ → ClientInput
  -- the endpoint, and whether it is ready
  handshake_timer_fires : ℕ → Bool → ClientInput
  -- method, params, options and promise
  calls : Text → Value → CallOptions → ℕ → ClientInput
  call_settles : CallOutcome → ClientInput
  emits : QueuedEvent → ClientInput
  subscribes : Text → ClientInput
  closes : ClientInput

-- An input, and what `emit` of the current endpoint does meanwhile.
pub record Moment : Type 0 where
  pub input : ClientInput
  pub emit_outcome : Text → Value → EmitOutcome

module _ (opts : ClientOptions) where
  unfoldable pub client_input : (Text → Value → EmitOutcome) → ClientInput → Client → Step
  unfolding connect resume_connect connect_times_out spawn_endpoint open_fails
      handle_reconnect_failed on_endpoint_ready on_endpoint_close on_fatal_handshake_error
      handshake_times_out call_raw settle_call emit_raw subscribe close
  client_input emit_outcome connects_now c = connect opts c
  client_input emit_outcome connect_goes_on c = resume_connect emit_outcome c
  client_input emit_outcome connect_timer c = connect_times_out c
  client_input emit_outcome transport_opens c = spawn_endpoint opts c
  client_input emit_outcome (transport_fails code) c = open_fails opts code c
  client_input emit_outcome coordinator_gives_up c = handle_reconnect_failed c
  client_input emit_outcome (coordinator_reports code) c = outputs (reports code ∷ []) c
  client_input emit_outcome (endpoint_ready attempts) c = on_endpoint_ready emit_outcome attempts c
  client_input emit_outcome (endpoint_closes remote) c = on_endpoint_close remote c
  client_input emit_outcome (endpoint_reports code) c = outputs (reports code ∷ []) c
  client_input emit_outcome (handshake_fails ep code) c = on_fatal_handshake_error ep code c
  client_input emit_outcome (handshake_timer_fires ep is_ready) c =
      if is_endpoint ep c.handshake_timer then handshake_times_out ep is_ready c else (c, [])
  client_input emit_outcome (calls method params options promise) c =
      call_raw opts options method params promise c
  client_input emit_outcome (call_settles outcome) c = settle_call outcome c
  client_input emit_outcome (emits item) c = emit_raw opts emit_outcome item c
  client_input emit_outcome (subscribes name) c = subscribe name c
  client_input emit_outcome closes c = close c

  unfoldable pub client_run : List Moment → Client → Step
  unfolding client_input
  client_run [] c = (c, [])
  client_run (m ∷ rest) c =
      let step = client_input m.emit_outcome m.input c in
      let more = client_run rest step.0 in (more.0, step.1 ++ more.1)
