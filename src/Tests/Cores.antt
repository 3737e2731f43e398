-- ===== src/Tests/Cores.antt =====
-- The core of core/core.ts at concrete inputs.
use axtp_ts_runtime.Common.{List, [], ◌∷◌, none, some, ◌≡◌, refl, arith}
use axtp_ts_runtime.Model.Rpc.{identify, identified, reidentify, request, response}
use axtp_ts_runtime.Control.Codec.{clamp_heartbeat_interval, encode_open, encode_accept}
use axtp_ts_runtime.Control.Session.{ControlSession, default_open_params, new_session, to_partial}
use axtp_ts_runtime.Control.Session as Session
use axtp_ts_runtime.Control.Session.Agreement.{CanOpen, accept_params}
use axtp_ts_runtime.JsonRpc.{Value}
use axtp_ts_runtime.Handshake.{
  Handshake, client, server, link_connected, app_ready, new_handshake, handle,
}
use axtp_ts_runtime.Pending.{resolves}
use axtp_ts_runtime.Profile.{framed_binary_profile}
use axtp_ts_runtime.Core.{
  Core, CoreOptions, new_core, settles, sends, control_body, call, handle_rpc, on_control,
}
use axtp_ts_runtime.Core.Gate.{CoreInput, receives_rpc, calls, core_run, AreAllowed}
use axtp_ts_runtime.Core.Gate.Safety.{core_run-AreAllowed}
use axtp_ts_runtime.Core.Start.{Starts, start_agrees}
use axtp_ts_runtime.Core.Calls.{call-response, reidentify_dropped, identify_before_open}

abbrev server_options : CoreOptions
server_options = record {
  profile = framed_binary_profile none;
  physical_role = Session.server;
  logical_role = server;
  max_frame_size = 4096;
  heartbeat_interval_ms = 1000;
  handshake_seed = 7;
  event_masks = none;
}

-- A request before the session, the handshake, and a request of another session.
abbrev inputs : List CoreInput
inputs =
    receives_rpc (request [] 1 [] none)
    ∷ receives_rpc (identify [] 1 none)
    ∷ calls [] none
    ∷ receives_rpc (request [] 1 [] none)
    ∷ []

core_run-AreAllowed_example : AreAllowed none (core_run (λ n. 1) inputs (new_core server_options)).1
core_run-AreAllowed_example = core_run-AreAllowed (λ n. 1) server_options inputs

abbrev server_core : Core
server_core = new_core server_options

abbrev client_handshake : Handshake
client_handshake = new_handshake client 5 (some (b'f' ∷ []))

abbrev client_core : Core
client_core = record server_core { handshake = client_handshake }

call-response_example :
    let c₁ = (call [] none (record client_core { gate = app_ready })).0 in
    let msg = response client_core.handshake.sid client_core.pending.next_request_id 0 none in
    let step = handle_rpc (λ n. 1) msg c₁ in
    (step.1 ≡ settles (resolves client_core.pending.promises msg) ∷ [])
    × (handle_rpc (λ n. 1) msg step.0 ≡ (step.0, []))
call-response_example = call-response (λ n. 1) client_core [] none 0 none

abbrev client_session : ControlSession
client_session = new_session Session.client (default_open_params 1024 2000)

abbrev server_session : ControlSession
server_session = new_session Session.server (default_open_params 4096 1000)

client_session-CanOpen : CanOpen client_session.local_params
unfolding default_open_params clamp_heartbeat_interval
client_session-CanOpen = record {
  frame_min = omega arith;
  frame_word = omega arith;
  types_byte = omega arith;
  encodings = 1;
  encodings_there = refl;
  encodings_byte = omega arith;
  encodings_json = refl;
  heartbeat_word = omega arith;
  ack_byte = omega arith;
  selected_fits = tt;
}

start_agrees_example :
    Starts (λ n. 3) (λ n. 4) client_core server_core client_session server_session
start_agrees_example =
    start_agrees (λ n. 3) (λ n. 4) client_core server_core client_session server_session refl
      client_session-CanOpen (omega arith) refl (λ e. cc e) (λ e. cc e)
      (unfold default_open_params in omega arith) (unfold default_open_params in omega arith)
      (unfold new_core in refl) (unfold new_core in refl)

-- A server with a session.
abbrev ready_server : Core
ready_server = record server_core {
  handshake = record (new_handshake server 7 none) { state = app_ready; sid = b'a' ∷ [] };
}

reidentify_dropped_example :
    let msg = reidentify (b'a' ∷ []) (some []) in
    let asked = handle {J = Value} 1 msg ready_server.handshake in
    (handle_rpc (λ n. 1) msg (record ready_server { gate = app_ready })
      ≡ (record ready_server { gate = app_ready }, []))
    × (asked.0.event_masks ≡ some [])
    × (asked.1.outbound ≡ some (identified (b'a' ∷ [])))
reidentify_dropped_example = reidentify_dropped (λ n. 1) ready_server (some []) refl refl

identify_before_open_example :
    let c₀ = record server_core { control = some server_session; gate = link_connected } in
    let c₁ = (handle_rpc (λ n. 1) (identify [] 9 none) c₀).0 in
    let opening =
      encode_open client_session.next_control_id (to_partial client_session.local_params) in
    let reply =
      encode_accept client_session.next_control_id
        (to_partial (accept_params client_session.local_params server_session.local_params)) in
    (c₁.gate ≡ app_ready) × ((on_control opening c₁).1 ≡ sends (control_body reply) ∷ [])
identify_before_open_example =
    identify_before_open (λ n. 1) server_core server_session client_session 9 none refl
      client_session-CanOpen (omega arith) refl (λ e. cc e) (λ e. cc e)
      (unfold default_open_params in omega arith) (unfold default_open_params in omega arith)
      (unfold new_core in refl)
