-- ===== src/Tests/Endpoints.antt =====
-- The endpoint of endpoint/endpoint.ts at concrete inputs.
use axtp_ts_runtime.Common.{◌≤◌, List, [], ◌∷◌, none, some, Bool, true, false, length, ◌≡◌, refl}
use axtp_ts_runtime.Model.Rpc.{Text}
use axtp_ts_runtime.Control.Session as Session
use axtp_ts_runtime.Handshake as Handshake
use axtp_ts_runtime.Broker.{no_source}
use axtp_ts_runtime.Profile.{supports_control, unframed_json_profile}
use axtp_ts_runtime.Core.{link_ready, handshake_ready, link_closing}
use axtp_ts_runtime.Endpoint.{
  Endpoint, closed, new_endpoint, is_closed, start, close, on_core_event,
}
use axtp_ts_runtime.Endpoint.Lifecycle.{
  EndpointInput, starts, gets, closes, times_out, streams_go_on, late_openings, endpoint_step,
  endpoint_run, readies, closings, IsReleased, one_if,
}
use axtp_ts_runtime.StreamManager.{object}
use axtp_ts_runtime.StreamManager.Calls.{open_returns, stream_call}
use axtp_ts_runtime.Endpoint.Safety.{endpoint_run-IsReleased}

abbrev fresh : Endpoint
fresh =
    new_endpoint
      (record {
        profile = unframed_json_profile none;
        physical_role = Session.server;
        logical_role = Handshake.server;
        max_frame_size = 4096;
        heartbeat_interval_ms = 1000;
        handshake_seed = 7;
        event_masks = none;
      })
      true true

abbrev nothing_known : Text → Bool
nothing_known name = false

-- The link and the session come up, the session is told of twice, the peer closes, the timer of the
-- heartbeat fires too late, and so does a call of openStream return.
abbrev inputs : List EndpointInput
inputs =
    starts
    ∷ gets (link_ready 1000) 5
    ∷ gets (handshake_ready []) 6
    ∷ gets (handshake_ready []) 7
    ∷ gets link_closing 8
    ∷ times_out
    ∷ closes false false
    ∷ streams_go_on (open_returns (object (some 3)))
    ∷ []

endpoint_run-IsReleased_example :
    let (e', outputs) =
      endpoint_run (λ n. 1) no_source nothing_known nothing_known (λ h. false) inputs fresh in
    (readies outputs ≤ 1)
    × (closings outputs ≡ one_if (is_closed e'.lifecycle))
    × IsReleased
        (late_openings (λ n. 1) no_source nothing_known nothing_known (λ h. false) inputs fresh)
        e'
unfolding new_endpoint
endpoint_run-IsReleased_example =
    endpoint_run-IsReleased (λ n. 1) no_source nothing_known nothing_known (λ h. false) inputs fresh
      refl

-- The stream of that call stays in the table of the endpoint that is closed.
stream_stays :
    let e =
      (endpoint_run (λ n. 1) no_source nothing_known nothing_known (λ h. false) inputs fresh).0 in
    (e.lifecycle ≡ closed) × (length e.streams.registry.streams ≡ 1)
unfolding endpoint_run endpoint_step close on_core_event start new_endpoint supports_control
    unframed_json_profile stream_call
stream_stays = (refl, refl)
