-- ===== src/Core/Start.antt =====
-- Two cores at the ends of a framed link, from OPEN to the session.
use axtp_ts_runtime.Common.{
  ℕ, ◌+◌, ◌%◌, ◌^◌, ◌<◌, ◌==◌, if◌then◌else◌, List, [], ◌∷◌, none, some, ◌≡◌, ◌≢◌, ap,
}
use axtp_ts_runtime.Model.Rpc.{Text, identify, identified}
use axtp_ts_runtime.Control.Codec.{encode_open, encode_accept}
use axtp_ts_runtime.Control.Session.{
  ControlSession, SessionOutput, NegotiatedLink, to_partial, send_open, opened, closed,
  handle_control_body, on_send_bytes,
}
use axtp_ts_runtime.Control.Session as Session
use axtp_ts_runtime.Control.Session.Agreement.{CanOpen, settled, accept_params, open_agrees}
use axtp_ts_runtime.Handshake.{
  Handshake, HandshakeResult, client, server, link_connected, framing_ready, app_ready, handle,
  generate_sid, start_hello, classify_inbound, no_result,
}
use axtp_ts_runtime.Handshake as Negotiation
use axtp_ts_runtime.Handshake.Agreement.{client_hello, server_identify, client_identified}
use axtp_ts_runtime.Handshake.Sid.{generate_sid-valid}
use axtp_ts_runtime.Core.{
  Core, enqueues, sends, sets_max_frame_size, rpc, control_body, link_ready, handshake_ready,
  with_control, on_session_output, on_session_outputs, on_link_ready_internal, link_ready_at,
  send_control_open, on_control, handle_rpc, handle_as, handle_handshake, after_handshake,
}

pub with_control-some :
    (f : ControlSession → ControlSession × List SessionOutput) (c : Core)
    (session session' : ControlSession) (outputs : List SessionOutput)
    → f session ≡ (session', outputs)
    → with_control f (record c { control = some session })
      ≡ on_session_outputs outputs (record c { control = some session' })
unfolding with_control
with_control-some f c session session' outputs e =
    ap
      (λ (step : ControlSession × List SessionOutput).
        on_session_outputs step.1 (record c { control = some step.0 }))
      e

module _ (random_c random_s : ℕ → ℕ) (c s : Core) (cs ss : ControlSession) where
  abbrev link : NegotiatedLink
  link = settled cs.local_params ss.local_params

  abbrev open_body : List ℕ
  open_body = encode_open cs.next_control_id (to_partial cs.local_params)

  abbrev accept_body : List ℕ
  accept_body =
      encode_accept cs.next_control_id (to_partial (accept_params cs.local_params ss.local_params))

  abbrev seed : ℕ
  seed = (if random_c c.draws == 0 then 1 else random_c c.draws) % 2 ^ 32

  abbrev sid : Text
  sid = generate_sid seed (Negotiation.on_link_ready s.handshake)

  -- The cores, before the link is opened and after each step.
  abbrev client_0 : Core
  client_0 = record c { control = some cs; gate = link_connected; logical_role = client }

  abbrev server_0 : Core
  server_0 = record s { control = some ss; gate = link_connected; logical_role = server }

  abbrev client_1 : Core
  client_1 = record client_0 { control = some (send_open cs).0 }

  abbrev server_1 : Core
  server_1 = record server_0 {
    control = some (record ss { link_state = opened; negotiated = some link });
    gate = framing_ready;
    handshake = Negotiation.on_link_ready s.handshake;
  }

  abbrev client_2 : Core
  client_2 = record client_0 {
    control = some (record (send_open cs).0 {
      pending_open_id = none;
      link_state = opened;
      negotiated = some link;
    });
    gate = framing_ready;
    handshake = Negotiation.on_link_ready c.handshake;
  }

  abbrev client_3 : Core
  client_3 = record client_2 {
    handshake = Negotiation.on_link_ready (Negotiation.on_link_ready c.handshake);
    draws = c.draws + 1;
  }

  abbrev server_2 : Core
  server_2 = record server_1 {
    handshake = record (Negotiation.on_link_ready s.handshake) {
      event_masks = c.handshake.event_masks;
      sid = sid;
      state = app_ready;
    };
    gate = app_ready;
    draws = s.draws + 1;
  }

  abbrev client_4 : Core
  client_4 = record client_3 {
    handshake = record client_3.handshake { sid = sid; state = app_ready };
    gate = app_ready;
    draws = c.draws + 1 + 1;
  }

  -- What each end does with the body or message that the other sent, in order.
  abbrev pub Starts : Type 0
  Starts =
      (send_control_open client_0 ≡ (client_1, sends (control_body open_body) ∷ []))
      × (on_control open_body server_0 ≡ (
        server_1,
        sends (control_body accept_body)
            ∷ sets_max_frame_size link.max_frame_size
            ∷ sends (rpc start_hello)
            ∷ enqueues (link_ready link.heartbeat_interval_ms)
            ∷ [],
      ))
      × (on_control accept_body client_1 ≡ (
        client_2,
        sets_max_frame_size link.max_frame_size
            ∷ enqueues (link_ready link.heartbeat_interval_ms)
            ∷ [],
      ))
      × (handle_rpc random_c start_hello client_2
          ≡ (client_3, sends (rpc (identify [] seed c.handshake.event_masks)) ∷ []))
      × (handle_rpc random_s (identify [] seed c.handshake.event_masks) server_1
          ≡ (server_2, sends (rpc (identified sid)) ∷ enqueues (handshake_ready sid) ∷ []))
      × (handle_rpc random_c (identified sid) client_3
          ≡ (client_4, enqueues (handshake_ready sid) ∷ []))

  -- A client and a server whose sessions can open exchange the bodies and messages that they send:
  -- OPEN, ACCEPT, Hello, Identify, Identified. Both take over the same frame limit, tell their
  -- endpoints once of the link with the same heartbeat interval and once of the session with the
  -- same id, report no error, and end ready.
  -- The ids, limits and masks of the OPEN and the ACCEPT fit their fields.
  pub start_agrees :
      cs.physical_role ≡ Session.client
      → CanOpen cs.local_params
      → cs.next_control_id < 2 ^ 16
      → ss.physical_role ≡ Session.server
      → ss.link_state ≢ closed
      → ss.link_state ≢ Session.closing
      → ss.local_params.supported_payload_types < 256
      → ss.local_params.ack_mode < 256
      → c.handshake.logical_role ≡ client
      → s.handshake.logical_role ≡ server
      → Starts
  unfolding send_control_open on_control on_session_outputs on_session_output on_link_ready_internal
      link_ready_at handle_rpc handle_as handle_handshake after_handshake classify_inbound
      start_hello Negotiation.on_link_ready
  start_agrees physical_client can_open id_word physical_server not_closed not_closing types_byte
        ack_byte logical_client logical_server =
      let agreed =
        open_agrees cs ss physical_client can_open id_word physical_server not_closed not_closing
          types_byte ack_byte in
      let h_c = Negotiation.on_link_ready c.handshake in
      let h_s = Negotiation.on_link_ready s.handshake in
      (
        with_control-some send_open client_0 cs (send_open cs).0 _
            (ap (λ l. ((send_open cs).0, l)) agreed.0),
        with_control-some (handle_control_body open_body) server_0 ss _ _ agreed.1,
        with_control-some (handle_control_body accept_body) client_1 (send_open cs).0 _ _ agreed.2,
        ap (after_handshake client_2) (client_hello (random_c c.draws) h_c logical_client),
        ap (after_handshake server_1)
            (server_identify (random_s s.draws) seed c.handshake.event_masks h_s logical_server),
        ap (after_handshake client_3) (
            client_identified (random_c (c.draws + 1)) sid (Negotiation.on_link_ready h_c)
              logical_client (generate_sid-valid seed h_s)),
      )
