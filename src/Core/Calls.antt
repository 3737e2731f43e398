-- ===== src/Core/Calls.antt =====
-- A call and its response, and handshake messages that come out of turn.
use axtp_ts_runtime.Common.{
  ℕ, ◌^◌, ◌<◌, List, [], ◌∷◌, Option, none, some, true, ◌≡◌, ◌≢◌, refl, sym, ap, ◌∙◌, eq→==,
}
use axtp_ts_runtime.Common.Maps.{lookup, lookup-insert, lookup-delete}
use axtp_ts_runtime.Model.Rpc.{
  Text, RpcMessage, same_text_self, identify, identified, reidentify, response,
}
use axtp_ts_runtime.Control.Codec.{encode_open, encode_accept}
use axtp_ts_runtime.Control.Session.{
  ControlSession, NegotiatedLink, to_partial, opened, closed, handle_control_body,
}
use axtp_ts_runtime.Control.Session as Session
use axtp_ts_runtime.Control.Session.Agreement.{CanOpen, accept_params, open_agrees}
use axtp_ts_runtime.JsonRpc.{Value}
use axtp_ts_runtime.Handshake.{
  server, link_connected, app_ready, handle, handle_reidentify, classify_inbound, generate_sid,
}
use axtp_ts_runtime.Handshake.Agreement.{server_identify}
use axtp_ts_runtime.Pending as Pending
use axtp_ts_runtime.Pending.{PendingCalls, resolves}
use axtp_ts_runtime.Core.{
  Core, CoreOutput, sends, settles, control_body, on_session_output, on_session_outputs,
  on_link_ready_internal, link_ready_at, on_control, call, handle_rpc, handle_as, handle_handshake,
  after_handshake, with_pending, dispatch_business, business_of,
}
use axtp_ts_runtime.Core.Start.{with_control-some}

resolve-found :
    (id promise : ℕ) (msg : RpcMessage Value) (p : PendingCalls)
    → lookup id p.pending ≡ some promise
    → Pending.resolve id msg p ≡ (Pending.remove_entry id promise p, resolves promise msg ∷ [])
unfolding Pending.resolve
resolve-found id promise msg p e = rw (e, Pending.resolve) refl

resolve-missing :
    (id : ℕ) (msg : RpcMessage Value) (p : PendingCalls)
    → lookup id p.pending ≡ none
    → Pending.resolve id msg p ≡ (p, [])
unfolding Pending.resolve
resolve-missing id msg p e = rw (e, Pending.resolve) refl

module _ (random : ℕ → ℕ) where
  -- A response of the session, at a ready core.
  handle_response :
      (c : Core) (id status : ℕ) (result : Value)
      → handle_rpc random
          (response c.handshake.sid id status result)
          (record c { gate = app_ready })
        ≡ business_of (response c.handshake.sid id status result) (record c { gate = app_ready })
  unfolding handle_rpc handle_as classify_inbound dispatch_business
  handle_response c id status result = rw (same_text_self c.handshake.sid) refl

  -- A ready core makes a call; a response with the session's id and the id of the request settles
  -- the promise of this call with that response, and nothing else, whatever else is pending; the same
  -- response once more does nothing.
  pub call-response :
      (c : Core) (method : Text) (params : Value) (status : ℕ) (result : Value)
      → let c₁ = (call method params (record c { gate = app_ready })).0 in
        let msg = response c.handshake.sid c.pending.next_request_id status result in
        let step = handle_rpc random msg c₁ in
        (step.1 ≡ settles (resolves c.pending.promises msg) ∷ [])
        × (handle_rpc random msg step.0 ≡ (step.0, []))
  unfolding call business_of Pending.request Pending.allocate_request_id
  call-response c method params status result =
      let c₁ = (call method params (record c { gate = app_ready })).0 in
      let id = c.pending.next_request_id in
      let promise = c.pending.promises in
      let msg = response c.handshake.sid id status result in
      let kept = Pending.remove_entry id promise c₁.pending in
      let same = eq→== id id refl in
      let found : lookup id c₁.pending.pending ≡ some promise =
        rw (lookup-insert id id promise c.pending.pending, same) refl in
      let gone : lookup id kept.pending ≡ none =
        rw (lookup-delete id id c₁.pending.pending, same) refl in
      let first : handle_rpc random msg c₁
          ≡ (record c₁ { pending = kept }, settles (resolves promise msg) ∷ []) =
        handle_response c₁ id status result
        ∙ ap (with_pending c₁) (resolve-found id promise msg c₁.pending found) in
      let again : handle_rpc random msg (record c₁ { pending = kept })
          ≡ (record c₁ { pending = kept }, []) =
        handle_response (record c₁ { pending = kept }) id status result
        ∙ ap (with_pending (record c₁ { pending = kept })) (resolve-missing id msg kept gone) in
      (
        ap (λ (x : Core × List CoreOutput). x.1) first,
        ap (λ (x : Core × List CoreOutput). handle_rpc random msg x.0) first
            ∙ again
            ∙ ap (λ (x : Core × List CoreOutput). (x.0, [])) (sym first),
      )

  -- A server that is ready is sent a Reidentify of its session: the core drops it, and keeps its
  -- event masks, while the handshake, asked to handle it, takes the new masks over and answers.
  pub reidentify_dropped :
      (c : Core) (masks : Option Text)
      → c.handshake.logical_role ≡ server
      → c.handshake.state ≡ app_ready
      → let msg = reidentify c.handshake.sid masks in
        let asked = handle {J = Value} (random c.draws) msg c.handshake in
        (handle_rpc random msg (record c { gate = app_ready })
          ≡ (record c { gate = app_ready }, []))
        × (asked.0.event_masks ≡ masks)
        × (asked.1.outbound ≡ some (identified c.handshake.sid))
  unfolding handle_rpc handle_as classify_inbound dispatch_business business_of handle
      handle_reidentify
  reidentify_dropped c masks is_server ready = (
    rw (same_text_self c.handshake.sid) refl,
    rw (is_server, ready, same_text_self c.handshake.sid) refl,
    rw (is_server, ready, same_text_self c.handshake.sid) refl,
  )

  module _ (s : Core) (session : ControlSession) (cs : ControlSession) (seed : ℕ)
      (masks : Option Text) (physical_client : cs.physical_role ≡ Session.client)
      (can_open : CanOpen cs.local_params) (id_word : cs.next_control_id < 2 ^ 16)
      (physical_server : session.physical_role ≡ Session.server)
      (not_closed : session.link_state ≢ closed)
      (not_closing : session.link_state ≢ Session.closing)
      (types_byte : session.local_params.supported_payload_types < 256)
      (ack_byte : session.local_params.ack_mode < 256)
      (logical_server : s.handshake.logical_role ≡ server) where
    -- A server whose link is not open yet is sent an Identify: it is ready at once. The OPEN that
    -- comes afterwards is accepted, but the frame limit that it settled is not taken over, and the
    -- endpoint is not told of the link.
    pub identify_before_open :
        let c₀ = record s { control = some session; gate = link_connected } in
        let c₁ = (handle_rpc random (identify [] seed masks) c₀).0 in
        let opening = encode_open cs.next_control_id (to_partial cs.local_params) in
        let reply =
          encode_accept cs.next_control_id
            (to_partial (accept_params cs.local_params session.local_params)) in
        (c₁.gate ≡ app_ready) × ((on_control opening c₁).1 ≡ sends (control_body reply) ∷ [])
    unfolding on_control on_session_outputs on_session_output on_link_ready_internal link_ready_at
        handle_rpc handle_as handle_handshake after_handshake classify_inbound
    identify_before_open =
        let agreed =
          open_agrees cs session physical_client can_open id_word physical_server not_closed
            not_closing types_byte ack_byte in
        let c₀ = record s { control = some session; gate = link_connected } in
        let done =
          ap (after_handshake c₀)
            (server_identify (random s.draws) seed masks s.handshake logical_server) in
        let opening = encode_open cs.next_control_id (to_partial cs.local_params) in
        let ready_server =
          (after_handshake c₀ (
            record s.handshake {
              event_masks = masks;
              sid = generate_sid seed s.handshake;
              state = app_ready;
            },
            record {
              outbound = some (identified (generate_sid seed s.handshake));
              became_ready = true;
              error = none;
            },
          )).0 in
        (
          ap (λ (x : Core × List CoreOutput). x.0.gate) done,
          ap (λ (x : Core × List CoreOutput). (on_control opening x.0).1) done
              ∙ ap (λ (x : Core × List CoreOutput). x.1)
                  (with_control-some (handle_control_body opening) ready_server session _ _
                    agreed.1),
        )
