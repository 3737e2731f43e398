-- ===== src/Handshake/Agreement.antt =====
-- The Hello, Identify and Identified of the two ends of a link.
use axtp_ts_runtime.Common.{
  ℕ, ◌^◌, ◌%◌, [], Option, none, some, true, false, ◌≡◌, ap, ◌∙◌, ◌==◌, if◌then◌else◌,
}
use axtp_ts_runtime.Model.Rpc.{Text, identify, identified}
use axtp_ts_runtime.Handshake.{
  Handshake, HandshakeResult, client, server, app_ready, generate_sid, sid_invalid, handle,
  handle_hello, handle_identify, handle_identified, start_hello, no_result, on_link_ready,
}
use axtp_ts_runtime.Handshake.Sid.{generate_sid-valid}

module _ {J : Type 0} where
  pub client_hello :
      (drawn : ℕ) (c : Handshake)
      → c.logical_role ≡ client
      → handle {J = J} drawn start_hello c ≡ (
        on_link_ready c,
        record no_result {
          outbound = some (identify [] ((if drawn == 0 then 1 else drawn) % 2 ^ 32) c.event_masks);
        },
      )
  unfolding handle handle_hello start_hello
  client_hello drawn c role = simp role

  pub server_identify :
      (any seed : ℕ) (masks : Option Text) (s : Handshake)
      → s.logical_role ≡ server
      → handle {J = J} any (identify [] seed masks) s ≡ (
        record s { event_masks = masks; sid = generate_sid seed s; state = app_ready },
        record {
          outbound = some (identified (generate_sid seed s));
          became_ready = true;
          error = none;
        },
      )
  unfolding handle handle_identify
  server_identify any seed masks s role = simp role

  pub client_identified :
      (any : ℕ) (sid : Text) (c : Handshake)
      → c.logical_role ≡ client
      → sid_invalid sid ≡ false
      → handle {J = J} any (identified sid) c
        ≡ (record c { sid = sid; state = app_ready }, record no_result { became_ready = true })
  unfolding handle handle_identified
  client_identified any sid c role ok = simp (role, ok)

  -- A client and a server, in whatever states, exchange Hello, Identify and Identified, each message
  -- being the one that the other end answered with: each answers without an error, and both end
  -- ready, with the same session id, and the server with the client's event masks.
  pub handshake_agrees :
      (c s : Handshake) (drawn any : ℕ)
      → c.logical_role ≡ client
      → s.logical_role ≡ server
      → let seed = (if drawn == 0 then 1 else drawn) % 2 ^ 32 in
        let sid = generate_sid seed s in
        let step₁ = handle {J = J} drawn start_hello c in
        let step₂ = handle {J = J} any (identify [] seed c.event_masks) s in
        let step₃ = handle {J = J} any (identified sid) step₁.0 in
        (step₁.1 ≡ record no_result { outbound = some (identify [] seed c.event_masks) })
        × (step₂.1 ≡ record { outbound = some (identified sid); became_ready = true; error = none })
        × (step₃.1 ≡ record no_result { became_ready = true })
        × (step₂.0.state ≡ app_ready)
        × (step₃.0.state ≡ app_ready)
        × (step₂.0.sid ≡ sid)
        × (step₃.0.sid ≡ sid)
        × (step₂.0.event_masks ≡ c.event_masks)
  unfolding on_link_ready
  handshake_agrees c s drawn any client_role server_role =
      let seed = (if drawn == 0 then 1 else drawn) % 2 ^ 32 in
      let sid = generate_sid seed s in
      let e₁ = client_hello drawn c client_role in
      let e₂ = server_identify any seed c.event_masks s server_role in
      let e₃ =
        ap (λ (x : Handshake × HandshakeResult J). handle any (identified sid) x.0) e₁
        ∙ client_identified any sid (on_link_ready c) client_role (generate_sid-valid seed s) in
      (
        ap (λ x. x.1) e₁,
        ap (λ x. x.1) e₂,
        ap (λ x. x.1) e₃,
        ap (λ x. x.0.state) e₂,
        ap (λ x. x.0.state) e₃,
        ap (λ x. x.0.sid) e₂,
        ap (λ x. x.0.sid) e₃,
        ap (λ x. x.0.event_masks) e₂,
      )
