-- ===== src/Tests/Sessions.antt =====
-- The handshake and the gate of core/handshake.ts and core/runtimeGate.ts at concrete inputs.
use axtp_ts_runtime.Common.{ℕ, List, [], ◌∷◌, some, none, true, false, ◌≡◌, refl}
use axtp_ts_runtime.Model.Rpc.{RpcMessage, identify, identified, request}
use axtp_ts_runtime.Handshake.{
  Handshake, client, server, app_ready, new_handshake, start_hello, no_result, handle, generate_sid,
  sid_invalid, classify_inbound, business,
}
use axtp_ts_runtime.Handshake.Sid.{handle_all, business_has_sid}
use axtp_ts_runtime.Handshake.Agreement.{handshake_agrees}

abbrev client_end : Handshake
client_end = new_handshake client 5 (some (b'f' ∷ []))

abbrev server_end : Handshake
server_end = new_handshake server 0x10 none

run_sid : generate_sid 0x1f server_end ≡ b'0' ∷ b'0' ∷ b'0' ∷ b'0' ∷ b'0' ∷ b'0' ∷ b'0' ∷ b'f' ∷ []
unfolding generate_sid
run_sid = refl

handshake_agrees_example :
    let sid = generate_sid 1 server_end in
    let step₁ = handle {J = ℕ} 0 start_hello client_end in
    let step₂ = handle {J = ℕ} 3 (identify [] 1 client_end.event_masks) server_end in
    let step₃ = handle {J = ℕ} 3 (identified sid) step₁.0 in
    (step₁.1 ≡ record no_result { outbound = some (identify [] 1 client_end.event_masks) })
    × (step₂.1 ≡ record { outbound = some (identified sid); became_ready = true; error = none })
    × (step₃.1 ≡ record no_result { became_ready = true })
    × (step₂.0.state ≡ app_ready)
    × (step₃.0.state ≡ app_ready)
    × (step₂.0.sid ≡ sid)
    × (step₃.0.sid ≡ sid)
    × (step₂.0.event_masks ≡ client_end.event_masks)
handshake_agrees_example = handshake_agrees client_end server_end 0 3 refl refl

-- The server after an Identify, and a request.
abbrev identified_run : List (ℕ × RpcMessage ℕ)
identified_run = (0, identify [] 9 none) ∷ []

abbrev a_request : RpcMessage ℕ
a_request = request [] 1 [] 0

request_passes :
    classify_inbound {J = ℕ}
      (handle_all identified_run (new_handshake server 0x10 none)).state
      a_request
    ≡ business
unfolding classify_inbound handle_all handle
request_passes = refl

business_has_sid_example :
    let h = handle_all identified_run (new_handshake server 0x10 none) in
    (h.state ≡ app_ready) × (sid_invalid h.sid ≡ false)
business_has_sid_example = business_has_sid server 0x10 none identified_run a_request request_passes
