-- ===== src/Handshake.antt =====
-- src/core/handshake.ts and src/core/runtimeGate.ts: the state machine of the RPC session, and the
-- gate that decides what becomes of an incoming message. `Math.random()` is an argument.
pub mod Sid
pub mod Agreement
use Prim.Native.Nat.{bit_xor}
use axtp_ts_runtime.Common.{
  ℕ, zero, suc, ◌+◌, ◌*◌, ◌/◌, ◌%◌, ◌^◌, List, [], ◌∷◌, Option, none, some, Bool, true, false, not,
  ◌||◌, ◌&&◌, ◌==◌, ltb, if◌then◌else◌,
}
use axtp_ts_runtime.Model.ErrorCode
use axtp_ts_runtime.Model.Rpc.{
  Text, same_text, RpcMessage, hello, identify, identified, reidentify, event, request, response,
}

pub data GateState : Type 0 where
  link_connected framing_ready app_ready closing : GateState

pub data LogicalRole : Type 0 where
  client server : LogicalRole

pub data InboundDisposition : Type 0 where
  handshake business respond_open_required drops : InboundDisposition

module _ {J : Type 0} where
  unfoldable pub classify_inbound : GateState → RpcMessage J → InboundDisposition
  classify_inbound state (hello sid version) = handshake
  classify_inbound state (identify sid seed masks) = handshake
  classify_inbound state (identified sid) = handshake
  classify_inbound app_ready msg = business
  classify_inbound state (request sid id method params) = respond_open_required
  classify_inbound state msg = drops

pub record Handshake : Type 0 where
  pub logical_role : LogicalRole
  pub state : GateState
  pub sid : Text
  pub local_entropy : ℕ
  pub event_masks : Option Text

abbrev pub new_handshake : LogicalRole → ℕ → Option Text → Handshake
new_handshake role local_seed event_masks = record {
  logical_role = role;
  state = link_connected;
  sid = [];
  local_entropy = local_seed;
  event_masks = event_masks;
}

-- The answer, whether the session became ready, and the error.
pub record HandshakeResult (J : Type 0) : Type 0 where
  pub outbound : Option (RpcMessage J)
  pub became_ready : Bool
  pub error : Option ℕ

abbrev pub after_link : GateState → GateState
after_link link_connected = framing_ready
after_link framing_ready = framing_ready
after_link app_ready = app_ready
after_link closing = closing

unfoldable pub on_link_ready : Handshake → Handshake
on_link_ready h = record h { state = after_link h.state }

unfoldable pub reset : Handshake → Handshake
reset h = record h { state = link_connected; sid = [] }

-- AXTP_SPEC_VERSION, "1.0.0"
abbrev pub axtp_spec_version : Text
axtp_spec_version = b'1' ∷ b'.' ∷ b'0' ∷ b'.' ∷ b'0' ∷ []

-- A digit of `toString(16)`
unfoldable pub hex_digit : ℕ → ℕ
hex_digit d = if ltb d 10 then b'0' + d else 87 + d

-- `mixed.toString(16).padStart(8, "0")` for a number under 2 ^ 32, by the digits left.
unfoldable pub hex_text : ℕ → ℕ → Text
unfolding hex_digit
hex_text zero mixed = []
hex_text (suc rounds) mixed = hex_digit (mixed / 16 ^ rounds % 16) ∷ hex_text rounds mixed

unfoldable pub mix : ℕ → ℕ → ℕ
mix random_seed local_entropy =
    let mixed = bit_xor (random_seed % 2 ^ 32) (local_entropy % 2 ^ 32) % 2 ^ 32 in
    if mixed == 0 then 1 else mixed

unfoldable pub generate_sid : ℕ → Handshake → Text
unfolding hex_text mix
generate_sid random_seed h = hex_text 8 (mix random_seed h.local_entropy)

abbrev pub zero_sid : Text
zero_sid = b'0' ∷ b'0' ∷ b'0' ∷ b'0' ∷ b'0' ∷ b'0' ∷ b'0' ∷ b'0' ∷ []

unfoldable pub sid_invalid : Text → Bool
sid_invalid [] = true
sid_invalid (c ∷ cs) = same_text (c ∷ cs) zero_sid

abbrev is_server : LogicalRole → Bool
is_server server = true
is_server client = false

abbrev is_app_ready : GateState → Bool
is_app_ready app_ready = true
is_app_ready _ = false

module _ {J : Type 0} where
  unfoldable pub start_hello : RpcMessage J
  start_hello = hello [] (some axtp_spec_version)

  -- `{ becameReady: false }`
  abbrev pub no_result : HandshakeResult J
  no_result = record { outbound = none; became_ready = false; error = none }

  -- The number is `Math.floor(Math.random() * 0x100000000)`.
  unfoldable pub handle_hello : ℕ → Handshake → Handshake × HandshakeResult J
  unfolding on_link_ready
  handle_hello drawn h =
      let random_seed = if drawn == 0 then 1 else drawn in
      if is_server h.logical_role then (h, no_result) else (
        on_link_ready h,
        record no_result { outbound = some (identify [] (random_seed % 2 ^ 32) h.event_masks) },
      )

  unfoldable pub handle_identify : ℕ → Option Text → Handshake → Handshake × HandshakeResult J
  unfolding generate_sid
  handle_identify random_seed event_masks h =
      let sid = generate_sid random_seed h in
      if not (is_server h.logical_role) then (h, no_result) else (
        record h { event_masks = event_masks; sid = sid; state = app_ready },
        record { outbound = some (identified sid); became_ready = true; error = none },
      )

  unfoldable pub handle_identified : Text → Handshake → Handshake × HandshakeResult J
  unfolding sid_invalid
  handle_identified sid h =
      if is_server h.logical_role
      then (h, no_result)
      else if sid_invalid sid
      then (h, record no_result { error = some ErrorCode.rpc_payload_invalid })
      else (record h { sid = sid; state = app_ready }, record no_result { became_ready = true })

  unfoldable pub handle_reidentify : Text → Option Text → Handshake → Handshake × HandshakeResult J
  handle_reidentify sid event_masks h =
      if not (is_server h.logical_role) || (not (is_app_ready h.state) || not (same_text sid h.sid))
      then (h, no_result)
      else (
        record h { event_masks = event_masks },
        record { outbound = some (identified h.sid); became_ready = true; error = none },
      )

  unfoldable pub handle : ℕ → RpcMessage J → Handshake → Handshake × HandshakeResult J
  unfolding handle_hello handle_identify handle_identified handle_reidentify
  handle drawn (hello sid version) h = handle_hello drawn h
  handle drawn (identify sid random_seed masks) h = handle_identify random_seed masks h
  handle drawn (identified sid) h = handle_identified sid h
  handle drawn (reidentify sid masks) h = handle_reidentify sid masks h
  handle drawn _ h = (h, no_result)
