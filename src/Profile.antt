-- ===== src/Profile.antt =====
-- src/transport/profile.ts: what a transport can carry, all of it derived from its frame mode.
use axtp_ts_runtime.Common.{ℕ, List, [], ◌∷◌, Option, none, some, Bool, true, false}

pub data FrameMode : Type 0 where
  standard_framed unframed_json : FrameMode

pub data TransportProfileId : Type 0 where
  axtp_tcp axtp_usb_hid axtp_ws_json axtp_ws_cloud_reverse : TransportProfileId

pub data KeepaliveMode : Type 0 where
  control_heartbeat native_keepalive no_keepalive : KeepaliveMode

pub record TransportProfile : Type 0 where
  pub frame_mode : FrameMode
  pub rpc_encodings : List ℕ
  pub profile_id : Option TransportProfileId

abbrev is_framed : FrameMode → Bool
is_framed standard_framed = true
is_framed unframed_json = false

unfoldable pub supports_control : TransportProfile → Bool
supports_control profile = is_framed profile.frame_mode

unfoldable pub supports_stream : TransportProfile → Bool
supports_stream profile = is_framed profile.frame_mode

abbrev keepalive_of : FrameMode → KeepaliveMode
keepalive_of standard_framed = control_heartbeat
keepalive_of unframed_json = native_keepalive

unfoldable pub keepalive_mode : TransportProfile → KeepaliveMode
keepalive_mode profile = keepalive_of profile.frame_mode

-- The one encoding is RpcEncoding.Json.
unfoldable pub framed_binary_profile : Option TransportProfileId → TransportProfile
framed_binary_profile profile_id = record {
  frame_mode = standard_framed;
  rpc_encodings = 0x01 ∷ [];
  profile_id = profile_id;
}

-- `profileId ?? "AXTP-WS-JSON"`
abbrev or_ws_json : Option TransportProfileId → TransportProfileId
or_ws_json none = axtp_ws_json
or_ws_json (some id) = id

unfoldable pub unframed_json_profile : Option TransportProfileId → TransportProfile
unframed_json_profile profile_id = record {
  frame_mode = unframed_json;
  rpc_encodings = 0x01 ∷ [];
  profile_id = some (or_ws_json profile_id);
}
