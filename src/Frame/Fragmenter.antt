-- ===== src/Frame/Fragmenter.antt =====
-- src/protocol/codec/frame.ts, class MessageFragmenter. A call returns the new state beside its
-- outcome, since the message id is taken before the code throws.
pub mod Laws
use axtp_ts_runtime.Common.{
  ℕ, zero, suc, ◌+◌, ◌-◌, ◌*◌, ◌/◌, min, List, [], ◌∷◌, length, take, drop, ◌==◌, ltb, leb,
  if◌then◌else◌, Result, returns, throws,
}
use axtp_ts_runtime.Model.{PayloadType, Frame, Message}
use axtp_ts_runtime.Frame.{axtp_version_1, standard_frame_header_size, standard_frame_crc_size}

pub record MessageFragmenter : Type 0 where
  pub next_message_id : ℕ
  pub max_frame_size : ℕ

pub data FragmentError : Type 0 where
  no_payload_capacity too_many_fragments : FragmentError

abbrev pub new_fragmenter : ℕ → MessageFragmenter
new_fragmenter max_frame_size = record { next_message_id = 1; max_frame_size = max_frame_size }

unfoldable pub set_max_frame_size : ℕ → MessageFragmenter → MessageFragmenter
set_max_frame_size size f = record f { max_frame_size = size }

pub payload_capacity : MessageFragmenter → ℕ
payload_capacity f =
    if leb f.max_frame_size (standard_frame_header_size + standard_frame_crc_size)
    then 0
    else f.max_frame_size - standard_frame_header_size - standard_frame_crc_size

pub take_message_id : MessageFragmenter → ℕ × MessageFragmenter
take_message_id f =
    let next = f.next_message_id + 1 in
    (f.next_message_id, record f { next_message_id = if ltb 0xffff next then 1 else next })

pub make_frame : Message → ℕ → ℕ → ℕ → List ℕ → Frame
make_frame message message_id frame_index frame_count payload = record {
  header = record {
    version = axtp_version_1;
    payload_type = message.payload_type;
    payload_length = length payload;
    source_id = 0;
    destination_id = 0;
    message_id = message_id;
    frame_index = frame_index;
    frame_count = frame_count;
  };
  payload = payload;
  crc16 = 0;
}

-- `message.body.slice(offset, Math.min(message.body.length, offset + capacity))`
pub slice_at : List ℕ → ℕ → ℕ → List ℕ
slice_at body capacity offset =
    take (min (length body) (offset + capacity) - offset) (drop offset body)

-- `for (let i = 0; i < frameCount; i += 1)`, by the rounds left.
pub make_frames : Message → ℕ → ℕ → ℕ → ℕ → ℕ → List Frame
unfolding slice_at make_frame
make_frames message message_id capacity frame_count zero i = []
make_frames message message_id capacity frame_count (suc rounds) i =
    make_frame message message_id i frame_count (slice_at message.body capacity (i * capacity))
    ∷ make_frames message message_id capacity frame_count rounds (i + 1)

-- `Math.ceil(length / capacity)`
abbrev pub ceil_div : ℕ → ℕ → ℕ
ceil_div n capacity = (n + capacity - 1) / capacity

abbrev single : Message → ℕ → List Frame
unfolding make_frame
single message message_id = make_frame message message_id 0 1 [] ∷ []

pub fragment_as : MessageFragmenter → Message → ℕ → Result FragmentError (List Frame)
unfolding payload_capacity make_frames
fragment_as f message message_id =
    let capacity = payload_capacity f in
    let frame_count = ceil_div (length message.body) capacity in
    if capacity == 0
    then if ltb 0 (length message.body)
      then throws no_payload_capacity
      else returns (single message message_id)
    else if length message.body == 0
    then returns (single message message_id)
    else if ltb 255 frame_count
    then throws too_many_fragments
    else returns (make_frames message message_id capacity frame_count frame_count 0)

unfoldable pub fragment :
    MessageFragmenter → Message → Result FragmentError (List Frame) × MessageFragmenter
unfolding take_message_id fragment_as
fragment f message =
    let (message_id, f') = take_message_id f in (fragment_as f message message_id, f')
