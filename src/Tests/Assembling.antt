-- ===== src/Tests/Assembling.antt =====
-- MessageFragmenter and MessageReassembler of protocol/codec/frame.ts at concrete inputs.
use axtp_ts_runtime.Common.{ℕ, ◌≤◌, ◌*◌, [], ◌∷◌, length, returns, ◌≡◌, refl, arith}
use axtp_ts_runtime.Common.Maps.{lookup, insert, delete}
use axtp_ts_runtime.Model.{PayloadType, payload_type_code, Frame, Message}
use axtp_ts_runtime.Frame.Fragmenter.{MessageFragmenter, fragment}
use axtp_ts_runtime.Frame.Fragmenter.Laws.{Fragmented, fragment-Fragmented}
use axtp_ts_runtime.Frame.Reassembler.{new_reassembler, on_message, on_frames}
use axtp_ts_runtime.Frame.Reassembler.Integrity.{Origin, IsGenuine, Preserves, on_frames-Preserves}
use axtp_ts_runtime.Frame.Reassembler.Completion.Runs.{on_frames-fragment}
use axtp_ts_runtime.Frame.Reassembler.Bounds.{held_bytes, on_frames_memory}

-- A limit of 17 leaves 3 bytes for a payload; the id is about to wrap.
abbrev narrow : MessageFragmenter
narrow = record { next_message_id = 0xffff; max_frame_size = 17 }

abbrev five_bytes : Message
five_bytes = record {
  message_id = 0;
  payload_type = PayloadType.rpc;
  body = 1 ∷ 2 ∷ 3 ∷ 4 ∷ 5 ∷ [];
}

abbrev part_0 : Frame
part_0 = record {
  header = record {
    version = 1;
    payload_type = PayloadType.rpc;
    payload_length = 3;
    source_id = 0;
    destination_id = 0;
    message_id = 0xffff;
    frame_index = 0;
    frame_count = 2;
  };
  payload = 1 ∷ 2 ∷ 3 ∷ [];
  crc16 = 0;
}

abbrev part_1 : Frame
part_1 = record {
  header = record {
    version = 1;
    payload_type = PayloadType.rpc;
    payload_length = 2;
    source_id = 0;
    destination_id = 0;
    message_id = 0xffff;
    frame_index = 1;
    frame_count = 2;
  };
  payload = 4 ∷ 5 ∷ [];
  crc16 = 0;
}

run_fragment :
    fragment narrow five_bytes
    ≡ (returns (part_0 ∷ part_1 ∷ []), record { next_message_id = 1; max_frame_size = 17 })
unfolding fragment
run_fragment = refl

fragmented : (fragment narrow five_bytes).0 ≡ returns (part_0 ∷ part_1 ∷ [])
unfolding fragment
fragmented = refl

-- The second part twice, then the first: one message.
run_reassembly : on_frames ((0, part_1) ∷ (5, part_1) ∷ (9, part_0) ∷ []) (new_reassembler 100) ≡ (
  new_reassembler 100,
  on_message (record {
    message_id = 0xffff;
    payload_type = PayloadType.rpc;
    body = 1 ∷ 2 ∷ 3 ∷ 4 ∷ 5 ∷ [];
  })
      ∷ [],
)
unfolding on_frames lookup insert delete payload_type_code
run_reassembly = refl

fragment-Fragmented_example : Fragmented narrow five_bytes (fragment narrow five_bytes).0
fragment-Fragmented_example =
    fragment-Fragmented narrow five_bytes (omega arith) (omega arith) (omega arith)

abbrev five_bytes_cut : ℕ → Origin
five_bytes_cut id = record {
  payload_type = PayloadType.rpc;
  chunks = (1 ∷ 2 ∷ 3 ∷ []) ∷ (4 ∷ 5 ∷ []) ∷ [];
}

part_0-IsGenuine : IsGenuine five_bytes_cut part_0
part_0-IsGenuine = record { type_same = refl; count_same = refl; chunk_same = refl }

part_1-IsGenuine : IsGenuine five_bytes_cut part_1
part_1-IsGenuine = record { type_same = refl; count_same = refl; chunk_same = refl }

on_frames-Preserves_example :
    Preserves five_bytes_cut
      (on_frames ((0, part_1) ∷ (5, part_1) ∷ (9, part_0) ∷ []) (new_reassembler 100))
on_frames-Preserves_example =
    on_frames-Preserves five_bytes_cut ((0, part_1) ∷ (5, part_1) ∷ (9, part_0) ∷ [])
      (new_reassembler 100) (part_1-IsGenuine, (part_1-IsGenuine, (part_0-IsGenuine, tt))) tt

on_frames_memory_example :
    (length (on_frames ((0, part_1) ∷ []) (new_reassembler 100)).0.assemblies ≤ 256)
    × (held_bytes (on_frames ((0, part_1) ∷ []) (new_reassembler 100)).0.assemblies ≤ 256 * 100)
on_frames_memory_example = on_frames_memory 100 ((0, part_1) ∷ [])

on_frames-fragment_example :
    on_frames ((0, part_0) ∷ (9, part_1) ∷ []) (new_reassembler 100)
    ≡ (new_reassembler 100, on_message (record five_bytes { message_id = 0xffff }) ∷ [])
on_frames-fragment_example =
    on_frames-fragment narrow five_bytes 0 part_0 ((9, part_1) ∷ []) (new_reassembler 100)
      (omega arith) (omega arith) (omega arith) fragmented (omega arith) (omega arith)
