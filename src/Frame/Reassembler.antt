-- ===== src/Frame/Reassembler.antt =====
-- src/protocol/codec/frame.ts, class MessageReassembler. `Date.now()` is an argument of the call;
-- what the callbacks are called with is the list of outputs, in order.
pub mod Fragments
pub mod Integrity
pub mod Bounds
pub mod Completion
use axtp_ts_runtime.Common.{
  ℕ, zero, suc, ◌+◌, ◌-◌, ◌*◌, List, [], ◌∷◌, ◌++◌, Option, none, some, Bool, true, false, not,
  ◌||◌, ◌==◌, ltb, leb, if◌then◌else◌, length, replicate, set, get_elem?,
}
use axtp_ts_runtime.Common.Maps.{lookup, insert, delete}
use axtp_ts_runtime.Model.{PayloadType, payload_type_code, Frame, Message}
use axtp_ts_runtime.Model.ErrorCode

pub record Assembly : Type 0 where
  pub payload_type : PayloadType
  pub frame_count : ℕ
  pub total_size : ℕ
  pub fragments : List (Option (List ℕ))
  pub created_at : ℕ

pub record MessageReassembler : Type 0 where
  pub assemblies : List (ℕ × Assembly)
  pub max_message_size : ℕ
  pub assembly_timeout_ms : ℕ

abbrev pub max_pending_assemblies : ℕ
max_pending_assemblies = 256

abbrev pub new_reassembler : ℕ → MessageReassembler
new_reassembler max_message_size = record {
  assemblies = [];
  max_message_size = max_message_size;
  assembly_timeout_ms = 10000;
}

pub data Output : Type 0 where
  on_message : Message → Output
  on_error : ℕ → Output

abbrev pub same_type : PayloadType → PayloadType → Bool
same_type a b = payload_type_code a == payload_type_code b

-- `for (const [id, assembly] of this.assemblies)`: the entries that stay, and the reports.
pub evict_loop : ℕ → ℕ → List (ℕ × Assembly) → List (ℕ × Assembly) × List Output
evict_loop timeout now [] = ([], [])
evict_loop timeout now ((id, assembly) ∷ rest) =
    let (kept, reports) = evict_loop timeout now rest in
    if ltb timeout (now - assembly.created_at)
    then (kept, on_error ErrorCode.frame_reassembly_timeout ∷ reports)
    else ((id, assembly) ∷ kept, reports)

pub evict_expired : ℕ → MessageReassembler → MessageReassembler × List Output
unfolding evict_loop
evict_expired now r =
    let (kept, reports) = evict_loop r.assembly_timeout_ms now r.assemblies in
    (record r { assemblies = kept }, reports)

-- `assembly.fragments.some((f) => f === undefined)`
pub some_missing : List (Option (List ℕ)) → Bool
some_missing [] = false
some_missing (none ∷ rest) = true
some_missing (some bytes ∷ rest) = some_missing rest

-- `concatBytes(assembly.fragments as Bytes[])`
pub concat_fragments : List (Option (List ℕ)) → List ℕ
concat_fragments [] = []
concat_fragments (none ∷ rest) = concat_fragments rest
concat_fragments (some bytes ∷ rest) = bytes ++ concat_fragments rest

pub new_assembly : ℕ → Frame → Assembly
new_assembly now frame = record {
  payload_type = frame.header.payload_type;
  frame_count = frame.header.frame_count;
  total_size = 0;
  fragments = replicate frame.header.frame_count none;
  created_at = now;
}

-- The writes to the assembly object and the test for the last fragment.
pub store_fragment : Frame → Assembly → MessageReassembler → MessageReassembler × List Output
unfolding some_missing concat_fragments
store_fragment frame assembly r =
    let id = frame.header.message_id in
    let total = assembly.total_size + length frame.payload in
    let fragments = set assembly.fragments frame.header.frame_index (some frame.payload) in
    if ltb r.max_message_size total
    then (record r { assemblies = delete id r.assemblies }, on_error ErrorCode.frame_too_large ∷ [])
    else if some_missing fragments
    then (
      record r {
        assemblies =
            insert id (record assembly { total_size = total; fragments = fragments }) r.assemblies;
      },
      [],
    )
    else (
      record r { assemblies = delete id r.assemblies },
      on_message (record {
        message_id = id;
        payload_type = assembly.payload_type;
        body = concat_fragments fragments;
      })
          ∷ [],
    )

-- onFrame from where `assembly` is known and stands in the map. A hole at the index is `some none`.
pub add_fragment : Frame → Assembly → MessageReassembler → MessageReassembler × List Output
unfolding store_fragment
add_fragment frame assembly r =
    if not (same_type assembly.payload_type frame.header.payload_type)
      || (not (assembly.frame_count == frame.header.frame_count)
          || leb (length assembly.fragments) frame.header.frame_index)
    then (record r { assemblies = delete frame.header.message_id r.assemblies }, [])
    else elim (get_elem? assembly.fragments frame.header.frame_index) [
      | some (some bytes) ↦ (r, [])
      | some none ↦ store_fragment frame assembly r
      | none ↦ store_fragment frame assembly r
    ]

-- onFrame behind the eviction.
pub find_assembly : ℕ → Frame → MessageReassembler → MessageReassembler × List Output
unfolding add_fragment new_assembly
find_assembly now frame r = elim (lookup frame.header.message_id r.assemblies) [
  | some assembly ↦ add_fragment frame assembly r
  | none ↦
      if leb max_pending_assemblies (length r.assemblies)
      then (r, on_error ErrorCode.frame_fragment_missing ∷ [])
      else let assembly = new_assembly now frame in
        add_fragment frame assembly
          (record r { assemblies = insert frame.header.message_id assembly r.assemblies })
]

pub on_frame : ℕ → Frame → MessageReassembler → MessageReassembler × List Output
unfolding evict_expired find_assembly
on_frame now frame r =
    if frame.header.frame_count == 1
    then if not (frame.header.frame_index == 0) then (r, []) else (
      r,
      on_message (record {
        message_id = frame.header.message_id;
        payload_type = frame.header.payload_type;
        body = frame.payload;
      })
          ∷ [],
    )
    else let (r', reports) = evict_expired now r in
      let (r'', outputs) = find_assembly now frame r' in (r'', reports ++ outputs)

-- The frames of a run, each with the time at which it came in.
unfoldable pub on_frames : List (ℕ × Frame) → MessageReassembler → MessageReassembler × List Output
unfolding on_frame
on_frames [] r = (r, [])
on_frames ((now, frame) ∷ rest) r =
    let (r', outputs) = on_frame now frame r in
    let (r'', more) = on_frames rest r' in (r'', outputs ++ more)
