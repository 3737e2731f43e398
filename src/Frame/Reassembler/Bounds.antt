-- ===== src/Frame/Reassembler/Bounds.antt =====
-- What a peer can make the reassembler hold.
use native.Mathlib.Nat.{le_trans, mul-le-mul_right}
use axtp_ts_runtime.Common.{
  ℕ, ◌+◌, ◌-◌, ◌*◌, ◌≤◌, ◌<◌, List, [], ◌∷◌, none, some, false, not, ◌||◌, ◌==◌, ltb, leb, ltb→le,
  length, set, get_elem?, ◌≡◌, refl, ap, ◌∙◌, arith, inl, inr, Bool-cases, Option-cases,
}
use axtp_ts_runtime.Common.Maps.{
  lookup, delete, Entries, Entries-lookup, Entries-insert, Entries-delete, lookup-insert,
  length-insert_new, length-insert_old, length-delete_le,
}
use axtp_ts_runtime.Model.{Frame}
use axtp_ts_runtime.Frame.Reassembler.{
  Assembly, MessageReassembler, evict_loop, evict_expired, some_missing, new_assembly,
  new_reassembler, store_fragment, add_fragment, find_assembly, on_frame, on_frames, same_type,
  max_pending_assemblies,
}
use axtp_ts_runtime.Frame.Reassembler.Fragments.{
  held, held-replicate, held-set_hole, get_elem?-in_range,
}

-- The bytes that all assemblies hold.
abbrev pub held_bytes : List (ℕ × Assembly) → ℕ
held_bytes [] = 0
held_bytes ((id, assembly) ∷ rest) = held assembly.fragments + held_bytes rest

module _ (limit : ℕ) where
  pub record IsCounted (id : ℕ) (assembly : Assembly) : Type 0 where
    pub counted : held assembly.fragments ≡ assembly.total_size
    pub within : assembly.total_size ≤ limit

  pub record IsBounded (r : MessageReassembler) : Type 0 where
    pub limit_kept : r.max_message_size ≡ limit
    pub entries : Entries IsCounted r.assemblies
    pub few : length r.assemblies ≤ max_pending_assemblies

  evict_loop-IsCounted :
      (timeout now : ℕ) (entries : List (ℕ × Assembly))
      → Entries IsCounted entries
      → Entries IsCounted (evict_loop timeout now entries).0
        × (length (evict_loop timeout now entries).0 ≤ length entries)
  unfolding evict_loop
  evict_loop-IsCounted timeout now [] h = (tt, omega arith)
  evict_loop-IsCounted timeout now ((id, a) ∷ rest) h =
      let (kept, fewer) = evict_loop-IsCounted timeout now rest h.1 in
      elim (Bool-cases (ltb timeout (now - a.created_at))) [
        | inl expired ↦ rw expired (kept, omega arith)
        | inr alive ↦ rw alive ((h.0, kept), omega arith)
      ]

  delete-IsBounded :
      (id : ℕ) (r : MessageReassembler)
      → IsBounded r
      → IsBounded (record r { assemblies = delete id r.assemblies })
  delete-IsBounded id r h = record {
    limit_kept = h.limit_kept;
    entries = Entries-delete IsCounted id r.assemblies h.entries;
    few = omega (arith, length-delete_le id r.assemblies, h.few);
  }

  store_fragment-IsBounded :
      (frame : Frame) (assembly : Assembly) (r : MessageReassembler)
      → get_elem? assembly.fragments frame.header.frame_index ≡ some none
      → lookup frame.header.message_id r.assemblies ≡ some assembly
      → IsBounded r
      → IsBounded (store_fragment frame assembly r).0
  unfolding store_fragment
  store_fragment-IsBounded frame assembly r hole there h =
      let id = frame.header.message_id in
      let counted = Entries-lookup IsCounted id r.assemblies h.entries there in
      let fragments = set assembly.fragments frame.header.frame_index (some frame.payload) in
      let (more_held, fewer) =
        held-set_hole assembly.fragments frame.header.frame_index frame.payload hole in
      let total = assembly.total_size + length frame.payload in
      elim (Bool-cases (ltb r.max_message_size total)) [
        | inl over ↦ rw over (delete-IsBounded id r h)
        | inr fits ↦ elim (Bool-cases (some_missing fragments)) [
          | inl more ↦
              rw (fits, more)
                (record {
                  limit_kept = h.limit_kept;
                  entries =
                      Entries-insert IsCounted id _ r.assemblies
                        (record {
                          counted = omega (arith, counted.counted);
                          within =
                              omega (arith, h.limit_kept, ltb→le r.max_message_size total fits);
                        })
                        h.entries;
                  few = omega (arith, length-insert_old id _ assembly r.assemblies there, h.few);
                })
          | inr last ↦ rw (fits, last) (delete-IsBounded id r h)
        ]
      ]

  add_fragment-IsBounded :
      (frame : Frame) (assembly : Assembly) (r : MessageReassembler)
      → lookup frame.header.message_id r.assemblies ≡ some assembly
      → IsBounded r
      → IsBounded (add_fragment frame assembly r).0
  unfolding add_fragment
  add_fragment-IsBounded frame assembly r there h =
      let i = frame.header.frame_index in
      elim (Bool-cases (
        not (same_type assembly.payload_type frame.header.payload_type)
        || (not (assembly.frame_count == frame.header.frame_count)
            || leb (length assembly.fragments) i))) [
              | inl other ↦ rw other (delete-IsBounded frame.header.message_id r h)
              | inr same ↦
                  let (slot, e) = get_elem?-in_range assembly.fragments i (ground (arith, same)) in
                  elim (Option-cases slot) [
                    | inl empty ↦
                        let hole = e ∙ ap some empty in
                        rw (same, hole, add_fragment)
                          (store_fragment-IsBounded frame assembly r hole there h)
                    | inr (bytes, taken) ↦ rw (same, e ∙ ap some taken, add_fragment) h
                  ]
            ]

  find_assembly-IsBounded :
      (now : ℕ) (frame : Frame) (r : MessageReassembler)
      → IsBounded r
      → IsBounded (find_assembly now frame r).0
  unfolding find_assembly new_assembly
  find_assembly-IsBounded now frame r h =
      let id = frame.header.message_id in
      let fresh = new_assembly now frame in
      elim (Option-cases (lookup id r.assemblies)) [
        | inr (assembly, e) ↦ rw (e, find_assembly) (add_fragment-IsBounded frame assembly r e h)
        | inl e ↦ elim (Bool-cases (leb max_pending_assemblies (length r.assemblies))) [
          | inl full ↦ rw (e, find_assembly, full) h
          | inr room ↦
              rw (e, find_assembly, room)
                (add_fragment-IsBounded frame fresh _
                  (ground (arith, lookup-insert id id fresh r.assemblies))
                  (record {
                    limit_kept = h.limit_kept;
                    entries =
                        Entries-insert IsCounted id fresh r.assemblies
                          (record {
                            counted = held-replicate frame.header.frame_count;
                            within = omega arith;
                          })
                          h.entries;
                    few = omega (arith, length-insert_new id fresh r.assemblies e, below r room);
                  }))
        ]
      ]
    where
      below :
          (r : MessageReassembler)
          → leb max_pending_assemblies (length r.assemblies) ≡ false
          → length r.assemblies < max_pending_assemblies
      below r room = ground arith

  pub on_frame-IsBounded :
      (now : ℕ) (frame : Frame) (r : MessageReassembler)
      → IsBounded r
      → IsBounded (on_frame now frame r).0
  unfolding on_frame evict_expired
  on_frame-IsBounded now frame r h = elim (Bool-cases (frame.header.frame_count == 1)) [
    | inl alone ↦ elim (Bool-cases (frame.header.frame_index == 0)) [
      | inl first ↦ rw (alone, first) h
      | inr later ↦ rw (alone, later) h
    ]
    | inr cut ↦
        let (kept, fewer) = evict_loop-IsCounted r.assembly_timeout_ms now r.assemblies h.entries in
        rw cut (
          find_assembly-IsBounded now frame
            (record r { assemblies = (evict_loop r.assembly_timeout_ms now r.assemblies).0 })
            (record { limit_kept = h.limit_kept; entries = kept; few = omega (arith, h.few) }))
  ]

  on_frames-IsBounded :
      (frames : List (ℕ × Frame)) (r : MessageReassembler)
      → IsBounded r
      → IsBounded (on_frames frames r).0
  unfolding on_frames
  on_frames-IsBounded [] r h = h
  on_frames-IsBounded ((now, frame) ∷ rest) r h =
      on_frames-IsBounded rest (on_frame now frame r).0 (on_frame-IsBounded now frame r h)

  held_bytes-le :
      (entries : List (ℕ × Assembly))
      → Entries IsCounted entries
      → held_bytes entries ≤ length entries * limit
  held_bytes-le [] h = omega arith
  held_bytes-le ((id, a) ∷ rest) h = omega (arith, held_bytes-le rest h.1, h.0.counted, h.0.within)

-- However many frames a peer sends, a reassembler that started empty holds at most 256 unfinished
-- messages and at most 256 times its message limit in bytes.
pub on_frames_memory :
    (limit : ℕ) (frames : List (ℕ × Frame))
    → let r = (on_frames frames (new_reassembler limit)).0 in
      (length r.assemblies ≤ 256) × (held_bytes r.assemblies ≤ 256 * limit)
on_frames_memory limit frames =
    let r = (on_frames frames (new_reassembler limit)).0 in
    let h : IsBounded limit r =
      on_frames-IsBounded limit frames (new_reassembler limit)
        (record { limit_kept = refl; entries = tt; few = omega arith }) in
    (h.few, le_trans (held_bytes-le limit r.assemblies h.entries) (mul-le-mul_right limit h.few))
