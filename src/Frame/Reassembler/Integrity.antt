-- ===== src/Frame/Reassembler/Integrity.antt =====
-- Whatever the order of the frames, and whatever else is under way, a message that comes out is the
-- message that its frames were cut from.
use mathlib.Core.List.{append-nil}
use axtp_ts_runtime.Common.{
  ℕ, ◌+◌, ◌-◌, List, [], ◌∷◌, Option, none, some, not, ◌||◌, ◌==◌, ltb, leb, length, replicate, set,
  get_elem?, All, All-append, ◌≡◌, sym, ◌∙◌, subst, arith, inl, inr, Bool-cases, Option-cases,
  ==→eq,
}
use axtp_ts_runtime.Common.Maps.{lookup, Entries, Entries-lookup, Entries-insert, Entries-delete}
use axtp_ts_runtime.Model.{PayloadType, Frame}
use axtp_ts_runtime.Frame.Reassembler.{
  Assembly, MessageReassembler, Output, on_message, on_error, evict_loop, evict_expired,
  some_missing, new_assembly, store_fragment, add_fragment, find_assembly, on_frame, on_frames,
  same_type, max_pending_assemblies,
}
use axtp_ts_runtime.Frame.Reassembler.Fragments.{
  Agrees, join, replicate-Agrees, set-Agrees, concat-Agrees,
}

-- The message that the frames of an id belong to, as its sender cut it.
pub record Origin : Type 0 where
  pub payload_type : PayloadType
  pub chunks : List (List ℕ)

module _ (origins : ℕ → Origin) where
  pub record IsGenuine (frame : Frame) : Type 0 where
    pub type_same : frame.header.payload_type ≡ (origins frame.header.message_id).payload_type
    pub count_same : frame.header.frame_count ≡ length (origins frame.header.message_id).chunks
    pub chunk_same :
        get_elem? (origins frame.header.message_id).chunks frame.header.frame_index
        ≡ some frame.payload

  pub record IsPartial (id : ℕ) (assembly : Assembly) : Type 0 where
    pub type_kept : assembly.payload_type ≡ (origins id).payload_type
    pub agrees : Agrees assembly.fragments (origins id).chunks

  abbrev pub IsWhole : Output → Type 0
  IsWhole (on_error code) = Unit {0}
  IsWhole (on_message message) =
      (message.payload_type ≡ (origins message.message_id).payload_type)
      × (message.body ≡ join (origins message.message_id).chunks)

  abbrev pub ArePartial : MessageReassembler → Type 0
  ArePartial r = Entries IsPartial r.assemblies

  abbrev pub Preserves : MessageReassembler × List Output → Type 0
  Preserves (r, outputs) = ArePartial r × All IsWhole outputs

  evict_loop-Preserves :
      (timeout now : ℕ) (entries : List (ℕ × Assembly))
      → Entries IsPartial entries
      → Entries IsPartial (evict_loop timeout now entries).0
        × All IsWhole (evict_loop timeout now entries).1
  unfolding evict_loop
  evict_loop-Preserves timeout now [] h = (tt, tt)
  evict_loop-Preserves timeout now ((id, a) ∷ rest) h =
      let (kept, reports) = evict_loop-Preserves timeout now rest h.1 in
      elim (Bool-cases (ltb timeout (now - a.created_at))) [
        | inl expired ↦ rw expired (kept, (tt, reports))
        | inr alive ↦ rw alive ((h.0, kept), reports)
      ]

  store_fragment-Preserves :
      (frame : Frame) (assembly : Assembly) (r : MessageReassembler)
      → IsGenuine frame
      → IsPartial frame.header.message_id assembly
      → ArePartial r
      → Preserves (store_fragment frame assembly r)
  unfolding store_fragment
  store_fragment-Preserves frame assembly r g p h =
      let id = frame.header.message_id in
      let fragments = set assembly.fragments frame.header.frame_index (some frame.payload) in
      let agrees : Agrees fragments (origins id).chunks =
        set-Agrees assembly.fragments (origins id).chunks frame.header.frame_index frame.payload
          p.agrees g.chunk_same in
      let gone = Entries-delete IsPartial id r.assemblies h in
      elim (Bool-cases (ltb r.max_message_size (assembly.total_size + length frame.payload))) [
        | inl over ↦ rw over (gone, (tt, tt))
        | inr fits ↦ elim (Bool-cases (some_missing fragments)) [
          | inl more ↦
              rw (fits, more)
                (
                  Entries-insert IsPartial id _ r.assemblies
                      (record { type_kept = p.type_kept; agrees = agrees }) h,
                  tt,
                )
          | inr last ↦
              rw (fits, last)
                (gone, ((p.type_kept, concat-Agrees fragments (origins id).chunks agrees last), tt))
        ]
      ]

  add_fragment-Preserves :
      (frame : Frame) (assembly : Assembly) (r : MessageReassembler)
      → IsGenuine frame
      → IsPartial frame.header.message_id assembly
      → ArePartial r
      → Preserves (add_fragment frame assembly r)
  unfolding add_fragment
  add_fragment-Preserves frame assembly r g p h =
      let id = frame.header.message_id in
      let stored = store_fragment-Preserves frame assembly r g p h in
      elim (Bool-cases (
        not (same_type assembly.payload_type frame.header.payload_type)
        || (not (assembly.frame_count == frame.header.frame_count)
            || leb (length assembly.fragments) frame.header.frame_index))) [
              | inl other ↦ rw other (Entries-delete IsPartial id r.assemblies h, tt)
              | inr same ↦
                  rw same (by_slot (get_elem? assembly.fragments frame.header.frame_index) stored)
            ]
    where
      by_slot :
          (slot : Option (Option (List ℕ)))
          → Preserves (store_fragment frame assembly r)
          → Preserves (elim slot [
            | some (some bytes) ↦ (r, [])
            | some none ↦ store_fragment frame assembly r
            | none ↦ store_fragment frame assembly r
          ])
      by_slot none stored = stored
      by_slot (some none) stored = stored
      by_slot (some (some bytes)) stored = (h, tt)

  find_assembly-Preserves :
      (now : ℕ) (frame : Frame) (r : MessageReassembler)
      → IsGenuine frame
      → ArePartial r
      → Preserves (find_assembly now frame r)
  unfolding find_assembly new_assembly
  find_assembly-Preserves now frame r g h =
      let id = frame.header.message_id in
      elim (Option-cases (lookup id r.assemblies)) [
        | inr (assembly, e) ↦
            rw (e, find_assembly)
              (add_fragment-Preserves frame assembly r g
                (Entries-lookup IsPartial id r.assemblies h e) h)
        | inl e ↦ elim (Bool-cases (leb max_pending_assemblies (length r.assemblies))) [
          | inl full ↦ rw (e, find_assembly, full) (h, (tt, tt))
          | inr room ↦
              let fresh : IsPartial id (new_assembly now frame) = record {
                type_kept = g.type_same;
                agrees =
                    subst (λ n. Agrees (replicate n none) (origins id).chunks) (sym g.count_same)
                      (replicate-Agrees (origins id).chunks);
              } in
              rw (e, find_assembly, room)
                (add_fragment-Preserves frame (new_assembly now frame) _ g fresh
                  (Entries-insert IsPartial id _ r.assemblies fresh h))
        ]
      ]

  single_chunk :
      (chunks : List (List ℕ)) (i : ℕ) (payload : List ℕ)
      → length chunks ≡ 1
      → i ≡ 0
      → get_elem? chunks i ≡ some payload
      → payload ≡ join chunks
  single_chunk [] i payload h z e = absurd (omega arith)
  single_chunk (c ∷ []) i payload h z e =
      cc (append-nil c, subst (λ k. get_elem? (c ∷ []) k ≡ some payload) z e)
  single_chunk (c ∷ d ∷ cs) i payload h z e = absurd (omega arith)

  pub on_frame-Preserves :
      (now : ℕ) (frame : Frame) (r : MessageReassembler)
      → IsGenuine frame
      → ArePartial r
      → Preserves (on_frame now frame r)
  unfolding on_frame evict_expired
  on_frame-Preserves now frame r g h = elim (Bool-cases (frame.header.frame_count == 1)) [
    | inl alone ↦ elim (Bool-cases (frame.header.frame_index == 0)) [
      | inl first ↦
          rw (alone, first)
            (
              h,
              (
                (
                  g.type_same,
                  single_chunk (origins frame.header.message_id).chunks frame.header.frame_index
                      frame.payload (sym g.count_same ∙ ==→eq frame.header.frame_count 1 alone)
                      (==→eq frame.header.frame_index 0 first) g.chunk_same,
                ),
                tt,
              ),
            )
      | inr later ↦ rw (alone, later) (h, tt)
    ]
    | inr cut ↦
        let (kept, reports) = evict_loop-Preserves r.assembly_timeout_ms now r.assemblies h in
        let (stays, outputs) =
          find_assembly-Preserves now frame
            (record r { assemblies = (evict_loop r.assembly_timeout_ms now r.assemblies).0 }) g
            kept in
        rw cut (stays, All-append IsWhole _ _ reports outputs)
  ]

  -- If every frame that comes in is a fragment of its id's message, at whatever time, in whatever
  -- order and however often, then every message that comes out is the message of its id, type and
  -- whole body, and the assemblies that are left hold chunks of their messages only.
  pub on_frames-Preserves :
      (frames : List (ℕ × Frame)) (r : MessageReassembler)
      → All (λ p. IsGenuine p.1) frames
      → ArePartial r
      → Preserves (on_frames frames r)
  unfolding on_frames
  on_frames-Preserves [] r g h = (h, tt)
  on_frames-Preserves ((now, frame) ∷ rest) r g h =
      let (kept, outputs) = on_frame-Preserves now frame r g.0 h in
      let (stays, more) = on_frames-Preserves rest (on_frame now frame r).0 g.1 kept in
      (stays, All-append IsWhole _ _ outputs more)
