-- ===== src/Frame/Reassembler/Completion/Runs.antt =====
-- All frames of one message, fed to a reassembler that holds nothing else.
use mathlib.Core.List.{append-nil, append_assoc}
use axtp_ts_runtime.Common.{
  ℕ, zero, suc, ◌+◌, ◌-◌, ◌≤◌, ◌<◌, ◌^◌, List, [], ◌∷◌, ◌++◌, length, length-append, returns, ◌≡◌,
  refl, sym, ap, ◌∙◌, subst, arith,
}
use axtp_ts_runtime.Model.{Frame, Message}
use axtp_ts_runtime.Frame.Fragmenter.{MessageFragmenter, fragment}
use axtp_ts_runtime.Frame.Fragmenter.Laws.{AreParts, payloads, fragment-Fragmented, Fragmented}
use axtp_ts_runtime.Frame.Decoder.RoundTrip.{with_crc}
use axtp_ts_runtime.Frame.Reassembler.{
  MessageReassembler, Output, on_message, on_frame, on_frames, find_assembly, add_fragment,
  store_fragment, new_assembly,
}
use axtp_ts_runtime.Frame.Reassembler.Completion.{
  IsNext, holding, joined, joined-snoc, snoc, length-snoc, on_frame-filled, on_frame_first,
  on_frame_single,
}

abbrev pub frames_of : List (ℕ × Frame) → List Frame
frames_of [] = []
frames_of ((now, frame) ∷ rest) = frame ∷ frames_of rest

length-frames_of : (stamped : List (ℕ × Frame)) → length stamped ≡ length (frames_of stamped)
length-frames_of [] = refl
length-frames_of ((now, frame) ∷ rest) = ap suc (length-frames_of rest)

-- No frame comes in more than the timeout after the first.
abbrev pub Timely : ℕ → ℕ → List (ℕ × Frame) → Type 0
Timely t₀ timeout [] = Unit {0}
Timely t₀ timeout ((now, frame) ∷ rest) = (now - t₀ ≤ timeout) × Timely t₀ timeout rest

-- The checksum of a frame is not looked at.
pub on_frame-with_crc :
    (now : ℕ) (frame : Frame) (r : MessageReassembler)
    → on_frame now (with_crc frame) r ≡ on_frame now frame r
unfolding on_frame find_assembly add_fragment store_fragment new_assembly
on_frame-with_crc now frame r = refl

-- All frames but the last are taken in without a word, and the last one yields the outcome.
abbrev pub Completes :
    List (ℕ × Frame) → MessageReassembler → MessageReassembler × List Output → Type 0
Completes [] r outcome = ⊥
Completes ((now, frame) ∷ []) r outcome = on_frame now frame r ≡ outcome
Completes ((now, frame) ∷ next ∷ rest) r outcome =
    (r' : MessageReassembler) × (on_frame now frame r ≡ (r', []))
    × Completes (next ∷ rest) r' outcome

on_frames-Completes :
    (stamped : List (ℕ × Frame)) (r : MessageReassembler)
    (outcome : MessageReassembler × List Output)
    → Completes stamped r outcome
    → on_frames stamped r ≡ outcome
unfolding on_frames
on_frames-Completes [] r outcome h = absurd h
on_frames-Completes ((now, frame) ∷ []) r outcome h =
    rw h (ap (λ l. (outcome.0, l)) (append-nil outcome.1))
on_frames-Completes ((now, frame) ∷ next ∷ rest) r outcome (r', e, h) =
    rw e (on_frames-Completes (next ∷ rest) r' outcome h)

module _ (message : Message) (id count limit : ℕ) where
  abbrev pub whole : List ℕ → MessageReassembler → MessageReassembler × List Output
  whole body r = (
    record r { assemblies = [] },
    on_message (record { message_id = id; payload_type = message.payload_type; body = body }) ∷ [],
  )

  run-holding :
      (t₀ i : ℕ) (ps : List (List ℕ)) (k : ℕ) (stamped : List (ℕ × Frame)) (r : MessageReassembler)
      → AreParts message id count limit i (frames_of stamped)
      → i ≡ length ps
      → length stamped ≡ suc k
      → 1 < count
      → Timely t₀ r.assembly_timeout_ms stamped
      → length (joined ps) + length (payloads (frames_of stamped)) ≤ r.max_message_size
      → Completes stamped
          (holding message.payload_type id count t₀ ps (suc k) r)
          (whole (joined ps ++ payloads (frames_of stamped)) r)
  run-holding t₀ i ps k [] r parts at size many timely room = absurd (omega arith)
  run-holding t₀ i ps zero ((now, frame) ∷ x ∷ rest) r parts at size many timely room =
      absurd (omega arith)
  run-holding t₀ i ps zero ((now, frame) ∷ []) r parts at size many timely room =
      let next : IsNext message.payload_type id count ps frame = record {
        type_same = parts.0;
        id_same = parts.1;
        index_next = parts.2 ∙ at;
        count_same = parts.3;
      } in
      let fits : length (joined ps) + length frame.payload ≤ r.max_message_size =
        omega (arith, room, length-append frame.payload []) in
      on_frame-filled message.payload_type id count t₀ now ps zero frame r next many timely.0 fits
      ∙ (ap (λ b. whole b r)
          (joined-snoc ps frame.payload
            ∙ ap (λ l. joined ps ++ l) (sym (append-nil frame.payload))))
  run-holding t₀ i ps (suc k) ((now, frame) ∷ []) r parts at size many timely room =
      absurd (omega arith)
  run-holding t₀ i ps (suc k) ((now, frame) ∷ x ∷ more) r parts at size many timely room =
      let rest = x ∷ more in
      let q = frame.payload in
      let next : IsNext message.payload_type id count ps frame = record {
        type_same = parts.0;
        id_same = parts.1;
        index_next = parts.2 ∙ at;
        count_same = parts.3;
      } in
      let all = payloads (frames_of rest) in
      let fits : length (joined ps) + length q ≤ r.max_message_size =
        omega (arith, room, length-append q all) in
      (
        holding message.payload_type id count t₀ (snoc ps q) (suc k) r,
        on_frame-filled message.payload_type id count t₀ now ps (suc k) frame r next many timely.0
            fits,
        subst
            (λ b.
              Completes rest (holding message.payload_type id count t₀ (snoc ps q) (suc k) r)
                (whole b r))
            (ap (λ l. l ++ all) (joined-snoc ps q) ∙ append_assoc (joined ps) q all)
            (run-holding t₀ (i + 1) (snoc ps q) k rest r parts.5
              (omega (arith, at, length-snoc ps q)) (omega (arith, size)) many timely.1
              (omega (
                arith,
                room,
                ap length (joined-snoc ps q),
                length-append (joined ps) q,
                length-append q all,
              ))),
      )

  first :
      (frame : Frame) (frames : List Frame)
      → AreParts message id count limit 0 (frame ∷ frames)
      → IsNext message.payload_type id count [] frame
  first frame frames parts = record {
    type_same = parts.0;
    id_same = parts.1;
    index_next = parts.2;
    count_same = parts.3;
  }

  -- The frames of a message from the first to the last.
  pub whole-Completes :
      (now : ℕ) (frame : Frame) (rest : List (ℕ × Frame)) (r : MessageReassembler)
      → AreParts message id count limit 0 (frame ∷ frames_of rest)
      → suc (length rest) ≡ count
      → Timely now r.assembly_timeout_ms rest
      → length (payloads (frame ∷ frames_of rest)) ≤ r.max_message_size
      → Completes
          ((now, frame) ∷ rest)
          (record r { assemblies = [] })
          (whole (payloads (frame ∷ frames_of rest)) r)
  whole-Completes now frame [] r parts size timely room =
      on_frame_single message.payload_type id count now frame (record r { assemblies = [] })
        (first frame [] parts) (sym size)
      ∙ ap (λ b. whole b r) (sym (append-nil frame.payload))
  whole-Completes now frame (x ∷ more) r parts size timely room =
      let q = frame.payload in
      let all = payloads (frames_of (x ∷ more)) in
      let held = holding message.payload_type id count now (q ∷ []) (suc (length more)) r in
      (
        held,
        on_frame_first message.payload_type id count now (length more) frame r
            (first frame (frames_of (x ∷ more)) parts) (sym size)
            (omega (arith, room, length-append q all)),
        subst (λ b. Completes (x ∷ more) held (whole b r)) (ap (λ l. l ++ all) (append-nil q))
            (run-holding now 1 (q ∷ []) (length more) (x ∷ more) r parts.5 refl refl
              (omega (arith, size)) timely
              (omega (arith, room, length-append q all, length-append q []))),
      )

-- The frames of a fragmented message complete it.
pub fragment-Completes :
    (f : MessageFragmenter) (message : Message) (now : ℕ) (frame : Frame) (rest : List (ℕ × Frame))
    (r : MessageReassembler)
    → Fragmented f message (returns (frame ∷ frames_of rest))
    → Timely now r.assembly_timeout_ms rest
    → length message.body ≤ r.max_message_size
    → Completes
        ((now, frame) ∷ rest)
        (record r { assemblies = [] })
        (
          record r { assemblies = [] },
          on_message (record message { message_id = f.next_message_id }) ∷ [],
        )
fragment-Completes f message now frame rest r parts timely room =
    let count = length (frame ∷ frames_of rest) in
    subst
      (λ b.
        Completes ((now, frame) ∷ rest) (record r { assemblies = [] })
          (whole message f.next_message_id count f.max_frame_size b r))
      parts.1
      (whole-Completes message f.next_message_id count f.max_frame_size now frame rest r parts.0
        (ap suc (length-frames_of rest)) timely (omega (arith, room, ap length parts.1)))

-- A message within the reassembler's limit is cut into frames; the frames come in, in order, the
-- last at most the timeout after the first, at a reassembler that holds nothing: the message comes
-- out, once, with the fragmenter's id, its type and its whole body, and nothing else comes out and
-- nothing is held. The id and the limit of the frames fit their fields.
pub on_frames-fragment :
    (f : MessageFragmenter) (message : Message) (now : ℕ) (frame : Frame) (rest : List (ℕ × Frame))
    (r : MessageReassembler)
    → f.next_message_id < 2 ^ 16
    → 14 ≤ f.max_frame_size
    → f.max_frame_size < 2 ^ 16 + 14
    → (fragment f message).0 ≡ returns (frame ∷ frames_of rest)
    → Timely now r.assembly_timeout_ms rest
    → length message.body ≤ r.max_message_size
    → on_frames ((now, frame) ∷ rest) (record r { assemblies = [] }) ≡ (
      record r { assemblies = [] },
      on_message (record message { message_id = f.next_message_id }) ∷ [],
    )
on_frames-fragment f message now frame rest r id_word limit_min limit_word cut timely room =
    let parts =
      subst (Fragmented f message) cut
        (fragment-Fragmented f message id_word limit_min limit_word) in
    on_frames-Completes ((now, frame) ∷ rest) (record r { assemblies = [] }) _
      (fragment-Completes f message now frame rest r parts timely room)
