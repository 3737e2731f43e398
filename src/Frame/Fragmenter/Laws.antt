-- ===== src/Frame/Fragmenter/Laws.antt =====
-- What `fragment` returns: frames within the limit, whose payloads are the body cut in order.
use native.Mathlib.Nat.{lt-div-mul-add, le-div_iff_mul-le, zero-mul}
use axtp_ts_runtime.Common.{
  ℕ, zero, suc, ◌+◌, ◌-◌, ◌*◌, ◌^◌, ◌≤◌, ◌<◌, List, [], ◌∷◌, ◌++◌, length, take, drop, ◌==◌, ltb,
  ltb→le, ltb→lt, ==→eq, ◌≡◌, ◌≢◌, refl, sym, ap, ◌∙◌, arith, inl, inr, Bool-cases, Result, returns,
  throws, length-take, length-drop, take_all, take-add, drop-drop, length-eq-zero,
}
use axtp_ts_runtime.Model.{Frame, Message}
use axtp_ts_runtime.Frame.Decoder.RoundTrip.{IsSendable}
use axtp_ts_runtime.Frame.Fragmenter.{
  MessageFragmenter, FragmentError, no_payload_capacity, too_many_fragments, payload_capacity,
  take_message_id, make_frame, slice_at, make_frames, ceil_div, fragment_as, fragment,
}

slice_at-take :
    (body : List ℕ) (capacity offset : ℕ)
    → slice_at body capacity offset ≡ take capacity (drop offset body)
unfolding slice_at
slice_at-take body capacity offset = elim (Bool-cases (ltb (length body) (offset + capacity))) [
  | inr inside ↦
      ap (λ n. take n (drop offset body))
        (omega (arith, ltb→le (length body) (offset + capacity) inside))
  | inl past ↦
      take_all _ (drop offset body)
        (omega (arith, length-drop offset body, ltb→lt (length body) (offset + capacity) past))
      ∙ sym (
          take_all capacity (drop offset body)
            (omega (arith, length-drop offset body, ltb→lt (length body) (offset + capacity) past)))
]

-- The payloads, put together again.
abbrev pub payloads : List Frame → List ℕ
payloads [] = []
payloads (frame ∷ frames) = frame.payload ++ payloads frames

payloads-make_frames :
    (message : Message) (id capacity count rounds i : ℕ)
    → payloads (make_frames message id capacity count rounds i)
      ≡ take (rounds * capacity) (drop (i * capacity) message.body)
unfolding make_frames make_frame
payloads-make_frames message id capacity count zero i = rw (zero-mul capacity) refl
payloads-make_frames message id capacity count (suc rounds) i =
    let body = message.body in
    ap (λ l. l ++ payloads (make_frames message id capacity count rounds (i + 1)))
      (slice_at-take body capacity (i * capacity))
    ∙ ap (λ l. take capacity (drop (i * capacity) body) ++ l)
        (payloads-make_frames message id capacity count rounds (i + 1)
          ∙ ap (λ n. take (rounds * capacity) (drop n body)) next
          ∙ ap (take (rounds * capacity)) (sym (drop-drop (i * capacity) capacity body)))
    ∙ sym (take-add capacity (rounds * capacity) (drop (i * capacity) body))
    ∙ ap (λ n. take n (drop (i * capacity) body)) more
  where
    next : (i + 1) * capacity ≡ i * capacity + capacity
    next = omega arith

    more : capacity + rounds * capacity ≡ suc rounds * capacity
    more = omega arith

ceil_div_enough : (n capacity : ℕ) → 0 < capacity → n ≤ ceil_div n capacity * capacity
ceil_div_enough n capacity h = omega (arith, lt-div-mul-add {a = n + capacity - 1} h)

-- Frames `i`, `i + 1`, … of `count` for this message, each within the limit.
module _ (message : Message) (id count limit : ℕ) where
  abbrev pub AreParts : ℕ → List Frame → Type 0
  AreParts i [] = Unit {0}
  AreParts i (frame ∷ frames) =
      (frame.header.payload_type ≡ message.payload_type)
      × (frame.header.message_id ≡ id)
      × (frame.header.frame_index ≡ i)
      × (frame.header.frame_count ≡ count)
      × IsSendable limit frame
      × AreParts (i + 1) frames

  make_frame-IsSendable :
      (i : ℕ) (payload : List ℕ)
      → id < 2 ^ 16
      → count < 256
      → i < count
      → length payload + 14 ≤ limit
      → length payload < 2 ^ 16
      → IsSendable limit (make_frame message id i count payload)
  unfolding make_frame
  make_frame-IsSendable i payload hid hcount hi hlimit hword = omega arith

  make_frames-AreParts :
      (capacity rounds i : ℕ)
      → id < 2 ^ 16
      → count < 256
      → capacity + 14 ≤ limit
      → capacity < 2 ^ 16
      → i + rounds ≤ count
      → AreParts i (make_frames message id capacity count rounds i)
  unfolding make_frames
  make_frames-AreParts capacity zero i hid hcount hcap hword hi = tt
  make_frames-AreParts capacity (suc rounds) i hid hcount hcap hword hi =
      let payload = slice_at message.body capacity (i * capacity) in
      let short : length payload ≤ capacity = omega (
        arith,
        ap length (slice_at-take message.body capacity (i * capacity)),
        length-take capacity (drop (i * capacity) message.body),
      ) in
      (
        unfold make_frame in refl,
        unfold make_frame in refl,
        unfold make_frame in refl,
        unfold make_frame in refl,
        make_frame-IsSendable i payload hid hcount (omega arith) (omega arith) (omega arith),
        make_frames-AreParts capacity rounds (i + 1) hid hcount hcap hword (omega arith),
      )

length-make_frames :
    (message : Message) (id capacity count rounds i : ℕ)
    → length (make_frames message id capacity count rounds i) ≡ rounds
unfolding make_frames
length-make_frames message id capacity count zero i = refl
length-make_frames message id capacity count (suc rounds) i =
    ap suc (length-make_frames message id capacity count rounds (i + 1))

-- The outcome of cutting a message into frames, on every branch.
abbrev pub Fragmented : MessageFragmenter → Message → Result FragmentError (List Frame) → Type 0
Fragmented f message (returns frames) =
    AreParts message f.next_message_id (length frames) f.max_frame_size 0 frames
    × (payloads frames ≡ message.body)
    × (0 < length frames)
    × (length frames < 256)
Fragmented f message (throws no_payload_capacity) =
    (f.max_frame_size ≤ 14) × (0 < length message.body)
Fragmented f message (throws too_many_fragments) =
    (14 < f.max_frame_size) × (255 * (f.max_frame_size - 14) < length message.body)

capacity_eq : (f : MessageFragmenter) → payload_capacity f ≡ f.max_frame_size - 14
unfolding payload_capacity
capacity_eq f = ground arith

too_many : (n capacity : ℕ) → 0 < capacity → 255 < ceil_div n capacity → 255 * capacity < n
too_many n capacity h k =
    omega (arith, (le-div_iff_mul-le {k = capacity} {x = 256} {y = n + capacity - 1} h).0 k)

single-Fragmented :
    (f : MessageFragmenter) (message : Message)
    → f.next_message_id < 2 ^ 16
    → 14 ≤ f.max_frame_size
    → length message.body ≡ 0
    → Fragmented f message (returns (make_frame message f.next_message_id 0 1 [] ∷ []))
unfolding make_frame
single-Fragmented f message hid hmin h = (
  (
    refl,
    refl,
    refl,
    refl,
    make_frame-IsSendable message f.next_message_id 1 f.max_frame_size 0 [] hid (omega arith)
        (omega arith) (omega arith) (omega arith),
    tt,
  ),
  sym (length-eq-zero message.body h),
  omega arith,
  omega arith,
)

-- The branch where the body is cut.
cut-Fragmented :
    (f : MessageFragmenter) (message : Message)
    → f.next_message_id < 2 ^ 16
    → f.max_frame_size < 2 ^ 16 + 14
    → 14 < f.max_frame_size
    → 0 < length message.body
    → ceil_div (length message.body) (payload_capacity f) < 256
    → Fragmented f message (
        returns (
          make_frames message f.next_message_id
            (payload_capacity f)
            (ceil_div (length message.body) (payload_capacity f))
            (ceil_div (length message.body) (payload_capacity f))
            0))
cut-Fragmented f message hid hmax hmin hbody hcount =
    let n = length message.body in
    let capacity = payload_capacity f in
    let count = ceil_div n capacity in
    let size : capacity ≡ f.max_frame_size - 14 = capacity_eq f in
    let frames = make_frames message f.next_message_id capacity count count 0 in
    let all : length frames ≡ count =
      length-make_frames message f.next_message_id capacity count count 0 in
    let enough : n ≤ count * capacity = ceil_div_enough n capacity (omega arith) in
    let parts : AreParts message f.next_message_id count f.max_frame_size 0 frames =
      make_frames-AreParts message f.next_message_id count f.max_frame_size capacity count 0 hid
        hcount (omega arith) (omega arith) (omega arith) in
    (
      rw all parts,
      payloads-make_frames message f.next_message_id capacity count count 0
          ∙ ap (λ k. take (count * capacity) (drop k message.body)) (zero-mul capacity)
          ∙ take_all (count * capacity) message.body enough,
      omega (arith, all, zero_rounds count enough),
      omega (arith, all),
    )
  where
    zero_rounds : (count : ℕ) → length message.body ≤ count * payload_capacity f → 0 < count
    zero_rounds zero h = absurd (omega (arith, zero-mul (payload_capacity f)))
    zero_rounds (suc k) h = omega arith

-- Cutting a message into frames: if the code returns, every frame carries the message's type, the
-- fragmenter's id, its position and the number of all frames, passes the checks of a decoder with
-- the same limit, and the payloads in order are the body; it throws for want of capacity only when
-- the limit leaves no room for a payload and the body is not empty, and for too many frames only
-- when the body does not fit 255 payloads. The id fits 16 bits, the limit holds the 14 bytes around
-- a payload, and a payload fits its length field.
pub fragment-Fragmented :
    (f : MessageFragmenter) (message : Message)
    → f.next_message_id < 2 ^ 16
    → 14 ≤ f.max_frame_size
    → f.max_frame_size < 2 ^ 16 + 14
    → Fragmented f message (fragment f message).0
unfolding fragment fragment_as
fragment-Fragmented f message hid hmin hmax =
    let n = length message.body in
    let capacity = payload_capacity f in
    let size : capacity ≡ f.max_frame_size - 14 = capacity_eq f in
    elim (Bool-cases (capacity == 0)) [
      | inl no_room ↦ elim (Bool-cases (ltb 0 n)) [
        | inl some_body ↦
            rw (no_room, some_body) (omega (arith, ==→eq capacity 0 no_room), ltb→lt 0 n some_body)
        | inr no_body ↦
            rw (no_room, no_body)
              (single-Fragmented f message hid hmin (omega (arith, ltb→le 0 n no_body)))
      ]
      | inr room ↦ elim (Bool-cases (n == 0)) [
        | inl no_body ↦
            rw (room, no_body) (single-Fragmented f message hid hmin (==→eq n 0 no_body))
        | inr some_body ↦ elim (Bool-cases (ltb 255 (ceil_div n capacity))) [
          | inl over ↦
              let positive : 0 < capacity = ground (arith, room) in
              rw (room, some_body, over)
                (
                  omega arith,
                  rw (← size)
                      (too_many n capacity positive (ltb→lt 255 (ceil_div n capacity) over)),
                )
          | inr fits ↦
              rw (room, some_body, fits)
                (cut-Fragmented f message hid hmax (ground (arith, room, size))
                  (ground (arith, some_body))
                  (omega (arith, ltb→le 255 (ceil_div n capacity) fits)))
        ]
      ]
    ]

-- Ids stay between 1 and 0xffff, and each call takes the next one, whether it throws or not.
pub fragment_next_id :
    (f : MessageFragmenter) (message : Message)
    → 1 ≤ f.next_message_id
    → f.next_message_id ≤ 0xffff
    → let f' = (fragment f message).1 in
      (1 ≤ f'.next_message_id)
      × (f'.next_message_id ≤ 0xffff)
      × (f'.next_message_id ≢ f.next_message_id)
      × (f'.max_frame_size ≡ f.max_frame_size)
unfolding fragment take_message_id
fragment_next_id f message lo hi = ground arith
