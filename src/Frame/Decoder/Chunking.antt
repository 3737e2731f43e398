-- ===== src/Frame/Decoder/Chunking.antt =====
-- The loop of the decoder ends by itself, and how the bytes were cut into chunks does not matter.
use mathlib.Core.List.{append_assoc}
use axtp_ts_runtime.Common.{
  ℕ, zero, suc, ◌≤◌, ◌<◌, List, ◌++◌, length, Result, returns, throws, ◌>>=◌, ◌≡◌, ◌≢◌, refl, sym,
  ap, ◌∙◌, subst, inl, inr, arith, length-append, Bool-cases, ltb, ltb→le,
}
use axtp_ts_runtime.Io.Reader.{Exn}
use axtp_ts_runtime.Model.{Frame}
use axtp_ts_runtime.Frame.Decoder.{
  resync_to_magic, Parsed, waits, rejects, emits, crashes, parse_frame, Sink, parse_loop, on_bytes,
}
use axtp_ts_runtime.Frame.Decoder.Resync.{
  length-resync_le, resync-append, resync_idempotent, resync-append_found,
}
use axtp_ts_runtime.Frame.Decoder.Stability.{
  extend, Shrinks, parse_frame-Shrinks, parse_frame-append,
}

-- What a round does, with the equation kept.
pub data Round (p : Parsed) : Type 0 where
  is_waiting : p ≡ waits → Round p
  is_rejecting : (code : ℕ) (rest : List ℕ) → p ≡ rejects code rest → Round p
  is_emitting : (frame : Frame) (rest : List ℕ) → p ≡ emits frame rest → Round p

Round-cases : (n : ℕ) (p : Parsed) → Shrinks n p → Round p
Round-cases n waits h = is_waiting refl
Round-cases n (rejects code rest) h = is_rejecting code rest refl
Round-cases n (emits frame rest) h = is_emitting frame rest refl
Round-cases n (crashes e) h = absurd h

pub round : (max_frame_size : ℕ) (buffer : List ℕ) → Round (parse_frame max_frame_size buffer)
round m buffer = Round-cases (length buffer) _ (parse_frame-Shrinks m buffer)

-- A round that does not wait has at least the header before it.
pub not_waiting_long : (m : ℕ) (buffer : List ℕ) → parse_frame m buffer ≢ waits → 14 ≤ length buffer
unfolding parse_frame
not_waiting_long m buffer h = elim (Bool-cases (ltb (length buffer) 14)) [
  | inl short ↦ absurd (h (rw short))
  | inr enough ↦ ltb→le (length buffer) 14 enough
]

pub shrinks :
    (m : ℕ) (buffer : List ℕ) (p : Parsed)
    → parse_frame m (resync_to_magic buffer) ≡ p
    → Shrinks (length (resync_to_magic buffer)) p
shrinks m buffer p e = subst (Shrinks (length (resync_to_magic buffer))) e (parse_frame-Shrinks m _)

module _ {S : Type 0} (sink : Sink S) where
  abbrev pub round_of : List ℕ → S → Parsed
  round_of buffer s = parse_frame (sink.max_frame_size s) (resync_to_magic buffer)

  pub loop_waits :
      (fuel : ℕ) (buffer : List ℕ) (s : S)
      → round_of buffer s ≡ waits
      → parse_loop sink (suc fuel) buffer s ≡ returns (resync_to_magic buffer, s)
  loop_waits fuel buffer s e = unfold parse_loop in rw (e, parse_loop)

  pub loop_rejects :
      (fuel : ℕ) (buffer : List ℕ) (s : S) (code : ℕ) (rest : List ℕ)
      → round_of buffer s ≡ rejects code rest
      → parse_loop sink (suc fuel) buffer s ≡ parse_loop sink fuel rest (sink.on_error code s)
  loop_rejects fuel buffer s code rest e = unfold parse_loop in rw (e, parse_loop)

  pub loop_emits :
      (fuel : ℕ) (buffer : List ℕ) (s : S) (frame : Frame) (rest : List ℕ)
      → round_of buffer s ≡ emits frame rest
      → parse_loop sink (suc fuel) buffer s ≡ parse_loop sink fuel rest (sink.on_frame frame s)
  loop_emits fuel buffer s frame rest e = unfold parse_loop in rw (e, parse_loop)

  -- The loop ends by itself, at a buffer that the decoder waits on.
  abbrev pub Stops : Result Exn (List ℕ × S) → Type 0
  Stops (throws e) = ⊥
  Stops (returns (buffer, s)) =
      (resync_to_magic buffer ≡ buffer) × (parse_frame (sink.max_frame_size s) buffer ≡ waits)

  parse_loop-Stops :
      (fuel : ℕ) (buffer : List ℕ) (s : S)
      → length buffer < fuel
      → Stops (parse_loop sink fuel buffer s)
  parse_loop-Stops zero buffer s h = elim h [ ]
  parse_loop-Stops (suc fuel) buffer s h = elim (round (sink.max_frame_size s) _) [
    | is_waiting e ↦ rw (loop_waits fuel buffer s e) (resync_idempotent buffer, e)
    | is_rejecting code rest e ↦ rw (loop_rejects fuel buffer s code rest e) (
        parse_loop-Stops fuel rest (sink.on_error code s)
          (omega (arith, shrinks _ buffer _ e, length-resync_le buffer)))
    | is_emitting frame rest e ↦ rw (loop_emits fuel buffer s frame rest e) (
        parse_loop-Stops fuel rest (sink.on_frame frame s)
          (omega (arith, shrinks _ buffer _ e, length-resync_le buffer)))
  ]

  -- Enough fuel is as good as more.
  parse_loop_fuel :
      (fuel more : ℕ) (buffer : List ℕ) (s : S)
      → length buffer < fuel
      → length buffer < more
      → parse_loop sink fuel buffer s ≡ parse_loop sink more buffer s
  parse_loop_fuel zero more buffer s h k = elim h [ ]
  parse_loop_fuel (suc fuel) zero buffer s h k = elim k [ ]
  parse_loop_fuel (suc fuel) (suc more) buffer s h k = elim (round (sink.max_frame_size s) _) [
    | is_waiting e ↦ loop_waits fuel buffer s e ∙ sym (loop_waits more buffer s e)
    | is_rejecting code rest e ↦
        let shorter = shrinks _ buffer _ e in
        loop_rejects fuel buffer s code rest e
        ∙ parse_loop_fuel fuel more rest (sink.on_error code s)
            (omega (arith, length-resync_le buffer)) (omega (arith, length-resync_le buffer))
        ∙ sym (loop_rejects more buffer s code rest e)
    | is_emitting frame rest e ↦
        let shorter = shrinks _ buffer _ e in
        loop_emits fuel buffer s frame rest e
        ∙ parse_loop_fuel fuel more rest (sink.on_frame frame s)
            (omega (arith, length-resync_le buffer)) (omega (arith, length-resync_le buffer))
        ∙ sym (loop_emits more buffer s frame rest e)
  ]

  -- The rest of the input, fed to the decoder where it stopped.
  abbrev resume : List ℕ → List ℕ × S → Result Exn (List ℕ × S)
  resume ys (buffer, s) = parse_loop sink (suc (length (buffer ++ ys))) (buffer ++ ys) s

  pub round-append :
      (buffer ys : List ℕ) (s : S)
      → round_of buffer s ≢ waits
      → round_of (buffer ++ ys) s ≡ extend (round_of buffer s) ys
  round-append buffer ys s busy =
      elim (parse_frame-append (sink.max_frame_size s) (resync_to_magic buffer) ys) [
        | inl e ↦ absurd (busy e)
        | inr e ↦
            let long = not_waiting_long (sink.max_frame_size s) (resync_to_magic buffer) busy in
            ap (parse_frame (sink.max_frame_size s))
              (sym (resync-append buffer ys) ∙ resync-append_found buffer ys (omega arith))
            ∙ e
      ]

  -- A buffer may be searched for the magic before more bytes arrive.
  loop-resync :
      (fuel : ℕ) (buffer ys : List ℕ) (s : S)
      → parse_loop sink (suc fuel) (resync_to_magic buffer ++ ys) s
        ≡ parse_loop sink (suc fuel) (buffer ++ ys) s
  loop-resync fuel buffer ys s =
      let same = resync-append buffer ys in
      let as_before : (p : Parsed)
          → round_of (resync_to_magic buffer ++ ys) s ≡ p
          → round_of (buffer ++ ys) s ≡ p =
        λ p e. ap (parse_frame (sink.max_frame_size s)) (sym same) ∙ e in
      elim (round (sink.max_frame_size s) (resync_to_magic (resync_to_magic buffer ++ ys))) [
        | is_waiting e ↦
            loop_waits fuel _ s e
            ∙ ap (λ b. returns (b, s)) same
            ∙ sym (loop_waits fuel (buffer ++ ys) s (as_before _ e))
        | is_rejecting code rest e ↦
            loop_rejects fuel _ s code rest e
            ∙ sym (loop_rejects fuel (buffer ++ ys) s code rest (as_before _ e))
        | is_emitting frame rest e ↦
            loop_emits fuel _ s frame rest e
            ∙ sym (loop_emits fuel (buffer ++ ys) s frame rest (as_before _ e))
      ]

  parse_loop-append :
      (fuel more : ℕ) (buffer ys : List ℕ) (s : S)
      → length buffer < fuel
      → length (buffer ++ ys) < more
      → (parse_loop sink fuel buffer s >>= resume ys) ≡ parse_loop sink more (buffer ++ ys) s
  parse_loop-append zero more buffer ys s h k = elim h [ ]
  parse_loop-append (suc fuel) zero buffer ys s h k = elim k [ ]
  parse_loop-append (suc fuel) (suc more) buffer ys s h k = elim (round (sink.max_frame_size s) _) [
    | is_waiting e ↦ rw (loop_waits fuel buffer s e) (
        parse_loop_fuel _ (suc more) (resync_to_magic buffer ++ ys) s (omega arith) (
          omega (
            arith,
            length-append buffer ys,
            length-append (resync_to_magic buffer) ys,
            length-resync_le buffer,
          ))
        ∙ loop-resync more buffer ys s)
    | is_rejecting code rest e ↦
        let shorter = shrinks _ buffer _ e in
        rw
          (
            loop_rejects fuel buffer s code rest e,
            loop_rejects more (buffer ++ ys) s code (rest ++ ys)
                (round-append buffer ys s (rw e (λ p. cc)) ∙ ap (λ p. extend p ys) e),
          )
          (parse_loop-append fuel more rest ys (sink.on_error code s)
            (omega (arith, length-resync_le buffer)) (fewer rest shorter))
    | is_emitting frame rest e ↦
        let shorter = shrinks _ buffer _ e in
        rw
          (
            loop_emits fuel buffer s frame rest e,
            loop_emits more (buffer ++ ys) s frame (rest ++ ys)
                (round-append buffer ys s (rw e (λ p. cc)) ∙ ap (λ p. extend p ys) e),
          )
          (parse_loop-append fuel more rest ys (sink.on_frame frame s)
            (omega (arith, length-resync_le buffer)) (fewer rest shorter))
  ]
    where
      fewer :
          (rest : List ℕ)
          → length rest < length (resync_to_magic buffer)
          → length (rest ++ ys) < more
      fewer rest shorter =
          omega (arith, length-append rest ys, length-append buffer ys, length-resync_le buffer)

  -- On any input, from any state, `on_bytes` does not throw, and its loop ends because the decoder
  -- waits for more bytes, not because of the fuel: what is left begins with the magic or is too
  -- short to tell, and is no complete frame and no refused one.
  pub on_bytes-Stops : (buffer bytes : List ℕ) (s : S) → Stops (on_bytes sink buffer bytes s)
  unfolding on_bytes
  on_bytes-Stops buffer bytes s = parse_loop-Stops _ (buffer ++ bytes) s (omega arith)

  -- Feeding two chunks one after the other does what feeding them as one chunk does: the same
  -- frames and errors reach the sink in the same order, and the same bytes are kept.
  pub on_bytes-append :
      (buffer xs ys : List ℕ) (s : S)
      → (on_bytes sink buffer xs s >>= λ (rest, s'). on_bytes sink rest ys s')
        ≡ on_bytes sink buffer (xs ++ ys) s
  unfolding on_bytes
  on_bytes-append buffer xs ys s =
      rw (← append_assoc buffer xs ys)
        (parse_loop-append _ _ (buffer ++ xs) ys s (omega arith) (omega arith))
