-- ===== src/Wire/Span.antt =====
-- The frames of a message, handed to a reassembler in a span of time.
use axtp_ts_runtime.Common.{ℕ, ◌+◌, ◌≤◌, List, [], ◌∷◌, ◌≡◌, refl, sym, ap, subst}
use axtp_ts_runtime.Model.{Frame}
use axtp_ts_runtime.Frame.Reassembler.{MessageReassembler, Output, on_frame}
use axtp_ts_runtime.Frame.Reassembler.Completion.Runs.{frames_of, Completes}

module _ (start timeout : ℕ) where
  -- The time is in the timeout's span from the start on.
  abbrev pub IsIn : ℕ → Type 0
  IsIn now = (start ≤ now) × (now ≤ start + timeout)

  abbrev pub AreIn : {A : Type 0} → List (ℕ × A) → Type 0
  AreIn [] = Unit {0}
  AreIn ((now, a) ∷ rest) = IsIn now × AreIn rest

  abbrev stamp : ℕ → List Frame → List (ℕ × Frame)
  stamp now [] = []
  stamp now (frame ∷ frames) = (now, frame) ∷ stamp now frames

  frames_of-stamp : (now : ℕ) (frames : List Frame) → frames_of (stamp now frames) ≡ frames
  frames_of-stamp now [] = refl
  frames_of-stamp now (frame ∷ frames) = ap (◌∷◌ frame) (frames_of-stamp now frames)

  stamp-AreIn : (now : ℕ) (frames : List Frame) → IsIn now → AreIn (stamp now frames)
  stamp-AreIn now [] inside = tt
  stamp-AreIn now (frame ∷ frames) inside = (inside, stamp-AreIn now frames inside)

  -- Whenever the frames come in the span, all but the last yield nothing, and the last the outcome.
  abbrev pub Awaits : MessageReassembler × List Output → List Frame → MessageReassembler → Type 0
  Awaits outcome [] r = ⊥
  Awaits outcome (frame ∷ []) r = (now : ℕ) → IsIn now → on_frame now frame r ≡ outcome
  Awaits outcome (frame ∷ next ∷ rest) r =
      (now : ℕ)
      → IsIn now
      → ((on_frame now frame r).1 ≡ []) × Awaits outcome (next ∷ rest) (on_frame now frame r).0

  pub Completes-Awaits :
      (outcome : MessageReassembler × List Output) (frames : List Frame) (r : MessageReassembler)
      → ((stamped : List (ℕ × Frame))
          → frames_of stamped ≡ frames
          → AreIn stamped
          → Completes stamped r outcome)
      → Awaits outcome frames r
  Completes-Awaits outcome [] r h = absurd (h [] refl tt)
  Completes-Awaits outcome (frame ∷ []) r h = λ now inside. h ((now, frame) ∷ []) refl (inside, tt)
  Completes-Awaits outcome (frame ∷ next ∷ rest) r h = λ now inside.
      let (r', e, c) =
        h ((now, frame) ∷ stamp now (next ∷ rest))
          (ap (◌∷◌ frame) (frames_of-stamp now (next ∷ rest)))
          (inside, stamp-AreIn now (next ∷ rest) inside) in
      (
        ap (λ (o : MessageReassembler × List Output). o.1) e,
        Completes-Awaits outcome (next ∷ rest) (on_frame now frame r).0 (later now inside),
      )
    where
      later :
          (now : ℕ)
          → IsIn now
          → (stamped : List (ℕ × Frame)) → frames_of stamped ≡ next ∷ rest
          → AreIn stamped
          → Completes stamped (on_frame now frame r).0 outcome
      later now inside [] same all = absurd (cc same)
      later now inside (x ∷ xs) same all =
          let (r', e, c) = h ((now, frame) ∷ x ∷ xs) (ap (◌∷◌ frame) same) (inside, all) in
          subst (λ r. Completes (x ∷ xs) r outcome)
            (sym (ap (λ (o : MessageReassembler × List Output). o.0) e)) c
