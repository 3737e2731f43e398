-- ===== src/Heartbeat/Peer.antt =====
-- A peer is given up when it is silent for the timeout, and not before.
use mathlib.Core.List.{append-nil, append_assoc}
use axtp_ts_runtime.Common.{
  ℕ, zero, suc, ◌+◌, ◌-◌, ◌≤◌, List, [], ◌∷◌, ◌++◌, Option, none, some, Bool, true, false, not,
  ◌==◌, if◌then◌else◌, ◌≡◌, refl, sym, ap, subst, ◌∙◌, arith, inl, inr, Bool-cases,
}
use axtp_ts_runtime.Heartbeat.{
  Heartbeat, HeartbeatOutput, on_tick, on_timeout, schedule_tick, schedule_timeout, start, stop,
  reset, fire_tick, fire_timeout, is_due, tick_due, timeout_due, answered, millisecond, elapse,
}

-- Whether there comes a silence of `timeout` milliseconds, when `left` of them are left.
abbrev pub falls_silent : ℕ → ℕ → List Bool → Bool
falls_silent timeout left [] = false
falls_silent timeout left (true ∷ answers) = falls_silent timeout (timeout - 1) answers
falls_silent timeout zero (false ∷ answers) = true
falls_silent timeout (suc left) (false ∷ answers) = falls_silent timeout left answers

abbrev pub timeouts : List HeartbeatOutput → ℕ
timeouts [] = 0
timeouts (on_tick ∷ rest) = timeouts rest
timeouts (on_timeout ∷ rest) = suc (timeouts rest)

timeouts-append : (xs ys : List HeartbeatOutput) → timeouts (xs ++ ys) ≡ timeouts xs + timeouts ys
timeouts-append [] ys = omega arith
timeouts-append (on_tick ∷ xs) ys = timeouts-append xs ys
timeouts-append (on_timeout ∷ xs) ys = omega (arith, timeouts-append xs ys)

-- A running heartbeat, whatever its next probe.
abbrev beating : Heartbeat → Option ℕ → ℕ → Heartbeat
beating h tick deadline = record h {
  running = true;
  tick_timer = tick;
  timeout_timer = some deadline;
}

abbrev stopped : Heartbeat → Heartbeat
stopped h = record h { running = false; tick_timer = none; timeout_timer = none }

-- A probe leaves the timeout alone.
abbrev next_tick : ℕ → Heartbeat → Option ℕ → Option ℕ
next_tick now h tick = if is_due now tick then some (now + h.interval_ms) else tick

abbrev ticked : ℕ → Option ℕ → List HeartbeatOutput
ticked now tick = if is_due now tick then on_tick ∷ [] else []

tick_due-beating :
    (now : ℕ) (h : Heartbeat) (tick : Option ℕ) (deadline : ℕ)
    → tick_due now (beating h tick deadline)
      ≡ (beating h (next_tick now h tick) deadline, ticked now tick)
unfolding tick_due fire_tick schedule_tick
tick_due-beating now h tick deadline = elim (Bool-cases (is_due now tick)) [
  | inl due ↦ rw due refl
  | inr early ↦ rw early refl
]

elapse-stopped :
    (answers : List Bool) (now : ℕ) (h : Heartbeat)
    → elapse answers now (stopped h) ≡ (stopped h, [])
unfolding elapse millisecond answered reset tick_due timeout_due
elapse-stopped [] now h = refl
elapse-stopped (true ∷ answers) now h = rw (elapse-stopped answers (now + 1) h) refl
elapse-stopped (false ∷ answers) now h = rw (elapse-stopped answers (now + 1) h) refl

timeout_late :
    (now : ℕ) (h : Heartbeat) (tick : Option ℕ) (deadline : ℕ)
    → (deadline == now) ≡ false
    → timeout_due now (beating h tick deadline) ≡ (beating h tick deadline, [])
unfolding timeout_due
timeout_late now h tick deadline late = rw late refl

timeout_now :
    (now : ℕ) (h : Heartbeat) (tick : Option ℕ) (deadline : ℕ)
    → (deadline == now) ≡ true
    → timeout_due now (beating h tick deadline) ≡ (stopped h, on_timeout ∷ [])
unfolding timeout_due fire_timeout stop
timeout_now now h tick deadline due = rw due refl

-- The rest of a millisecond, behind the answer.
abbrev rest_of : ℕ → Heartbeat → Heartbeat × List HeartbeatOutput
rest_of now h =
    let (h', ticked) = tick_due now h in
    let (h'', timed_out) = timeout_due now h' in (h'', ticked ++ timed_out)

rest_late :
    (now : ℕ) (h : Heartbeat) (tick : Option ℕ) (deadline : ℕ)
    → (deadline == now) ≡ false
    → rest_of now (beating h tick deadline)
      ≡ (beating h (next_tick now h tick) deadline, ticked now tick ++ [])
rest_late now h tick deadline late =
    rw
      (
        tick_due-beating now h tick deadline,
        timeout_late now h (next_tick now h tick) deadline late,
      )
      refl

rest_now :
    (now : ℕ) (h : Heartbeat) (tick : Option ℕ) (deadline : ℕ)
    → (deadline == now) ≡ true
    → rest_of now (beating h tick deadline) ≡ (stopped h, ticked now tick ++ (on_timeout ∷ []))
rest_now now h tick deadline due =
    rw (tick_due-beating now h tick deadline, timeout_now now h (next_tick now h tick) deadline due)
      refl

timeouts-ticked :
    (now : ℕ) (tick : Option ℕ) (more : List HeartbeatOutput)
    → timeouts (ticked now tick ++ more) ≡ timeouts more
timeouts-ticked now tick more = elim (Bool-cases (is_due now tick)) [
  | inl due ↦ rw due refl
  | inr early ↦ rw early refl
]

-- What a run says: whether it goes on, and how often the peer was given up.
abbrev pub Outcome : Bool → Heartbeat × List HeartbeatOutput → Type 0
Outcome silent (h, outputs) =
    (h.running ≡ not silent) × (timeouts outputs ≡ (if silent then 1 else 0))

abbrev continue :
    List Bool → ℕ → Heartbeat × List HeartbeatOutput → Heartbeat × List HeartbeatOutput
continue answers now (h, outputs) = let (h', more) = elapse answers now h in (h', outputs ++ more)

goes_on :
    (silent : Bool) (now : ℕ) (tick : Option ℕ) (more : Heartbeat × List HeartbeatOutput)
    → Outcome silent more
    → Outcome silent (more.0, (ticked now tick ++ []) ++ more.1)
goes_on silent now tick (h, more) o = (
  o.0,
  ap timeouts (append_assoc (ticked now tick) [] more) ∙ timeouts-ticked now tick more ∙ o.1,
)

ended :
    (answers : List Bool) (now : ℕ) (h : Heartbeat) (xs : List HeartbeatOutput)
    → ((more : List HeartbeatOutput) → timeouts (xs ++ more) ≡ timeouts more)
    → Outcome true (continue answers now (stopped h, xs ++ (on_timeout ∷ [])))
ended answers now h xs none_before =
    rw (elapse-stopped answers now h)
      (refl, ap timeouts (append-nil (xs ++ (on_timeout ∷ []))) ∙ none_before (on_timeout ∷ []))

elapse-Outcome :
    (answers : List Bool) (now left deadline : ℕ) (h : Heartbeat) (tick : Option ℕ)
    → 1 ≤ h.timeout_ms
    → deadline ≡ now + left
    → Outcome
        (falls_silent h.timeout_ms left answers)
        (elapse answers now (beating h tick deadline))
unfolding elapse millisecond answered reset schedule_timeout
elapse-Outcome [] now left deadline h tick some_time at = (refl, refl)
elapse-Outcome (true ∷ answers) now left deadline h tick some_time at =
    let later = now + h.timeout_ms in
    subst
      (λ s.
        Outcome (falls_silent h.timeout_ms (h.timeout_ms - 1) answers)
          (continue answers (now + 1) s))
      (sym (rest_late now h tick later (ground (arith, some_time))))
      (goes_on (falls_silent h.timeout_ms (h.timeout_ms - 1) answers) now tick
        (elapse answers (now + 1) (beating h (next_tick now h tick) later))
        (elapse-Outcome answers (now + 1) (h.timeout_ms - 1) later h (next_tick now h tick)
          some_time (omega arith)))
elapse-Outcome (false ∷ answers) now zero deadline h tick some_time at =
    subst (λ s. Outcome true (continue answers (now + 1) s))
      (sym (rest_now now h tick deadline (ground (arith, at))))
      (ended answers (now + 1) h (ticked now tick) (timeouts-ticked now tick))
elapse-Outcome (false ∷ answers) now (suc left) deadline h tick some_time at =
    subst (λ s. Outcome (falls_silent h.timeout_ms left answers) (continue answers (now + 1) s))
      (sym (rest_late now h tick deadline (ground (arith, at))))
      (goes_on (falls_silent h.timeout_ms left answers) now tick
        (elapse answers (now + 1) (beating h (next_tick now h tick) deadline))
        (elapse-Outcome answers (now + 1) left deadline h (next_tick now h tick) some_time
          (omega arith)))

-- A heartbeat that is started, on a link whose peer has the timeout to answer: after any
-- milliseconds, with an answer in some of them, it has given the peer up once if there were as many
-- milliseconds in a row without an answer as the timeout has, and then it has stopped; otherwise it
-- has not given the peer up and goes on.
pub elapse-start :
    (answers : List Bool) (now : ℕ) (h : Heartbeat)
    → 1 ≤ h.timeout_ms
    → h.running ≡ false
    → Outcome
        (falls_silent h.timeout_ms (h.timeout_ms - 1) answers)
        (elapse answers (now + 1) (start now h))
unfolding start schedule_tick schedule_timeout
elapse-start answers now h some_time idle = rw idle (
    elapse-Outcome answers (now + 1) (h.timeout_ms - 1) (now + h.timeout_ms) h
      (some (now + h.interval_ms)) some_time (omega arith))
