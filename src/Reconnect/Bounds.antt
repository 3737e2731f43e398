-- ===== src/Reconnect/Bounds.antt =====
-- How often and how late a coordinator tries, and what it reports.
use axtp_ts_runtime.Common.{
  ℕ, suc, ◌+◌, ◌-◌, ◌*◌, ◌^◌, min, max, ◌≤◌, ◌<◌, List, [], ◌∷◌, ◌++◌, Option, none, some, Bool,
  true, false, not, ◌==◌, leb, if◌then◌else◌, All, All-append, ◌≡◌, refl, sym, arith,
}
use axtp_ts_runtime.Reconnect.{
  ResolvedPolicy, Coordinator, new_coordinator, ReconnectOutput, arms, calls_factory,
  on_reconnected, on_failed, on_error, closes_transport, ReconnectInput, starts, stops, succeeds,
  resolves, rejects, fires, next_delay, clear_timer, contains, remove, schedule, start_reconnect,
  stop_reconnect, on_success, fire, resolve_attempt, reject_attempt, reconnect_step, reconnect_run,
}

-- The attempts that a list of outputs makes, and the reports that end one.
abbrev pub armings : List ReconnectOutput → ℕ
armings [] = 0
armings (arms delay ∷ rest) = suc (armings rest)
armings (output ∷ rest) = armings rest

abbrev pub reports : List ReconnectOutput → ℕ
reports [] = 0
reports (on_reconnected ∷ rest) = suc (reports rest)
reports (on_failed ∷ rest) = suc (reports rest)
reports (output ∷ rest) = reports rest

-- The limit of attempts, once and again for each success.
abbrev pub budget : ℕ → List ReconnectInput → ℕ
budget limit [] = limit
budget limit (succeeds ∷ rest) = limit + budget limit rest
budget limit (input ∷ rest) = budget limit rest

abbrev pub start_count : List ReconnectInput → ℕ
start_count [] = 0
start_count (starts ∷ rest) = suc (start_count rest)
start_count (input ∷ rest) = start_count rest

abbrev one : Bool → ℕ
one b = if b then 1 else 0

armings-append : (xs ys : List ReconnectOutput) → armings (xs ++ ys) ≡ armings xs + armings ys
armings-append [] ys = omega arith
armings-append (arms delay ∷ xs) ys = omega (arith, armings-append xs ys)
armings-append (calls_factory ∷ xs) ys = armings-append xs ys
armings-append (on_reconnected ∷ xs) ys = armings-append xs ys
armings-append (on_failed ∷ xs) ys = armings-append xs ys
armings-append (on_error ∷ xs) ys = armings-append xs ys
armings-append (closes_transport ∷ xs) ys = armings-append xs ys

reports-append : (xs ys : List ReconnectOutput) → reports (xs ++ ys) ≡ reports xs + reports ys
reports-append [] ys = omega arith
reports-append (arms delay ∷ xs) ys = reports-append xs ys
reports-append (calls_factory ∷ xs) ys = reports-append xs ys
reports-append (on_reconnected ∷ xs) ys = omega (arith, reports-append xs ys)
reports-append (on_failed ∷ xs) ys = omega (arith, reports-append xs ys)
reports-append (on_error ∷ xs) ys = reports-append xs ys
reports-append (closes_transport ∷ xs) ys = reports-append xs ys

module _ (policy : ResolvedPolicy) (limit : ℕ) (random : ℕ → ℕ → ℕ)
    (below : (n bound : ℕ) → random n bound < max 1 bound) where
  abbrev pub limited : ResolvedPolicy
  limited = record policy { max_attempts = some limit }

  -- A delay is a millisecond at least, and at most the limit of the policy.
  abbrev pub IsTimely : ReconnectOutput → Type 0
  IsTimely (arms delay) = (1 ≤ delay) × (delay ≤ max 1 policy.max_delay_ms)
  IsTimely _ = Unit {0}

  next_delay-IsTimely : (n attempt : ℕ) → IsTimely (arms (next_delay (random n) limited attempt))
  unfolding next_delay
  next_delay-IsTimely n attempt =
      let raw = policy.initial_delay_ms * policy.multiplier ^ attempt in
      ground (arith, below n (min raw policy.max_delay_ms))

  -- One step, in which `started` starts come in.
  record IsBounded (started : ℕ) (c : Coordinator) (step : Coordinator × List ReconnectOutput)
      : Type 0 where
    within : c.attempts ≤ limit → step.0.attempts ≤ limit
    counted : armings step.1 + c.attempts ≡ step.0.attempts
    reported : reports step.1 + one step.0.active ≤ started + one c.active
    timely : All IsTimely step.1

  unchanged :
      (started : ℕ) (c c' : Coordinator)
      → c.attempts ≡ c'.attempts
      → one c'.active ≤ one c.active
      → IsBounded started c (c', [])
  unchanged started c c' e h = record {
    within = λ k. omega (arith, e);
    counted = omega (arith, e);
    reported = omega (arith, h);
    timely = tt;
  }

  if-IsBounded :
      (b : Bool) (started : ℕ) (c : Coordinator) (x y : Coordinator × List ReconnectOutput)
      → (b ≡ true → IsBounded started c x)
      → (b ≡ false → IsBounded started c y)
      → IsBounded started c (if b then x else y)
  if-IsBounded true started c x y h k = h refl
  if-IsBounded false started c x y h k = k refl

  schedule-IsBounded : (c : Coordinator) → IsBounded 0 c (schedule limited random c)
  unfolding schedule
  schedule-IsBounded c =
      if-IsBounded (not c.active) 0 c _ _ (λ idle. unchanged 0 c c refl (omega arith))
        (λ busy.
          if-IsBounded (leb limit c.attempts) 0 c _ _
            (λ done. record {
              within = λ h. h;
              counted = omega arith;
              reported = ground (arith, busy);
              timely = (tt, tt);
            })
            (λ more. record {
              within = λ h. ground (arith, more);
              counted = omega arith;
              reported = ground (arith, busy);
              timely = (next_delay-IsTimely c.made c.attempts, tt);
            }))

  start-IsBounded : (c : Coordinator) → IsBounded 1 c (start_reconnect limited random c)
  unfolding start_reconnect
  start-IsBounded c =
      let done = schedule-IsBounded (record c { active = true }) in
      if-IsBounded c.active 1 c _ _ (λ busy. unchanged 1 c c refl (omega arith))
        (λ idle. record {
          within = done.within;
          counted = done.counted;
          reported = omega (arith, done.reported);
          timely = done.timely;
        })

  fire-IsBounded : (id : ℕ) (c : Coordinator) → IsBounded 0 c (fire limited random id c)
  unfolding fire
  fire-IsBounded id c =
      if-IsBounded (contains id c.armed) 0 c _ _
        (λ there. record {
          within = λ h. h;
          counted = omega arith;
          reported = omega arith;
          timely = (tt, tt);
        })
        (λ gone. unchanged 0 c c refl (omega arith))

  resolve-IsBounded : (c : Coordinator) → IsBounded 0 c (resolve_attempt limited random c)
  unfolding resolve_attempt
  resolve-IsBounded c =
      if-IsBounded (c.in_flight == 0) 0 c _ _ (λ none_open. unchanged 0 c c refl (omega arith))
        (λ some_open.
          if-IsBounded (not c.active) 0 c _ _
            (λ idle. record {
              within = λ h. h;
              counted = omega arith;
              reported = omega arith;
              timely = (tt, tt);
            })
            (λ busy. record {
              within = λ h. h;
              counted = omega arith;
              reported = ground (arith, busy);
              timely = (tt, tt);
            }))

  reject-IsBounded : (c : Coordinator) → IsBounded 0 c (reject_attempt limited random c)
  unfolding reject_attempt
  reject-IsBounded c =
      let done = schedule-IsBounded (record c { in_flight = c.in_flight - 1 }) in
      if-IsBounded (c.in_flight == 0) 0 c _ _ (λ none_open. unchanged 0 c c refl (omega arith))
        (λ some_open. record {
          within = done.within;
          counted = done.counted;
          reported = done.reported;
          timely = (tt, done.timely);
        })

  -- Clearing the timer touches neither the attempts nor the activity.
  clear_timer-fields :
      (c : Coordinator)
      → ((clear_timer c).attempts ≡ c.attempts) × ((clear_timer c).active ≡ c.active)
  clear_timer-fields c = at c.timer
    where
      at :
          (timer : Option ℕ)
          → let cleared : Coordinator = elim timer [
            | none ↦ c
            | some id ↦ record c { armed = remove id c.armed; timer = none }
          ] in
            (cleared.attempts ≡ c.attempts) × (cleared.active ≡ c.active)
      at none = (refl, refl)
      at (some id) = (refl, refl)

  stop-IsBounded : (c : Coordinator) → IsBounded 0 c (stop_reconnect limited random c, [])
  unfolding stop_reconnect
  stop-IsBounded c =
      let same = clear_timer-fields (record c { active = false }) in
      unchanged 0 c _ (sym same.0) (ground (arith, same.1))

  -- The bounds of a run from a coordinator, with this budget and this many starts.
  pub record AreBounded (tries_left starts_left : ℕ) (c : Coordinator)
      (outputs : List ReconnectOutput) : Type 0 where
    pub tries : armings outputs + c.attempts ≤ tries_left
    pub ends : reports outputs ≤ starts_left + one c.active
    pub delays : All IsTimely outputs

  then-AreBounded :
      (started tries_left starts_left : ℕ) (c : Coordinator)
      (step : Coordinator × List ReconnectOutput) (more : List ReconnectOutput)
      → IsBounded started c step
      → AreBounded tries_left starts_left step.0 more
      → AreBounded tries_left (started + starts_left) c (step.1 ++ more)
  then-AreBounded started tries_left starts_left c step more h k = record {
    tries = omega (arith, armings-append step.1 more, h.counted, k.tries);
    ends = omega (arith, reports-append step.1 more, h.reported, k.ends);
    delays = All-append IsTimely step.1 more h.timely k.delays;
  }

  silent-AreBounded :
      (tries_left starts_left : ℕ) (c : Coordinator) (step : Coordinator × List ReconnectOutput)
      (more : List ReconnectOutput)
      → IsBounded 0 c step
      → AreBounded tries_left starts_left step.0 more
      → AreBounded tries_left starts_left c (step.1 ++ more)
  silent-AreBounded tries_left starts_left c step more h k =
      let all = then-AreBounded 0 tries_left starts_left c step more h k in
      record { tries = all.tries; ends = omega (arith, all.ends); delays = all.delays }

  success-AreBounded :
      (tries_left starts_left : ℕ) (c : Coordinator) (more : List ReconnectOutput)
      → c.attempts ≤ limit
      → AreBounded tries_left starts_left (on_success limited random c) more
      → AreBounded (limit + tries_left) starts_left c more
  unfolding on_success
  success-AreBounded tries_left starts_left c more h k =
      let same = clear_timer-fields (record c { active = false }) in
      record {
        tries = omega (arith, k.tries, h);
        ends = ground (arith, k.ends, same.1);
        delays = k.delays;
      }

  success-within :
      (c : Coordinator) → c.attempts ≤ limit → (on_success limited random c).attempts ≤ limit
  unfolding on_success
  success-within c h =
      let same = clear_timer-fields (record c { active = false }) in ground (arith, same.0, h)

  run-AreBounded :
      (inputs : List ReconnectInput) (c : Coordinator)
      → c.attempts ≤ limit
      → AreBounded
          (budget limit inputs)
          (start_count inputs)
          c
          (reconnect_run limited random inputs c).1
  unfolding reconnect_run reconnect_step
  run-AreBounded [] c h = record { tries = omega (arith, h); ends = omega arith; delays = tt }
  run-AreBounded (starts ∷ rest) c h =
      let step = start_reconnect limited random c in
      let all =
        then-AreBounded 1 (budget limit rest) (start_count rest) c step _ (start-IsBounded c)
          (run-AreBounded rest step.0 ((start-IsBounded c).within h)) in
      record { tries = all.tries; ends = omega (arith, all.ends); delays = all.delays }
  run-AreBounded (stops ∷ rest) c h =
      let step : Coordinator × List ReconnectOutput = (stop_reconnect limited random c, []) in
      silent-AreBounded _ _ c step _ (stop-IsBounded c)
        (run-AreBounded rest step.0 ((stop-IsBounded c).within h))
  run-AreBounded (succeeds ∷ rest) c h =
      success-AreBounded _ _ c _ h
        (run-AreBounded rest (on_success limited random c) (success-within c h))
  run-AreBounded (resolves ∷ rest) c h =
      silent-AreBounded _ _ c (resolve_attempt limited random c) _ (resolve-IsBounded c)
        (run-AreBounded rest (resolve_attempt limited random c).0 ((resolve-IsBounded c).within h))
  run-AreBounded (rejects ∷ rest) c h =
      silent-AreBounded _ _ c (reject_attempt limited random c) _ (reject-IsBounded c)
        (run-AreBounded rest (reject_attempt limited random c).0 ((reject-IsBounded c).within h))
  run-AreBounded (fires id ∷ rest) c h =
      silent-AreBounded _ _ c (fire limited random id c) _ (fire-IsBounded id c)
        (run-AreBounded rest (fire limited random id c).0 ((fire-IsBounded id c).within h))

  -- A new coordinator with a limit of attempts, whatever starts, stops, timers, results of the
  -- factory and successes come in: it arms its timer at most as often as the limit says, and as
  -- often again for each success; it hands a transport over or gives up at most once for each start;
  -- and each delay is at least a millisecond and at most the limit of the policy. `random` is below
  -- its bound, or 0 where that is 0.
  pub reconnect_run-bounds :
      (inputs : List ReconnectInput)
      → let outputs = (reconnect_run limited random inputs new_coordinator).1 in
        (armings outputs ≤ budget limit inputs)
        × (reports outputs ≤ start_count inputs)
        × All IsTimely outputs
  reconnect_run-bounds inputs =
      let all = run-AreBounded inputs new_coordinator (omega arith) in
      (omega (arith, all.tries), omega (arith, all.ends), all.delays)
