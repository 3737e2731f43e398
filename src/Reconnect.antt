-- ===== src/Reconnect.antt =====
-- src/endpoint/reconnect.ts: the policy of the attempts to connect again, and their coordinator.
-- Delays and the multiplier are whole numbers. A timer is a number, and the timers that are armed
-- are a list; a call of the factory whose promise is open is counted.
pub mod Bounds
use axtp_ts_runtime.Common.{
  ℕ, zero, suc, ◌+◌, ◌-◌, ◌*◌, ◌^◌, min, max, List, [], ◌∷◌, ◌++◌, Option, none, some, Bool, true,
  false, not, ◌==◌, leb, if◌then◌else◌,
}

-- The policy as the caller gives it; a missing field is `none`, and no limit of attempts is Infinity.
pub record ReconnectPolicy : Type 0 where
  pub enabled : Bool
  pub initial_delay_ms : Option ℕ
  pub max_delay_ms : Option ℕ
  pub max_attempts : Option ℕ
  pub multiplier : Option ℕ
  pub jitter : Option Bool
  pub reset_backoff_on_success : Option Bool

-- Required<ReconnectPolicy>; `none` is Number.POSITIVE_INFINITY.
pub record ResolvedPolicy : Type 0 where
  pub enabled : Bool
  pub initial_delay_ms : ℕ
  pub max_delay_ms : ℕ
  pub max_attempts : Option ℕ
  pub multiplier : ℕ
  pub jitter : Bool
  pub reset_backoff_on_success : Bool

abbrev pub default_reconnect_policy : ResolvedPolicy
default_reconnect_policy = record {
  enabled = false;
  initial_delay_ms = 1000;
  max_delay_ms = 30000;
  max_attempts = none;
  multiplier = 2;
  jitter = true;
  reset_backoff_on_success = true;
}

abbrev given {ℓ} : {A : Type ℓ} → Option A → A → A
given none default = default
given (some value) default = value

unfoldable pub resolve_policy : Option ReconnectPolicy → ResolvedPolicy
resolve_policy none = default_reconnect_policy
resolve_policy (some p) = record {
  enabled = p.enabled;
  initial_delay_ms = given p.initial_delay_ms 1000;
  max_delay_ms = given p.max_delay_ms 30000;
  max_attempts = p.max_attempts;
  multiplier = given p.multiplier 2;
  jitter = given p.jitter true;
  reset_backoff_on_success = given p.reset_backoff_on_success true;
}

-- `random` of a bound is `Math.floor(Math.random() * bound)`.
unfoldable pub next_delay : (ℕ → ℕ) → ResolvedPolicy → ℕ → ℕ
next_delay random policy attempt =
    let bound = min (policy.initial_delay_ms * policy.multiplier ^ attempt) policy.max_delay_ms in
    if not policy.jitter then max 1 bound else max 1 (random bound)

-- `made` counts the timers, and is the number of the next one.
pub record Coordinator : Type 0 where
  pub attempts : ℕ
  pub timer : Option ℕ
  pub active : Bool
  pub armed : List ℕ
  pub made : ℕ
  pub in_flight : ℕ

abbrev pub new_coordinator : Coordinator
new_coordinator = record {
  attempts = 0;
  timer = none;
  active = false;
  armed = [];
  made = 0;
  in_flight = 0;
}

pub data ReconnectOutput : Type 0 where
  -- setTimeout, with its delay
  arms : ℕ → ReconnectOutput
  calls_factory on_reconnected on_failed on_error closes_transport : ReconnectOutput

abbrev pub remove : ℕ → List ℕ → List ℕ
remove id [] = []
remove id (x ∷ xs) = let rest = remove id xs in if x == id then rest else x ∷ rest

abbrev pub contains : ℕ → List ℕ → Bool
contains id [] = false
contains id (x ∷ xs) = if x == id then true else contains id xs

-- clearTimeout
abbrev pub clear_timer : Coordinator → Coordinator
clear_timer c = elim c.timer [
  | none ↦ c
  | some id ↦ record c { armed = remove id c.armed; timer = none }
]

abbrev pub exhausted : Option ℕ → ℕ → Bool
exhausted none attempts = false
exhausted (some limit) attempts = leb limit attempts

pub data ReconnectInput : Type 0 where
  starts stops succeeds resolves rejects : ReconnectInput
  -- the timer with this number fires
  fires : ℕ → ReconnectInput

-- `random` is what `Math.random()` gives, by the draw and the bound.
module _ (policy : ResolvedPolicy) (random : ℕ → ℕ → ℕ) where
  unfoldable pub schedule : Coordinator → Coordinator × List ReconnectOutput
  unfolding next_delay
  schedule c =
      if not c.active
      then (c, [])
      else if exhausted policy.max_attempts c.attempts
      then (record c { active = false }, on_failed ∷ [])
      else (
        record c {
          attempts = c.attempts + 1;
          timer = some c.made;
          armed = c.made ∷ c.armed;
          made = c.made + 1;
        },
        arms (next_delay (random c.made) policy c.attempts) ∷ [],
      )

  unfoldable pub start_reconnect : Coordinator → Coordinator × List ReconnectOutput
  unfolding schedule
  start_reconnect c = if c.active then (c, []) else schedule (record c { active = true })

  unfoldable pub stop_reconnect : Coordinator → Coordinator
  stop_reconnect c = clear_timer (record c { active = false })

  unfoldable pub on_success : Coordinator → Coordinator
  on_success c =
      let cleared = clear_timer (record c { active = false }) in
      record cleared { attempts = if policy.reset_backoff_on_success then 0 else cleared.attempts }

  -- The timer fires, and the attempt calls the factory.
  unfoldable pub fire : ℕ → Coordinator → Coordinator × List ReconnectOutput
  fire id c =
      if contains id c.armed
      then (record c { armed = remove id c.armed; in_flight = c.in_flight + 1 }, calls_factory ∷ [])
      else (c, [])

  -- The attempt, from where the factory's promise resolves or rejects.
  unfoldable pub resolve_attempt : Coordinator → Coordinator × List ReconnectOutput
  resolve_attempt c =
      let landed = record c { in_flight = c.in_flight - 1 } in
      if c.in_flight == 0
      then (c, [])
      else if not c.active
      then (landed, closes_transport ∷ [])
      else (record landed { active = false }, on_reconnected ∷ [])

  unfoldable pub reject_attempt : Coordinator → Coordinator × List ReconnectOutput
  unfolding schedule
  reject_attempt c =
      let (c', outputs) = schedule (record c { in_flight = c.in_flight - 1 }) in
      if c.in_flight == 0 then (c, []) else (c', on_error ∷ outputs)

  unfoldable pub reconnect_step : ReconnectInput → Coordinator → Coordinator × List ReconnectOutput
  unfolding start_reconnect stop_reconnect on_success fire resolve_attempt reject_attempt
  reconnect_step starts c = start_reconnect c
  reconnect_step stops c = (stop_reconnect c, [])
  reconnect_step succeeds c = (on_success c, [])
  reconnect_step resolves c = resolve_attempt c
  reconnect_step rejects c = reject_attempt c
  reconnect_step (fires id) c = fire id c

  unfoldable pub reconnect_run :
      List ReconnectInput → Coordinator → Coordinator × List ReconnectOutput
  unfolding reconnect_step
  reconnect_run [] c = (c, [])
  reconnect_run (input ∷ rest) c =
      let (c', outputs) = reconnect_step input c in
      let (c'', more) = reconnect_run rest c' in (c'', outputs ++ more)
