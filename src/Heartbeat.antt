-- ===== src/Heartbeat.antt =====
-- src/endpoint/timers.ts: the probes of a link and the timeout of its peer. A timer that is armed is
-- the time at which it fires; what the callbacks are called with is the list of outputs.
pub mod Peer
use axtp_ts_runtime.Common.{
  ℕ, ◌+◌, List, [], ◌∷◌, ◌++◌, Option, none, some, Bool, true, false, ◌==◌, if◌then◌else◌,
}

pub record Heartbeat : Type 0 where
  pub interval_ms : ℕ
  pub timeout_ms : ℕ
  pub tick_timer : Option ℕ
  pub timeout_timer : Option ℕ
  pub running : Bool

abbrev pub new_heartbeat : ℕ → ℕ → Heartbeat
new_heartbeat interval_ms timeout_ms = record {
  interval_ms = interval_ms;
  timeout_ms = timeout_ms;
  tick_timer = none;
  timeout_timer = none;
  running = false;
}

pub data HeartbeatOutput : Type 0 where
  on_tick on_timeout : HeartbeatOutput

unfoldable pub schedule_tick : ℕ → Heartbeat → Heartbeat
schedule_tick now h = if h.running then record h { tick_timer = some (now + h.interval_ms) } else h

unfoldable pub schedule_timeout : ℕ → Heartbeat → Heartbeat
schedule_timeout now h = record h { timeout_timer = some (now + h.timeout_ms) }

unfoldable pub start : ℕ → Heartbeat → Heartbeat
unfolding schedule_tick schedule_timeout
start now h =
    if h.running then h else schedule_timeout now (schedule_tick now (record h { running = true }))

unfoldable pub stop : Heartbeat → Heartbeat
stop h = record h { running = false; tick_timer = none; timeout_timer = none }

unfoldable pub reset : ℕ → Heartbeat → Heartbeat
unfolding schedule_timeout
reset now h = if h.running then schedule_timeout now h else h

-- The callbacks of the two timers.
unfoldable pub fire_tick : ℕ → Heartbeat → Heartbeat × List HeartbeatOutput
unfolding schedule_tick
fire_tick now h =
    let fired = record h { tick_timer = none } in
    if h.running then (schedule_tick now fired, on_tick ∷ []) else (fired, [])

unfoldable pub fire_timeout : Heartbeat → Heartbeat × List HeartbeatOutput
unfolding stop
fire_timeout h = (stop h, on_timeout ∷ [])

abbrev pub is_due : ℕ → Option ℕ → Bool
is_due now none = false
is_due now (some time) = time == now

-- One millisecond of the platform: an answer of the peer comes in, or none, and then each timer
-- that is due fires, the probe first.
unfoldable pub tick_due : ℕ → Heartbeat → Heartbeat × List HeartbeatOutput
unfolding fire_tick
tick_due now h = if is_due now h.tick_timer then fire_tick now h else (h, [])

unfoldable pub timeout_due : ℕ → Heartbeat → Heartbeat × List HeartbeatOutput
unfolding fire_timeout
timeout_due now h = if is_due now h.timeout_timer then fire_timeout h else (h, [])

unfoldable pub answered : Bool → ℕ → Heartbeat → Heartbeat
unfolding reset
answered true now h = reset now h
answered false now h = h

unfoldable pub millisecond : Bool → ℕ → Heartbeat → Heartbeat × List HeartbeatOutput
unfolding tick_due timeout_due answered
millisecond answer now h =
    let (h', ticked) = tick_due now (answered answer now h) in
    let (h'', timed_out) = timeout_due now h' in (h'', ticked ++ timed_out)

-- The milliseconds from `now` on, with whether the peer answers in each.
unfoldable pub elapse : List Bool → ℕ → Heartbeat → Heartbeat × List HeartbeatOutput
unfolding millisecond
elapse [] now h = (h, [])
elapse (answer ∷ answers) now h =
    let (h', outputs) = millisecond answer now h in
    let (h'', more) = elapse answers (now + 1) h' in (h'', outputs ++ more)
