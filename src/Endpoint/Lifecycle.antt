-- ===== src/Endpoint/Lifecycle.antt =====
-- src/endpoint/endpoint.ts: what can happen to an endpoint, and the account of its lifecycle.
use mathlib.Core.Bool.{false≢true}
use axtp_ts_runtime.Common.{
  ℕ, ◌+◌, ◌≤◌, List, [], ◌∷◌, ◌++◌, Option, none, some, Bool, true, false, not, ◌&&◌, if◌then◌else◌,
  length, ◌≡◌, refl, sym, ap, ◌∙◌, arith, All,
}
use axtp_ts_runtime.Model.Rpc.{Text}
use axtp_ts_runtime.JsonRpc.{Value}
use axtp_ts_runtime.Profile.{keepalive_mode, supports_stream}
use axtp_ts_runtime.Core.{
  Core, CoreEvent, CoreOutput, rpc_request, rpc_event, stream_data, link_ready, link_open_rejected,
  link_closing, handshake_ready, handshake_error, heartbeat_ack, error,
}
use axtp_ts_runtime.Core as Core
use axtp_ts_runtime.Core.Gate.{CoreInput, core_step}
use axtp_ts_runtime.Broker.{GlobalHandlerSource, TaskOutcome, settle_task}
use axtp_ts_runtime.StreamManager.Calls.{StreamCall, stream_call}
use axtp_ts_runtime.StreamManager.Growth.{openings}
use axtp_ts_runtime.Heartbeat.{Heartbeat, HeartbeatOutput, fire_tick}
use axtp_ts_runtime.Endpoint.{
  Endpoint, EndpointLifecycle, idle, connecting, ready, closed, EndpointOutput, emits_ready,
  emits_close, is_closed, is_ready, on_core, on_broker, on_streams, start, close, reset_heartbeat,
  require_ready, probe, on_core_event,
}

-- All that can happen to an endpoint: its calls, the bytes and timers that move its core, the events
-- that the core enqueued, its heartbeat's timers, the answers to its probes, and its handlers.
pub data EndpointInput : Type 0 where
  starts : EndpointInput
  gets : CoreEvent → ℕ → EndpointInput
  feeds : CoreInput → EndpointInput
  closes : Bool → Bool → EndpointInput
  calls : Text → Value → EndpointInput
  emits : Text → Value → EndpointInput
  settles : ℕ → TaskOutcome → EndpointInput
  ticks : ℕ → EndpointInput
  times_out : EndpointInput
  keepalive_acks : ℕ → EndpointInput
  opens_stream : Text → Value → EndpointInput
  -- what goes on in the streams, where the call of openStream has returned, or else a handler of
  -- onStream, or the holder of a stream, is at work
  streams_go_on : StreamCall → EndpointInput

-- A call on an endpoint that is not ready throws this code.
unfoldable pub ready_call :
    Option ℕ → (Core → Core × List CoreOutput) → Endpoint → Endpoint × List EndpointOutput
ready_call (some code) f e = (e, [])
ready_call none f e = on_core e (f e.core)

-- openStream up to its call, which the core makes. Its promise goes on as `open_returns`.
unfoldable pub open_stream : Text → Value → Endpoint → Endpoint × List EndpointOutput
unfolding ready_call
open_stream method params e =
    if is_ready e.lifecycle && not (supports_stream e.profile)
    then (e, [])
    else ready_call (require_ready e.lifecycle) (Core.call method params) e

-- The probe, if the timer of the heartbeat gave one.
unfoldable pub send_probe : List HeartbeatOutput → Endpoint → Endpoint × List EndpointOutput
send_probe [] e = (e, [])
send_probe (x ∷ xs) e = probe (keepalive_mode e.profile) e

unfoldable pub tick_fires : Option Heartbeat → ℕ → Endpoint → Endpoint × List EndpointOutput
unfolding send_probe
tick_fires none now e = (e, [])
tick_fires (some h) now e =
    let (h', fired) = fire_tick now h in send_probe fired (record e { heartbeat = some h' })

unfoldable pub timeout_fires : Option Heartbeat → Endpoint → Endpoint × List EndpointOutput
timeout_fires none e = (e, [])
timeout_fires (some h) e = close false true e

module _ (random : ℕ → ℕ) (source : GlobalHandlerSource) (known_method known_event : Text → Bool)
    (throwing : ℕ → Bool) where
  unfoldable pub endpoint_step : EndpointInput → Endpoint → Endpoint × List EndpointOutput
  unfolding ready_call tick_fires timeout_fires open_stream
  endpoint_step starts e = start e
  endpoint_step (gets ev now) e =
      on_core_event random source known_method known_event throwing ev now e
  endpoint_step (feeds input) e =
      if is_closed e.lifecycle then (e, []) else on_core e (core_step random input e.core)
  endpoint_step (closes remote terminate) e = close remote terminate e
  endpoint_step (calls method params) e =
      ready_call (require_ready e.lifecycle) (Core.call method params) e
  endpoint_step (emits name payload) e =
      ready_call (require_ready e.lifecycle) (Core.emit name payload) e
  endpoint_step (settles i outcome) e =
      let done = settle_task source known_method known_event i outcome e.broker in
      if is_closed e.lifecycle then (record e { broker = done.0 }, []) else on_broker e done
  endpoint_step (ticks now) e = tick_fires e.heartbeat now e
  endpoint_step times_out e = timeout_fires e.heartbeat e
  endpoint_step (keepalive_acks now) e =
      (record e { heartbeat = reset_heartbeat now e.heartbeat }, [])
  endpoint_step (opens_stream method params) e = open_stream method params e
  endpoint_step (streams_go_on call) e = on_streams e (stream_call call e.streams)

  unfoldable pub endpoint_run : List EndpointInput → Endpoint → Endpoint × List EndpointOutput
  unfolding endpoint_step
  endpoint_run [] e = (e, [])
  endpoint_run (input ∷ rest) e =
      let (e', outputs) = endpoint_step input e in
      let (e'', more) = endpoint_run rest e' in (e'', outputs ++ more)

module _ (random : ℕ → ℕ) (source : GlobalHandlerSource) (known_method known_event : Text → Bool)
    (throwing : ℕ → Bool) where
  abbrev pub late : EndpointInput → Endpoint → ℕ
  late (streams_go_on call) e = if is_closed e.lifecycle then openings call else 0
  late _ e = 0

  -- How often a run opens a stream on the endpoint when it is closed.
  abbrev pub late_openings : List EndpointInput → Endpoint → ℕ
  late_openings [] e = 0
  late_openings (input ∷ rest) e =
      late input e
      + late_openings rest (endpoint_step random source known_method known_event throwing input e).0

-- How often the endpoint tells that it is ready, and that it is closed.
abbrev pub ready_mark : EndpointOutput → ℕ
ready_mark emits_ready = 1
ready_mark _ = 0

abbrev pub close_mark : EndpointOutput → ℕ
close_mark (emits_close remote) = 1
close_mark _ = 0

abbrev pub readies : List EndpointOutput → ℕ
readies [] = 0
readies (output ∷ rest) = ready_mark output + readies rest

abbrev pub closings : List EndpointOutput → ℕ
closings [] = 0
closings (output ∷ rest) = close_mark output + closings rest

-- A closed endpoint has no heartbeat, no pending call and at most this many streams.
abbrev pub IsReleased : ℕ → Endpoint → Type 0
IsReleased n e =
    e.lifecycle ≡ closed
    → (e.heartbeat ≡ none) × (e.core.pending.pending ≡ []) × (length e.streams.registry.streams ≤ n)

abbrev pub rank : EndpointLifecycle → ℕ
rank idle = 0
rank connecting = 0
rank ready = 1
rank closed = 1

abbrev pub one_if : Bool → ℕ
one_if b = if b then 1 else 0

pub record IsStep (e : Endpoint) (step : Endpoint × List EndpointOutput) : Type 0 where
  pub closes_once :
      closings step.1 + one_if (is_closed e.lifecycle) ≡ one_if (is_closed step.0.lifecycle)
  pub readies_once : readies step.1 + rank e.lifecycle ≤ rank step.0.lifecycle
  pub released : (n : ℕ) → IsReleased n e → IsReleased n step.0

pub if-IsStep :
    (b : Bool) (e : Endpoint) (x y : Endpoint × List EndpointOutput)
    → (b ≡ true → IsStep e x)
    → (b ≡ false → IsStep e y)
    → IsStep e (if b then x else y)
if-IsStep true e x y h k = h refl
if-IsStep false e x y h k = k refl

pub same-IsStep : (e : Endpoint) → IsStep e (e, [])
same-IsStep e = record {
  closes_once = omega arith;
  readies_once = omega arith;
  released = λ n h. h;
}

-- Outputs that tell neither.
abbrev pub IsPlain : EndpointOutput → Type 0
IsPlain output = (ready_mark output ≡ 0) × (close_mark output ≡ 0)

pub plain-counts :
    (xs : List EndpointOutput) → All IsPlain xs → (readies xs ≡ 0) × (closings xs ≡ 0)
plain-counts [] h = (refl, refl)
plain-counts (x ∷ xs) h =
    let rest = plain-counts xs h.1 in (omega (arith, h.0.0, rest.0), omega (arith, h.0.1, rest.1))

-- An endpoint that is not closed goes on with its lifecycle.
pub open-IsStep :
    (e e' : Endpoint) (xs : List EndpointOutput)
    → is_closed e.lifecycle ≡ false
    → e'.lifecycle ≡ e.lifecycle
    → All IsPlain xs
    → IsStep e (e', xs)
open-IsStep e e' xs shut_not same plain =
    let counts = plain-counts xs plain in
    record {
      closes_once = omega (arith, counts.1, ap (λ l. one_if (is_closed l)) same);
      readies_once = omega (arith, counts.0, ap rank same);
      released = λ n h gone. absurd (false≢true (sym shut_not ∙ ap is_closed (sym same ∙ gone)));
    }
