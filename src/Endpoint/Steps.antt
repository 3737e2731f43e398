-- ===== src/Endpoint/Steps.antt =====
-- The calls and timers of an endpoint keep the account of its lifecycle.
use axtp_ts_runtime.Common.{
  ℕ, ◌+◌, ◌≤◌, List, [], ◌∷◌, ◌++◌, map, Option, none, some, Bool, true, false, not, if◌then◌else◌,
  ◌≡◌, refl, sym, ap, ◌∙◌, arith, All, All-append,
}
use axtp_ts_runtime.Model.ErrorCode
use axtp_ts_runtime.Profile.{
  supports_control, keepalive_mode, KeepaliveMode, control_heartbeat, native_keepalive,
  no_keepalive,
}
use axtp_ts_runtime.Control.Session.{PhysicalRole, client, server}
use axtp_ts_runtime.Core.{
  Core, CoreEvent, CoreOutput, rpc_request, rpc_event, stream_data, link_ready, link_open_rejected,
  link_closing, handshake_ready, handshake_error, heartbeat_ack, error,
}
use axtp_ts_runtime.Core as Core
use axtp_ts_runtime.Pending as Pending
use axtp_ts_runtime.Broker.{BrokerOutput, on_result, on_error, runs, notifies}
use axtp_ts_runtime.Heartbeat.{Heartbeat, HeartbeatOutput, fire_tick}
use axtp_ts_runtime.Streams.{abort_all}
use axtp_ts_runtime.StreamManager.{
  StreamOutput, hears_chunk, hears_close, hears_already_closed, sends_stream, with_registry,
  abort_streams,
}
use axtp_ts_runtime.Endpoint.{
  Endpoint, EndpointLifecycle, idle, connecting, ready, closed, EndpointOutput, of_core,
  stream_output, sends_keepalive, is_closed, is_ready, is_idle, on_core, broker_output, start,
  transport_end, shut, close, require_ready, probe,
}
use axtp_ts_runtime.Endpoint.Lifecycle.{
  ready_call, send_probe, tick_fires, timeout_fires, readies, closings, IsReleased, rank, one_if,
  IsStep, if-IsStep, same-IsStep, IsPlain, plain-counts, open-IsStep,
}

pub of_core-IsPlain : (xs : List CoreOutput) → All IsPlain (map of_core xs)
of_core-IsPlain [] = tt
of_core-IsPlain (x ∷ xs) = ((refl, refl), of_core-IsPlain xs)

pub stream_output-IsPlain : (xs : List StreamOutput) → All IsPlain (map stream_output xs)
stream_output-IsPlain [] = tt
stream_output-IsPlain (hears_chunk l bytes cursor ∷ xs) = ((refl, refl), stream_output-IsPlain xs)
stream_output-IsPlain (hears_close l ∷ xs) = ((refl, refl), stream_output-IsPlain xs)
stream_output-IsPlain (hears_already_closed l ∷ xs) = ((refl, refl), stream_output-IsPlain xs)
stream_output-IsPlain (sends_stream payload ∷ xs) = ((refl, refl), stream_output-IsPlain xs)

pub of_broker-IsPlain : (xs : List BrokerOutput) → All IsPlain (map broker_output xs)
of_broker-IsPlain [] = tt
of_broker-IsPlain (on_result msg ∷ xs) = ((refl, refl), of_broker-IsPlain xs)
of_broker-IsPlain (on_error code ∷ xs) = ((refl, refl), of_broker-IsPlain xs)
of_broker-IsPlain (runs h params ∷ xs) = ((refl, refl), of_broker-IsPlain xs)
of_broker-IsPlain (notifies h value ∷ xs) = ((refl, refl), of_broker-IsPlain xs)

pub on_core-IsStep :
    (e : Endpoint) (step : Core × List CoreOutput)
    → is_closed e.lifecycle ≡ false
    → IsStep e (on_core e step)
on_core-IsStep e (core, xs) going =
    open-IsStep e (record e { core = core }) (map of_core xs) going refl (of_core-IsPlain xs)

pub rank_small : (l : EndpointLifecycle) → rank l ≤ 1
rank_small idle = omega arith
rank_small connecting = omega arith
rank_small ready = omega arith
rank_small closed = omega arith

pub readies-append : (xs ys : List EndpointOutput) → readies (xs ++ ys) ≡ readies xs + readies ys
readies-append [] ys = omega arith
readies-append (x ∷ xs) ys = omega (arith, readies-append xs ys)

pub closings-append :
    (xs ys : List EndpointOutput) → closings (xs ++ ys) ≡ closings xs + closings ys
closings-append [] ys = omega arith
closings-append (x ∷ xs) ys = omega (arith, closings-append xs ys)

pub shut-IsStep :
    (remote terminate : Bool) (e : Endpoint)
    → is_closed e.lifecycle ≡ false
    → IsStep e (shut remote terminate e)
unfolding shut Core.reject_all_pending Pending.reject_all abort_streams with_registry abort_all
shut-IsStep remote terminate e going =
    let rejected = (Core.reject_all_pending ErrorCode.transport_disconnected e.core).1 in
    let calls = (abort_streams e.streams).1 in
    let ended = transport_end terminate e.has_terminate in
    let marks : IsPlain ended = end-IsPlain terminate e.has_terminate in
    let counts = plain-counts (map of_core rejected ++ map stream_output calls) (
      All-append IsPlain (map of_core rejected) (map stream_output calls) (of_core-IsPlain rejected)
        (stream_output-IsPlain calls)) in
    record {
      closes_once = omega (arith, marks.1, counts.1, ap one_if going);
      readies_once = omega (arith, marks.0, counts.0, rank_small e.lifecycle);
      released = λ n h gone. (refl, refl, omega arith);
    }
  where
    end-IsPlain : (terminate has : Bool) → IsPlain (transport_end terminate has)
    end-IsPlain true true = (refl, refl)
    end-IsPlain true false = (refl, refl)
    end-IsPlain false has = (refl, refl)

pub close-IsStep : (remote terminate : Bool) (e : Endpoint) → IsStep e (close remote terminate e)
unfolding close
close-IsStep remote terminate e =
    if-IsStep (is_closed e.lifecycle) e (e, []) (shut remote terminate e) (λ gone. same-IsStep e)
      (shut-IsStep remote terminate e)

pub prefix-IsStep :
    (e : Endpoint) (x : EndpointOutput) (step : Endpoint × List EndpointOutput)
    → IsPlain x
    → IsStep e step
    → IsStep e (step.0, x ∷ step.1)
prefix-IsStep e x step plain h = record {
  closes_once = omega (arith, plain.1, h.closes_once);
  readies_once = omega (arith, plain.0, h.readies_once);
  released = h.released;
}

pub rank_zero : (l : EndpointLifecycle) → is_ready l ≡ false → is_closed l ≡ false → rank l ≡ 0
rank_zero idle h k = refl
rank_zero connecting h k = refl
rank_zero ready h k = absurd (cc h)
rank_zero closed h k = absurd (cc k)

pub plain-IsStep :
    (e e' : Endpoint) (xs : List EndpointOutput)
    → e'.lifecycle ≡ e.lifecycle
    → ((n : ℕ) → IsReleased n e → IsReleased n e')
    → All IsPlain xs
    → IsStep e (e', xs)
plain-IsStep e e' xs same released plain =
    let counts = plain-counts xs plain in
    record {
      closes_once = omega (arith, counts.1, ap (λ l. one_if (is_closed l)) same);
      readies_once = omega (arith, counts.0, ap rank same);
      released = released;
    }

pub idle_facts :
    (l : EndpointLifecycle) → not (is_idle l) ≡ false → (is_closed l ≡ false) × (rank l ≡ 0)
idle_facts idle h = (refl, refl)
idle_facts connecting h = absurd (cc h)
idle_facts ready h = absurd (cc h)
idle_facts closed h = absurd (cc h)

pub connect-IsStep :
    (e e' : Endpoint) (xs : List EndpointOutput)
    → not (is_idle e.lifecycle) ≡ false
    → e'.lifecycle ≡ connecting
    → All IsPlain xs
    → IsStep e (e', xs)
connect-IsStep e e' xs fresh now_connecting plain =
    let counts = plain-counts xs plain in
    let facts = idle_facts e.lifecycle fresh in
    record {
      closes_once =
          omega (arith, counts.1, ap one_if facts.0, ap (λ l. one_if (is_closed l)) now_connecting);
      readies_once = omega (arith, counts.0, facts.1);
      released = λ n h gone. absurd (cc (sym now_connecting ∙ gone));
    }

pub start-IsStep : (e : Endpoint) → IsStep e (start e)
unfolding start
start-IsStep e =
    if-IsStep (not (is_idle e.lifecycle)) e _ _ (λ busy. same-IsStep e)
      (λ fresh.
        if-IsStep (supports_control e.profile) e _ _ (λ framed. by_role e.physical_role fresh)
          (λ unframed.
            connect-IsStep e
              (record e { lifecycle = connecting; core = (Core.mark_link_ready e.core).0 })
              (map of_core (Core.mark_link_ready e.core).1) fresh refl
              (of_core-IsPlain (Core.mark_link_ready e.core).1)))
  where
    by_role :
        (role : PhysicalRole)
        → not (is_idle e.lifecycle) ≡ false
        → IsStep e (elim role as (λ r. Endpoint × List EndpointOutput) [
          | client ↦ on_core (record e { lifecycle = connecting }) (Core.send_control_open e.core)
          | server ↦ (record e { lifecycle = connecting }, [])
        ])
    by_role client fresh =
        connect-IsStep e
          (record e { lifecycle = connecting; core = (Core.send_control_open e.core).0 })
          (map of_core (Core.send_control_open e.core).1) fresh refl
          (of_core-IsPlain (Core.send_control_open e.core).1)
    by_role server fresh = connect-IsStep e (record e { lifecycle = connecting }) [] fresh refl tt

pub probe-IsPlain :
    (mode : KeepaliveMode) (e : Endpoint)
    → ((probe mode e).0.lifecycle ≡ e.lifecycle) × All IsPlain (probe mode e).1
probe-IsPlain control_heartbeat e = (refl, of_core-IsPlain (Core.send_heartbeat e.core).1)
probe-IsPlain native_keepalive e = (refl, keepalive e.has_keepalive)
  where
    keepalive : (has : Bool) → All IsPlain (if has then sends_keepalive ∷ [] else [])
    keepalive true = ((refl, refl), tt)
    keepalive false = tt
probe-IsPlain no_keepalive e = (refl, keepalive e.has_keepalive)
  where
    keepalive : (has : Bool) → All IsPlain (if has then sends_keepalive ∷ [] else [])
    keepalive true = ((refl, refl), tt)
    keepalive false = tt

pub ready_call-IsStep :
    (code : Option ℕ) (f : Core → Core × List CoreOutput) (e : Endpoint)
    → (code ≡ none → is_closed e.lifecycle ≡ false)
    → IsStep e (ready_call code f e)
unfolding ready_call
ready_call-IsStep (some code) f e going = same-IsStep e
ready_call-IsStep none f e going = on_core-IsStep e (f e.core) (going refl)

pub required : (l : EndpointLifecycle) → require_ready l ≡ none → is_closed l ≡ false
unfolding require_ready
required idle h = refl
required connecting h = refl
required ready h = refl
required closed h = absurd (cc h)

pub tick_fires-IsStep :
    (heartbeat : Option Heartbeat) (now : ℕ) (e : Endpoint)
    → e.heartbeat ≡ heartbeat
    → IsStep e (tick_fires heartbeat now e)
unfolding tick_fires
tick_fires-IsStep none now e there = same-IsStep e
tick_fires-IsStep (some h) now e there = send (fire_tick now h).1 (fire_tick now h).0
  where
    released :
        (n : ℕ) (e' : Endpoint) → IsReleased n e → e'.lifecycle ≡ e.lifecycle → IsReleased n e'
    released n e' kept same gone = absurd (cc (sym (kept (sym same ∙ gone)).0 ∙ there))

    send :
        (fired : List HeartbeatOutput) (h' : Heartbeat)
        → IsStep e (send_probe fired (record e { heartbeat = some h' }))
    send [] h' =
        plain-IsStep e (record e { heartbeat = some h' }) [] refl
          (λ n kept. released n (record e { heartbeat = some h' }) kept refl) tt
    send (x ∷ xs) h' =
        let e' = record e { heartbeat = some h' } in
        let sent = probe-IsPlain (keepalive_mode e.profile) e' in
        plain-IsStep e (probe (keepalive_mode e.profile) e').0
          (probe (keepalive_mode e.profile) e').1 sent.0
          (λ n kept. released n (probe (keepalive_mode e.profile) e').0 kept sent.0) sent.1

pub timeout_fires-IsStep :
    (heartbeat : Option Heartbeat) (e : Endpoint) → IsStep e (timeout_fires heartbeat e)
unfolding timeout_fires
timeout_fires-IsStep none e = same-IsStep e
timeout_fires-IsStep (some h) e = close-IsStep false true e
