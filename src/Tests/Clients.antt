-- ===== src/Tests/Clients.antt =====
-- The client of sdk/client.ts at concrete inputs.
use axtp_ts_runtime.Common.{ℕ, ◌+◌, List, [], ◌∷◌, ◌++◌, ◌≡◌, refl, ap, none, some, true, false}
use axtp_ts_runtime.Model.ErrorCode
use axtp_ts_runtime.Model.Rpc.{Text}
use axtp_ts_runtime.Model.Json.{units}
use axtp_ts_runtime.JsonRpc.{Value}
use axtp_ts_runtime.Client.State.{
  drop_oldest, rejects_new, CallOptions, queue, wait_ready, ClientOptions, connecting, ready,
  closed, Client, new_client, connect_throws, ◌and_then◌, require_usable, require_usable_in,
  is_closed,
}
use axtp_ts_runtime.Client.Events.{
  EmitOutcome, goes, flush_events, flush_outbox, push_event, accept_event, overflow_event,
  shift_event, enqueue_event, emit_raw,
}
use axtp_ts_runtime.Client.Calls.{
  no_options, breaks, next_call, flush_call_queue, settle_call, settle_in_flight, when_idle,
  coalesce, coalesced, find_key, push_call, overflow_call, append_call, enqueue_open, enqueue_call,
  hand_over_waiting, resolve_if_ready, call_by_policy, call_raw, resolve_call_options,
}
use axtp_ts_runtime.Client.Connection.{
  notify_waiting, set_state, clear_handshake_timeout, resolve_ready, fail_ready, connect, flush_all,
  resume_connect, connect_times_out, connecting_again, spawn_endpoint, on_endpoint_ready,
  on_endpoint_close, event_masks,
}
use axtp_ts_runtime.Client.Runs.{
  ClientInput, connects_now, connect_goes_on, connect_timer, transport_opens, endpoint_ready,
  endpoint_closes, calls, call_settles, emits, Moment, client_input, client_run,
}
use axtp_ts_runtime.Client.Settled.{settled, passed_on, pending}
use axtp_ts_runtime.Client.Settled.Runs.{client_run-asked}
use axtp_ts_runtime.Client.Settled.Closed.{then_closed, closes-settled}

-- Events are queued, two at most, and the oldest is dropped; calls are queued, one at most.
abbrev options : ClientOptions
options = record {
  reconnects = false;
  has_handshake_timeout = false;
  queues_events = true;
  event_max_size = 2;
  event_overflow = drop_oldest;
  call_max_size = 3;
  call_overflow = rejects_new;
  call_default = record no_options { offline_policy = some queue };
  call_methods = [];
}

abbrev all_go : Text → Value → EmitOutcome
all_go name payload = goes

abbrev at : ClientInput → Moment
at input = record { input = input; emit_outcome = all_go }

abbrev emits_now : ℕ → Moment
emits_now p = at (emits (record { event_name = units "a.b"; payload = none; promise = p }))

abbrev calls_now : ℕ → CallOptions → Moment
calls_now p given = at (calls (units "m") none given p)

abbrev keyed : CallOptions
keyed = record no_options { coalesce_key = some (units "k") }

-- Three events and four calls come while the client connects: the first event is dropped, the second
-- call replaces the first one, with its key, and the third and fourth wait behind.
abbrev busy : List Moment
busy =
    at connects_now
    ∷ emits_now 1
    ∷ emits_now 2
    ∷ emits_now 3
    ∷ calls_now 4 keyed
    ∷ calls_now 5 keyed
    ∷ calls_now 6 no_options
    ∷ calls_now 7 (record no_options { offline_policy = some wait_ready })
    ∷ at transport_opens
    ∷ at (endpoint_ready 0)
    ∷ at connect_goes_on
    ∷ []

abbrev ready_client : Client
ready_client = record new_client {
  state = ready;
  first_ready = false;
  endpoint = some 0;
  endpoint_count = 1;
  in_flight = some (record {
    method = units "m";
    params = none;
    call_timeout = none;
    key = some (units "k");
    waiters = 5 ∷ [];
  });
  call_queue =
      record {
        method = units "m";
        params = none;
        call_timeout = none;
        key = none;
        waiters = 6 ∷ [];
      }
      ∷ [];
}

busy_ready : (client_run options busy new_client).0 ≡ ready_client
unfolding client_run client_input connect set_state notify_waiting ◌and_then◌ emit_raw enqueue_event
    accept_event overflow_event shift_event push_event flush_outbox flush_events require_usable
    require_usable_in call_raw resolve_call_options call_by_policy enqueue_call enqueue_open
    find_key coalesced coalesce append_call overflow_call push_call flush_call_queue when_idle
    next_call spawn_endpoint connecting_again event_masks on_endpoint_ready clear_handshake_timeout
    resolve_ready flush_all resume_connect resolve_if_ready hand_over_waiting
busy_ready = refl

client_run-asked_example :
    settled 5 (client_run options busy new_client).1
      + passed_on 5 (client_run options busy new_client).1
      + pending 5 (client_run options busy new_client).0
    ≡ 1
client_run-asked_example = client_run-asked 5 options busy

busy-IsOpen : is_closed (client_run options busy new_client).0.state ≡ false
busy-IsOpen = ap (λ (c : Client). is_closed c.state) busy_ready

closes-settled_example :
    settled 6 (client_run options (busy ++ then_closed all_go (breaks none)) new_client).1
      + passed_on 6 (client_run options (busy ++ then_closed all_go (breaks none)) new_client).1
    ≡ 1
closes-settled_example = closes-settled options 6 busy all_go (breaks none) busy-IsOpen

-- A handshake that is done after connect has timed out leaves the client connecting for good; a
-- queued call is never settled when the connection is lost and there is no coordinator; and a
-- connection that is lost before connect goes on leaves a client ready with no endpoint.
abbrev late : List Moment
late = at connects_now ∷ at transport_opens ∷ at connect_timer ∷ at (endpoint_ready 0) ∷ []

abbrev lost : List Moment
lost = busy ++ (at (endpoint_closes false) ∷ at (call_settles (breaks none)) ∷ [])

abbrev reconnecting_options : ClientOptions
reconnecting_options = record options { reconnects = true }

abbrev quick_loss : List Moment
quick_loss =
    at connects_now
    ∷ at transport_opens
    ∷ at (endpoint_ready 0)
    ∷ at (endpoint_closes false)
    ∷ at connect_goes_on
    ∷ []

loss_runs :
    ((client_run options late new_client).0.state ≡ connecting)
    × ((client_run options (at connects_now ∷ []) (client_run options late new_client).0).1
        ≡ connect_throws ErrorCode.invalid_state ∷ [])
    × ((client_run options lost new_client).0.state ≡ closed)
    × (pending 6 (client_run options lost new_client).0 ≡ 1)
    × ((client_run reconnecting_options quick_loss new_client).0.state ≡ ready)
    × ((client_run reconnecting_options quick_loss new_client).0.endpoint ≡ none)
unfolding client_run client_input connect set_state notify_waiting ◌and_then◌ emit_raw enqueue_event
    accept_event overflow_event shift_event push_event flush_outbox flush_events require_usable
    require_usable_in call_raw resolve_call_options call_by_policy enqueue_call enqueue_open
    find_key coalesced coalesce append_call overflow_call push_call flush_call_queue when_idle
    next_call spawn_endpoint connecting_again event_masks on_endpoint_ready clear_handshake_timeout
    resolve_ready flush_all resume_connect resolve_if_ready hand_over_waiting connect_times_out
    fail_ready on_endpoint_close settle_call settle_in_flight
loss_runs = (refl, refl, refl, refl, refl, refl)
