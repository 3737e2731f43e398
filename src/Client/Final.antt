-- ===== src/Client/Final.antt =====
-- A closed client stays closed and does nothing more on the connection: the queues.
pub mod Connection
pub mod Runs
use axtp_ts_runtime.Common.{
  ℕ, List, [], ◌∷◌, ◌++◌, Option, none, some, Bool, true, false, not, ◌||◌, ◌≡◌, refl, ap, throws,
  All, if◌then◌else◌,
}
use axtp_ts_runtime.Model.Rpc.{Text}
use axtp_ts_runtime.Model.ErrorCode
use axtp_ts_runtime.JsonRpc.{Value}
use axtp_ts_runtime.Client.State.{
  ClientOptions, ClientState, idle, ready, closed, QueuedEvent, QueuedCall, CallOptions,
  CallOfflinePolicy, fail_fast, wait_ready, queue, Client, ClientOutput, state_changes,
  starts_endpoint, opens_transport, starts_coordinator, sends_event, sends_call, handed,
  stops_coordinator, coordinator_succeeds, connects, connect_returns, reconnect_fails, reports,
  closes_endpoint, Step, ◌and_then◌, require_usable, require_usable_in, is_closed, same_state,
}
use axtp_ts_runtime.Client.Events.{
  EmitOutcome, outputs, flush_outbox, reject_events, reject_outbox, enqueue_event, emit_raw,
}
use axtp_ts_runtime.Client.Calls.{
  or_default, CallOutcome, succeeds, breaks, resolve_all, reject_all_waiters, settle_waiters,
  next_call, when_idle, flush_call_queue, settle_in_flight, settle_call, reject_calls,
  reject_call_queue, enqueue_call, resolve_if_ready, call_by_policy, call_raw, resolve_call_options,
}
use axtp_ts_runtime.Client.Connection.{
  set_state, clear_handshake_timeout, resolve_ready, fail_ready, connect, flush_all, resume_connect,
  connect_times_out, spawn_endpoint, open_fails, stop_coordinator, tell_coordinator, give_up,
  handshake_times_out, on_fatal_handshake_error, on_endpoint_ready, on_endpoint_close,
  handle_reconnect_failed, close_endpoint, close, is_endpoint, subscribe,
}
use axtp_ts_runtime.Client.Runs.{
  ClientInput, connects_now, connect_goes_on, connect_timer, transport_opens, transport_fails,
  coordinator_gives_up, coordinator_reports, endpoint_ready, endpoint_closes, endpoint_reports,
  handshake_fails, handshake_timer_fires, calls, call_settles, emits, subscribes, closes, Moment,
  client_input, client_run,
}

-- The output neither changes the state, nor opens, starts or uses a connection.
abbrev pub IsSilent : ClientOutput → Type 0
IsSilent (state_changes state) = ⊥
IsSilent opens_transport = ⊥
IsSilent (starts_endpoint ep masks) = ⊥
IsSilent starts_coordinator = ⊥
IsSilent (sends_event ep name payload) = ⊥
IsSilent (sends_call ep method params timeout) = ⊥
IsSilent (handed p ep method params timeout) = ⊥
IsSilent output = Unit

abbrev pub Stays : Step → Type 0
Stays s = (s.0.state ≡ closed) × All IsSilent s.1

abbrev pub KeepsClosed : (Client → Step) → Type 0
KeepsClosed f = (c : Client) → c.state ≡ closed → Stays (f c)

pub All-append :
    (xs ys : List ClientOutput) → All IsSilent xs → All IsSilent ys → All IsSilent (xs ++ ys)
All-append [] ys h k = k
All-append (x ∷ xs) ys (a, h) k = (a, All-append xs ys h k)

pub Stays-then : (s : Step) (f : Client → Step) → Stays s → KeepsClosed f → Stays (s and_then f)
unfolding ◌and_then◌
Stays-then s f h k = let t = k s.0 h.0 in (t.0, All-append s.1 (f s.0).1 h.1 t.1)

pub Stays-if : (b : Bool) (s t : Step) → Stays s → Stays t → Stays (if b then s else t)
Stays-if true s t h k = h
Stays-if false s t h k = k

pub is_closed-closed : (c : Client) → c.state ≡ closed → is_closed c.state ≡ true
is_closed-closed c h = ap is_closed h

-- A test for a closed client takes its first branch.
pub when_closed :
    (c : Client) (s t : Step)
    → c.state ≡ closed
    → Stays s
    → Stays (if is_closed c.state then s else t)
when_closed c s t h k = rw (is_closed-closed c h) k

pub or_true : (b : Bool) → (b || true) ≡ true
or_true true = refl
or_true false = refl

pub unusable :
    (c : Client) → c.state ≡ closed → require_usable c ≡ throws ErrorCode.transport_disconnected
unfolding require_usable require_usable_in
unusable c h = ap (λ (s : ClientState). require_usable_in s c.endpoint) h

pub set_state-Stays : (state : ClientState) → KeepsClosed (set_state state)
unfolding set_state
set_state-Stays state c h =
    let e : (same_state c.state state || is_closed c.state) ≡ true =
      rw (is_closed-closed c h) (or_true (same_state c.state state)) in
    rw (e, set_state) (h, tt)

pub flush_outbox-Stays :
    (emit_outcome : Text → Value → EmitOutcome) → KeepsClosed (flush_outbox emit_outcome)
unfolding flush_outbox
flush_outbox-Stays emit_outcome c h = rw (unusable c h, flush_outbox) (h, tt)

pub next_call-Stays : KeepsClosed next_call
unfolding next_call
next_call-Stays c h = rw (unusable c h, next_call) (h, tt)

pub flush_call_queue-Stays : KeepsClosed flush_call_queue
unfolding flush_call_queue when_idle
flush_call_queue-Stays c h = by_flight c.in_flight
  where
    by_flight : (o : Option QueuedCall) → Stays (when_idle o c)
    by_flight none = next_call-Stays c h
    by_flight (some item) = (h, tt)

pub flush_all-Stays :
    (emit_outcome : Text → Value → EmitOutcome) → KeepsClosed (flush_all emit_outcome)
unfolding flush_all
flush_all-Stays emit_outcome c h =
    Stays-then (flush_outbox emit_outcome c) flush_call_queue (flush_outbox-Stays emit_outcome c h)
      flush_call_queue-Stays

pub IsSilent-resolve_all : (value : Value) (ps : List ℕ) → All IsSilent (resolve_all value ps)
IsSilent-resolve_all value [] = tt
IsSilent-resolve_all value (p ∷ ps) = (tt, IsSilent-resolve_all value ps)

pub IsSilent-reject_all_waiters :
    (code : ℕ) (ps : List ℕ) → All IsSilent (reject_all_waiters code ps)
IsSilent-reject_all_waiters code [] = tt
IsSilent-reject_all_waiters code (p ∷ ps) = (tt, IsSilent-reject_all_waiters code ps)

pub IsSilent-settle_waiters :
    (outcome : CallOutcome) (ps : List ℕ) → All IsSilent (settle_waiters outcome ps)
IsSilent-settle_waiters (succeeds value) ps = IsSilent-resolve_all value ps
IsSilent-settle_waiters (breaks code) ps = IsSilent-reject_all_waiters _ ps

pub settle_call-Stays : (outcome : CallOutcome) → KeepsClosed (settle_call outcome)
unfolding settle_call settle_in_flight
settle_call-Stays outcome c h = by_flight c.in_flight
  where
    by_flight : (o : Option QueuedCall) → Stays (settle_in_flight outcome o c)
    by_flight none = (h, tt)
    by_flight (some item) =
        Stays-then (record c { in_flight = none }, settle_waiters outcome item.waiters) next_call
          (h, IsSilent-settle_waiters outcome item.waiters) next_call-Stays

pub IsSilent-reject_calls :
    (code : ℕ) (items : List QueuedCall) → All IsSilent (reject_calls code items)
unfolding reject_calls
IsSilent-reject_calls code [] = tt
IsSilent-reject_calls code (item ∷ items) =
    All-append (reject_all_waiters code item.waiters) (reject_calls code items)
      (IsSilent-reject_all_waiters code item.waiters) (IsSilent-reject_calls code items)

pub reject_call_queue-Stays : (code : ℕ) → KeepsClosed (reject_call_queue code)
unfolding reject_call_queue
reject_call_queue-Stays code c h = (h, IsSilent-reject_calls code c.call_queue)

pub IsSilent-reject_events :
    (code : ℕ) (items : List QueuedEvent) → All IsSilent (reject_events code items)
unfolding reject_events
IsSilent-reject_events code [] = tt
IsSilent-reject_events code (item ∷ items) = (tt, IsSilent-reject_events code items)

pub reject_outbox-Stays : (code : ℕ) → KeepsClosed (reject_outbox code)
unfolding reject_outbox
reject_outbox-Stays code c h = (h, IsSilent-reject_events code c.event_outbox)

pub fail_ready-Stays : (code : ℕ) → KeepsClosed (fail_ready code)
unfolding fail_ready
fail_ready-Stays code c h = Stays-if c.ready_wait _ _ (h, (tt, tt)) (h, tt)

pub emit_raw-Stays :
    (opts : ClientOptions) (emit_outcome : Text → Value → EmitOutcome) (item : QueuedEvent)
    → KeepsClosed (emit_raw opts emit_outcome item)
unfolding emit_raw enqueue_event
emit_raw-Stays opts emit_outcome item c h =
    rw (unusable c h, emit_raw) (when_closed c _ _ h (h, (tt, tt)))

pub call_by_policy-Stays :
    (opts : ClientOptions) (options : CallOptions) (policy : Option CallOfflinePolicy)
    (method : Text) (params : Value) (p : ℕ)
    → KeepsClosed (call_by_policy opts options policy method params p)
unfolding call_by_policy enqueue_call
call_by_policy-Stays opts options policy method params p c h =
    by_policy (or_default policy fail_fast) refl
  where
    by_policy :
        (chosen : CallOfflinePolicy)
        → or_default policy fail_fast ≡ chosen
        → Stays (call_by_policy opts options policy method params p c)
    by_policy fail_fast e = rw (unusable c h, call_by_policy) (rw e (h, (tt, tt)))
    by_policy wait_ready e =
        rw (unusable c h, call_by_policy) (rw e (when_closed c _ _ h (h, (tt, tt))))
    by_policy queue e = rw (unusable c h, call_by_policy) (rw e (when_closed c _ _ h (h, (tt, tt))))

pub stop_coordinator-Stays : KeepsClosed stop_coordinator
stop_coordinator-Stays c h = told c.has_coordinator
  where
    told : (b : Bool) → Stays (c, if b then stops_coordinator ∷ [] else [])
    told true = (h, (tt, tt))
    told false = (h, tt)

pub tell_coordinator-Stays : KeepsClosed tell_coordinator
tell_coordinator-Stays c h = told c.has_coordinator
  where
    told : (b : Bool) → Stays (c, if b then coordinator_succeeds ∷ [] else [])
    told true = (h, (tt, tt))
    told false = (h, tt)
