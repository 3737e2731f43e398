-- ===== src/Client/Settled/Closed.antt =====
-- A client that is closed lets go of every promise.
use axtp_ts_runtime.Common.{
  ℕ, ◌+◌, List, [], ◌∷◌, ◌++◌, Option, none, some, false, ◌≡◌, refl, ap, ◌∙◌, arith, throws, inl,
  inr, Bool-cases,
}
use axtp_ts_runtime.Model.Rpc.{Text}
use axtp_ts_runtime.Model.ErrorCode
use axtp_ts_runtime.JsonRpc.{Value}
use axtp_ts_runtime.Client.State.{
  ClientOptions, ClientState, closed, Client, new_client, Step, ◌and_then◌, is_closed,
  require_usable, require_usable_in, QueuedCall, closes_endpoint,
}
use axtp_ts_runtime.Client.Events.{EmitOutcome, reject_outbox}
use axtp_ts_runtime.Client.Calls.{
  CallOutcome, settle_call, settle_in_flight, next_call, reject_call_queue,
}
use axtp_ts_runtime.Client.Connection.{
  close, set_state, notify_waiting, fail_ready, clear_handshake_timeout, close_endpoint,
}
use axtp_ts_runtime.Client.Runs.{call_settles, closes, Moment, client_input, client_run}
use axtp_ts_runtime.Client.Settled.{
  settled, passed_on, let_go-ways, pending, in_flight_call, in_events, in_calls, in_waiting,
}
use axtp_ts_runtime.Client.Settled.Runs.{asked, run-Accounts}

-- The state is closed, and nothing waits but the call that is awaited.
record IsLetGo (c : Client) : Type 0 where
  is_shut : c.state ≡ closed
  no_events : c.event_outbox ≡ []
  no_calls : c.call_queue ≡ []
  no_waiting : c.waiting_calls ≡ []

-- Of a state that is not closed.
set_state-closed :
    (c : Client)
    → is_closed c.state ≡ false
    → ((set_state closed c).0.state ≡ closed) × ((set_state closed c).0.waiting_calls ≡ [])
unfolding set_state notify_waiting ◌and_then◌
set_state-closed c running = rw running (refl, refl)

close_endpoint-same : (c : Client) → (close_endpoint c).0 ≡ c
close_endpoint-same c = held c.endpoint
  where
    held :
        (o : Option ℕ)
        → (elim o as (λ o. Step) [
          | none ↦ (c, [])
          | some ep ↦ (c, closes_endpoint ep false ∷ [])
        ]).0
          ≡ c
    held none = refl
    held (some ep) = refl

fail_ready-same :
    (code : ℕ) (c : Client)
    → ((fail_ready code c).0.state ≡ c.state)
      × ((fail_ready code c).0.waiting_calls ≡ c.waiting_calls)
unfolding fail_ready
fail_ready-same code c = elim (Bool-cases c.ready_wait) [
  | inl e ↦ rw (e, fail_ready) (refl, refl)
  | inr e ↦ rw (e, fail_ready) (refl, refl)
]

close-IsLetGo : (c : Client) → is_closed c.state ≡ false → IsLetGo (close c).0
unfolding close ◌and_then◌ clear_handshake_timeout reject_call_queue reject_outbox
close-IsLetGo c running =
    let b : Client = record c { handshake_timer = none } in
    let d : Client = (set_state closed b).0 in
    let e : Client = (close_endpoint d).0 in
    let shut = set_state-closed b running in
    let same : e ≡ d = close_endpoint-same d in
    let kept = fail_ready-same ErrorCode.transport_disconnected e in
    record {
      is_shut = kept.0 ∙ ap (λ (x : Client). x.state) same ∙ shut.0;
      no_events = refl;
      no_calls = refl;
      no_waiting = kept.1 ∙ ap (λ (x : Client). x.waiting_calls) same ∙ shut.1;
    }

require_usable-closed :
    (c : Client) → c.state ≡ closed → require_usable c ≡ throws ErrorCode.transport_disconnected
unfolding require_usable require_usable_in
require_usable-closed c h = ap (λ (s : ClientState). require_usable_in s c.endpoint) h

next_call-closed : (c : Client) → c.state ≡ closed → (next_call c).0 ≡ record c { in_flight = none }
unfolding next_call
next_call-closed c h = rw (require_usable-closed c h, next_call) refl

module _ (p : ℕ) where
  nothing_pending : (c : Client) → IsLetGo c → c.in_flight ≡ none → pending p c ≡ 0
  nothing_pending c h free = omega (
    arith,
    ap (in_events p) h.no_events,
    ap (in_calls p) h.no_calls,
    ap (in_flight_call p) free,
    ap (in_waiting p) h.no_waiting,
  )

  -- When the awaited call has settled, nothing is pending.
  settle_call-pending :
      (outcome : CallOutcome) (c : Client) → IsLetGo c → pending p (settle_call outcome c).0 ≡ 0
  unfolding settle_call settle_in_flight ◌and_then◌
  settle_call-pending outcome c h = awaited c.in_flight refl
    where
      awaited :
          (o : Option QueuedCall) → c.in_flight ≡ o → pending p (settle_in_flight outcome o c).0 ≡ 0
      awaited none e = nothing_pending c h e
      awaited (some item) e =
          let d : Client = record c { in_flight = none } in
          ap (pending p) (next_call-closed d h.is_shut)
          ∙ nothing_pending d
              (record {
                is_shut = h.is_shut;
                no_events = h.no_events;
                no_calls = h.no_calls;
                no_waiting = h.no_waiting;
              })
              refl

  asked-append : (xs ys : List Moment) → asked p (xs ++ ys) ≡ asked p xs + asked p ys
  asked-append [] ys = omega arith
  asked-append (m ∷ xs) ys = omega (arith, asked-append xs ys)

-- The client that a run leaves, when it is closed and its awaited call settles.
abbrev pub then_closed : (Text → Value → EmitOutcome) → CallOutcome → List Moment
then_closed emit_outcome outcome =
    record { input = closes; emit_outcome = emit_outcome }
    ∷ record { input = call_settles outcome; emit_outcome = emit_outcome }
    ∷ []

module _ (opts : ClientOptions) where
  client_run-append :
      (xs ys : List Moment) (c : Client)
      → (client_run opts (xs ++ ys) c).0 ≡ (client_run opts ys (client_run opts xs c).0).0
  unfolding client_run
  client_run-append [] ys c = refl
  client_run-append (m ∷ xs) ys c =
      client_run-append xs ys (client_input opts m.emit_outcome m.input c).0

  -- After any run of a client that is not closed then, let it be closed, and let the call that is
  -- awaited settle, if there is one. How often the client has settled a promise since its start, and
  -- how often it has passed it on to a call of an endpoint, add up then to how often the promise was
  -- handed to it: no promise is left with the client, and it lets go of none twice. What the endpoint
  -- makes of one that is passed on is not said.
  pub closes-settled :
      (p : ℕ) (moments : List Moment) (emit_outcome : Text → Value → EmitOutcome)
      (outcome : CallOutcome)
      → is_closed (client_run opts moments new_client).0.state ≡ false
      → let os = (client_run opts (moments ++ then_closed emit_outcome outcome) new_client).1 in
        settled p os + passed_on p os ≡ asked p moments
  unfolding client_run client_input
  closes-settled p moments emit_outcome outcome running =
      let c : Client = (client_run opts moments new_client).0 in
      let last : List Moment = then_closed emit_outcome outcome in
      let after = client_run opts (moments ++ last) new_client in
      let left : pending p after.0 ≡ 0 =
        ap (pending p) (client_run-append moments last new_client)
        ∙ settle_call-pending p outcome (close c).0 (close-IsLetGo c running) in
      omega (
        arith,
        run-Accounts p opts (moments ++ last) new_client,
        left,
        asked-append p moments last,
        let_go-ways p after.1,
      )
