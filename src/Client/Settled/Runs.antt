-- ===== src/Client/Settled/Runs.antt =====
-- Over any run of a client, each promise is let go of as often as it was handed over, less where it
-- waits.
use axtp_ts_runtime.Common.{ℕ, ◌+◌, List, [], ◌∷◌, ◌≡◌, refl, arith}
use axtp_ts_runtime.Model.Rpc.{Text}
use axtp_ts_runtime.JsonRpc.{Value}
use axtp_ts_runtime.Client.State.{ClientOptions, Client, new_client}
use axtp_ts_runtime.Client.Events.{EmitOutcome}
use axtp_ts_runtime.Client.Connection.{is_endpoint, subscribe}
use axtp_ts_runtime.Client.Runs.{
  ClientInput, connects_now, connect_goes_on, connect_timer, transport_opens, transport_fails,
  coordinator_gives_up, coordinator_reports, endpoint_ready, endpoint_closes, endpoint_reports,
  handshake_fails, handshake_timer_fires, calls, call_settles, emits, subscribes, closes, Moment,
  client_input, client_run,
}
use axtp_ts_runtime.Client.Settled.{
  one_if, settled, passed_on, let_go-ways, pending, Accounts, let_go-append,
}
use axtp_ts_runtime.Client.Settled.Events.{emit_raw-Accounts}
use axtp_ts_runtime.Client.Settled.Calls.{settle_call-Accounts}
use axtp_ts_runtime.Client.Settled.Waiting.{call_raw-Accounts}
use axtp_ts_runtime.Client.Settled.Connection.{
  Keeps-if, connect-Keeps, resume_connect-Keeps, connect_times_out-Keeps, spawn_endpoint-Keeps,
  open_fails-Keeps, handshake_times_out-Keeps, on_fatal_handshake_error-Keeps,
  on_endpoint_ready-Keeps, on_endpoint_close-Keeps, handle_reconnect_failed-Keeps, close-Keeps,
}

module _ (p : ℕ) where
  -- How often the promise is handed to the client, by calls and by events.
  abbrev pub asks : ClientInput → ℕ
  asks (calls method params options q) = one_if p q
  asks (emits item) = one_if p item.promise
  asks input = 0

  abbrev pub asked : List Moment → ℕ
  asked [] = 0
  asked (m ∷ rest) = asks m.input + asked rest

module _ (p : ℕ) (opts : ClientOptions) where
  client_input-Accounts :
      (emit_outcome : Text → Value → EmitOutcome) (input : ClientInput) (c : Client)
      → Accounts p (asks p input) c (client_input opts emit_outcome input c)
  unfolding client_input subscribe
  client_input-Accounts emit_outcome connects_now c = connect-Keeps p opts c
  client_input-Accounts emit_outcome connect_goes_on c = resume_connect-Keeps p emit_outcome c
  client_input-Accounts emit_outcome connect_timer c = connect_times_out-Keeps p c
  client_input-Accounts emit_outcome transport_opens c = spawn_endpoint-Keeps p opts c
  client_input-Accounts emit_outcome (transport_fails code) c = open_fails-Keeps p opts code c
  client_input-Accounts emit_outcome coordinator_gives_up c = handle_reconnect_failed-Keeps p c
  client_input-Accounts emit_outcome (coordinator_reports code) c = refl
  client_input-Accounts emit_outcome (endpoint_ready attempts) c =
      on_endpoint_ready-Keeps p emit_outcome attempts c
  client_input-Accounts emit_outcome (endpoint_closes remote) c = on_endpoint_close-Keeps p remote c
  client_input-Accounts emit_outcome (endpoint_reports code) c = refl
  client_input-Accounts emit_outcome (handshake_fails ep code) c =
      on_fatal_handshake_error-Keeps p ep code c
  client_input-Accounts emit_outcome (handshake_timer_fires ep is_ready) c =
      Keeps-if p c (is_endpoint ep c.handshake_timer) _ _
        (handshake_times_out-Keeps p ep is_ready c) refl
  client_input-Accounts emit_outcome (calls method params options promise) c =
      call_raw-Accounts p opts options method params promise c
  client_input-Accounts emit_outcome (call_settles outcome) c = settle_call-Accounts p outcome c
  client_input-Accounts emit_outcome (emits item) c = emit_raw-Accounts p emit_outcome opts item c
  client_input-Accounts emit_outcome (subscribes name) c = refl
  client_input-Accounts emit_outcome closes c = close-Keeps p c

  pub run-Accounts :
      (moments : List Moment) (c : Client)
      → Accounts p (asked p moments) c (client_run opts moments c)
  unfolding client_run
  run-Accounts [] c = refl
  run-Accounts (m ∷ rest) c =
      let step = client_input opts m.emit_outcome m.input c in
      let more = client_run opts rest step.0 in
      omega (
        arith,
        client_input-Accounts m.emit_outcome m.input c,
        run-Accounts rest step.0,
        let_go-append p step.1 more.1,
      )

  -- Whatever happens to the connection, in any order, and whatever the queues' limits, overflow
  -- policies and keys are: how often the client settles a promise, and how often it passes it on to a
  -- call of an endpoint, add up to how often the promise was handed to the client, by callRaw or
  -- emitRaw, less the places of it in the outbox, in the call queue, in the call that is awaited and
  -- among the calls that wait for an endpoint. So the client lets go of no promise twice, and loses
  -- none; what the endpoint makes of one that is passed on is not said.
  pub client_run-asked :
      (moments : List Moment)
      → let (c, os) = client_run opts moments new_client in
        settled p os + passed_on p os + pending p c ≡ asked p moments
  client_run-asked moments =
      let after = client_run opts moments new_client in
      omega (arith, run-Accounts moments new_client, let_go-ways p after.1)
