-- ===== src/Broker/Answers.antt =====
-- Each request is answered once.
use axtp_ts_runtime.Common.{
  ℕ, zero, suc, ◌+◌, List, [], ◌∷◌, ◌++◌, some, Bool, ◌==◌, ◌&&◌, if◌then◌else◌, get_elem?, ◌≡◌,
  sym, ap, arith, inl, inr, Option-cases,
}
use axtp_ts_runtime.Model.Rpc.{Text, same_text, response}
use axtp_ts_runtime.JsonRpc.{Value}
use axtp_ts_runtime.Broker.{
  GlobalHandlerSource, BasicBroker, new_broker, BrokerOutput, on_result, Task, TaskOutcome,
  resolves, rejects, remove_at, set_method, unset_method, set_method_unavailable,
  set_method_available, get_method, dispatch_request, answer_task, settle_task,
}

-- The calls of a broker that bear on requests.
pub data BrokerInput : Type 0 where
  -- sid, requestId, method, params
  asks : Text → ℕ → Text → Value → BrokerInput
  settles : ℕ → TaskOutcome → BrokerInput
  sets_method : Text → ℕ → BrokerInput
  unsets_method : Text → ℕ → BrokerInput
  sets_unavailable : Text → BrokerInput
  sets_available : Text → BrokerInput

module _ (source : GlobalHandlerSource) (known_method known_event : Text → Bool) where
  unfoldable pub broker_step : BrokerInput → BasicBroker → BasicBroker × List BrokerOutput
  broker_step (asks sid id method params) b =
      dispatch_request source known_method known_event sid id method params b
  broker_step (settles i outcome) b = settle_task source known_method known_event i outcome b
  broker_step (sets_method name handler) b =
      (record b { router = set_method name handler b.router }, [])
  broker_step (unsets_method name handler) b =
      (record b { router = unset_method name handler b.router }, [])
  broker_step (sets_unavailable name) b = (set_method_unavailable name b, [])
  broker_step (sets_available name) b = (set_method_available name b, [])

  unfoldable pub broker_run : List BrokerInput → BasicBroker → BasicBroker × List BrokerOutput
  unfolding broker_step
  broker_run [] b = (b, [])
  broker_run (input ∷ rest) b =
      let (b', outputs) = broker_step input b in
      let (b'', more) = broker_run rest b' in (b'', outputs ++ more)

module _ (sid : Text) (id : ℕ) where
  abbrev is_this : Text → ℕ → Bool
  is_this s i = same_text s sid && i == id

  abbrev one_if : Bool → ℕ
  one_if b = if b then 1 else 0

  -- How often this request is asked, answered, and still runs.
  abbrev pub asked : List BrokerInput → ℕ
  asked [] = 0
  asked (asks s i method params ∷ rest) = one_if (is_this s i) + asked rest
  asked (input ∷ rest) = asked rest

  abbrev answer : BrokerOutput → ℕ
  answer (on_result (response s i status result)) = one_if (is_this s i)
  answer output = 0

  abbrev pub answers : List BrokerOutput → ℕ
  answers [] = 0
  answers (output ∷ rest) = answer output + answers rest

  abbrev pub running : List Task → ℕ
  running [] = 0
  running (t ∷ ts) = one_if (is_this t.sid t.request_id) + running ts

  answers-append : (xs ys : List BrokerOutput) → answers (xs ++ ys) ≡ answers xs + answers ys
  answers-append [] ys = omega arith
  answers-append (output ∷ xs) ys = omega (arith, answers-append xs ys)

  running-remove_at :
      (ts : List Task) (i : ℕ) (t : Task)
      → get_elem? ts i ≡ some t
      → one_if (is_this t.sid t.request_id) + running (remove_at ts i) ≡ running ts
  running-remove_at [] i t e = absurd (cc e)
  running-remove_at (x ∷ xs) zero t e =
      let same : x ≡ t = cc e in
      ap (λ (y : Task). one_if (is_this y.sid y.request_id) + running xs) (sym same)
  running-remove_at (x ∷ xs) (suc i) t e = omega (arith, running-remove_at xs i t e)

  answers-answer_task :
      (source : GlobalHandlerSource) (known_method known_event : Text → Bool) (t : Task)
      (outcome : TaskOutcome)
      → answers (answer_task source known_method known_event t outcome)
        ≡ one_if (is_this t.sid t.request_id)
  unfolding answer_task
  answers-answer_task source known_method known_event t (resolves result) = omega arith
  answers-answer_task source known_method known_event t (rejects code message) = omega arith

  -- A step keeps the account.
  abbrev Accounts : ℕ → BasicBroker → BasicBroker × List BrokerOutput → Type 0
  Accounts new b step = answers step.1 + running step.0.tasks ≡ new + running b.tasks

  module _ (source : GlobalHandlerSource) (known_method known_event : Text → Bool) where
    dispatch_request-Accounts :
        (s : Text) (i : ℕ) (method : Text) (params : Value) (b : BasicBroker)
        → Accounts
            (one_if (is_this s i))
            b
            (dispatch_request source known_method known_event s i method params b)
    unfolding dispatch_request
    dispatch_request-Accounts s i method params b =
        elim (Option-cases (get_method source method b.router)) [
          | inl e ↦ rw (e, dispatch_request) (omega arith)
          | inr (handler, e) ↦ rw (e, dispatch_request) (omega arith)
        ]

    settle_task-Accounts :
        (i : ℕ) (outcome : TaskOutcome) (b : BasicBroker)
        → Accounts 0 b (settle_task source known_method known_event i outcome b)
    unfolding settle_task
    settle_task-Accounts i outcome b = elim (Option-cases (get_elem? b.tasks i)) [
      | inl e ↦ rw (e, settle_task) (omega arith)
      | inr (t, e) ↦
          rw (e, settle_task)
            (omega (
              arith,
              answers-answer_task source known_method known_event t outcome,
              running-remove_at b.tasks i t e,
            ))
    ]

    broker_step-Accounts :
        (input : BrokerInput) (b : BasicBroker)
        → Accounts (asked (input ∷ [])) b (broker_step source known_method known_event input b)
    unfolding broker_step set_method_unavailable set_method_available
    broker_step-Accounts (asks s i method params) b =
        omega (arith, dispatch_request-Accounts s i method params b)
    broker_step-Accounts (settles i outcome) b = settle_task-Accounts i outcome b
    broker_step-Accounts (sets_method name handler) b = omega arith
    broker_step-Accounts (unsets_method name handler) b = omega arith
    broker_step-Accounts (sets_unavailable name) b = omega arith
    broker_step-Accounts (sets_available name) b = omega arith

    asked_cons :
        (input : BrokerInput) (rest : List BrokerInput)
        → asked (input ∷ rest) ≡ asked (input ∷ []) + asked rest
    asked_cons (asks s i method params) rest = omega arith
    asked_cons (settles i outcome) rest = omega arith
    asked_cons (sets_method name handler) rest = omega arith
    asked_cons (unsets_method name handler) rest = omega arith
    asked_cons (sets_unavailable name) rest = omega arith
    asked_cons (sets_available name) rest = omega arith

    run-Accounts :
        (inputs : List BrokerInput) (b : BasicBroker)
        → Accounts (asked inputs) b (broker_run source known_method known_event inputs b)
    unfolding broker_run
    run-Accounts [] b = omega arith
    run-Accounts (input ∷ rest) b =
        let step = broker_step source known_method known_event input b in
        let more = broker_run source known_method known_event rest step.0 in
        omega (
          arith,
          answers-append step.1 more.1,
          broker_step-Accounts input b,
          run-Accounts rest step.0,
          asked_cons input rest,
        )

    -- Whatever requests come in, methods are set, unset and marked, and promises of handlers settle,
    -- in any order: a session's request with an id is answered as often as it was asked, less the
    -- handlers of it that still run. So none is answered twice, and none is lost.
    pub broker_run-asked :
        (inputs : List BrokerInput)
        → let (b, outputs) = broker_run source known_method known_event inputs new_broker in
          answers outputs + running b.tasks ≡ asked inputs
    broker_run-asked inputs = omega (arith, run-Accounts inputs new_broker)
