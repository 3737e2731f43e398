-- ===== src/Tests/Brokers.antt =====
-- The broker of broker/broker.ts at concrete inputs.
use axtp_ts_runtime.Common.{
  ◌+◌, List, [], ◌∷◌, none, some, Bool, true, false, ◌||◌, ◌==◌, if◌then◌else◌, ◌≡◌, refl,
}
use axtp_ts_runtime.Model.Rpc.{Text}
use axtp_ts_runtime.Broker.{
  dispatch_request, settle_task, GlobalHandlerSource, BasicBroker, new_broker, resolves, rejects,
  no_source, text_lookup, get_method, get_event_handlers, or_global, set_has, set_method,
  unset_method, dispatch_event,
}
use axtp_ts_runtime.Broker.Answers.{
  BrokerInput, asks, settles, sets_method, unsets_method, broker_run, asked, answers, running,
  broker_run-asked,
}
use axtp_ts_runtime.Broker.Specified.{
  RouterCall, router_run, new_router, no_handlers, replay, sets_method, unsets_method,
  adds_listener, removes_listener,
}
use axtp_ts_runtime.Broker.Refines.{router_run-refines}
use axtp_ts_runtime.Broker.Listeners.{notified, listens, dispatch_event-notified}

abbrev method : Text
method = b'm' ∷ []

abbrev nothing_known : Text → Bool
nothing_known name = false

-- An unknown method; a handler is set; two requests for it, answered the other way round, one by an
-- error; and the handler is removed.
abbrev inputs : List BrokerInput
inputs =
    asks [] 1 method none
    ∷ sets_method method 5
    ∷ asks [] 2 method none
    ∷ asks [] 3 method none
    ∷ settles 1 (resolves none)
    ∷ settles 0 (rejects none [])
    ∷ unsets_method method 6
    ∷ unsets_method method 5
    ∷ asks [] 4 method none
    ∷ []

run_asked :
    let (b, outputs) = broker_run no_source nothing_known nothing_known inputs new_broker in
    (answers [] 2 outputs ≡ 1) × (running [] 2 b.tasks ≡ 0) × (asked [] 2 inputs ≡ 1)
unfolding broker_run set_method unset_method dispatch_request settle_task
run_asked = (refl, refl, refl)

broker_run-asked_example :
    let (b, outputs) = broker_run no_source nothing_known nothing_known inputs new_broker in
    answers [] 2 outputs + running [] 2 b.tasks ≡ asked [] 2 inputs
broker_run-asked_example = broker_run-asked [] 2 no_source nothing_known nothing_known inputs

-- Handler 1 listens here, and 1 and 2 at the shared source.
abbrev shared : GlobalHandlerSource
shared = record { get_method = λ name. none; get_event_listeners = λ name. some (1 ∷ 2 ∷ []) }

abbrev listening : BasicBroker
listening = record new_broker {
  router = record { method_handlers = []; event_handlers = (method, 1 ∷ []) ∷ [] };
}

dispatch_event-notified_example :
    notified 1
      (dispatch_event shared nothing_known nothing_known (λ h. h == 1) method none listening)
    ≡ (if listens 1
          (text_lookup method listening.router.event_handlers)
          (shared.get_event_listeners method)
        then 1
        else 0)
dispatch_event-notified_example =
    dispatch_event-notified shared nothing_known nothing_known (λ h. h == 1) method none listening 1
      refl (refl, tt) (refl, (refl, tt))

-- Handler 1 is displaced by 2, so that its removal changes nothing; 3 listens and 4 no more.
abbrev router_calls : List RouterCall
router_calls =
    sets_method method 1
    ∷ sets_method method 2
    ∷ unsets_method method 1
    ∷ adds_listener method 3
    ∷ adds_listener method 4
    ∷ removes_listener method 4
    ∷ []

router_run-refines_example :
    let r = router_run router_calls new_router in
    let t = replay router_calls no_handlers in
    (get_method shared method r ≡ or_global (t.method_of method) none)
    × (set_has 4 (get_event_handlers shared method r)
        ≡ (t.listens_to method 4 || set_has 4 (1 ∷ 2 ∷ [])))
router_run-refines_example = router_run-refines shared router_calls method 4

specified_handlers :
    ((replay router_calls no_handlers).method_of method ≡ some 2)
    × ((replay router_calls no_handlers).listens_to method 3 ≡ true)
    × ((replay router_calls no_handlers).listens_to method 4 ≡ false)
specified_handlers = (refl, refl, refl)
