-- ===== src/Client/Calls.antt =====
-- src/sdk/client.ts: callRaw, the queue of calls, and the calls that wait for a usable endpoint.
use axtp_ts_runtime.Common.{
  ℕ, List, [], ◌∷◌, ◌++◌, Option, none, some, Bool, false, leb, if◌then◌else◌, length, returns,
  throws,
}
use axtp_ts_runtime.Model.ErrorCode
use axtp_ts_runtime.Model.Rpc.{Text, same_text}
use axtp_ts_runtime.JsonRpc.{Value}
use axtp_ts_runtime.Broker.{text_lookup}
use axtp_ts_runtime.Client.State.{
  Overflow, drop_oldest, drop_newest, rejects_new, CallOfflinePolicy, fail_fast, wait_ready, queue,
  QueuedCallCoalescePrevious, resolve_with_next, reject_previous, drop_previous, CallOptions,
  ClientOptions, QueuedCall, WaitingCall, Client, ClientOutput, sends_call, resolved, rejected,
  handed, Step, ◌and_then◌, is_closed, require_usable,
}
use axtp_ts_runtime.Client.Events.{code_or_disconnected}

abbrev pub or_default {ℓ} : {A : Type ℓ} → Option A → A → A
or_default none a = a
or_default (some b) a = b

abbrev pub prefer {ℓ} : {A : Type ℓ} → Option A → Option A → Option A
prefer none later = later
prefer (some a) later = some a

-- `{ ...under, ...over }`, where an option that is given is not undefined.
abbrev pub override : CallOptions → CallOptions → CallOptions
override under over = record {
  timeout_ms = prefer over.timeout_ms under.timeout_ms;
  offline_policy = prefer over.offline_policy under.offline_policy;
  coalesce_key = prefer over.coalesce_key under.coalesce_key;
  coalesce_previous = prefer over.coalesce_previous under.coalesce_previous;
}

abbrev pub no_options : CallOptions
no_options = record {
  timeout_ms = none;
  offline_policy = none;
  coalesce_key = none;
  coalesce_previous = none;
}

unfoldable pub resolve_call_options : ClientOptions → Text → CallOptions → CallOptions
resolve_call_options opts method given =
    override
      (override opts.call_default (or_default (text_lookup method opts.call_methods) no_options))
      given

-- How the promise of an endpoint's call settles: with a value, or with an error, which has a code
-- if it is an AxtpError.
pub data CallOutcome : Type 0 where
  succeeds : Value → CallOutcome
  breaks : Option ℕ → CallOutcome

abbrev pub resolve_all : Value → List ℕ → List ClientOutput
resolve_all value [] = []
resolve_all value (p ∷ ps) = resolved p value ∷ resolve_all value ps

abbrev pub reject_all_waiters : ℕ → List ℕ → List ClientOutput
reject_all_waiters code [] = []
reject_all_waiters code (p ∷ ps) = rejected p code ∷ reject_all_waiters code ps

abbrev pub with_first : ℕ → List QueuedCall → Client → Step
with_first ep [] c = (record c { in_flight = none }, [])
with_first ep (item ∷ items) c = (
  record c { call_queue = items; in_flight = some item },
  sends_call ep item.method item.params item.call_timeout ∷ [],
)

-- A round of the loop of flushCallQueue, from its test to its `await` or its end.
unfoldable pub next_call : Client → Step
unfolding require_usable
next_call c = elim (require_usable c) [
  | throws code ↦ (record c { in_flight = none }, [])
  | returns ep ↦ with_first ep c.call_queue c
]

unfoldable pub when_idle : Option QueuedCall → Client → Step
unfolding next_call
when_idle none c = next_call c
when_idle (some item) c = (c, [])

unfoldable pub flush_call_queue : Client → Step
unfolding when_idle
flush_call_queue c = when_idle c.in_flight c

abbrev pub settle_waiters : CallOutcome → List ℕ → List ClientOutput
settle_waiters (succeeds value) ps = resolve_all value ps
settle_waiters (breaks code) ps = reject_all_waiters (code_or_disconnected code) ps

unfoldable pub settle_in_flight : CallOutcome → Option QueuedCall → Client → Step
unfolding next_call
settle_in_flight outcome none c = (c, [])
settle_in_flight outcome (some item) c =
    (record c { in_flight = none }, settle_waiters outcome item.waiters) and_then next_call

-- The awaited call settles, and the loop goes on.
unfoldable pub settle_call : CallOutcome → Client → Step
unfolding settle_in_flight
settle_call outcome c = settle_in_flight outcome c.in_flight c

unfoldable pub reject_calls : ℕ → List QueuedCall → List ClientOutput
reject_calls code [] = []
reject_calls code (item ∷ items) = reject_all_waiters code item.waiters ++ reject_calls code items

unfoldable pub reject_call_queue : ℕ → Client → Step
unfolding reject_calls
reject_call_queue code c = (record c { call_queue = [] }, reject_calls code c.call_queue)

abbrev pub has_key : Text → Option Text → Bool
has_key key none = false
has_key key (some other) = same_text other key

-- The promises that a coalesced call takes over, and what becomes of the others.
abbrev pub kept_waiters : QueuedCallCoalescePrevious → List ℕ → List ℕ
kept_waiters resolve_with_next ps = ps
kept_waiters reject_previous ps = []
kept_waiters drop_previous ps = []

abbrev pub replaced_waiters : QueuedCallCoalescePrevious → List ℕ → List ClientOutput
replaced_waiters resolve_with_next ps = []
replaced_waiters reject_previous ps = reject_all_waiters ErrorCode.invalid_state ps
replaced_waiters drop_previous ps = resolve_all none ps

-- The first queued call with this key, replaced by the new one in its place.
unfoldable pub coalesce :
    QueuedCallCoalescePrevious
    → Text
    → QueuedCall
    → List QueuedCall
    → Option (List QueuedCall × List ClientOutput)
coalesce previous key new [] = none
coalesce previous key new (item ∷ items) =
    let later = coalesce previous key new items in
    if has_key key item.key
    then some (
      record item {
        method = new.method;
        params = new.params;
        call_timeout = new.call_timeout;
        waiters = kept_waiters previous item.waiters ++ new.waiters;
      }
          ∷ items,
      replaced_waiters previous item.waiters,
    )
    else elim later [ none ↦ none | some (queued, os) ↦ some (item ∷ queued, os) ]

unfoldable pub push_call : QueuedCall → Client → Step
unfolding flush_call_queue
push_call item c = flush_call_queue (record c { call_queue = c.call_queue ++ (item ∷ []) })

-- `callQueue.shift()`, and the promises of what is shifted out are resolved
unfoldable pub shift_call : Client → List QueuedCall → Step
shift_call c [] = (c, [])
shift_call c (item ∷ items) = (record c { call_queue = items }, resolve_all none item.waiters)

unfoldable pub overflow_call : Overflow → QueuedCall → Client → Step
unfolding push_call shift_call
overflow_call rejects_new item c = (c, reject_all_waiters ErrorCode.invalid_state item.waiters)
overflow_call drop_newest item c = (c, resolve_all none item.waiters)
overflow_call drop_oldest item c = shift_call c c.call_queue and_then push_call item

unfoldable pub append_call : ClientOptions → QueuedCall → Client → Step
unfolding overflow_call push_call
append_call opts item c =
    if leb opts.call_max_size (length c.call_queue)
    then overflow_call opts.call_overflow item c
    else push_call item c

unfoldable pub coalesced : Option (List QueuedCall × List ClientOutput) → Client → Step → Step
unfolding flush_call_queue
coalesced none c appended = appended
coalesced (some (queued, os)) c appended =
    (record c { call_queue = queued }, os) and_then flush_call_queue

unfoldable pub find_key :
    QueuedCallCoalescePrevious
    → QueuedCall
    → Option Text
    → List QueuedCall
    → Option (List QueuedCall × List ClientOutput)
unfolding coalesce
find_key previous item none items = none
find_key previous item (some key) items = coalesce previous key item items

-- enqueueCall, of a client that is not closed
unfoldable pub enqueue_open :
    ClientOptions → QueuedCallCoalescePrevious → QueuedCall → Client → Step
unfolding append_call coalesced find_key
enqueue_open opts previous item c =
    coalesced (find_key previous item item.key c.call_queue) c (append_call opts item c)

unfoldable pub enqueue_call : ClientOptions → CallOptions → Text → Value → ℕ → Client → Step
unfolding enqueue_open
enqueue_call opts options method params promise c =
    let item : QueuedCall = record {
      method = method;
      params = params;
      call_timeout = options.timeout_ms;
      key = options.coalesce_key;
      waiters = promise ∷ [];
    } in
    if is_closed c.state
    then (c, rejected promise ErrorCode.transport_disconnected ∷ [])
    else enqueue_open opts (or_default options.coalesce_previous reject_previous) item c

-- waitForUsable: what waits for an endpoint gets one when there is one.
unfoldable pub hand_over_waiting : ℕ → List WaitingCall → List ClientOutput
hand_over_waiting ep [] = []
hand_over_waiting ep (w ∷ ws) =
    handed w.wait_promise ep w.wait_method w.wait_params w.wait_timeout ∷ hand_over_waiting ep ws

unfoldable pub reject_waiting : ℕ → List WaitingCall → List ClientOutput
reject_waiting code [] = []
reject_waiting code (w ∷ ws) = rejected w.wait_promise code ∷ reject_waiting code ws

-- resolveIfReady, of each call that waits
unfoldable pub resolve_if_ready : Client → Step
unfolding require_usable hand_over_waiting
resolve_if_ready c = elim (require_usable c) [
  | throws code ↦ (c, [])
  | returns ep ↦ (record c { waiting_calls = [] }, hand_over_waiting ep c.waiting_calls)
]

unfoldable pub call_by_policy :
    ClientOptions → CallOptions → Option CallOfflinePolicy → Text → Value → ℕ → Client → Step
unfolding enqueue_call require_usable
call_by_policy opts options policy method params promise c = elim (require_usable c) [
  | returns ep ↦ (c, handed promise ep method params options.timeout_ms ∷ [])
  | throws code ↦ elim (or_default policy fail_fast) [
    | fail_fast ↦ (c, rejected promise code ∷ [])
    | queue ↦ enqueue_call opts options method params promise c
    | wait_ready ↦ if is_closed c.state then (c, rejected promise code ∷ []) else (
      record c {
        waiting_calls =
            c.waiting_calls
            ++ (record {
              wait_method = method;
              wait_params = params;
              wait_timeout = options.timeout_ms;
              wait_promise = promise;
            }
                ∷ []);
      },
      [],
    )
  ]
]

-- callRaw
unfoldable pub call_raw : ClientOptions → CallOptions → Text → Value → ℕ → Client → Step
unfolding resolve_call_options call_by_policy
call_raw opts given method params promise c =
    let options = resolve_call_options opts method given in
    call_by_policy opts options options.offline_policy method params promise c
