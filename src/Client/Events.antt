-- ===== src/Client/Events.antt =====
-- src/sdk/client.ts: the outbox of events, emitRaw and what it puts there.
use axtp_ts_runtime.Common.{
  ℕ, List, [], ◌∷◌, ◌++◌, Option, none, some, leb, if◌then◌else◌, length, returns, throws,
}
use axtp_ts_runtime.Model.ErrorCode
use axtp_ts_runtime.Model.Rpc.{Text}
use axtp_ts_runtime.JsonRpc.{Value}
use axtp_ts_runtime.Client.State.{
  Overflow, drop_oldest, drop_newest, rejects_new, ClientOptions, QueuedEvent, Client, ClientOutput,
  sends_event, resolved, rejected, raised, Step, ◌and_then◌, is_closed, require_usable,
}

-- What `endpoint.emit` does: it returns, or throws, with the code if it is an AxtpError.
pub data EmitOutcome : Type 0 where
  goes : EmitOutcome
  fails : Option ℕ → EmitOutcome

abbrev pub code_or_disconnected : Option ℕ → ℕ
code_or_disconnected none = ErrorCode.transport_disconnected
code_or_disconnected (some code) = code

abbrev pub outputs : List ClientOutput → Client → Step
outputs os c = (c, os)

-- flushOutbox, where the client is ready and has this endpoint
unfoldable pub flush_events :
    (Text → Value → EmitOutcome) → ℕ → List QueuedEvent → List ClientOutput
flush_events emit_outcome ep [] = []
flush_events emit_outcome ep (item ∷ items) =
    let rest = flush_events emit_outcome ep items in
    elim (emit_outcome item.event_name item.payload) [
      | goes ↦ sends_event ep item.event_name item.payload ∷ resolved item.promise none ∷ rest
      | fails code ↦ rejected item.promise (code_or_disconnected code) ∷ rest
    ]

unfoldable pub flush_outbox : (Text → Value → EmitOutcome) → Client → Step
unfolding flush_events require_usable
flush_outbox emit_outcome c = elim (require_usable c) [
  | throws code ↦ (c, [])
  | returns ep ↦ (record c { event_outbox = [] }, flush_events emit_outcome ep c.event_outbox)
]

unfoldable pub reject_events : ℕ → List QueuedEvent → List ClientOutput
reject_events code [] = []
reject_events code (item ∷ items) = rejected item.promise code ∷ reject_events code items

unfoldable pub reject_outbox : ℕ → Client → Step
unfolding reject_events
reject_outbox code c = (record c { event_outbox = [] }, reject_events code c.event_outbox)

unfoldable pub push_event : (Text → Value → EmitOutcome) → QueuedEvent → Client → Step
unfolding flush_outbox
push_event emit_outcome item c =
    flush_outbox emit_outcome (record c { event_outbox = c.event_outbox ++ (item ∷ []) })

-- `eventOutbox.shift()`, and the promise of what is shifted out is resolved
unfoldable pub shift_event : Client → List QueuedEvent → Step
shift_event c [] = (c, [])
shift_event c (item ∷ items) = (record c { event_outbox = items }, resolved item.promise none ∷ [])

unfoldable pub overflow_event :
    (Text → Value → EmitOutcome) → Overflow → QueuedEvent → Client → Step
unfolding push_event shift_event
overflow_event emit_outcome rejects_new item c =
    (c, rejected item.promise ErrorCode.invalid_state ∷ [])
overflow_event emit_outcome drop_newest item c = (c, resolved item.promise none ∷ [])
overflow_event emit_outcome drop_oldest item c =
    shift_event c c.event_outbox and_then push_event emit_outcome item

unfoldable pub accept_event :
    ClientOptions → (Text → Value → EmitOutcome) → QueuedEvent → Client → Step
unfolding overflow_event push_event
accept_event opts emit_outcome item c =
    if leb opts.event_max_size (length c.event_outbox)
    then overflow_event emit_outcome opts.event_overflow item c
    else push_event emit_outcome item c

unfoldable pub enqueue_event :
    ClientOptions → (Text → Value → EmitOutcome) → QueuedEvent → Client → Step
unfolding accept_event require_usable
enqueue_event opts emit_outcome item c =
    if is_closed c.state
    then (c, rejected item.promise ErrorCode.transport_disconnected ∷ [])
    else if opts.queues_events
    then accept_event opts emit_outcome item c
    else elim (require_usable c) [
      | throws code ↦ (c, rejected item.promise code ∷ [])
      | returns ep ↦ accept_event opts emit_outcome item c
    ]

-- emitRaw
unfoldable pub emit_raw : ClientOptions → (Text → Value → EmitOutcome) → QueuedEvent → Client → Step
unfolding enqueue_event require_usable
emit_raw opts emit_outcome item c = elim (require_usable c) [
  | throws code ↦ enqueue_event opts emit_outcome item c
  | returns ep ↦ elim (emit_outcome item.event_name item.payload) [
    | goes ↦ (c, sends_event ep item.event_name item.payload ∷ resolved item.promise none ∷ [])
    | fails code ↦ (c, raised item.promise code ∷ [])
  ]
]
