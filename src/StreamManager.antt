-- ===== src/StreamManager.antt =====
-- src/endpoint/streamManager.ts and src/endpoint/stream.ts: the streams that the caller holds, over
-- the registry of Streams. A stream is a number in the order of making; a listener is a number. A
-- stream is closed when it is no more among the open ones, and the listeners of a stream that is
-- closed are forgotten. That a listener throws changes nothing, and is left out; a stream id that a
-- method returns is a natural number.
pub mod Matches
pub mod Calls
pub mod Steps
pub mod Runs
pub mod Growth
use axtp_ts_runtime.Common.{
  ℕ, ◌+◌, ◌%◌, ◌^◌, List, [], ◌∷◌, ◌++◌, Option, none, some, Bool, true, false, not, ◌==◌,
  if◌then◌else◌, Result, returns, throws,
}
use axtp_ts_runtime.Common.Maps.{lookup, insert, delete}
use axtp_ts_runtime.Model.ErrorCode
use axtp_ts_runtime.StreamCodec.{StreamPayload}
use axtp_ts_runtime.Broker.{set_add, set_remove}
use axtp_ts_runtime.Streams.{
  Direction, sends, receives, StreamContext, StreamRegistry, HandlerCall, on_chunk, on_close,
  allocate, adopt, on_data, close, abort_all,
}

pub record Stream : Type 0 where
  pub serial : ℕ
  pub chunk_listeners : List ℕ
  pub close_listeners : List ℕ

pub record StreamManager : Type 0 where
  pub registry : StreamRegistry
  pub open_streams : List (ℕ × Stream)
  pub next_serial : ℕ

pub data StreamOutput : Type 0 where
  -- the listener, with the data and the cursor
  hears_chunk : ℕ → List ℕ → ℕ → StreamOutput
  hears_close : ℕ → StreamOutput
  hears_already_closed : ℕ → StreamOutput
  sends_stream : StreamPayload → StreamOutput

abbrev pub hear_chunk : List ℕ → ℕ → List ℕ → List StreamOutput
hear_chunk bytes cursor [] = []
hear_chunk bytes cursor (l ∷ ls) = hears_chunk l bytes cursor ∷ hear_chunk bytes cursor ls

abbrev pub hear_close : List ℕ → List StreamOutput
hear_close [] = []
hear_close (l ∷ ls) = hears_close l ∷ hear_close ls

abbrev pub listeners_of_chunk : Option Stream → List ℕ
listeners_of_chunk none = []
listeners_of_chunk (some s) = s.chunk_listeners

abbrev pub listeners_of_close : Option Stream → List ℕ
listeners_of_close none = []
listeners_of_close (some s) = s.close_listeners

-- The handlers that the streams have set in their contexts.
unfoldable pub run_handler_calls :
    List HandlerCall → List (ℕ × Stream) → List (ℕ × Stream) × List StreamOutput
unfolding lookup delete
run_handler_calls [] open_streams = (open_streams, [])
run_handler_calls (on_chunk id bytes cursor ∷ calls) open_streams =
    let (left, outputs) = run_handler_calls calls open_streams in
    (left, hear_chunk bytes cursor (listeners_of_chunk (lookup id open_streams)) ++ outputs)
run_handler_calls (on_close id ∷ calls) open_streams =
    let (left, outputs) = run_handler_calls calls (delete id open_streams) in
    (left, hear_close (listeners_of_close (lookup id open_streams)) ++ outputs)

unfoldable pub with_registry :
    StreamManager → StreamRegistry × List HandlerCall → StreamManager × List StreamOutput
unfolding run_handler_calls
with_registry m (registry, calls) =
    let (open_streams, outputs) = run_handler_calls calls m.open_streams in
    (record m { registry = registry; open_streams = open_streams }, outputs)

unfoldable pub new_stream_data : StreamPayload → StreamManager → StreamManager × List StreamOutput
unfolding with_registry on_data
new_stream_data payload m = with_registry m (on_data payload m.registry)

unfoldable pub close_id : ℕ → StreamManager → StreamManager × List StreamOutput
unfolding with_registry close
close_id id m = with_registry m (close id m.registry)

unfoldable pub abort_streams : StreamManager → StreamManager × List StreamOutput
unfolding with_registry abort_all
abort_streams m = with_registry m (abort_all m.registry)

-- The direction that the manager sets, and the handler that the constructor of Stream sets.
abbrev pub handled :
    Direction → Option StreamContext → ℕ → List (ℕ × StreamContext) → List (ℕ × StreamContext)
handled direction none id streams = streams
handled direction (some ctx) id streams =
    insert id (record ctx { direction = direction; has_handler = true }) streams

-- `adopt`, and `makeStream` of its context: the new stream.
unfoldable pub adopt_stream : Direction → ℕ → StreamManager → Result ℕ (ℕ × StreamManager)
unfolding adopt lookup insert
adopt_stream direction id m = elim (adopt id m.registry) [
  | throws code ↦ throws code
  | returns r ↦ returns (
    m.next_serial,
    record m {
      registry = record r { streams = handled direction (lookup id r.streams) id r.streams };
      open_streams =
          insert id (record { serial = m.next_serial; chunk_listeners = []; close_listeners = [] })
            m.open_streams;
      next_serial = m.next_serial + 1;
    },
  )
]

-- What a method returns: undefined or null, or an object, with its `streamId` if that is a number.
pub data MethodResult : Type 0 where
  nothing : MethodResult
  object : Option ℕ → MethodResult

-- A TypeError has no code.
unfoldable pub extract_stream_id : MethodResult → Result (Option ℕ) ℕ
extract_stream_id nothing = throws none
extract_stream_id (object none) = throws (some ErrorCode.stream_id_invalid)
extract_stream_id (object (some id)) =
    if id == 0 then throws (some ErrorCode.stream_id_invalid) else returns id

-- openStream, where the call has returned
unfoldable pub finish_open : MethodResult → StreamManager → Result (Option ℕ) (ℕ × StreamManager)
unfolding extract_stream_id adopt_stream
finish_open result m = elim (extract_stream_id result) [
  | throws code ↦ throws code
  | returns id ↦ elim (adopt_stream sends id m) [
    | throws code ↦ throws (some code)
    | returns opened ↦ returns opened
  ]
]

-- A request of a method of wrapStreamHandler: the id, and the stream that its handler is given.
unfoldable pub start_handler : StreamManager → Option (ℕ × Result ℕ (ℕ × StreamManager))
unfolding allocate adopt_stream
start_handler m = elim (allocate m.registry) [
  | none ↦ none
  | some (id, r) ↦ some (id, adopt_stream receives id (record m { registry = r }))
]

abbrev is_id : ℕ → Result (Option ℕ) ℕ → Bool
is_id id (throws code) = false
is_id id (returns other) = other == id

-- How the handler's promise settles.
pub data HandlerEnd : Type 0 where
  resolves : MethodResult → HandlerEnd
  rejects : HandlerEnd

-- The handler is done; the Boolean is whether its result is returned, or else an error is thrown.
unfoldable pub end_handler :
    ℕ → HandlerEnd → StreamManager → StreamManager × List StreamOutput × Bool
unfolding extract_stream_id close_id
end_handler id (resolves result) m =
    let (m', outputs) = close_id id m in
    if is_id id (extract_stream_id result) then (m, [], true) else (m', outputs, false)
end_handler id rejects m = let (m', outputs) = close_id id m in (m', outputs, false)

-- The id of an open stream.
unfoldable pub find_open : ℕ → List (ℕ × Stream) → Option ℕ
find_open serial [] = none
find_open serial ((id, s) ∷ rest) =
    let later = find_open serial rest in if s.serial == serial then some id else later

abbrev pub seq_of : Option StreamContext → ℕ
seq_of none = 0
seq_of (some ctx) = ctx.next_local_seq

abbrev pub or_zero : Option ℕ → ℕ
or_zero none = 0
or_zero (some cursor) = cursor

abbrev pub count_up : Option StreamContext → ℕ → List (ℕ × StreamContext) → List (ℕ × StreamContext)
count_up none id streams = streams
count_up (some ctx) id streams =
    insert id (record ctx { next_local_seq = (ctx.next_local_seq + 1) % 2 ^ 32 }) streams

-- Stream.send
unfoldable pub send :
    ℕ → List ℕ → Option ℕ → StreamManager → Result ℕ (StreamManager × List StreamOutput)
unfolding find_open lookup insert
send serial bytes cursor m = elim (find_open serial m.open_streams) [
  | none ↦ throws ErrorCode.stream_closed
  | some id ↦
      let ctx = lookup id m.registry.streams in
      returns (
        record m { registry = record m.registry { streams = count_up ctx id m.registry.streams } },
        sends_stream (record {
          stream_id = id;
          seq_id = seq_of ctx;
          cursor = or_zero cursor;
          bytes = bytes;
        })
            ∷ [],
      )
]

-- Stream.close
unfoldable pub close_stream : ℕ → StreamManager → StreamManager × List StreamOutput
unfolding find_open close_id
close_stream serial m = elim (find_open serial m.open_streams) [
  | none ↦ (m, [])
  | some id ↦ close_id id m
]

-- A change of an open stream; of a closed one it has no effect.
unfoldable pub change_stream : ℕ → (Stream → Stream) → List (ℕ × Stream) → List (ℕ × Stream)
change_stream serial change [] = []
change_stream serial change ((id, s) ∷ rest) =
    let later = change_stream serial change rest in
    if s.serial == serial then (id, change s) ∷ later else (id, s) ∷ later

-- Stream.onChunk and Stream.onClose, and the functions that they return
unfoldable pub on_stream_chunk : ℕ → ℕ → StreamManager → StreamManager
unfolding change_stream
on_stream_chunk serial l m = record m {
  open_streams =
      change_stream serial (λ s. record s { chunk_listeners = set_add s.chunk_listeners l })
        m.open_streams;
}

unfoldable pub off_stream_chunk : ℕ → ℕ → StreamManager → StreamManager
unfolding change_stream
off_stream_chunk serial l m = record m {
  open_streams =
      change_stream serial (λ s. record s { chunk_listeners = set_remove l s.chunk_listeners })
        m.open_streams;
}

unfoldable pub on_stream_close : ℕ → ℕ → StreamManager → StreamManager × List StreamOutput
unfolding change_stream find_open
on_stream_close serial l m = elim (find_open serial m.open_streams) [
  | none ↦ (m, hears_already_closed l ∷ [])
  | some id ↦ (
    record m {
      open_streams =
          change_stream serial (λ s. record s { close_listeners = set_add s.close_listeners l })
            m.open_streams;
    },
    [],
  )
]

unfoldable pub off_stream_close : ℕ → ℕ → StreamManager → StreamManager
unfolding change_stream
off_stream_close serial l m = record m {
  open_streams =
      change_stream serial (λ s. record s { close_listeners = set_remove l s.close_listeners })
        m.open_streams;
}
