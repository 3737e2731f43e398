-- ===== src/Lib.antt =====
-- The AXTP runtime (TypeScript): a model of its protocol core, with the theorems that make it
-- correct. Paths are from the repository's root.
--
-- The program. Bytes from a transport go up through a pipeline, and messages go down through it:
-- the frame decoder cuts the byte stream into frames, the reassembler joins the frames of one
-- message, and on the way out the fragmenter cuts a message into frames and the encoder writes
-- them, on the byte reader and writer of `src/io/io.ts`. A message of the control plane goes to the
-- control session, which opens and closes the link and settles its frame limit; the handshake then
-- settles the session id, and the gate lets requests through to their handlers. The core joins these
-- and the table of pending calls, and tells the endpoint what happened. The endpoint hands requests
-- and events to the broker's handlers and data to its streams, probes the peer by its heartbeat, and
-- releases all of it when it closes; the reconnect coordinator decides when a new link is tried.
--
-- The files.
--   Common: the numbers, tests, lists, results and association lists that all parts use.
--   Io/Writer, Io/Reader, Io/Crc: `src/io/io.ts`. A writer is the bytes written, a reader the data
--     and the cursor; a read that finds too little gives `none` and moves nothing, its strict form
--     throws.
--   Model: the types of `src/protocol/model.ts` and the codes of
--     `src/protocol/generated/axtp_ids_generated.ts`.
--   Frame, Frame/Decoder, Frame/Fragmenter, Frame/Reassembler: `src/protocol/codec/frame.ts`. The
--     decoder's callbacks are functions on a state `S` behind it (`Sink`), from which it also reads
--     its frame limit, so that a callback that changes the limit is covered. `Date.now()` is an
--     argument of the reassembler's calls.
--   StreamCodec: `src/protocol/codec/stream.ts`.
--   Control/Codec: `src/protocol/codec/control.ts`, the TLVs as optional parameters.
--   Control/Session: `src/core/controlSession.ts`. An operation returns the new state and the list
--     of the callbacks' calls, in order.
--   Model/Rpc, Model/Json, Handshake: the messages of `src/protocol/model.ts`, the JSON values,
--     `src/core/handshake.ts` and `src/core/runtimeGate.ts`. `Math.random()` is an argument.
--   JsonRpc: `src/protocol/codec/jsonRpc.ts`. What prints and parses JSON (`JSON`, `TextEncoder`,
--     `TextDecoder`) is a parameter, `JsonPlatform`; a theorem that needs that a printed value parses
--     as itself has this as a hypothesis on that value.
--   Profile: `src/transport/profile.ts`.
--   Wire: `src/protocol/codec/payload.ts` and `src/core/wire/`. The buffer of the decoder stands
--     beside the adapter; the reassembler reads one clock per call.
--   Core: `src/core/core.ts` and `src/core/events.ts`. An operation returns the new state and the
--     list of what it enqueues for the endpoint, writes to the outgoing stream, settles, or sets on
--     the adapter, in order; Core/Link puts the core behind the adapter and encodes what is written.
--     The diagnostics are left out.
--   Pending: `src/core/pendingCalls.ts`. A promise is a number, and the armed timers are a table;
--     that `send` calls back into the table is not modelled.
--   Streams: `src/endpoint/streamRegistry.ts`. The search for a free id runs on fuel: two more than
--     the contexts in the table.
--   Heartbeat: `src/endpoint/timers.ts`, on a clock of milliseconds; an armed timer is the time at
--     which it fires.
--   Reconnect: `src/endpoint/reconnect.ts`. Its timers are numbers; what `Math.random()` gives is an
--     argument, and the callbacks do not throw.
--   Broker: `src/broker/`. A handler is a number, and a handler that runs is a task; the settling of
--     its promise, and which handlers throw on an event, are arguments. A handler does not change the
--     listeners while an event is handed out.
--   Endpoint: `src/endpoint/endpoint.ts`. The transport is what it can do, and the pipes between it and
--     the core are inputs: what moves the core, and the events that it enqueued. The streams are those
--     of StreamManager, whose calls are inputs, too: those that follow the await of openStream can come
--     after the endpoint was closed.
--   Io/Hex: `src/io/bytes.ts`, the digits of bytes; a number has at most as many digits as its value
--     says, which is the fuel.
--   Registry: the tables of `src/protocol/generated/registry.ts`, entry for entry, and the index of
--     `src/types/registry.ts`.
--   EventMasks: computeEventMasks and isEventSubscribed of `src/types/registry.ts`. The loop over the
--     entries runs on as much fuel as there are bytes. The names that every object inherits
--     ("toString" and the like), which the code finds in the registry object, are a list.
--   StreamManager: `src/endpoint/streamManager.ts` and `src/endpoint/stream.ts`, over Streams. A
--     stream is a number in the order of making, and the closed ones are those not in the table.
--   Client: `src/sdk/client.ts`. A promise is a number of the caller's; the transport, the endpoints
--     and the reconnect coordinator call back as inputs, of which each says what `emit` of the
--     endpoint does meanwhile. Client/State holds the data, Events and Calls the queues, Connection
--     the states. The listeners of the event streams do not call the client.
--   Tests: runs on concrete input.
--
-- Bounds and fuel. The decoder's loop runs on one more than the bytes in its buffer, and each round
-- but the last takes a byte, so the fuel does not run out. The loops over TLVs run
-- on one more than the bytes left, of which each round takes two at least or is the last. A byte is
-- a number under 256, which the theorems ask of input; JavaScript's `& 0xff` is `% 0x100`, a shift
-- is a product or a quotient.
--
-- Not modelled. Sockets (`src/transport/tcp/`, `src/transport/ws/`), the generated
-- schemas, logging (`src/diagnostics.ts`, `src/debug.ts`) and the entry points hold no logic of the
-- protocol; the event streams of `src/types/events.ts` and the server of `src/sdk/server.ts` are not
-- modelled.
pub mod Common
pub mod Io
pub mod Model
pub mod Frame
pub mod StreamCodec
pub mod Control
pub mod JsonRpc
pub mod Wire
pub mod Profile
pub mod Core
pub mod Handshake
pub mod Pending
pub mod Streams
pub mod Heartbeat
pub mod Reconnect
pub mod Broker
pub mod Endpoint
pub mod Registry
pub mod EventMasks
pub mod StreamManager
pub mod Client
pub mod Tests
