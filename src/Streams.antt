-- ===== src/Streams.antt =====
-- src/endpoint/streamRegistry.ts: the table of the stream contexts. Whether a context has a handler
-- is a Boolean; the calls of the handlers are the list of outputs.

pub mod Release
pub mod Allocation
use axtp_ts_runtime.Common.{
  ℕ, zero, suc, ◌+◌, List, [], ◌∷◌, Option, none, some, Bool, true, false, leb, ◌==◌, ◌||◌,
  if◌then◌else◌, length, Result, returns, throws,
}
use axtp_ts_runtime.Common.Maps.{lookup, insert, delete}
use axtp_ts_runtime.Model.ErrorCode
use axtp_ts_runtime.StreamCodec.{StreamPayload}

pub data Direction : Type 0 where
  sends receives : Direction

-- The stream id is the key in the table; a context in the table is not closed, since `close` and
-- `abortAll` set `closed` and remove it from the table at once.
pub record StreamContext : Type 0 where
  pub direction : Direction
  pub chunks : ℕ
  -- the source's `bytes`
  pub byte_count : ℕ
  pub has_handler : Bool
  pub next_local_seq : ℕ

pub record StreamRegistry : Type 0 where
  pub streams : List (ℕ × StreamContext)
  pub next_stream_id : ℕ

pub data HandlerCall : Type 0 where
  -- stream id, data and cursor
  on_chunk : ℕ → List ℕ → ℕ → HandlerCall
  on_close : ℕ → HandlerCall

abbrev pub new_registry : StreamRegistry
new_registry = record { streams = []; next_stream_id = 1 }

-- `this.nextStreamId >= 0xffffffff ? 1 : this.nextStreamId + 1`
abbrev pub next_id : ℕ → ℕ
next_id id = if leb 0xffffffff id then 1 else id + 1

abbrev pub has : ℕ → List (ℕ × StreamContext) → Bool
has id streams = elim (lookup id streams) [ none ↦ false | some ctx ↦ true ]

-- The search of `allocate`, on fuel: it passes each id of the table once at most.
unfoldable pub free_id : ℕ → ℕ → List (ℕ × StreamContext) → Option ℕ
free_id zero id streams = none
free_id (suc fuel) id streams =
    let later = free_id fuel (next_id id) streams in
    if has id streams || (id == 0) then later else some id

unfoldable pub allocate : StreamRegistry → Option (ℕ × StreamRegistry)
unfolding free_id
allocate r = elim (free_id (suc (suc (length r.streams))) r.next_stream_id r.streams) [
  | none ↦ none
  | some id ↦ some (id, record r { next_stream_id = next_id id })
]

abbrev pub adopted_context : StreamContext
adopted_context = record {
  direction = receives;
  chunks = 0;
  byte_count = 0;
  has_handler = false;
  next_local_seq = 0;
}

unfoldable pub adopt : ℕ → StreamRegistry → Result ℕ StreamRegistry
adopt id r =
    if id == 0
    then throws ErrorCode.stream_id_invalid
    else if has id r.streams
    then throws ErrorCode.stream_already_open
    else returns (record r { streams = insert id adopted_context r.streams })

unfoldable pub on_data : StreamPayload → StreamRegistry → StreamRegistry × List HandlerCall
on_data payload r = elim (lookup payload.stream_id r.streams) [
  | none ↦ (r, [])
  | some ctx ↦ (
    record r {
      streams =
          insert payload.stream_id
            (record ctx {
              chunks = ctx.chunks + 1;
              byte_count = ctx.byte_count + length payload.bytes;
            })
            r.streams;
    },
    if ctx.has_handler then on_chunk payload.stream_id payload.bytes payload.cursor ∷ [] else [],
  )
]

unfoldable pub close : ℕ → StreamRegistry → StreamRegistry × List HandlerCall
close id r = elim (lookup id r.streams) [
  | none ↦ (r, [])
  | some ctx ↦
      (record r { streams = delete id r.streams }, if ctx.has_handler then on_close id ∷ [] else [])
]

unfoldable pub close_calls : List (ℕ × StreamContext) → List HandlerCall
close_calls [] = []
close_calls ((id, ctx) ∷ rest) =
    let calls = close_calls rest in if ctx.has_handler then on_close id ∷ calls else calls

unfoldable pub abort_all : StreamRegistry → StreamRegistry × List HandlerCall
unfolding close_calls
abort_all r = (record r { streams = [] }, close_calls r.streams)
