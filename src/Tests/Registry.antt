-- ===== src/Tests/Registry.antt =====
-- The stream registry of endpoint/streamRegistry.ts at concrete inputs.
use axtp_ts_runtime.Common.{ℕ, ◌≤◌, false, arith, [], ◌∷◌, some, true, ◌≡◌, refl, arith}
use axtp_ts_runtime.Common.Maps.{lookup, insert}
use axtp_ts_runtime.StreamCodec.{StreamPayload}
use axtp_ts_runtime.Streams.Allocation.{max_stream_id, allocate_total}
use axtp_ts_runtime.Streams.{
  has, next_id, StreamContext, StreamRegistry, on_chunk, receives, allocate, on_data,
}

abbrev open_context : StreamContext
open_context = record {
  direction = receives;
  chunks = 0;
  byte_count = 0;
  has_handler = true;
  next_local_seq = 0;
}

abbrev two_streams : StreamRegistry
two_streams = record { streams = (1, open_context) ∷ (2, open_context) ∷ []; next_stream_id = 1 }

abbrev chunk : StreamPayload
chunk = record { stream_id = 2; seq_id = 0; cursor = 5; bytes = 9 ∷ 8 ∷ [] }

third_is_free : allocate two_streams ≡ some (3, record two_streams { next_stream_id = 4 })
unfolding allocate lookup
third_is_free = refl

chunk_arrives : (on_data chunk two_streams).1 ≡ on_chunk 2 (9 ∷ 8 ∷ []) 5 ∷ []
unfolding on_data lookup insert
chunk_arrives = refl

allocate_total_example :
    (id : ℕ) × (allocate two_streams
      ≡ some (id, record two_streams { next_stream_id = next_id id }))
    × (has id two_streams.streams ≡ false)
    × (1 ≤ id)
    × (id ≤ max_stream_id)
    × (1 ≤ next_id id)
    × (next_id id ≤ max_stream_id)
allocate_total_example = allocate_total two_streams (omega arith) (omega arith) (omega arith)
