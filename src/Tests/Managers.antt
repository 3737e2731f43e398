-- ===== src/Tests/Managers.antt =====
-- The stream manager of endpoint/streamManager.ts at concrete inputs.
use axtp_ts_runtime.Common.{◌+◌, ◌%◌, ◌^◌, List, [], ◌∷◌, ◌≡◌, refl, none, some, returns, false}
use axtp_ts_runtime.Common.Maps.{lookup, insert, delete}
use axtp_ts_runtime.Streams.{StreamContext, free_id, allocate, adopt, on_data, close}
use axtp_ts_runtime.StreamManager.{
  StreamManager, hears_chunk, hears_close, hears_already_closed, sends_stream, object, resolves,
  find_open, send, seq_of, run_handler_calls, with_registry, new_stream_data, close_id,
  abort_streams, adopt_stream, extract_stream_id, finish_open, start_handler, end_handler,
  change_stream, on_stream_chunk, on_stream_close,
}
use axtp_ts_runtime.StreamManager.Matches.{is_in}
use axtp_ts_runtime.StreamManager.Calls.{
  StreamCall, stream_call, stream_run, new_manager, data_comes, open_returns, handler_starts,
  handler_ends, sends_data, adds_chunk_listener, adds_close_listener,
}
use axtp_ts_runtime.StreamManager.Runs.{stream_run-paired, stream_run-send}

-- Stream 7 is opened and written to, and is heard; a handler is given stream 1 and returns another
-- id, so that it is closed, and a listener is told at once.
abbrev stream_calls : List StreamCall
stream_calls =
    open_returns (object (some 7))
    ∷ adds_chunk_listener 0 20
    ∷ sends_data 0 (1 ∷ []) none
    ∷ data_comes (record { stream_id = 7; seq_id = 0; cursor = 3; bytes = 9 ∷ [] })
    ∷ handler_starts
    ∷ adds_close_listener 1 30
    ∷ handler_ends 1 (resolves (object (some 2)))
    ∷ adds_close_listener 1 31
    ∷ []

stream_calls_outputs :
    (stream_run stream_calls new_manager).1
    ≡ sends_stream (record { stream_id = 7; seq_id = 0; cursor = 0; bytes = 1 ∷ [] })
      ∷ hears_chunk 20 (9 ∷ []) 3
      ∷ hears_close 30
      ∷ hears_already_closed 31
      ∷ []
unfolding stream_run stream_call finish_open extract_stream_id adopt_stream adopt on_stream_chunk
    change_stream send find_open new_stream_data with_registry on_data run_handler_calls
    start_handler allocate free_id on_stream_close end_handler close_id close lookup insert delete
stream_calls_outputs = refl

stream_7-IsOpen : find_open 0 (stream_run stream_calls new_manager).0.open_streams ≡ some 7
unfolding stream_run stream_call finish_open extract_stream_id adopt_stream adopt on_stream_chunk
    change_stream send find_open new_stream_data with_registry on_data run_handler_calls
    start_handler allocate free_id on_stream_close end_handler close_id close lookup insert delete
stream_7-IsOpen = refl

stream_run-paired_example :
    let m = (stream_run stream_calls new_manager).0 in
    (is_in 7 m.registry.streams ≡ is_in 7 m.open_streams)
    × (is_in 7 (abort_streams m).0.registry.streams ≡ false)
    × (is_in 7 (abort_streams m).0.open_streams ≡ false)
stream_run-paired_example = stream_run-paired stream_calls 7

stream_run-send_example :
    let m = (stream_run stream_calls new_manager).0 in
    (ctx : StreamContext) × (lookup 7 m.registry.streams ≡ some ctx)
    × ((m' : StreamManager) × (send 0 (5 ∷ []) (some 8) m
          ≡ returns (
            m',
            sends_stream (record {
              stream_id = 7;
              seq_id = ctx.next_local_seq;
              cursor = 8;
              bytes = 5 ∷ [];
            })
                ∷ [],
          ))
        × (seq_of (lookup 7 m'.registry.streams) ≡ (ctx.next_local_seq + 1) % 2 ^ 32))
stream_run-send_example = stream_run-send stream_calls 0 7 (5 ∷ []) (some 8) stream_7-IsOpen
