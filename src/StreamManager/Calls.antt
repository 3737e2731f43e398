-- ===== src/StreamManager/Calls.antt =====
-- src/endpoint/streamManager.ts and src/endpoint/stream.ts: the calls of a manager and of its streams.
use axtp_ts_runtime.Common.{ℕ, List, [], ◌∷◌, ◌++◌, Option, none, some, Result, returns, throws}
use axtp_ts_runtime.StreamCodec.{StreamPayload}
use axtp_ts_runtime.Streams.{new_registry}
use axtp_ts_runtime.StreamManager.{
  StreamManager, StreamOutput, new_stream_data, abort_streams, MethodResult, finish_open,
  start_handler, HandlerEnd, end_handler, send, close_stream, on_stream_chunk, off_stream_chunk,
  on_stream_close, off_stream_close,
}

pub data StreamCall : Type 0 where
  data_comes : StreamPayload → StreamCall
  open_returns : MethodResult → StreamCall
  handler_starts : StreamCall
  -- the id of its stream
  handler_ends : ℕ → HandlerEnd → StreamCall
  -- the stream, with data and cursor, or with a listener
  sends_data : ℕ → List ℕ → Option ℕ → StreamCall
  closes_stream : ℕ → StreamCall
  adds_chunk_listener : ℕ → ℕ → StreamCall
  removes_chunk_listener : ℕ → ℕ → StreamCall
  adds_close_listener : ℕ → ℕ → StreamCall
  removes_close_listener : ℕ → ℕ → StreamCall
  aborts : StreamCall

-- What is thrown is left out; a call that throws changes nothing.
abbrev pub kept : {E : Type 0} → StreamManager → Result E (ℕ × StreamManager) → StreamManager
kept m (throws code) = m
kept m (returns (serial, m')) = m'

abbrev pub kept_send :
    StreamManager → Result ℕ (StreamManager × List StreamOutput) → StreamManager × List StreamOutput
kept_send m (throws code) = (m, [])
kept_send m (returns r) = r

abbrev pub kept_start : StreamManager → Option (ℕ × Result ℕ (ℕ × StreamManager)) → StreamManager
kept_start m none = m
kept_start m (some (id, r)) = kept m r

unfoldable pub stream_call : StreamCall → StreamManager → StreamManager × List StreamOutput
unfolding new_stream_data finish_open start_handler end_handler send close_stream on_stream_chunk
    off_stream_chunk on_stream_close off_stream_close abort_streams
stream_call (data_comes payload) m = new_stream_data payload m
stream_call (open_returns result) m = (kept m (finish_open result m), [])
stream_call handler_starts m = (kept_start m (start_handler m), [])
stream_call (handler_ends id end) m =
    let (m', outputs, returned) = end_handler id end m in (m', outputs)
stream_call (sends_data serial bytes cursor) m = kept_send m (send serial bytes cursor m)
stream_call (closes_stream serial) m = close_stream serial m
stream_call (adds_chunk_listener serial l) m = (on_stream_chunk serial l m, [])
stream_call (removes_chunk_listener serial l) m = (off_stream_chunk serial l m, [])
stream_call (adds_close_listener serial l) m = on_stream_close serial l m
stream_call (removes_close_listener serial l) m = (off_stream_close serial l m, [])
stream_call aborts m = abort_streams m

unfoldable pub stream_run : List StreamCall → StreamManager → StreamManager × List StreamOutput
unfolding stream_call
stream_run [] m = (m, [])
stream_run (call ∷ calls) m =
    let (m', outputs) = stream_call call m in
    let (m'', more) = stream_run calls m' in (m'', outputs ++ more)

abbrev pub new_manager : StreamManager
new_manager = record { registry = new_registry; open_streams = []; next_serial = 0 }
