-- ===== src/StreamManager/Growth.antt =====
-- src/endpoint/streamManager.ts: how many streams the registry of a manager holds after a call.
use axtp_ts_runtime.Common.{
  Result-cases, ℕ, suc, ◌+◌, ◌≤◌, List, Option, none, some, true, ◌≡◌, refl, ap, ◌∙◌, inl, inr,
  Bool-cases, Option-cases, Result, returns, throws, length, arith,
}
use axtp_ts_runtime.Common.Maps.{
  lookup, insert, length-delete_le, length-insert_le, length-insert_old,
}
use axtp_ts_runtime.StreamCodec.{StreamPayload}
use axtp_ts_runtime.Streams.{
  Direction, sends, receives, StreamContext, StreamRegistry, allocate, adopt, adopted_context,
  on_data, close, abort_all,
}
use axtp_ts_runtime.StreamManager.{
  StreamManager, with_registry, new_stream_data, close_id, abort_streams, handled, adopt_stream,
  MethodResult, finish_open, start_handler, HandlerEnd, resolves, rejects, end_handler,
  extract_stream_id, is_id, find_open, count_up, send, close_stream, on_stream_chunk,
  off_stream_chunk, on_stream_close, off_stream_close,
}
use axtp_ts_runtime.StreamManager.Steps.{adopt_returns, handled-adopted}
use axtp_ts_runtime.StreamManager.Calls.{
  StreamCall, kept, kept_send, kept_start, stream_call, data_comes, open_returns, handler_starts,
  handler_ends, sends_data, closes_stream, adds_chunk_listener, removes_chunk_listener,
  adds_close_listener, removes_close_listener, aborts,
}
use axtp_ts_runtime.StreamManager.Runs.{allocate-streams}

-- How many streams a call of the manager can add.
abbrev pub openings : StreamCall → ℕ
openings (open_returns result) = 1
openings handler_starts = 1
openings _ = 0

abbrev pub count : StreamManager → ℕ
count m = length m.registry.streams

on_data-count :
    (payload : StreamPayload) (r : StreamRegistry)
    → length (on_data payload r).0.streams ≡ length r.streams
unfolding on_data
on_data-count payload r = elim (Option-cases (lookup payload.stream_id r.streams)) [
  | inl absent ↦ rw (absent, on_data) refl
  | inr (ctx, found) ↦
      rw (found, on_data) (length-insert_old payload.stream_id _ ctx r.streams found)
]

close-count : (id : ℕ) (r : StreamRegistry) → length (close id r).0.streams ≤ length r.streams
unfolding close
close-count id r = elim (Option-cases (lookup id r.streams)) [
  | inl absent ↦ rw (absent, close) (omega arith)
  | inr (ctx, found) ↦ rw (found, close) (length-delete_le id r.streams)
]

close_id-count : (id : ℕ) (m : StreamManager) → count (close_id id m).0 ≤ count m
unfolding close_id with_registry
close_id-count id m = close-count id m.registry

adopt_stream-count :
    (direction : Direction) (id : ℕ) (m : StreamManager)
    → count (kept m (adopt_stream direction id m)) ≤ suc (count m)
unfolding adopt_stream
adopt_stream-count direction id m = elim (Result-cases (adopt id m.registry)) [
  | inl (code, e) ↦ rw (e, adopt_stream) (omega arith)
  | inr (r, e) ↦
      let same : handled direction (lookup id r.streams) id r.streams
          ≡ insert id (record adopted_context { direction = direction; has_handler = true })
              m.registry.streams =
        ap (λ streams. handled direction (lookup id streams) id streams)
          (adopt_returns id m.registry r e)
        ∙ handled-adopted direction id m.registry.streams in
      rw (e, adopt_stream) (rw same (length-insert_le id _ m.registry.streams))
]

finish_open-count :
    (result : MethodResult) (m : StreamManager)
    → count (kept m (finish_open result m)) ≤ suc (count m)
unfolding finish_open
finish_open-count result m = elim (Result-cases (extract_stream_id result)) [
  | inl (code, e) ↦ rw (e, finish_open) (omega arith)
  | inr (id, e) ↦
      rw (e, finish_open) (same_kept (adopt_stream sends id m) (adopt_stream-count sends id m))
]
  where
    same_kept :
        (r : Result ℕ (ℕ × StreamManager))
        → count (kept m r) ≤ suc (count m)
        → count
            (kept m (elim r [ throws code ↦ throws (some code) | returns opened ↦ returns opened ]))
          ≤ suc (count m)
    same_kept (throws code) k = k
    same_kept (returns opened) k = k

start_handler-count : (m : StreamManager) → count (kept_start m (start_handler m)) ≤ suc (count m)
unfolding start_handler allocate
start_handler-count m = elim (Option-cases (allocate m.registry)) [
  | inl full ↦ rw (full, start_handler) (omega arith)
  | inr ((id, r), found) ↦
      let n : StreamManager = record m { registry = r } in
      let same : length r.streams ≡ count m = ap length (allocate-streams m.registry r id found) in
      rw (found, start_handler)
        (either (adopt_stream receives id n) n same (adopt_stream-count receives id n))
]
  where
    either :
        (x : Result ℕ (ℕ × StreamManager)) (n : StreamManager)
        → count n ≡ count m
        → count (kept n x) ≤ suc (count n)
        → count (kept m x) ≤ suc (count m)
    either (throws code) n same k = omega arith
    either (returns opened) n same k = omega (arith, same, k)

count_up-length :
    (o : Option StreamContext) (id : ℕ) (streams : List (ℕ × StreamContext))
    → lookup id streams ≡ o
    → length (count_up o id streams) ≡ length streams
count_up-length none id streams e = refl
count_up-length (some ctx) id streams e = length-insert_old id _ ctx streams e

send-count :
    (serial : ℕ) (bytes : List ℕ) (cursor : Option ℕ) (m : StreamManager)
    → count (kept_send m (send serial bytes cursor m)).0 ≡ count m
unfolding send
send-count serial bytes cursor m = elim (Option-cases (find_open serial m.open_streams)) [
  | inl gone ↦ rw (gone, send) refl
  | inr (id, found) ↦
      rw (found, send) (count_up-length (lookup id m.registry.streams) id m.registry.streams refl)
]

end_handler-count :
    (id : ℕ) (end : HandlerEnd) (m : StreamManager) → count (end_handler id end m).0 ≤ count m
unfolding end_handler
end_handler-count id rejects m = close_id-count id m
end_handler-count id (resolves result) m = elim (Bool-cases (is_id id (extract_stream_id result))) [
  | inl same ↦ rw (same, end_handler) (omega arith)
  | inr differs ↦ rw (differs, end_handler) (close_id-count id m)
]

-- Only openStream and the start of a handler of onStream add a stream, and each adds one at most.
pub stream_call-count :
    (call : StreamCall) (m : StreamManager) → count (stream_call call m).0 ≤ count m + openings call
unfolding stream_call new_stream_data with_registry close_stream on_stream_chunk off_stream_chunk
    on_stream_close off_stream_close abort_streams abort_all
stream_call-count (data_comes payload) m = omega (arith, on_data-count payload m.registry)
stream_call-count (open_returns result) m = omega (arith, finish_open-count result m)
stream_call-count handler_starts m = omega (arith, start_handler-count m)
stream_call-count (handler_ends id end) m = omega (arith, end_handler-count id end m)
stream_call-count (sends_data serial bytes cursor) m =
    omega (arith, send-count serial bytes cursor m)
stream_call-count (closes_stream serial) m = elim (Option-cases (find_open serial m.open_streams)) [
  | inl gone ↦ rw (gone, close_stream) (omega arith)
  | inr (id, found) ↦ rw (found, close_stream) (omega (arith, close_id-count id m))
]
stream_call-count (adds_chunk_listener serial l) m = omega arith
stream_call-count (removes_chunk_listener serial l) m = omega arith
stream_call-count (adds_close_listener serial l) m =
    elim (Option-cases (find_open serial m.open_streams)) [
      | inl gone ↦ rw (gone, on_stream_close) (omega arith)
      | inr (id, found) ↦ rw (found, on_stream_close) (omega arith)
    ]
stream_call-count (removes_close_listener serial l) m = omega arith
stream_call-count aborts m = omega arith
