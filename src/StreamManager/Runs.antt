-- ===== src/StreamManager/Runs.antt =====
-- Over any run of a stream manager, the open streams are those of the registry's contexts.
use axtp_ts_runtime.Common.{
  Result-cases, ℕ, suc, ◌+◌, ◌%◌, ◌^◌, List, [], ◌∷◌, Option, none, some, true, false,
  if◌then◌else◌, ◌≡◌, refl, sym, ap, ◌∙◌, inl, inr, Bool-cases, Option-cases, eq→==, subst, Result,
  returns, throws, length,
}
use axtp_ts_runtime.Common.Maps.{lookup, insert, lookup-insert}
use axtp_ts_runtime.Streams.{
  Direction, sends, receives, StreamContext, StreamRegistry, free_id, next_id, allocate, adopt,
  adopted_context, abort_all,
}
use axtp_ts_runtime.StreamManager.{
  Stream, StreamManager, sends_stream, with_registry, new_stream_data, close_id, abort_streams,
  handled, adopt_stream, MethodResult, finish_open, start_handler, HandlerEnd, resolves, rejects,
  end_handler, extract_stream_id, is_id, find_open, seq_of, or_zero, send, close_stream,
  change_stream, on_stream_chunk, off_stream_chunk, on_stream_close, off_stream_close,
}
use axtp_ts_runtime.StreamManager.Matches.{
  is_some, is_in, InStep, Matches, is_in-change_stream, find_open-is_in,
}
use axtp_ts_runtime.StreamManager.Steps.{
  on_data-InStep, close-InStep, abort_all-InStep, adopt_returns, handled-adopted, inserted-InStep,
  counted-InStep,
}
use axtp_ts_runtime.StreamManager.Calls.{
  StreamCall, kept, kept_send, kept_start, stream_call, stream_run, new_manager, data_comes,
  open_returns, handler_starts, handler_ends, sends_data, closes_stream, adds_chunk_listener,
  removes_chunk_listener, adds_close_listener, removes_close_listener, aborts,
}

kept_adopt-Matches :
    (direction : Direction) (id : ℕ) (m : StreamManager)
    → Matches m
    → Matches (kept m (adopt_stream direction id m))
unfolding adopt_stream
kept_adopt-Matches direction id m h = elim (Result-cases (adopt id m.registry)) [
  | inl (code, e) ↦ rw (e, adopt_stream) h
  | inr (r, e) ↦
      let s : Stream = record {
        serial = m.next_serial;
        chunk_listeners = [];
        close_listeners = [];
      } in
      let ctx : StreamContext = record adopted_context {
        direction = direction;
        has_handler = true;
      } in
      rw (e, adopt_stream)
        (subst (λ streams. InStep streams (insert id s m.open_streams))
          (sym (
            ap (λ streams. handled direction (lookup id streams) id streams)
              (adopt_returns id m.registry r e)
            ∙ handled-adopted direction id m.registry.streams))
          (inserted-InStep id ctx s m.registry.streams m.open_streams refl h))
]

send-Matches :
    (serial : ℕ) (bytes : List ℕ) (cursor : Option ℕ) (m : StreamManager)
    → Matches m
    → Matches (kept_send m (send serial bytes cursor m)).0
unfolding send
send-Matches serial bytes cursor m h = elim (Option-cases (find_open serial m.open_streams)) [
  | inl gone ↦ rw (gone, send) h
  | inr (id, found) ↦ rw (found, send) (counted-InStep id m.registry.streams m.open_streams h)
]

changed-InStep :
    (serial : ℕ) (change : Stream → Stream) (streams : List (ℕ × StreamContext))
    (open_streams : List (ℕ × Stream))
    → InStep streams open_streams
    → InStep streams (change_stream serial change open_streams)
changed-InStep serial change streams open_streams h = record {
  handled_all = h.handled_all;
  same_keys = λ id. h.same_keys id ∙ sym (is_in-change_stream id serial change open_streams);
}

close_id-Matches : (id : ℕ) (m : StreamManager) → Matches m → Matches (close_id id m).0
unfolding close_id with_registry
close_id-Matches id m h = close-InStep id m.registry m.open_streams h

finish_open-Matches :
    (result : MethodResult) (m : StreamManager)
    → Matches m
    → Matches (kept m (finish_open result m))
unfolding finish_open
finish_open-Matches result m h = elim (Result-cases (extract_stream_id result)) [
  | inl (code, e) ↦ rw (e, finish_open) h
  | inr (id, e) ↦
      rw (e, finish_open) (same_kept (adopt_stream sends id m) (kept_adopt-Matches sends id m h))
]
  where
    same_kept :
        (r : Result ℕ (ℕ × StreamManager))
        → Matches (kept m r)
        → Matches
            (kept m (elim r [ throws code ↦ throws (some code) | returns opened ↦ returns opened ]))
    same_kept (throws code) k = k
    same_kept (returns opened) k = k

pub allocate-streams :
    (r r' : StreamRegistry) (id : ℕ) → allocate r ≡ some (id, r') → r'.streams ≡ r.streams
unfolding allocate
allocate-streams r r' id e =
    elim (Option-cases (free_id (suc (suc (length r.streams))) r.next_stream_id r.streams)) [
      | inl full ↦ absurd (cc (rw (full, allocate) at e))
      | inr (free, found) ↦
          let f : some (free, record r { next_stream_id = next_id free }) ≡ some (id, r') =
            rw (found, allocate) at e in
          sym (ap next_streams f)
    ]
  where
    next_streams : Option (ℕ × StreamRegistry) → List (ℕ × StreamContext)
    next_streams none = r.streams
    next_streams (some (i, x)) = x.streams

start_handler-Matches : (m : StreamManager) → Matches m → Matches (kept_start m (start_handler m))
unfolding start_handler allocate
start_handler-Matches m h = elim (Option-cases (allocate m.registry)) [
  | inl full ↦ rw (full, start_handler) h
  | inr ((id, r), found) ↦
      let n : StreamManager = record m { registry = r } in
      let same = allocate-streams m.registry r id found in
      let k : Matches n = subst (λ streams. InStep streams m.open_streams) (sym same) h in
      rw (found, start_handler)
        (either (adopt_stream receives id n) n (kept_adopt-Matches receives id n k))
]
  where
    either :
        (x : Result ℕ (ℕ × StreamManager)) (n : StreamManager)
        → Matches (kept n x)
        → Matches (kept m x)
    either (throws code) n k = h
    either (returns opened) n k = k

end_handler-Matches :
    (id : ℕ) (end : HandlerEnd) (m : StreamManager) → Matches m → Matches (end_handler id end m).0
unfolding end_handler
end_handler-Matches id rejects m h = close_id-Matches id m h
end_handler-Matches id (resolves result) m h =
    elim (Bool-cases (is_id id (extract_stream_id result))) [
      | inl same ↦ rw (same, end_handler) h
      | inr differs ↦ rw (differs, end_handler) (close_id-Matches id m h)
    ]

stream_call-Matches :
    (call : StreamCall) (m : StreamManager) → Matches m → Matches (stream_call call m).0
unfolding stream_call new_stream_data with_registry close_stream on_stream_chunk off_stream_chunk
    on_stream_close off_stream_close abort_streams
stream_call-Matches (data_comes payload) m h = on_data-InStep payload m.registry m.open_streams h
stream_call-Matches (open_returns result) m h = finish_open-Matches result m h
stream_call-Matches handler_starts m h = start_handler-Matches m h
stream_call-Matches (handler_ends id end) m h = end_handler-Matches id end m h
stream_call-Matches (sends_data serial bytes cursor) m h = send-Matches serial bytes cursor m h
stream_call-Matches (closes_stream serial) m h =
    elim (Option-cases (find_open serial m.open_streams)) [
      | inl gone ↦ rw (gone, close_stream) h
      | inr (id, found) ↦ rw (found, close_stream) (close_id-Matches id m h)
    ]
stream_call-Matches (adds_chunk_listener serial l) m h =
    changed-InStep serial _ m.registry.streams m.open_streams h
stream_call-Matches (removes_chunk_listener serial l) m h =
    changed-InStep serial _ m.registry.streams m.open_streams h
stream_call-Matches (adds_close_listener serial l) m h =
    elim (Option-cases (find_open serial m.open_streams)) [
      | inl gone ↦ rw (gone, on_stream_close) h
      | inr (id, found) ↦
          rw (found, on_stream_close) (changed-InStep serial _ m.registry.streams m.open_streams h)
    ]
stream_call-Matches (removes_close_listener serial l) m h =
    changed-InStep serial _ m.registry.streams m.open_streams h
stream_call-Matches aborts m h = abort_all-InStep m.registry m.open_streams h

run-Matches :
    (calls : List StreamCall) (m : StreamManager) → Matches m → Matches (stream_run calls m).0
unfolding stream_run
run-Matches [] m h = h
run-Matches (call ∷ calls) m h =
    run-Matches calls (stream_call call m).0 (stream_call-Matches call m h)

new-Matches : Matches new_manager
unfolding lookup
new-Matches = record { handled_all = tt; same_keys = λ id. refl }

-- Whatever data comes, streams are opened, handled, written to, listened to and closed, in any order:
-- a stream id has a context in the registry exactly when its stream is open, and a teardown leaves
-- no stream open.
pub stream_run-paired :
    (calls : List StreamCall) (id : ℕ)
    → let m = (stream_run calls new_manager).0 in
      (is_in id m.registry.streams ≡ is_in id m.open_streams)
      × (is_in id (abort_streams m).0.registry.streams ≡ false)
      × (is_in id (abort_streams m).0.open_streams ≡ false)
unfolding abort_streams with_registry abort_all lookup
stream_run-paired calls id =
    let m : StreamManager = (stream_run calls new_manager).0 in
    let h = run-Matches calls new_manager new-Matches in
    (h.same_keys id, refl, sym ((abort_all-InStep m.registry m.open_streams h).same_keys id))

some_of : (o : Option StreamContext) → is_some o ≡ true → (ctx : StreamContext) × (o ≡ some ctx)
some_of none e = absurd (cc e)
some_of (some ctx) e = (ctx, refl)

-- After any run, a stream that is open sends its data, with its stream id and the sequence number of
-- its context, and its next number is one more, modulo 2 ^ 32; a cursor that is left out is 0.
pub stream_run-send :
    (calls : List StreamCall) (serial id : ℕ) (bytes : List ℕ) (cursor : Option ℕ)
    → find_open serial (stream_run calls new_manager).0.open_streams ≡ some id
    → let m = (stream_run calls new_manager).0 in
      (ctx : StreamContext) × (lookup id m.registry.streams ≡ some ctx)
      × ((m' : StreamManager) × (send serial bytes cursor m
            ≡ returns (
              m',
              sends_stream (record {
                stream_id = id;
                seq_id = ctx.next_local_seq;
                cursor = or_zero cursor;
                bytes = bytes;
              })
                  ∷ [],
            ))
          × (seq_of (lookup id m'.registry.streams) ≡ (ctx.next_local_seq + 1) % 2 ^ 32))
unfolding send
stream_run-send calls serial id bytes cursor found =
    let m : StreamManager = (stream_run calls new_manager).0 in
    let h = run-Matches calls new_manager new-Matches in
    let (ctx, e) =
      some_of (lookup id m.registry.streams)
        (h.same_keys id ∙ find_open-is_in serial id m.open_streams found) in
    let counted : StreamContext = record ctx {
      next_local_seq = (ctx.next_local_seq + 1) % 2 ^ 32;
    } in
    (
      ctx,
      e,
      (
        record m {
          registry = record m.registry { streams = insert id counted m.registry.streams };
        },
        rw (found, send) (rw e refl),
        ap seq_of (
            lookup-insert id id counted m.registry.streams
            ∙ ap (λ b. if b then some counted else lookup id m.registry.streams)
                (eq→== id id refl)),
      ),
    )
