-- ===== src/StreamManager/Steps.antt =====
-- What the operations on the registry and on the open streams do to both.
use axtp_ts_runtime.Common.{
  ℕ, ◌+◌, ◌%◌, ◌^◌, List, [], ◌∷◌, Option, none, some, Bool, true, false, not, ◌==◌, ◌&&◌, ◌||◌,
  if◌then◌else◌, ◌≡◌, refl, sym, ap, ◌∙◌, inl, inr, Bool-cases, Option-cases, ==→eq, eq→==, returns,
  length,
}
use axtp_ts_runtime.Common.Maps.{lookup, insert, delete, lookup-insert}
use axtp_ts_runtime.StreamCodec.{StreamPayload}
use axtp_ts_runtime.Streams.{
  Direction, StreamContext, StreamRegistry, on_chunk, on_close, has, adopt, adopted_context,
  on_data, close, abort_all,
}
use axtp_ts_runtime.StreamManager.{Stream, run_handler_calls, handled, is_id, count_up}
use axtp_ts_runtime.StreamManager.Matches.{
  is_some, is_in, is_in-insert, is_in-delete, All-insert, All-delete, All-lookup, InStep,
  is_in-close_calls,
}

module _ {V : Type 0} where
  -- A key that is in the map is written over.
  pub is_in-insert_old :
      (key id : ℕ) (v w : V) (m : List (ℕ × V))
      → lookup key m ≡ some v
      → is_in id (insert key w m) ≡ is_in id m
  is_in-insert_old key id v w m e = is_in-insert key id w m ∙ elim (Bool-cases (key == id)) [
    | inl same ↦
        let f : is_in id m ≡ true =
          ap (λ k. is_some (lookup k m)) (sym (==→eq key id same)) ∙ ap is_some e in
        ap (λ b. b || is_in id m) same ∙ sym f
    | inr differs ↦ ap (λ b. b || is_in id m) differs
  ]

pub on_data-InStep :
    (payload : StreamPayload) (r : StreamRegistry) (open_streams : List (ℕ × Stream))
    → InStep r.streams open_streams
    → let (r', calls) = on_data payload r in
      InStep r'.streams (run_handler_calls calls open_streams).0
unfolding on_data run_handler_calls
on_data-InStep payload r open_streams h = elim (Option-cases (lookup payload.stream_id r.streams)) [
  | inl absent ↦ rw (absent, on_data) h
  | inr (ctx, found) ↦
      let counted : StreamContext = record ctx {
        chunks = ctx.chunks + 1;
        byte_count = ctx.byte_count + length payload.bytes;
      } in
      rw (found, on_data)
        (record {
          handled_all =
              All-insert payload.stream_id counted r.streams
                (All-lookup payload.stream_id ctx r.streams found h.handled_all) h.handled_all;
          same_keys = λ id.
              is_in-insert_old payload.stream_id id ctx counted r.streams found
              ∙ h.same_keys id
              ∙ chunk_call id ctx.has_handler;
        })
]
  where
    chunk_call :
        (id : ℕ) (b : Bool)
        → is_in id open_streams
          ≡ is_in id
              (run_handler_calls
                (if b then on_chunk payload.stream_id payload.bytes payload.cursor ∷ [] else [])
                open_streams).0
    chunk_call id true = refl
    chunk_call id false = refl

pub close-InStep :
    (key : ℕ) (r : StreamRegistry) (open_streams : List (ℕ × Stream))
    → InStep r.streams open_streams
    → let (r', calls) = close key r in InStep r'.streams (run_handler_calls calls open_streams).0
unfolding close run_handler_calls
close-InStep key r open_streams h = elim (Option-cases (lookup key r.streams)) [
  | inl absent ↦ rw (absent, close) h
  | inr (ctx, found) ↦
      rw (found, close)
        (record {
          handled_all = All-delete key r.streams h.handled_all;
          same_keys = λ id.
              is_in-delete key id r.streams
              ∙ ap (λ b. not (key == id) && b) (h.same_keys id)
              ∙ sym (is_in-delete key id open_streams)
              ∙ close_call id ctx.has_handler (All-lookup key ctx r.streams found h.handled_all);
        })
]
  where
    close_call :
        (id : ℕ) (b : Bool)
        → b ≡ true
        → is_in id (delete key open_streams)
          ≡ is_in id (run_handler_calls (if b then on_close key ∷ [] else []) open_streams).0
    close_call id true e = refl
    close_call id false e = absurd (cc e)

pub abort_all-InStep :
    (r : StreamRegistry) (open_streams : List (ℕ × Stream))
    → InStep r.streams open_streams
    → let (r', calls) = abort_all r in InStep r'.streams (run_handler_calls calls open_streams).0
unfolding abort_all lookup
abort_all-InStep r open_streams h = record {
  handled_all = tt;
  same_keys = λ id. sym (
      is_in-close_calls id r.streams open_streams h.handled_all
      ∙ ap (λ b. not b && is_in id open_streams) (h.same_keys id)
      ∙ not_both (is_in id open_streams));
}
  where
    not_both : (a : Bool) → (not a && a) ≡ false
    not_both true = refl
    not_both false = refl

pub insert-insert :
    (key : ℕ) (c d : StreamContext) (m : List (ℕ × StreamContext))
    → insert key c (insert key d m) ≡ insert key c m
unfolding insert
insert-insert key c d [] =
    ap (λ b. if b then (key, c) ∷ [] else (key, d) ∷ (key, c) ∷ []) (eq→== key key refl)
insert-insert key c d ((id, e) ∷ m) = elim (Bool-cases (id == key)) [
  | inl same ↦
      rw (same, insert)
        (ap (λ b. if b then (key, c) ∷ m else (key, d) ∷ insert key c m) (eq→== key key refl))
  | inr differs ↦ rw (differs, insert) (rw differs (ap (◌∷◌ (id, e)) (insert-insert key c d m)))
]

pub adopt_returns :
    (id : ℕ) (r r' : StreamRegistry)
    → adopt id r ≡ returns r'
    → r'.streams ≡ insert id adopted_context r.streams
unfolding adopt
adopt_returns id r r' e = elim (Bool-cases (id == 0)) [
  | inl is_zero ↦ absurd (cc (rw is_zero at e))
  | inr is_id ↦ elim (Bool-cases (has id r.streams)) [
    | inl there ↦ absurd (cc (rw there at (rw is_id at e)))
    | inr fresh ↦
        let f : returns (record r { streams = insert id adopted_context r.streams }) ≡ returns r' =
          rw fresh at (rw is_id at e) in
        let g : record r { streams = insert id adopted_context r.streams } ≡ r' = cc f in
        ap (λ (x : StreamRegistry). x.streams) (sym g)
  ]
]

pub handled-adopted :
    (direction : Direction) (id : ℕ) (streams : List (ℕ × StreamContext))
    → let ctx = record adopted_context { direction = direction; has_handler = true } in
      handled direction
        (lookup id (insert id adopted_context streams))
        id
        (insert id adopted_context streams)
      ≡ insert id ctx streams
handled-adopted direction id streams =
    ap (λ o. handled direction o id (insert id adopted_context streams))
      (lookup-insert id id adopted_context streams
        ∙ ap (λ b. if b then some adopted_context else lookup id streams) (eq→== id id refl))
    ∙ insert-insert id (record adopted_context { direction = direction; has_handler = true })
        adopted_context streams

pub inserted-InStep :
    (id : ℕ) (ctx : StreamContext) (s : Stream) (streams : List (ℕ × StreamContext))
    (open_streams : List (ℕ × Stream))
    → ctx.has_handler ≡ true
    → InStep streams open_streams
    → InStep (insert id ctx streams) (insert id s open_streams)
inserted-InStep id ctx s streams open_streams e h = record {
  handled_all = All-insert id ctx streams e h.handled_all;
  same_keys = λ key.
      is_in-insert id key ctx streams
      ∙ ap (λ b. (id == key) || b) (h.same_keys key)
      ∙ sym (is_in-insert id key s open_streams);
}

pub counted-InStep :
    (id : ℕ) (streams : List (ℕ × StreamContext)) (open_streams : List (ℕ × Stream))
    → InStep streams open_streams
    → InStep (count_up (lookup id streams) id streams) open_streams
counted-InStep id streams open_streams h = by_context (lookup id streams) refl
  where
    by_context :
        (o : Option StreamContext)
        → lookup id streams ≡ o
        → InStep (count_up o id streams) open_streams
    by_context none e = h
    by_context (some ctx) e =
        let counted : StreamContext = record ctx {
          next_local_seq = (ctx.next_local_seq + 1) % 2 ^ 32;
        } in
        record {
          handled_all =
              All-insert id counted streams (All-lookup id ctx streams e h.handled_all)
                h.handled_all;
          same_keys = λ key. is_in-insert_old id key ctx counted streams e ∙ h.same_keys key;
        }
