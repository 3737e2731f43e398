-- ===== src/Streams/Release.antt =====
-- What a closed stream leaves behind.
use axtp_ts_runtime.Common.{
  ℕ, ◌+◌, [], none, length, returns, ◌≡◌, ◌≢◌, refl, arith, inl, inr, Option-cases, ne→==,
}
use axtp_ts_runtime.Common.Maps.{lookup, insert, lookup-insert, lookup-delete}
use axtp_ts_runtime.StreamCodec.{StreamPayload}
use axtp_ts_runtime.Streams.{StreamRegistry, adopted_context, adopt, on_data, close, has}

close-lookup : (id : ℕ) (r : StreamRegistry) → lookup id (close id r).0.streams ≡ none
unfolding close
close-lookup id r = elim (Option-cases (lookup id r.streams)) [
  | inl e ↦ rw (e, close) e
  | inr (ctx, e) ↦ rw (e, close) (ground (arith, lookup-delete id id r.streams))
]

close-other :
    (id other : ℕ) (r : StreamRegistry)
    → other ≢ id
    → lookup other (close id r).0.streams ≡ lookup other r.streams
unfolding close
close-other id other r h = elim (Option-cases (lookup id r.streams)) [
  | inl e ↦ rw (e, close) refl
  | inr (ctx, e) ↦ rw (e, close) (ground (arith, h, lookup-delete id other r.streams))
]

on_data_unknown :
    (payload : StreamPayload) (r : StreamRegistry)
    → lookup payload.stream_id r.streams ≡ none
    → on_data payload r ≡ (r, [])
unfolding on_data
on_data_unknown payload r e = rw (e, on_data) refl

-- The context of another stream.
on_data-other :
    (payload : StreamPayload) (r : StreamRegistry) (other : ℕ)
    → other ≢ payload.stream_id
    → lookup other (on_data payload r).0.streams ≡ lookup other r.streams
unfolding on_data
on_data-other payload r other h = elim (Option-cases (lookup payload.stream_id r.streams)) [
  | inl e ↦ rw (e, on_data) refl
  | inr (ctx, e) ↦
      rw (e, on_data)
        (ground (
          arith,
          h,
          lookup-insert payload.stream_id other
              (record ctx {
                chunks = ctx.chunks + 1;
                byte_count = ctx.byte_count + length payload.bytes;
              })
              r.streams,
        ))
]

-- Once a stream is closed, data for it reaches no handler and changes nothing, its id, if it is not
-- 0, can be adopted again, and the context of every other stream is what it was, also after data
-- for the first came in.
pub close_releases :
    (payload : StreamPayload) (r : StreamRegistry) (other : ℕ)
    → payload.stream_id ≢ 0
    → other ≢ payload.stream_id
    → let id = payload.stream_id in
      let r' = (close id r).0 in
      (on_data payload r' ≡ (r', []))
      × ((r'' : StreamRegistry) × (adopt id r' ≡ returns r''))
      × (lookup other r'.streams ≡ lookup other r.streams)
      × (lookup other (on_data payload r).0.streams ≡ lookup other r.streams)
unfolding adopt
close_releases payload r other some_id apart =
    let id = payload.stream_id in
    let r' = (close id r).0 in
    let gone = close-lookup id r in
    (
      on_data_unknown payload r' gone,
      (
        record r' { streams = insert id adopted_context r'.streams },
        rw (ne→== id 0 some_id, adopt) (rw (gone, has) refl),
      ),
      close-other id other r apart,
      on_data-other payload r other apart,
    )
