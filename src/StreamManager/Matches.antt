-- ===== src/StreamManager/Matches.antt =====
-- The open streams are those of the registry's contexts.
use axtp_ts_runtime.Common.{
  ℕ, List, [], ◌∷◌, Option, none, some, Bool, true, false, not, ◌==◌, ◌&&◌, ◌||◌, if◌then◌else◌,
  ◌≡◌, refl, sym, ap, ◌∙◌, inl, inr, Bool-cases, eq→==, All,
}
use axtp_ts_runtime.Common.Maps.{lookup, insert, delete, lookup-insert, lookup-delete}
use axtp_ts_runtime.Streams.{StreamContext, on_close, close_calls}
use axtp_ts_runtime.StreamManager.{
  Stream, StreamManager, run_handler_calls, find_open, change_stream,
}

module _ {V : Type 0} where
  abbrev pub is_some : Option V → Bool
  is_some none = false
  is_some (some v) = true

  -- The key is in the map.
  abbrev pub is_in : ℕ → List (ℕ × V) → Bool
  is_in id m = is_some (lookup id m)

  is_some-if_some :
      (b : Bool) (v : V) (o : Option V) → is_some (if b then some v else o) ≡ (b || is_some o)
  is_some-if_some true v o = refl
  is_some-if_some false v o = refl

  is_some-if_none :
      (b : Bool) (o : Option V) → is_some (if b then none else o) ≡ (not b && is_some o)
  is_some-if_none true o = refl
  is_some-if_none false o = refl

  pub is_in-insert :
      (key id : ℕ) (v : V) (m : List (ℕ × V))
      → is_in id (insert key v m) ≡ ((key == id) || is_in id m)
  is_in-insert key id v m =
      ap is_some (lookup-insert key id v m) ∙ is_some-if_some (key == id) v (lookup id m)

  pub is_in-delete :
      (key id : ℕ) (m : List (ℕ × V)) → is_in id (delete key m) ≡ (not (key == id) && is_in id m)
  is_in-delete key id m =
      ap is_some (lookup-delete key id m) ∙ is_some-if_none (key == id) (lookup id m)

  is_in-first :
      (key id : ℕ) (v : V) (m : List (ℕ × V))
      → is_in id ((key, v) ∷ m) ≡ ((key == id) || is_in id m)
  unfolding lookup
  is_in-first key id v m = is_some-if_some (key == id) v (lookup id m)

abbrev pub IsHandled : ℕ × StreamContext → Type 0
IsHandled e = e.1.has_handler ≡ true

pub All-insert :
    (key : ℕ) (ctx : StreamContext) (m : List (ℕ × StreamContext))
    → ctx.has_handler ≡ true
    → All IsHandled m
    → All IsHandled (insert key ctx m)
unfolding insert
All-insert key ctx [] h all = (h, tt)
All-insert key ctx ((id, c) ∷ m) h (first, all) = elim (Bool-cases (id == key)) [
  | inl same ↦ rw (same, insert) (h, all)
  | inr differs ↦ rw (differs, insert) (first, All-insert key ctx m h all)
]

pub All-delete :
    (key : ℕ) (m : List (ℕ × StreamContext)) → All IsHandled m → All IsHandled (delete key m)
unfolding delete
All-delete key [] all = tt
All-delete key ((id, c) ∷ m) (first, all) = elim (Bool-cases (id == key)) [
  | inl same ↦ rw (same, delete) (All-delete key m all)
  | inr differs ↦ rw (differs, delete) (first, All-delete key m all)
]

pub All-lookup :
    (key : ℕ) (ctx : StreamContext) (m : List (ℕ × StreamContext))
    → lookup key m ≡ some ctx
    → All IsHandled m
    → ctx.has_handler ≡ true
unfolding lookup
All-lookup key ctx [] e all = absurd (cc e)
All-lookup key ctx ((id, c) ∷ m) e (first, all) = elim (Bool-cases (id == key)) [
  | inl same ↦ let f : some c ≡ some ctx = rw same at e in cc (f, first)
  | inr differs ↦ All-lookup key ctx m (rw differs at e) all
]

-- Every context has the handler of a stream, and a stream id has a context exactly when its stream is
-- open.
pub record InStep (streams : List (ℕ × StreamContext)) (open_streams : List (ℕ × Stream))
    : Type 0 where
  pub handled_all : All IsHandled streams
  pub same_keys : (id : ℕ) → is_in id streams ≡ is_in id open_streams

abbrev pub Matches : StreamManager → Type 0
Matches m = InStep m.registry.streams m.open_streams

pub is_in-change_stream :
    (id serial : ℕ) (change : Stream → Stream) (open_streams : List (ℕ × Stream))
    → is_in id (change_stream serial change open_streams) ≡ is_in id open_streams
unfolding change_stream
is_in-change_stream id serial change [] = refl
is_in-change_stream id serial change ((key, s) ∷ rest) =
    let ih = is_in-change_stream id serial change rest in
    elim (Bool-cases (s.serial == serial)) [
      | inl same ↦
          rw (same, change_stream)
            (is_in-first key id (change s) (change_stream serial change rest)
              ∙ ap (λ b. (key == id) || b) ih
              ∙ sym (is_in-first key id s rest))
      | inr differs ↦
          rw (differs, change_stream)
            (is_in-first key id s (change_stream serial change rest)
              ∙ ap (λ b. (key == id) || b) ih
              ∙ sym (is_in-first key id s rest))
    ]

or_true : (a : Bool) → (a || true) ≡ true
or_true true = refl
or_true false = refl

pub find_open-is_in :
    (serial id : ℕ) (open_streams : List (ℕ × Stream))
    → find_open serial open_streams ≡ some id
    → is_in id open_streams ≡ true
unfolding find_open
find_open-is_in serial id [] e = absurd (cc e)
find_open-is_in serial id ((key, s) ∷ rest) e = elim (Bool-cases (s.serial == serial)) [
  | inl same ↦
      let f : some key ≡ some id = rw same at e in
      let g : key ≡ id = cc f in
      is_in-first key id s rest ∙ ap (λ b. b || is_in id rest) (eq→== key id g)
  | inr differs ↦
      is_in-first key id s rest
      ∙ ap (λ b. (key == id) || b) (find_open-is_in serial id rest (rw differs at e))
      ∙ or_true (key == id)
]

-- Two deletions, as one.
both_out : (a b c : Bool) → (not a && (not b && c)) ≡ (not (b || a) && c)
both_out true true c = refl
both_out true false c = refl
both_out false true c = refl
both_out false false c = refl

close_calls_handled :
    (key : ℕ) (ctx : StreamContext) (streams : List (ℕ × StreamContext))
    → ctx.has_handler ≡ true
    → close_calls ((key, ctx) ∷ streams) ≡ on_close key ∷ close_calls streams
unfolding close_calls
close_calls_handled key ctx streams h =
    ap (λ b. if b then on_close key ∷ close_calls streams else close_calls streams) h

-- The calls of close_calls take the streams of these contexts out.
pub is_in-close_calls :
    (id : ℕ) (streams : List (ℕ × StreamContext)) (open_streams : List (ℕ × Stream))
    → All IsHandled streams
    → is_in id (run_handler_calls (close_calls streams) open_streams).0
      ≡ (not (is_in id streams) && is_in id open_streams)
unfolding run_handler_calls lookup close_calls
is_in-close_calls id [] open_streams all = refl
is_in-close_calls id ((key, ctx) ∷ streams) open_streams (first, all) =
    ap (λ calls. is_in id (run_handler_calls calls open_streams).0)
      (close_calls_handled key ctx streams first)
    ∙ is_in-close_calls id streams (delete key open_streams) all
    ∙ ap (λ b. not (is_in id streams) && b) (is_in-delete key id open_streams)
    ∙ both_out (is_in id streams) (key == id) (is_in id open_streams)
    ∙ ap (λ b. not b && is_in id open_streams) (sym (is_in-first key id ctx streams))
