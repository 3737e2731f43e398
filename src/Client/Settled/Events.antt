-- ===== src/Client/Settled/Events.antt =====
-- emitRaw and the outbox lose no promise.
use axtp_ts_runtime.Common.{
  Result-cases, ℕ, ◌+◌, List, [], ◌∷◌, ◌++◌, leb, length, returns, throws, ◌≡◌, inl, inr, refl, ap,
  arith,
}
use axtp_ts_runtime.Model.Rpc.{Text}
use axtp_ts_runtime.JsonRpc.{Value}
use axtp_ts_runtime.Client.State.{
  Overflow, drop_oldest, drop_newest, rejects_new, ClientOptions, QueuedEvent, Client, rejected,
  require_usable, is_closed,
}
use axtp_ts_runtime.Client.Events.{
  EmitOutcome, goes, fails, flush_events, flush_outbox, reject_events, reject_outbox, push_event,
  shift_event, overflow_event, accept_event, enqueue_event, emit_raw,
}
use axtp_ts_runtime.Client.Settled.{
  one_if, let_go, in_events, Accounts, Accounts-before, Accounts-if,
}

module _ (p : ℕ) (emit_outcome : Text → Value → EmitOutcome) where
  let_go-flush_events :
      (ep : ℕ) (items : List QueuedEvent)
      → let_go p (flush_events emit_outcome ep items) ≡ in_events p items
  unfolding flush_events
  let_go-flush_events ep [] = refl
  let_go-flush_events ep (item ∷ items) =
      by_outcome (emit_outcome item.event_name item.payload) refl (let_go-flush_events ep items)
    where
      by_outcome :
          (o : EmitOutcome)
          → emit_outcome item.event_name item.payload ≡ o
          → let_go p (flush_events emit_outcome ep items) ≡ in_events p items
          → let_go p (flush_events emit_outcome ep (item ∷ items)) ≡ in_events p (item ∷ items)
      by_outcome goes e ih = rw (e, flush_events) (omega (arith, ih))
      by_outcome (fails code) e ih = rw (e, flush_events) (omega (arith, ih))

  pub flush_outbox-Accounts : (c : Client) → Accounts p 0 c (flush_outbox emit_outcome c)
  unfolding flush_outbox
  flush_outbox-Accounts c = elim (Result-cases (require_usable c)) [
    | inl (code, e) ↦ rw (e, flush_outbox) (omega arith)
    | inr (ep, e) ↦ rw (e, flush_outbox) (omega (arith, let_go-flush_events ep c.event_outbox))
  ]

  in_events-append :
      (xs ys : List QueuedEvent) → in_events p (xs ++ ys) ≡ in_events p xs + in_events p ys
  in_events-append [] ys = omega arith
  in_events-append (item ∷ xs) ys = omega (arith, in_events-append xs ys)

  push_event-Accounts :
      (item : QueuedEvent) (c : Client)
      → Accounts p (one_if p item.promise) c (push_event emit_outcome item c)
  unfolding push_event
  push_event-Accounts item c = omega (
    arith,
    flush_outbox-Accounts (record c { event_outbox = c.event_outbox ++ (item ∷ []) }),
    in_events-append c.event_outbox (item ∷ []),
  )

  shift_event-Accounts :
      (c : Client) (items : List QueuedEvent)
      → c.event_outbox ≡ items
      → Accounts p 0 c (shift_event c items)
  unfolding shift_event
  shift_event-Accounts c [] e = refl
  shift_event-Accounts c (item ∷ items) e = omega (arith, ap (in_events p) e)

  overflow_event-Accounts :
      (overflow : Overflow) (item : QueuedEvent) (c : Client)
      → Accounts p (one_if p item.promise) c (overflow_event emit_outcome overflow item c)
  unfolding overflow_event
  overflow_event-Accounts rejects_new item c = omega arith
  overflow_event-Accounts drop_newest item c = omega arith
  overflow_event-Accounts drop_oldest item c =
      Accounts-before p (one_if p item.promise) c (shift_event c c.event_outbox)
        (push_event emit_outcome item) (shift_event-Accounts c c.event_outbox refl)
        (push_event-Accounts item)

  accept_event-Accounts :
      (opts : ClientOptions) (item : QueuedEvent) (c : Client)
      → Accounts p (one_if p item.promise) c (accept_event opts emit_outcome item c)
  unfolding accept_event
  accept_event-Accounts opts item c =
      Accounts-if p (one_if p item.promise) c (leb opts.event_max_size (length c.event_outbox)) _ _
        (overflow_event-Accounts opts.event_overflow item c) (push_event-Accounts item c)

  enqueue_event-Accounts :
      (opts : ClientOptions) (item : QueuedEvent) (c : Client)
      → Accounts p (one_if p item.promise) c (enqueue_event opts emit_outcome item c)
  unfolding enqueue_event
  enqueue_event-Accounts opts item c =
      Accounts-if p (one_if p item.promise) c (is_closed c.state) _ _ (omega arith) (
        Accounts-if p (one_if p item.promise) c opts.queues_events _ _
          (accept_event-Accounts opts item c) usable)
    where
      usable : Accounts p (one_if p item.promise) c (elim (require_usable c) [
        | throws code ↦ (c, rejected item.promise code ∷ [])
        | returns ep ↦ accept_event opts emit_outcome item c
      ])
      usable = elim (Result-cases (require_usable c)) [
        | inl (code, e) ↦ rw e (omega arith)
        | inr (ep, e) ↦ rw e (accept_event-Accounts opts item c)
      ]

  pub emit_raw-Accounts :
      (opts : ClientOptions) (item : QueuedEvent) (c : Client)
      → Accounts p (one_if p item.promise) c (emit_raw opts emit_outcome item c)
  unfolding emit_raw
  emit_raw-Accounts opts item c = elim (Result-cases (require_usable c)) [
    | inl (code, e) ↦ rw (e, emit_raw) (enqueue_event-Accounts opts item c)
    | inr (ep, e) ↦ by_outcome ep e (emit_outcome item.event_name item.payload) refl
  ]
    where
      by_outcome :
          (ep : ℕ)
          → require_usable c ≡ returns ep
          → (o : EmitOutcome) → emit_outcome item.event_name item.payload ≡ o
          → Accounts p (one_if p item.promise) c (emit_raw opts emit_outcome item c)
      by_outcome ep e goes at = rw (e, emit_raw) (rw at (omega arith))
      by_outcome ep e (fails code) at = rw (e, emit_raw) (rw at (omega arith))

module _ (p : ℕ) where
  let_go-reject_events :
      (code : ℕ) (items : List QueuedEvent)
      → let_go p (reject_events code items) ≡ in_events p items
  unfolding reject_events
  let_go-reject_events code [] = refl
  let_go-reject_events code (item ∷ items) = omega (arith, let_go-reject_events code items)

  pub reject_outbox-Accounts : (code : ℕ) (c : Client) → Accounts p 0 c (reject_outbox code c)
  unfolding reject_outbox
  reject_outbox-Accounts code c = omega (arith, let_go-reject_events code c.event_outbox)
