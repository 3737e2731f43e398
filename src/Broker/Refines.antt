-- ===== src/Broker/Refines.antt =====
-- The handler router, read as functions of a name: the order of its tables and what they keep of
-- handlers that are gone are forgotten.
use mathlib.Core.Path.{fun_ext}
use axtp_ts_runtime.Common.{
  ℕ, List, [], ◌∷◌, Option, none, some, Bool, true, false, not, ◌==◌, ◌&&◌, ◌||◌, if◌then◌else◌,
  ◌≡◌, refl, sym, ap, ◌∙◌, arith, inl, inr, Bool-cases, Option-cases,
}
use axtp_ts_runtime.Model.Rpc.{Text, same_text, same_text→eq, same_text_self}
use axtp_ts_runtime.Broker.{
  HandlerRouter, GlobalHandlerSource, text_lookup, text_insert, text_delete, set_has, set_add,
  set_remove, or_empty, is_handler, or_global, set_method, unset_method, get_method,
  add_event_listener, remove_event_listener, get_event_handlers,
}
use axtp_ts_runtime.Broker.Listeners.{set_has-set_add, set_has-merge}
use axtp_ts_runtime.Broker.Specified.{
  RouterCall, router_call, router_run, new_router, Handlers, no_handlers, update, specified, replay,
  sets_method, unsets_method, adds_listener, removes_listener,
}

abbrev view : HandlerRouter → Handlers
view r = record {
  method_of = λ name. text_lookup name r.method_handlers;
  listens_to = λ name h. set_has h (or_empty (text_lookup name r.event_handlers));
}

module _ {V : Type 0} where
  same_branches :
      (b : Bool) (x y z : V) → (if b then x else z) ≡ (if b then x else if b then y else z)
  same_branches true x y z = refl
  same_branches false x y z = refl

  swap_branches :
      (a b : Bool) (x y z : V)
      → (a ≡ true → b ≡ false)
      → (if a then x else if b then y else z) ≡ (if b then y else if a then x else z)
  swap_branches true b x y z apart = rw (apart refl) refl
  swap_branches false true x y z apart = refl
  swap_branches false false x y z apart = refl

-- Two names that differ are not both this one.
apart_names :
    (key other name : Text)
    → same_text other key ≡ false
    → same_text other name ≡ true
    → same_text key name ≡ false
apart_names key other name differs same = elim (Bool-cases (same_text key name)) [
  | inl also ↦
      let e : other ≡ key = same_text→eq other name same ∙ sym (same_text→eq key name also) in
      let f : same_text other key ≡ true = ap (λ t. same_text t key) e ∙ same_text_self key in
      absurd (cc (f, differs))
  | inr no_match ↦ no_match
]

module _ {V : Type 0} where
  text_lookup-text_insert :
      (key name : Text) (v : V) (m : List (Text × V))
      → text_lookup name (text_insert key v m)
        ≡ (if same_text key name then some v else text_lookup name m)
  text_lookup-text_insert key name v [] = refl
  text_lookup-text_insert key name v ((other, w) ∷ m) = elim (Bool-cases (same_text other key)) [
    | inl same ↦
        let e : other ≡ key = same_text→eq other key same in
        rw same (rw e (same_branches (same_text key name) (some v) (some w) (text_lookup name m)))
    | inr differs ↦ rw differs (
        ap (λ l. if same_text other name then some w else l) (text_lookup-text_insert key name v m)
        ∙ swap_branches (same_text other name) (same_text key name) (some w) (some v)
            (text_lookup name m) (apart_names key other name differs))
  ]

  nothing_deleted : (b : Bool) → ◌≡◌ {A = Option V} none (if b then none else none)
  nothing_deleted true = refl
  nothing_deleted false = refl

  text_lookup-text_delete :
      (key name : Text) (m : List (Text × V))
      → text_lookup name (text_delete key m)
        ≡ (if same_text key name then none else text_lookup name m)
  text_lookup-text_delete key name [] = nothing_deleted (same_text key name)
  text_lookup-text_delete key name ((other, w) ∷ m) = elim (Bool-cases (same_text other key)) [
    | inl same ↦
        let e : other ≡ key = same_text→eq other key same in
        rw same (
          text_lookup-text_delete key name m
          ∙ rw e (same_branches (same_text key name) none (some w) (text_lookup name m)))
    | inr differs ↦ rw differs (
        ap (λ l. if same_text other name then some w else l) (text_lookup-text_delete key name m)
        ∙ swap_branches (same_text other name) (same_text key name) (some w) none
            (text_lookup name m) (apart_names key other name differs))
  ]

set_has-set_remove :
    (h k : ℕ) (xs : List ℕ) → set_has k (set_remove h xs) ≡ (not (h == k) && set_has k xs)
set_has-set_remove h k [] = ground arith
set_has-set_remove h k (x ∷ xs) = ground (arith, set_has-set_remove h k xs)

module _ (r : HandlerRouter) (key : Text) (h : ℕ) (name : Text) where
  unset_method-method_of :
      (view (unset_method key h r)).method_of name
      ≡ (specified (unsets_method key h) (view r)).method_of name
  unfolding unset_method
  unset_method-method_of = elim (Bool-cases (is_handler h (text_lookup key r.method_handlers))) [
    | inl held ↦ rw (held, unset_method) (text_lookup-text_delete key name r.method_handlers)
    | inr other ↦ rw (other, unset_method) refl
  ]

  unset_method-listens_to :
      (k : ℕ) → (view (unset_method key h r)).listens_to name k ≡ (view r).listens_to name k
  unfolding unset_method
  unset_method-listens_to k = elim (Bool-cases (is_handler h (text_lookup key r.method_handlers))) [
    | inl held ↦ rw (held, unset_method) refl
    | inr other ↦ rw (other, unset_method) refl
  ]

  -- The listeners of an event, after the set of one event is written.
  written-listens_to :
      (k : ℕ) (set : List ℕ) (has : Bool)
      → set_has k set ≡ has
      → set_has k (or_empty (text_lookup name (text_insert key set r.event_handlers))) ≡ (
          if same_text key name
          then has
          else set_has k (or_empty (text_lookup name r.event_handlers)))
  written-listens_to k set has e =
      rw (text_lookup-text_insert key name set r.event_handlers)
        (elim (Bool-cases (same_text key name)) [
          | inl same ↦ rw same e
          | inr differs ↦ rw differs refl
        ])

  update_at :
      (k : ℕ) (f : Text → ℕ → Bool) (g : ℕ → Bool)
      → update f key g name k ≡ (if same_text key name then g k else f name k)
  update_at k f g = elim (Bool-cases (same_text key name)) [
    | inl same ↦ rw same refl
    | inr differs ↦ rw differs refl
  ]

  remove_event_listener-method_of :
      (view (remove_event_listener key h r)).method_of name ≡ (view r).method_of name
  unfolding remove_event_listener
  remove_event_listener-method_of = elim (Option-cases (text_lookup key r.event_handlers)) [
    | inl absent ↦ rw (absent, remove_event_listener) refl
    | inr (set, found) ↦ rw (found, remove_event_listener) refl
  ]

  remove_event_listener-listens_to :
      (k : ℕ)
      → (view (remove_event_listener key h r)).listens_to name k ≡ (
          if same_text key name
          then not (h == k) && (view r).listens_to key k
          else (view r).listens_to name k)
  unfolding remove_event_listener
  remove_event_listener-listens_to k = elim (Option-cases (text_lookup key r.event_handlers)) [
    | inl absent ↦
        rw (absent, remove_event_listener)
          (elim (Bool-cases (same_text key name)) [
            | inl same ↦
                let e : text_lookup name r.event_handlers ≡ none =
                  ap (λ t. text_lookup t r.event_handlers) (sym (same_text→eq key name same))
                  ∙ absent in
                rw same (rw e (ground arith))
            | inr differs ↦ rw differs refl
          ])
    | inr (set, found) ↦
        rw (found, remove_event_listener)
          (written-listens_to k (set_remove h set) (not (h == k) && set_has k set)
            (set_has-set_remove h k set))
  ]

-- A call changes the view as it is specified to.
method_of-call :
    (call : RouterCall) (r : HandlerRouter) (name : Text)
    → (view (router_call call r)).method_of name ≡ (specified call (view r)).method_of name
unfolding router_call set_method add_event_listener
method_of-call (sets_method key h) r name = text_lookup-text_insert key name h r.method_handlers
method_of-call (unsets_method key h) r name = unset_method-method_of r key h name
method_of-call (adds_listener key h) r name = refl
method_of-call (removes_listener key h) r name = remove_event_listener-method_of r key h name

listens_to-call :
    (call : RouterCall) (r : HandlerRouter) (name : Text) (k : ℕ)
    → (view (router_call call r)).listens_to name k ≡ (specified call (view r)).listens_to name k
unfolding router_call set_method add_event_listener
listens_to-call (sets_method key h) r name k = refl
listens_to-call (unsets_method key h) r name k = unset_method-listens_to r key h name k
listens_to-call (adds_listener key h) r name k =
    let set : List ℕ = or_empty (text_lookup key r.event_handlers) in
    written-listens_to r key h name k (set_add set h) (set_has k set || (h == k))
      (set_has-set_add k set h)
    ∙ sym
        (update_at r key h name k (view r).listens_to (λ k. (view r).listens_to key k || (h == k)))
listens_to-call (removes_listener key h) r name k =
    remove_event_listener-listens_to r key h name k
    ∙ sym (
        update_at r key h name k (view r).listens_to
          (λ k. not (h == k) && (view r).listens_to key k))

view-call :
    (call : RouterCall) (r : HandlerRouter) → view (router_call call r) ≡ specified call (view r)
view-call call r =
    let methods = fun_ext (method_of-call call r) in
    let listeners = fun_ext (λ name. fun_ext (listens_to-call call r name)) in
    λ i. record { method_of = methods i; listens_to = listeners i }

view-run :
    (calls : List RouterCall) (r : HandlerRouter)
    → view (router_run calls r) ≡ replay calls (view r)
unfolding router_run
view-run [] r = refl
view-run (call ∷ calls) r =
    view-run calls (router_call call r) ∙ ap (replay calls) (view-call call r)

-- The router refines its specification. After any calls that set, unset, add and remove handlers, the
-- handler of a method is the one that the same calls leave in a function from names to handlers, or
-- else the global one; and a handler is among those of an event exactly when the same calls leave it
-- in the event's set of listeners, or it is a global listener of the event.
pub router_run-refines :
    (source : GlobalHandlerSource) (calls : List RouterCall) (name : Text) (h : ℕ)
    → let r = router_run calls new_router in
      let t = replay calls no_handlers in
      (get_method source name r ≡ or_global (t.method_of name) (source.get_method name))
      × (set_has h (get_event_handlers source name r)
          ≡ (t.listens_to name h || set_has h (or_empty (source.get_event_listeners name))))
unfolding get_method get_event_handlers
router_run-refines source calls name h =
    let r : HandlerRouter = router_run calls new_router in
    let e = view-run calls new_router in
    (
      ap (λ (t : Handlers). or_global (t.method_of name) (source.get_method name)) e,
      set_has-merge h (text_lookup name r.event_handlers) (source.get_event_listeners name)
          ∙ ap
              (λ (t : Handlers).
                t.listens_to name h || set_has h (or_empty (source.get_event_listeners name)))
              e,
    )
