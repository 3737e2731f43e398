-- ===== src/Broker/Listeners.antt =====
-- An event is handed to each of its listeners once.
use axtp_ts_runtime.Common.{
  ℕ, ◌+◌, List, [], ◌∷◌, ◌++◌, Option, none, some, Bool, true, false, not, ◌==◌, ◌&&◌, ◌||◌,
  if◌then◌else◌, ◌≡◌, refl, ap, ◌∙◌, arith, inl, inr, Bool-cases, ==→eq, subst,
}
use axtp_ts_runtime.Model.Rpc.{Text}
use axtp_ts_runtime.JsonRpc.{Value}
use axtp_ts_runtime.Broker.{
  GlobalHandlerSource, BasicBroker, BrokerOutput, on_result, on_error, runs, notifies, set_has,
  set_add, add_all, or_empty, text_lookup, merge_handlers, get_event_handlers, is_qualified,
  notify_all, dispatch_event,
}

-- A `Set`, as a list: no handler stands in it twice.
abbrev pub IsSetOf : List ℕ → Type 0
IsSetOf [] = Unit {0}
IsSetOf (x ∷ xs) = (set_has x xs ≡ false) × IsSetOf xs

abbrev count : ℕ → List ℕ → ℕ
count h [] = 0
count h (x ∷ xs) = (if x == h then 1 else 0) + count h xs

count-absent : (h : ℕ) (xs : List ℕ) → set_has h xs ≡ false → count h xs ≡ 0
count-absent h [] absent = refl
count-absent h (x ∷ xs) absent = ground (arith, absent, count-absent h xs)

count-IsSetOf : (h : ℕ) (xs : List ℕ) → IsSetOf xs → count h xs ≡ (if set_has h xs then 1 else 0)
count-IsSetOf h [] set = refl
count-IsSetOf h (x ∷ xs) set = elim (Bool-cases (x == h)) [
  | inl hit ↦
      let absent : set_has h xs ≡ false = subst (λ y. set_has y xs ≡ false) (==→eq x h hit) set.0 in
      ground (arith, hit, count-absent h xs absent)
  | inr miss ↦ ground (arith, miss, count-IsSetOf h xs set.1)
]

set_has-append : (h : ℕ) (xs ys : List ℕ) → set_has h (xs ++ ys) ≡ (set_has h xs || set_has h ys)
set_has-append h [] ys = refl
set_has-append h (x ∷ xs) ys = ground (arith, set_has-append h xs ys)

append-IsSetOf :
    (xs : List ℕ) (h : ℕ) → IsSetOf xs → set_has h xs ≡ false → IsSetOf (xs ++ (h ∷ []))
append-IsSetOf [] h set absent = (refl, tt)
append-IsSetOf (x ∷ xs) h set absent = (
  set_has-append x xs (h ∷ []) ∙ ground (arith, set.0, absent),
  append-IsSetOf xs h set.1 (ground (arith, absent)),
)

pub set_add-IsSetOf : (xs : List ℕ) (h : ℕ) → IsSetOf xs → IsSetOf (set_add xs h)
set_add-IsSetOf xs h set = elim (Bool-cases (set_has h xs)) [
  | inl there ↦ rw there set
  | inr absent ↦ rw absent (append-IsSetOf xs h set absent)
]

pub set_has-set_add :
    (k : ℕ) (xs : List ℕ) (h : ℕ) → set_has k (set_add xs h) ≡ (set_has k xs || (h == k))
set_has-set_add k xs h = elim (Bool-cases (set_has h xs)) [
  | inl there ↦ rw there (elim (Bool-cases (h == k)) [
    | inl hit ↦
        let has_k : set_has k xs ≡ true = subst (λ y. set_has y xs ≡ true) (==→eq h k hit) there in
        ground (arith, hit, has_k)
    | inr miss ↦ ground (arith, miss)
  ])
  | inr absent ↦ rw absent (set_has-append k xs (h ∷ []) ∙ ground arith)
]

add_all-IsSetOf : (hs merged : List ℕ) → IsSetOf merged → IsSetOf (add_all merged hs)
add_all-IsSetOf [] merged set = set
add_all-IsSetOf (h ∷ hs) merged set =
    add_all-IsSetOf hs (set_add merged h) (set_add-IsSetOf merged h set)

set_has-add_all :
    (k : ℕ) (hs merged : List ℕ)
    → set_has k (add_all merged hs) ≡ (set_has k merged || set_has k hs)
set_has-add_all k [] merged = ground arith
set_has-add_all k (h ∷ hs) merged =
    set_has-add_all k hs (set_add merged h) ∙ ground (arith, set_has-set_add k merged h)

-- The listeners of both sources.
abbrev pub listens : ℕ → Option (List ℕ) → Option (List ℕ) → Bool
listens h local global = set_has h (or_empty local) || set_has h (or_empty global)

merge-IsSetOf :
    (local global : Option (List ℕ))
    → IsSetOf (or_empty local)
    → IsSetOf (or_empty global)
    → IsSetOf (merge_handlers local global)
merge-IsSetOf none none l g = tt
merge-IsSetOf (some local) none l g = l
merge-IsSetOf none (some global) l g = g
merge-IsSetOf (some local) (some global) l g =
    add_all-IsSetOf global (add_all [] local) (add_all-IsSetOf local [] tt)

pub set_has-merge :
    (h : ℕ) (local global : Option (List ℕ))
    → set_has h (merge_handlers local global) ≡ listens h local global
set_has-merge h none none = refl
set_has-merge h (some local) none = ground arith
set_has-merge h none (some global) = refl
set_has-merge h (some local) (some global) =
    set_has-add_all h global (add_all [] local)
    ∙ ap (λ b. b || set_has h global) (set_has-add_all h local [])

-- How often a handler is called with the event.
abbrev pub notified : ℕ → List BrokerOutput → ℕ
notified h [] = 0
notified h (notifies k value ∷ rest) = (if k == h then 1 else 0) + notified h rest
notified h (on_result msg ∷ rest) = notified h rest
notified h (on_error code ∷ rest) = notified h rest
notified h (runs k params ∷ rest) = notified h rest

module _ (source : GlobalHandlerSource) (known_method known_event : Text → Bool) where
  notify_all-count :
      (throwing : ℕ → Bool) (value : Value) (hs : List ℕ) (h : ℕ)
      → notified h (notify_all source known_method known_event throwing value hs) ≡ count h hs
  unfolding notify_all
  notify_all-count throwing value [] h = refl
  notify_all-count throwing value (x ∷ xs) h = elim (Bool-cases (throwing x)) [
    | inl bad ↦
        rw (bad, notify_all)
          (ap (λ n. (if x == h then 1 else 0) + n) (notify_all-count throwing value xs h))
    | inr good ↦
        rw (good, notify_all)
          (ap (λ n. (if x == h then 1 else 0) + n) (notify_all-count throwing value xs h))
  ]

  -- An event whose name is known, or not qualified, is handed to each handler that listens to it,
  -- at the broker or at the source that it shares with others, exactly once, and to no other handler,
  -- whichever of the handlers throw. The listeners are sets.
  pub dispatch_event-notified :
      (throwing : ℕ → Bool) (name : Text) (value : Value) (b : BasicBroker) (h : ℕ)
      → (is_qualified name && not (known_event name)) ≡ false
      → IsSetOf (or_empty (text_lookup name b.router.event_handlers))
      → IsSetOf (or_empty (source.get_event_listeners name))
      → notified h (dispatch_event source known_method known_event throwing name value b) ≡ (
          if listens h (text_lookup name b.router.event_handlers) (source.get_event_listeners name)
          then 1
          else 0)
  unfolding dispatch_event get_event_handlers
  dispatch_event-notified throwing name value b h known local_set global_set =
      let local = text_lookup name b.router.event_handlers in
      let global = source.get_event_listeners name in
      rw (known, dispatch_event)
        (notify_all-count throwing value (merge_handlers local global) h
          ∙ count-IsSetOf h (merge_handlers local global)
              (merge-IsSetOf local global local_set global_set)
          ∙ ap (λ b. if b then 1 else 0) (set_has-merge h local global))
