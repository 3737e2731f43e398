-- ===== src/Broker/Specified.antt =====
-- src/broker/router.ts: the calls that change a router, and the same calls on functions of a name.
use axtp_ts_runtime.Common.{
  ℕ, List, [], ◌∷◌, Option, none, some, Bool, false, not, ◌==◌, ◌&&◌, ◌||◌, if◌then◌else◌,
}
use axtp_ts_runtime.Model.Rpc.{Text, same_text}
use axtp_ts_runtime.Broker.{
  HandlerRouter, is_handler, set_method, unset_method, add_event_listener, remove_event_listener,
}

pub data RouterCall : Type 0 where
  sets_method : Text → ℕ → RouterCall
  unsets_method : Text → ℕ → RouterCall
  adds_listener : Text → ℕ → RouterCall
  removes_listener : Text → ℕ → RouterCall

unfoldable pub router_call : RouterCall → HandlerRouter → HandlerRouter
unfolding set_method unset_method add_event_listener remove_event_listener
router_call (sets_method name h) r = set_method name h r
router_call (unsets_method name h) r = unset_method name h r
router_call (adds_listener name h) r = add_event_listener name h r
router_call (removes_listener name h) r = remove_event_listener name h r

unfoldable pub router_run : List RouterCall → HandlerRouter → HandlerRouter
unfolding router_call
router_run [] r = r
router_run (call ∷ calls) r = router_run calls (router_call call r)

abbrev pub new_router : HandlerRouter
new_router = record { method_handlers = []; event_handlers = [] }

-- What a router promises: at most one handler for each method, and a set of listeners for each event.
pub record Handlers : Type 0 where
  pub method_of : Text → Option ℕ
  pub listens_to : Text → ℕ → Bool

abbrev pub no_handlers : Handlers
no_handlers = record { method_of = λ name. none; listens_to = λ name h. false }

abbrev pub update {ℓ} : {V : Type ℓ} → (Text → V) → Text → V → Text → V
update f name v other = if same_text name other then v else f other

-- The same calls, on functions.
abbrev pub specified : RouterCall → Handlers → Handlers
specified (sets_method name h) t = record t { method_of = update t.method_of name (some h) }
specified (unsets_method name h) t = record t {
  method_of = if is_handler h (t.method_of name) then update t.method_of name none else t.method_of;
}
specified (adds_listener name h) t = record t {
  listens_to = update t.listens_to name (λ k. t.listens_to name k || (h == k));
}
specified (removes_listener name h) t = record t {
  listens_to = update t.listens_to name (λ k. not (h == k) && t.listens_to name k);
}

abbrev pub replay : List RouterCall → Handlers → Handlers
replay [] t = t
replay (call ∷ calls) t = replay calls (specified call t)
