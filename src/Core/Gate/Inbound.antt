-- ===== src/Core/Gate/Inbound.antt =====
-- The outputs of an incoming message.
use axtp_ts_runtime.Common.{
  ℕ, ◌+◌, List, [], ◌∷◌, ◌++◌, All, All-append, Option, none, some, Bool, true, false, ◌≡◌, refl,
  sym, ap, ◌∙◌, inl, inr, Bool-cases, Option-cases, arith,
}
use axtp_ts_runtime.Model.Rpc.{
  Text, same_text, same_text→eq, RpcMessage, hello, identify, identified, reidentify, event,
  request, response,
}
use axtp_ts_runtime.JsonRpc.{Value}
use axtp_ts_runtime.Handshake.{
  GateState, link_connected, framing_ready, app_ready, closing, Handshake, HandshakeResult, handle,
  handle_hello, handle_identify, handle_identified, handle_reidentify, LogicalRole, client, server,
  classify_inbound, handshake, business, respond_open_required, drops, InboundDisposition,
  sid_invalid,
}
use axtp_ts_runtime.Handshake as Negotiation
use axtp_ts_runtime.Pending.{PendingCalls, Settled, resolves, rejects}
use axtp_ts_runtime.Common.Maps.{lookup, delete}
use axtp_ts_runtime.Pending as Pending
use axtp_ts_runtime.Core.{
  Core, enqueues, settles, sid_of, after_handshake, dispatch_business, business_of, open_required,
  reply_output, error_output, handshake_ready, with_pending,
}
use axtp_ts_runtime.Core.Gate.{IsAllowed}
use axtp_ts_runtime.Core.Gate.Trace.{Knows, Keeps, Keeps-then, IsQuiet, quiet, quiet-Keeps}

-- A handled handshake message that does not make the session ready leaves its id.
abbrev pub KeepsSid : Handshake → Handshake × HandshakeResult Value → Type 0
KeepsSid h (h', r) = r.became_ready ≡ false → h'.sid ≡ h.sid

pub handle-KeepsSid :
    (drawn : ℕ) (msg : RpcMessage Value) (h : Handshake) → KeepsSid h (handle drawn msg h)
unfolding handle handle_hello handle_identify handle_identified handle_reidentify
    Negotiation.on_link_ready
handle-KeepsSid drawn (hello sid version) h = ground arith
handle-KeepsSid drawn (identify sid seed masks) h = ground arith
handle-KeepsSid drawn (identified sid) h = ground arith
handle-KeepsSid drawn (reidentify sid masks) h = ground arith
handle-KeepsSid drawn (event sid name value) h = λ e. refl
handle-KeepsSid drawn (request sid id method params) h = λ e. refl
handle-KeepsSid drawn (response sid id status result) h = λ e. refl

pub reply_output-IsQuiet : (reply : Option (RpcMessage Value)) → All IsQuiet (reply_output reply)
reply_output-IsQuiet none = tt
reply_output-IsQuiet (some msg) = (λ sid. (tt, refl), tt)

pub error_output-IsQuiet : (code : Option ℕ) → All IsQuiet (error_output code)
error_output-IsQuiet none = tt
error_output-IsQuiet (some code) = (λ sid. (tt, refl), tt)

pub after_handshake-Keeps :
    (sid : Option Text) (c : Core) (h : Handshake) (reply : Option (RpcMessage Value))
    (ready : Bool) (code : Option ℕ)
    → (ready ≡ false → h.sid ≡ c.handshake.sid)
    → Knows sid c
    → Keeps sid
        (after_handshake c (h, record { outbound = reply; became_ready = ready; error = code }))
unfolding after_handshake
after_handshake-Keeps sid c h reply false code same k =
    quiet-Keeps sid c (record c { handshake = h; draws = c.draws + 1 })
      (reply_output reply ++ error_output code)
      (All-append IsQuiet (reply_output reply) _ (reply_output-IsQuiet reply)
        (error_output-IsQuiet code))
      (λ open_gate. (open_gate, same refl)) k
after_handshake-Keeps sid c h reply true code same k =
    let c' = record c { handshake = h; draws = c.draws + 1; gate = app_ready } in
    let replied = quiet sid (reply_output reply) (reply_output-IsQuiet reply) in
    let failed = quiet (some h.sid) (error_output code) (error_output-IsQuiet code) in
    Keeps-then sid (reply_output reply) (c', enqueues (handshake_ready h.sid) ∷ error_output code)
      replied.0 ((tt, failed.0), λ open_gate. failed.1)

-- The promises that may be settled.
abbrev pub Allowed : Option Text → List (Settled (RpcMessage Value)) → Type 0
Allowed sid settled = All (λ (x : Settled (RpcMessage Value)). IsAllowed sid (settles x)) settled

pub with_pending-Keeps :
    (sid : Option Text) (c : Core) (step : PendingCalls × List (Settled (RpcMessage Value)))
    → Allowed sid step.1
    → Knows sid c
    → Keeps sid (with_pending c step)
with_pending-Keeps sid c (pending, []) h k = (tt, k)
with_pending-Keeps sid c (pending, x ∷ xs) h k =
    let rest = with_pending-Keeps sid c (pending, xs) h.1 k in ((h.0, rest.0), rest.1)

pub resolve-Allowed :
    (sid : Option Text) (id : ℕ) (msg : RpcMessage Value) (p : PendingCalls)
    → sid ≡ some (sid_of msg)
    → Allowed sid (Pending.resolve id msg p).1
unfolding Pending.resolve
resolve-Allowed sid id msg p at = elim (Option-cases (lookup id p.pending)) [
  | inl e ↦ rw (e, Pending.resolve) tt
  | inr (promise, e) ↦ rw (e, Pending.resolve) (at, tt)
]

pub reject_loop-Allowed :
    (sid : Option Text) (code : ℕ) (entries timers : List (ℕ × ℕ))
    → Allowed sid (Pending.reject_loop code entries timers).1
unfolding Pending.reject_loop
reject_loop-Allowed sid code [] timers = tt
reject_loop-Allowed sid code ((id, promise) ∷ rest) timers =
    (tt, reject_loop-Allowed sid code rest (delete promise timers))

pub reject_all-Allowed :
    (sid : Option Text) (code : ℕ) (p : PendingCalls) → Allowed sid (Pending.reject_all code p).1
unfolding Pending.reject_all
reject_all-Allowed sid code p = reject_loop-Allowed sid code p.pending p.timers

pub on_timeout-Allowed :
    (sid : Option Text) (promise : ℕ) (p : PendingCalls)
    → Allowed sid (Pending.on_timeout promise p).1
unfolding Pending.on_timeout
on_timeout-Allowed sid promise p = elim (Option-cases (lookup promise p.timers)) [
  | inl e ↦ rw (e, Pending.on_timeout) tt
  | inr (id, e) ↦ elim (Option-cases (lookup id p.pending)) [
    | inl f ↦ rw (e, Pending.on_timeout, f) tt
    | inr (held, f) ↦ rw (e, Pending.on_timeout, f) (tt, tt)
  ]
]

pub business_of-Keeps :
    (sid : Option Text) (msg : RpcMessage Value) (c : Core)
    → sid ≡ some (sid_of msg)
    → Knows sid c
    → Keeps sid (business_of msg c)
unfolding business_of
business_of-Keeps sid (hello s version) c at k = (tt, k)
business_of-Keeps sid (identify s seed masks) c at k = (tt, k)
business_of-Keeps sid (identified s) c at k = (tt, k)
business_of-Keeps sid (reidentify s masks) c at k = (tt, k)
business_of-Keeps sid (event s name value) c at k = ((at, tt), k)
business_of-Keeps sid (request s id method params) c at k = ((at, tt), k)
business_of-Keeps sid (response s id status result) c at k =
    with_pending-Keeps sid c (Pending.resolve id (response s id status result) c.pending)
      (resolve-Allowed sid id (response s id status result) c.pending at) k

pub dispatch_business-Keeps :
    (sid : Option Text) (msg : RpcMessage Value) (c : Core)
    → c.gate ≡ app_ready
    → Knows sid c
    → Keeps sid (dispatch_business msg c)
unfolding dispatch_business
dispatch_business-Keeps sid msg c ready k =
    elim (Bool-cases (same_text (sid_of msg) c.handshake.sid)) [
      | inl same ↦ rw same (
          business_of-Keeps sid msg c
            (k ready ∙ ap some (sym (same_text→eq (sid_of msg) c.handshake.sid same))) k)
      | inr differs ↦ rw differs ((tt, tt), k)
    ]

pub open_required-Keeps :
    (sid : Option Text) (msg : RpcMessage Value) (c : Core)
    → Knows sid c
    → Keeps sid (open_required msg c)
unfolding open_required
open_required-Keeps sid (hello s version) c k = (tt, k)
open_required-Keeps sid (identify s seed masks) c k = (tt, k)
open_required-Keeps sid (identified s) c k = (tt, k)
open_required-Keeps sid (reidentify s masks) c k = (tt, k)
open_required-Keeps sid (event s name value) c k = (tt, k)
open_required-Keeps sid (request s id method params) c k = ((tt, tt), k)
open_required-Keeps sid (response s id status result) c k = (tt, k)
