-- ===== src/Core/Gate/Trace.antt =====
-- The sessions that a list of outputs tells, and the outputs of the link's session.
use axtp_ts_runtime.Common.{
  ℕ, List, [], ◌∷◌, ◌++◌, All, All-append, Option, none, some, ◌≡◌, refl, sym, ap, ◌∙◌, subst,
}
use axtp_ts_runtime.Model.Rpc.{Text}
use axtp_ts_runtime.Control.Session.{
  SessionOutput, on_link_ready, on_open_rejected, on_send_bytes, on_heartbeat, on_heartbeat_ack,
  on_closing, on_error, ControlSession,
}
use axtp_ts_runtime.Handshake.{
  GateState, link_connected, framing_ready, app_ready, closing, LogicalRole, client, server,
}
use axtp_ts_runtime.Core.{
  Core, CoreOutput, on_session_output, on_session_outputs, with_control, link_ready_at,
  on_link_ready_internal, limit_output, hello_output,
}
use axtp_ts_runtime.Core.Gate.{told, IsAllowed, AreAllowed}

abbrev pub told_all : Option Text → List CoreOutput → Option Text
told_all sid [] = sid
told_all sid (output ∷ rest) = told_all (told sid output) rest

-- A ready gate has told its session id.
abbrev pub Knows : Option Text → Core → Type 0
Knows sid c = c.gate ≡ app_ready → sid ≡ some c.handshake.sid

abbrev pub Keeps : Option Text → Core × List CoreOutput → Type 0
Keeps sid (c, outputs) = AreAllowed sid outputs × Knows (told_all sid outputs) c

pub AreAllowed-append :
    (sid : Option Text) (xs ys : List CoreOutput)
    → AreAllowed sid xs
    → AreAllowed (told_all sid xs) ys
    → AreAllowed sid (xs ++ ys)
AreAllowed-append sid [] ys h k = k
AreAllowed-append sid (x ∷ xs) ys h k = (h.0, AreAllowed-append (told sid x) xs ys h.1 k)

pub told_all-append :
    (sid : Option Text) (xs ys : List CoreOutput)
    → told_all sid (xs ++ ys) ≡ told_all (told_all sid xs) ys
told_all-append sid [] ys = refl
told_all-append sid (x ∷ xs) ys = told_all-append (told sid x) xs ys

pub Keeps-then :
    (sid : Option Text) (xs : List CoreOutput) (step : Core × List CoreOutput)
    → AreAllowed sid xs
    → Keeps (told_all sid xs) step
    → Keeps sid (step.0, xs ++ step.1)
Keeps-then sid xs (c, ys) h k =
    (AreAllowed-append sid xs ys h k.0, λ ready. told_all-append sid xs ys ∙ k.1 ready)

-- Between a core and the next, the gate does not open, and an open gate keeps its session.
abbrev pub Settles : Core → Core → Type 0
Settles c c' = c'.gate ≡ app_ready → (c.gate ≡ app_ready) × (c'.handshake.sid ≡ c.handshake.sid)

pub Knows-Settles : (sid : Option Text) (c c' : Core) → Knows sid c → Settles c c' → Knows sid c'
Knows-Settles sid c c' k s ready = k (s ready).0 ∙ ap some (sym (s ready).1)

-- An output that is let through whatever was told, and tells nothing.
abbrev pub IsQuiet : CoreOutput → Type 0
IsQuiet output = (sid : Option Text) → IsAllowed sid output × (told sid output ≡ sid)

pub quiet :
    (sid : Option Text) (xs : List CoreOutput)
    → All IsQuiet xs
    → AreAllowed sid xs × (told_all sid xs ≡ sid)
quiet sid [] h = (tt, refl)
quiet sid (x ∷ xs) h =
    let same = (h.0 sid).1 in
    let rest = quiet sid xs h.1 in
    (
      ((h.0 sid).0, subst (λ k. AreAllowed k xs) (sym same) rest.0),
      ap (λ k. told_all k xs) same ∙ rest.1,
    )

pub quiet-Keeps :
    (sid : Option Text) (c c' : Core) (xs : List CoreOutput)
    → All IsQuiet xs
    → Settles c c'
    → Knows sid c
    → Keeps sid (c', xs)
quiet-Keeps sid c c' xs h s k =
    let rest = quiet sid xs h in (rest.0, λ ready. rest.1 ∙ Knows-Settles sid c c' k s ready)

pub limit_output-IsQuiet : (size : Option ℕ) → All IsQuiet (limit_output size)
limit_output-IsQuiet none = tt
limit_output-IsQuiet (some size) = (λ sid. (tt, refl), tt)

pub hello_output-IsQuiet : (role : LogicalRole) → All IsQuiet (hello_output role)
hello_output-IsQuiet server = (λ sid. (tt, refl), tt)
hello_output-IsQuiet client = tt

pub link_ready_at-Keeps :
    (sid : Option Text) (gate : GateState) (size : Option ℕ) (interval : ℕ) (c : Core)
    → Knows sid c
    → Keeps sid (link_ready_at gate size interval c)
unfolding link_ready_at
link_ready_at-Keeps sid link_connected size interval c k =
    quiet-Keeps sid c (link_ready_at link_connected size interval c).0 _
      (All-append IsQuiet (limit_output size) _ (limit_output-IsQuiet size) (
        All-append IsQuiet (hello_output c.logical_role) _ (hello_output-IsQuiet c.logical_role)
          (λ any. (tt, refl), tt)))
      (λ ready. absurd (cc ready)) k
link_ready_at-Keeps sid framing_ready size interval c k = (tt, k)
link_ready_at-Keeps sid app_ready size interval c k = (tt, k)
link_ready_at-Keeps sid closing size interval c k = (tt, k)

pub session_output-Keeps :
    (sid : Option Text) (output : SessionOutput) (c : Core)
    → Knows sid c
    → Keeps sid (on_session_output output c)
unfolding on_session_output on_link_ready_internal
session_output-Keeps sid (on_link_ready neg) c k = link_ready_at-Keeps sid c.gate _ _ c k
session_output-Keeps sid (on_send_bytes body) c k = ((tt, tt), k)
session_output-Keeps sid (on_open_rejected code) c k = ((tt, tt), k)
session_output-Keeps sid (on_heartbeat id) c k = ((tt, tt), k)
session_output-Keeps sid (on_heartbeat_ack id) c k = ((tt, tt), k)
session_output-Keeps sid (on_closing id) c k = ((tt, tt), k)
session_output-Keeps sid (on_error code) c k = ((tt, tt), k)

pub session_outputs-Keeps :
    (outputs : List SessionOutput) (sid : Option Text) (c : Core)
    → Knows sid c
    → Keeps sid (on_session_outputs outputs c)
unfolding on_session_outputs
session_outputs-Keeps [] sid c k = (tt, k)
session_outputs-Keeps (output ∷ rest) sid c k =
    let one = session_output-Keeps sid output c k in
    Keeps-then sid (on_session_output output c).1
      (on_session_outputs rest (on_session_output output c).0) one.0
      (session_outputs-Keeps rest _ (on_session_output output c).0 one.1)

pub with_control-Keeps :
    (sid : Option Text) (f : ControlSession → ControlSession × List SessionOutput) (c : Core)
    → Knows sid c
    → Keeps sid (with_control f c)
unfolding with_control
with_control-Keeps sid f c k = at c.control
  where
    at :
        (control : Option ControlSession)
        → Keeps sid (elim control [
          | none ↦ (c, [])
          | some session ↦
              let (session', outputs) = f session in
              on_session_outputs outputs (record c { control = some session' })
        ])
    at none = (tt, k)
    at (some session) =
        session_outputs-Keeps (f session).1 sid (record c { control = some (f session).0 }) k
