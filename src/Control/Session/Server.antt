-- ===== src/Control/Session/Server.antt =====
-- What a server's session keeps, whatever bytes come in.
use axtp_ts_runtime.Common.{
  ℕ, ◌≤◌, min, List, [], ◌∷◌, Option, none, some, true, false, Result, returns, throws, ◌≡◌, ◌≢◌,
  refl, sym, ap, ◌∙◌, subst, arith, inl, inr, ◌==◌, Bool-cases,
}
use axtp_ts_runtime.Io.Reader.{Exn}
use axtp_ts_runtime.Model.ControlOpcode
use axtp_ts_runtime.Control.Codec.{PartialParams, ControlPayload, decode_control}
use axtp_ts_runtime.Control.Session.{
  PhysicalRole, open_guarded, idle, client, server, closing, closed, opened, opening,
  NegotiatedLink, ControlSession, ControlLinkState, handle_control_body, handle_decoded, dispatch,
  handle_open, handle_accept, handle_close, answer_open, must_reject, or_else,
}
use axtp_ts_runtime.Control.Session.Agreement.{clamp-bounds}

-- The state after a sequence of messages.
unfoldable pub handle_bodies : List (List ℕ) → ControlSession → ControlSession
handle_bodies [] s = s
handle_bodies (body ∷ rest) s = handle_bodies rest (handle_control_body body s).0

-- A predicate that each handler keeps is kept by whatever comes in.
module _ (P : ControlSession → Type 0)
    (on_open : (id : ℕ) (tlv : PartialParams) (s : ControlSession)
      → P s
      → P (handle_open id tlv s).0)
    (on_accept : (id status : ℕ) (tlv : PartialParams) (s : ControlSession)
      → P s
      → P (handle_accept id status tlv s).0)
    (on_closed : (s : ControlSession) → P s → P (record s { link_state = closed })) where
  dispatch-Preserves : (p : ControlPayload) (s : ControlSession) → P s → P (dispatch p s).0
  unfolding dispatch handle_close
  dispatch-Preserves p s h = elim (Bool-cases (p.opcode == ControlOpcode.open_link)) [
    | inl e ↦ rw e (on_open p.control_id p.tlv s h)
    | inr e ↦ elim (Bool-cases (p.opcode == ControlOpcode.accept)) [
      | inl e' ↦ rw (e, e') (on_accept p.control_id p.status_code p.tlv s h)
      | inr e' ↦ elim (Bool-cases (p.opcode == ControlOpcode.heartbeat)) [
        | inl e₁ ↦ rw (e, e', e₁) h
        | inr e₁ ↦ elim (Bool-cases (p.opcode == ControlOpcode.heartbeat_ack)) [
          | inl e₂ ↦ rw (e, e', e₁, e₂) h
          | inr e₂ ↦ elim (Bool-cases (p.opcode == ControlOpcode.close)) [
            | inl e₃ ↦ rw (e, e', e₁, e₂, e₃) (on_closed s h)
            | inr e₃ ↦ elim (Bool-cases (p.opcode == ControlOpcode.close_ack)) [
              | inl e₄ ↦ rw (e, e', e₁, e₂, e₃, e₄) (on_closed s h)
              | inr e₄ ↦ rw (e, e', e₁, e₂, e₃, e₄) h
            ]
          ]
        ]
      ]
    ]
  ]

  body-Preserves : (body : List ℕ) (s : ControlSession) → P s → P (handle_control_body body s).0
  unfolding handle_control_body handle_decoded
  body-Preserves body s h = go (decode_control body)
    where
      go : (x : Result Exn ControlPayload) → P (handle_decoded x s).0
      go (throws e) = h
      go (returns p) = dispatch-Preserves p s h

  -- Any number of messages, one after the other.
  pub bodies-Preserves :
      (bodies : List (List ℕ)) (s : ControlSession) → P s → P (handle_bodies bodies s)
  unfolding handle_bodies
  bodies-Preserves [] s h = h
  bodies-Preserves (body ∷ rest) s h =
      bodies-Preserves rest (handle_control_body body s).0 (body-Preserves body s h)

-- The limits that a server's settled link is in, and that an open link is settled.
abbrev pub LinkIn : ℕ → ControlLinkState → Option NegotiatedLink → Type 0
LinkIn local_max state none = state ≢ opened
LinkIn local_max state (some n) =
    (n.accepted ≡ true)
    × (500 ≤ n.heartbeat_interval_ms)
    × (n.heartbeat_interval_ms ≤ 60000)
    × (n.max_frame_size ≤ local_max)
    × (min 15 local_max ≤ n.max_frame_size)

pub record IsSafeServer (local_max : ℕ) (s : ControlSession) : Type 0 where
  pub role : s.physical_role ≡ server
  pub limit : s.local_params.max_frame_size ≡ local_max
  pub link : LinkIn local_max s.link_state s.negotiated

not_rejected_frame :
    (tlv : PartialParams) (d : ℕ) → must_reject tlv ≡ false → 15 ≤ or_else tlv.max_frame_size d
unfolding must_reject
not_rejected_frame tlv d e = go tlv.max_frame_size refl
  where
    go : (o : Option ℕ) → tlv.max_frame_size ≡ o → 15 ≤ or_else tlv.max_frame_size d
    go none p = absurd (ground (arith, e, p))
    go (some v) p = ground (arith, e, p)

answer_open-IsSafeServer :
    (m id : ℕ) (tlv : PartialParams) (s : ControlSession)
    → IsSafeServer m s
    → IsSafeServer m (answer_open id tlv s).0
unfolding answer_open
answer_open-IsSafeServer m id tlv s h = elim (Bool-cases (must_reject tlv)) [
  | inl e ↦ rw e h
  | inr e ↦
      let asked = or_else tlv.max_frame_size s.local_params.max_frame_size in
      let big : 15 ≤ asked = not_rejected_frame tlv s.local_params.max_frame_size e in
      let beat =
        clamp-bounds (or_else tlv.heartbeat_interval_ms s.local_params.heartbeat_interval_ms) in
      rw e (record {
        role = h.role;
        limit = h.limit;
        link = (refl, beat.0, beat.1, omega (arith, h.limit), omega (arith, h.limit, big));
      })
]

handle_open-IsSafeServer :
    (m id : ℕ) (tlv : PartialParams) (s : ControlSession)
    → IsSafeServer m s
    → IsSafeServer m (handle_open id tlv s).0
unfolding handle_open
handle_open-IsSafeServer m id tlv s h = go s.physical_role s.link_state
  where
    go :
        (role : PhysicalRole) (state : ControlLinkState)
        → IsSafeServer m (open_guarded role state id tlv s).0
    go client state = h
    go server closed = h
    go server closing = h
    go server idle = answer_open-IsSafeServer m id tlv s h
    go server opening = answer_open-IsSafeServer m id tlv s h
    go server opened = answer_open-IsSafeServer m id tlv s h

-- A server takes no ACCEPT.
handle_accept-server :
    (id status : ℕ) (tlv : PartialParams) (s : ControlSession)
    → s.physical_role ≡ server
    → (handle_accept id status tlv s).0 ≡ s
unfolding handle_accept
handle_accept-server id status tlv s role = ground (arith, role)

closed-IsSafeServer :
    (m : ℕ) (s : ControlSession)
    → IsSafeServer m s
    → IsSafeServer m (record s { link_state = closed })
closed-IsSafeServer m s h = record { role = h.role; limit = h.limit; link = go s.negotiated h.link }
  where
    go : (o : Option NegotiatedLink) → LinkIn m s.link_state o → LinkIn m closed o
    go none k = λ e. absurd (cc e)
    go (some n) k = k

-- Whatever messages come in, a server keeps this: its link is open only if parameters are settled,
-- and settled parameters are accepted ones, with a heartbeat interval between 500 and 60000 and a
-- frame limit that is at most its own and at least 15, or its own if that is smaller.
pub handle_bodies-IsSafeServer :
    (m : ℕ) (bodies : List (List ℕ)) (s : ControlSession)
    → IsSafeServer m s
    → IsSafeServer m (handle_bodies bodies s)
handle_bodies-IsSafeServer m bodies s h =
    bodies-Preserves (IsSafeServer m) (handle_open-IsSafeServer m)
      (λ id status tlv t k.
        subst (IsSafeServer m) (sym (handle_accept-server id status tlv t k.role)) k)
      (closed-IsSafeServer m) bodies s h

abbrev IsClosedServer : ControlSession → Type 0
IsClosedServer s = (s.physical_role ≡ server) × (s.link_state ≡ closed)

open_closed :
    (id : ℕ) (tlv : PartialParams) (s : ControlSession)
    → IsClosedServer s
    → (handle_open id tlv s).0 ≡ s
unfolding handle_open
open_closed id tlv s (role, e) =
    ap (λ x. (open_guarded x s.link_state id tlv s).0) role
    ∙ ap (λ x. (open_guarded server x id tlv s).0) e

-- A server whose link is closed stays closed, whatever messages come in.
pub handle_bodies-closed :
    (bodies : List (List ℕ)) (s : ControlSession)
    → s.physical_role ≡ server
    → s.link_state ≡ closed
    → (handle_bodies bodies s).link_state ≡ closed
handle_bodies-closed bodies s role e =
    (bodies-Preserves IsClosedServer
      (λ id tlv t k. subst IsClosedServer (sym (open_closed id tlv t k)) k)
      (λ id status tlv t k. subst IsClosedServer (sym (handle_accept-server id status tlv t k.0)) k)
      (λ t k. (k.0, refl)) bodies s (role, e)).1
