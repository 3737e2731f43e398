-- ===== src/Handshake/Sid.antt =====
-- The session id that a server makes, and the sessions that have one.
use axtp_ts_runtime.Common.{
  ℕ, ◌/◌, ◌%◌, ◌^◌, ◌≤◌, ◌<◌, List, [], ◌∷◌, Option, Bool, true, false, ◌≡◌, refl, arith, inl, inr,
  Bool-cases, ◌==◌, not, ◌&&◌, ◌||◌,
}
use axtp_ts_runtime.Model.Rpc.{
  Text, same_text, RpcMessage, hello, identify, identified, reidentify, event, request, response,
}
use axtp_ts_runtime.Handshake.{
  Handshake, LogicalRole, GateState, after_link, new_handshake, classify_inbound, business,
  framing_ready, closing, is_app_ready, app_ready, link_connected, mix, hex_digit, hex_text,
  generate_sid, sid_invalid, zero_sid, handle, handle_hello, handle_identify, handle_identified,
  handle_reidentify, on_link_ready, is_server,
}

pub mix-bounds : (seed entropy : ℕ) → (1 ≤ mix seed entropy) × (mix seed entropy < 2 ^ 32)
unfolding mix
mix-bounds seed entropy = ground arith

hex_digit_zero : (d : ℕ) → (hex_digit d == b'0') ≡ true → d ≡ 0
unfolding hex_digit
hex_digit_zero d e = ground arith

both : (a b : Bool) → a && b ≡ true → (a ≡ true) × (b ≡ true)
both a b e = ground arith

-- The eight hexadecimal digits of a number.
eight_digits :
    (v : ℕ)
    → v < 2 ^ 32
    → v / 16 ^ 7 % 16 ≡ 0
    → v / 16 ^ 6 % 16 ≡ 0
    → v / 16 ^ 5 % 16 ≡ 0
    → v / 16 ^ 4 % 16 ≡ 0
    → v / 16 ^ 3 % 16 ≡ 0
    → v / 16 ^ 2 % 16 ≡ 0
    → v / 16 ^ 1 % 16 ≡ 0
    → v / 16 ^ 0 % 16 ≡ 0
    → v ≡ 0
eight_digits v h a b c d e f g i = omega arith

hex_text-nonzero : (v : ℕ) → 1 ≤ v → v < 2 ^ 32 → same_text (hex_text 8 v) zero_sid ≡ false
unfolding hex_text
hex_text-nonzero v some_v bound = elim (Bool-cases (same_text (hex_text 8 v) zero_sid)) [
  | inr differs ↦ differs
  | inl same ↦
      let (d₇, e₆) = both _ _ same in
      let (d₆, e₅) = both _ _ e₆ in
      let (d₅, e₄) = both _ _ e₅ in
      let (d₄, e₃) = both _ _ e₄ in
      let (d₃, e₂) = both _ _ e₃ in
      let (d₂, e₁) = both _ _ e₂ in
      let (d₁, e₀) = both _ _ e₁ in
      let (d₀, e) = both _ _ e₀ in
      let zero_v : v ≡ 0 =
        eight_digits v bound (hex_digit_zero _ d₇) (hex_digit_zero _ d₆) (hex_digit_zero _ d₅)
          (hex_digit_zero _ d₄) (hex_digit_zero _ d₃) (hex_digit_zero _ d₂) (hex_digit_zero _ d₁)
          (hex_digit_zero _ d₀) in
      absurd (omega (arith, zero_v, some_v))
]

-- Whatever the seed and the entropy, the server's session id is one that the client takes.
pub generate_sid-valid : (seed : ℕ) (h : Handshake) → sid_invalid (generate_sid seed h) ≡ false
unfolding generate_sid sid_invalid hex_text
generate_sid-valid seed h =
    let (low, high) = mix-bounds seed h.local_entropy in
    hex_text-nonzero (mix seed h.local_entropy) low high

-- A session that is ready has an id, and not the reserved one.
pub record IsSessioned (h : Handshake) : Type 0 where
  pub valid : h.state ≡ app_ready → sid_invalid h.sid ≡ false

after_link-ready : (x : GateState) → after_link x ≡ app_ready → x ≡ app_ready
after_link-ready link_connected e = absurd (cc e)
after_link-ready framing_ready e = absurd (cc e)
after_link-ready app_ready e = refl
after_link-ready closing e = absurd (cc e)

on_link_ready-IsSessioned : (h : Handshake) → IsSessioned h → IsSessioned (on_link_ready h)
unfolding on_link_ready
on_link_ready-IsSessioned h k = record { valid = λ e. k.valid (after_link-ready h.state e) }

module _ (J : Type 0) where
  handle_identify-IsSessioned :
      (seed : ℕ) (masks : Option Text) (h : Handshake)
      → IsSessioned h
      → IsSessioned (handle_identify {J = J} seed masks h).0
  unfolding handle_identify
  handle_identify-IsSessioned seed masks h k = elim (Bool-cases (is_server h.logical_role)) [
    | inl e ↦ rw e (record { valid = λ r. generate_sid-valid seed h })
    | inr e ↦ rw e k
  ]

  handle_identified-IsSessioned :
      (sid : Text) (h : Handshake) → IsSessioned h → IsSessioned (handle_identified {J = J} sid h).0
  unfolding handle_identified
  handle_identified-IsSessioned sid h k = elim (Bool-cases (is_server h.logical_role)) [
    | inl e ↦ rw e k
    | inr e ↦ elim (Bool-cases (sid_invalid sid)) [
      | inl bad ↦ rw (e, bad) k
      | inr good ↦ rw (e, good) (record { valid = λ r. good })
    ]
  ]

module _ {J : Type 0} where
  handle-IsSessioned :
      (drawn : ℕ) (msg : RpcMessage J) (h : Handshake)
      → IsSessioned h
      → IsSessioned (handle drawn msg h).0
  unfolding handle handle_hello handle_reidentify
  handle-IsSessioned drawn (hello sid version) h k = elim (Bool-cases (is_server h.logical_role)) [
    | inl e ↦ rw e k
    | inr e ↦ rw e (on_link_ready-IsSessioned h k)
  ]
  handle-IsSessioned drawn (identify sid seed masks) h k =
      handle_identify-IsSessioned J seed masks h k
  handle-IsSessioned drawn (identified sid) h k = handle_identified-IsSessioned J sid h k
  handle-IsSessioned drawn (reidentify sid masks) h k =
      elim (Bool-cases (
        not (is_server h.logical_role)
        || (not (is_app_ready h.state) || not (same_text sid h.sid)))) [
          | inl e ↦ rw e k
          | inr e ↦ rw e (record { valid = k.valid })
        ]
  handle-IsSessioned drawn (event sid name data_) h k = k
  handle-IsSessioned drawn (request sid id method params) h k = k
  handle-IsSessioned drawn (response sid id status result) h k = k

  -- What comes in, with the random number that is drawn for it.
  unfoldable pub handle_all : List (ℕ × RpcMessage J) → Handshake → Handshake
  handle_all [] h = h
  handle_all ((drawn, msg) ∷ rest) h = handle_all rest (handle drawn msg h).0

  handle_all-IsSessioned :
      (msgs : List (ℕ × RpcMessage J)) (h : Handshake)
      → IsSessioned h
      → IsSessioned (handle_all msgs h)
  unfolding handle_all
  handle_all-IsSessioned [] h k = k
  handle_all-IsSessioned ((drawn, msg) ∷ rest) h k =
      handle_all-IsSessioned rest (handle drawn msg h).0 (handle-IsSessioned drawn msg h k)

  pub classify_business :
      (state : GateState) (msg : RpcMessage J)
      → classify_inbound state msg ≡ business
      → state ≡ app_ready
  unfolding classify_inbound
  classify_business app_ready msg e = refl
  classify_business link_connected (hello sid version) e = absurd (cc e)
  classify_business link_connected (identify sid seed masks) e = absurd (cc e)
  classify_business link_connected (identified sid) e = absurd (cc e)
  classify_business link_connected (reidentify sid masks) e = absurd (cc e)
  classify_business link_connected (event sid name value) e = absurd (cc e)
  classify_business link_connected (request sid id method params) e = absurd (cc e)
  classify_business link_connected (response sid id status result) e = absurd (cc e)
  classify_business framing_ready (hello sid version) e = absurd (cc e)
  classify_business framing_ready (identify sid seed masks) e = absurd (cc e)
  classify_business framing_ready (identified sid) e = absurd (cc e)
  classify_business framing_ready (reidentify sid masks) e = absurd (cc e)
  classify_business framing_ready (event sid name value) e = absurd (cc e)
  classify_business framing_ready (request sid id method params) e = absurd (cc e)
  classify_business framing_ready (response sid id status result) e = absurd (cc e)
  classify_business closing (hello sid version) e = absurd (cc e)
  classify_business closing (identify sid seed masks) e = absurd (cc e)
  classify_business closing (identified sid) e = absurd (cc e)
  classify_business closing (reidentify sid masks) e = absurd (cc e)
  classify_business closing (event sid name value) e = absurd (cc e)
  classify_business closing (request sid id method params) e = absurd (cc e)
  classify_business closing (response sid id status result) e = absurd (cc e)

  -- After whatever messages, from a new session, the gate lets a message through to the handlers
  -- only if the session is ready and has an id that is not empty and not the reserved 00000000.
  pub business_has_sid :
      (role : LogicalRole) (entropy : ℕ) (masks : Option Text) (msgs : List (ℕ × RpcMessage J))
      (msg : RpcMessage J)
      → classify_inbound (handle_all msgs (new_handshake role entropy masks)).state msg ≡ business
      → let h = handle_all msgs (new_handshake role entropy masks) in
        (h.state ≡ app_ready) × (sid_invalid h.sid ≡ false)
  business_has_sid role entropy masks msgs msg e =
      let h = handle_all msgs (new_handshake role entropy masks) in
      let ready = classify_business h.state msg e in
      let kept : IsSessioned h =
        handle_all-IsSessioned msgs (new_handshake role entropy masks)
          (record { valid = λ p. absurd (cc p) }) in
      (ready, kept.valid ready)
