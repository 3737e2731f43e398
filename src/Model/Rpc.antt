-- ===== src/Model/Rpc.antt =====
-- src/protocol/model.ts, type RpcMessage. A text is the list of its UTF-16 code units; `J` stands
-- for the parsed JSON values, which the modelled code passes on and never looks into.
use mathlib.Core.Path.{ap₂}
use axtp_ts_runtime.Common.{
  ℕ, List, [], ◌∷◌, Option, Bool, true, false, ◌==◌, ◌&&◌, ◌≡◌, refl, inl, inr, Bool-cases, ==→eq,
  eq→==,
}

abbrev pub Text : Type 0
Text = List ℕ

-- `===` on texts
abbrev pub same_text : Text → Text → Bool
same_text [] [] = true
same_text [] (y ∷ ys) = false
same_text (x ∷ xs) [] = false
same_text (x ∷ xs) (y ∷ ys) = (x == y) && same_text xs ys

pub same_text→eq : (a b : Text) → same_text a b ≡ true → a ≡ b
same_text→eq [] [] h = refl
same_text→eq [] (y ∷ ys) h = absurd (cc h)
same_text→eq (x ∷ xs) [] h = absurd (cc h)
same_text→eq (x ∷ xs) (y ∷ ys) h = elim (Bool-cases (x == y)) [
  | inl same ↦ ap₂ ◌∷◌ (==→eq x y same) (same_text→eq xs ys (rw same at h))
  | inr differs ↦ absurd (cc (rw differs at h))
]

pub same_text_self : (a : Text) → same_text a a ≡ true
same_text_self [] = refl
same_text_self (x ∷ xs) = rw (eq→== x x refl) (same_text_self xs)

pub data RpcMessage (J : Type 0) : Type 0 where
  hello : Text → Option Text → RpcMessage J
  -- sid, randomSeed, eventMasks
  identify : Text → ℕ → Option Text → RpcMessage J
  identified : Text → RpcMessage J
  reidentify : Text → Option Text → RpcMessage J
  -- sid, eventName, data
  event : Text → Text → J → RpcMessage J
  -- sid, requestId, method, params
  request : Text → ℕ → Text → J → RpcMessage J
  -- sid, requestId, status, result
  response : Text → ℕ → ℕ → J → RpcMessage J
