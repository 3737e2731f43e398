-- ===== src/Registry/Checks.antt =====
-- A test of every entry of a map with keys, and what it says of a lookup.
use axtp_ts_runtime.Common.{
  ℕ, ◌≡◌, List, [], ◌∷◌, some, Bool, true, inl, inr, ◌==◌, ◌&&◌, Bool-cases, ==→eq, left_true,
  right_true,
}
use axtp_ts_runtime.Common.Maps.{lookup}
use axtp_ts_runtime.Model.Rpc.{Text, same_text, same_text→eq}
use axtp_ts_runtime.Broker.{text_lookup}

module _ {V : Type 0} where
  unfoldable pub holds_all_names : (Text → V → Bool) → List (Text × V) → Bool
  holds_all_names p [] = true
  holds_all_names p ((name, value) ∷ rest) = p name value && holds_all_names p rest

  pub holds_at_name :
      (p : Text → V → Bool) (m : List (Text × V)) (key : Text) (v : V)
      → holds_all_names p m ≡ true
      → text_lookup key m ≡ some v
      → p key v ≡ true
  unfolding holds_all_names
  holds_at_name p [] key v all found = absurd (cc found)
  holds_at_name p ((name, value) ∷ rest) key v all found = elim (Bool-cases (same_text name key)) [
    | inl same ↦
        let e : some value ≡ some v = rw same at found in
        cc (e, same_text→eq name key same, left_true (p name value) _ all)
    | inr differs ↦
        holds_at_name p rest key v (right_true (p name value) _ all) (rw differs at found)
  ]

  unfoldable pub holds_all_ids : (ℕ → V → Bool) → List (ℕ × V) → Bool
  holds_all_ids p [] = true
  holds_all_ids p ((id, value) ∷ rest) = p id value && holds_all_ids p rest

  pub holds_at_id :
      (p : ℕ → V → Bool) (m : List (ℕ × V)) (key : ℕ) (v : V)
      → holds_all_ids p m ≡ true
      → lookup key m ≡ some v
      → p key v ≡ true
  unfolding holds_all_ids lookup
  holds_at_id p [] key v all found = absurd (cc found)
  holds_at_id p ((id, value) ∷ rest) key v all found = elim (Bool-cases (id == key)) [
    | inl same ↦
        let e : some value ≡ some v = rw same at found in
        cc (e, ==→eq id key same, left_true (p id value) _ all)
    | inr differs ↦ holds_at_id p rest key v (right_true (p id value) _ all) (rw differs at found)
  ]
