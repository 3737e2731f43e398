-- ===== src/Common/Maps.antt =====
-- A JavaScript `Map` with number keys: an association list in insertion order. `insert` is
-- `Map.set`, which writes an old key in its place and a new key at the end.
use Prim.Native.Nat.{ℕ, suc, ◌≤◌}
use mathlib.Core.Path.{◌≡◌, refl, subst₂}
use mathlib.Core.Logic.{inl, inr}
use mathlib.Core.Option.{Option, none, some}
use mathlib.Core.List.{List, [], ◌∷◌}
use native.Mathlib.Omega.{arith}
use axtp_ts_runtime.Common.Tests.{◌==◌, if◌then◌else◌, Bool-cases, ==→eq}
use axtp_ts_runtime.Common.Lists.{length}

module _ {ℓ} {V : Type ℓ} where
  unfoldable pub lookup : ℕ → List (ℕ × V) → Option V
  lookup key [] = none
  lookup key ((id, value) ∷ rest) = if id == key then some value else lookup key rest

  unfoldable pub delete : ℕ → List (ℕ × V) → List (ℕ × V)
  delete key [] = []
  delete key ((id, value) ∷ rest) =
      let kept = delete key rest in if id == key then kept else (id, value) ∷ kept

  unfoldable pub insert : ℕ → V → List (ℕ × V) → List (ℕ × V)
  insert key new [] = (key, new) ∷ []
  insert key new ((id, value) ∷ rest) =
      if id == key then (key, new) ∷ rest else (id, value) ∷ insert key new rest

  pub lookup-delete :
      (key other : ℕ) (entries : List (ℕ × V))
      → lookup other (delete key entries) ≡ (if key == other then none else lookup other entries)
  unfolding lookup delete
  lookup-delete key other [] = ground arith
  lookup-delete key other ((id, value) ∷ rest) = ground (arith, lookup-delete key other rest)

  pub lookup-insert :
      (key other : ℕ) (new : V) (entries : List (ℕ × V))
      → lookup other (insert key new entries)
        ≡ (if key == other then some new else lookup other entries)
  unfolding lookup insert
  lookup-insert key other new [] = refl
  lookup-insert key other new ((id, value) ∷ rest) =
      ground (arith, lookup-insert key other new rest)

  pub length-delete_le : (k : ℕ) (m : List (ℕ × V)) → length (delete k m) ≤ length m
  unfolding delete
  length-delete_le k [] = omega arith
  length-delete_le k ((j, v) ∷ m) = ground (arith, length-delete_le k m)

  pub length-insert_new :
      (k : ℕ) (v : V) (m : List (ℕ × V))
      → lookup k m ≡ none
      → length (insert k v m) ≡ suc (length m)
  unfolding lookup insert
  length-insert_new k v [] h = refl
  length-insert_new k v ((j, w) ∷ m) h = ground (arith, length-insert_new k v m)

  pub length-insert_old :
      (k : ℕ) (v w : V) (m : List (ℕ × V)) → lookup k m ≡ some w → length (insert k v m) ≡ length m
  unfolding lookup insert
  length-insert_old k v w [] h = absurd (ground arith)
  length-insert_old k v w ((j, x) ∷ m) h = ground (arith, length-insert_old k v w m)

  pub length-insert_le : (k : ℕ) (v : V) (m : List (ℕ × V)) → length (insert k v m) ≤ suc (length m)
  unfolding insert
  length-insert_le k v [] = omega arith
  length-insert_le k v ((j, w) ∷ m) = ground (arith, length-insert_le k v m)

  -- A property of every entry.
  module _ {κ} (P : ℕ → V → Type κ) where
    abbrev pub Entries : List (ℕ × V) → Type κ
    Entries [] = Unit {κ}
    Entries ((j, v) ∷ m) = P j v × Entries m

    pub Entries-lookup :
        (k : ℕ) (m : List (ℕ × V)) {v : V} → Entries m → lookup k m ≡ some v → P k v
    unfolding lookup
    Entries-lookup k [] h e = absurd (ground arith)
    Entries-lookup k ((j, w) ∷ m) h e = elim (Bool-cases (j == k)) [
      | inl hit ↦ subst₂ P (==→eq j k hit) (ground (arith, hit)) h.0
      | inr miss ↦ Entries-lookup k m h.1 (rw miss at e)
    ]

    pub Entries-insert :
        (k : ℕ) (v : V) (m : List (ℕ × V)) → P k v → Entries m → Entries (insert k v m)
    unfolding insert
    Entries-insert k v [] p h = (p, tt)
    Entries-insert k v ((j, w) ∷ m) p h = elim (Bool-cases (j == k)) [
      | inl hit ↦ rw hit (p, h.1)
      | inr miss ↦ rw miss (h.0, Entries-insert k v m p h.1)
    ]

    pub Entries-delete : (k : ℕ) (m : List (ℕ × V)) → Entries m → Entries (delete k m)
    unfolding delete
    Entries-delete k [] h = tt
    Entries-delete k ((j, w) ∷ m) h = elim (Bool-cases (j == k)) [
      | inl hit ↦ rw hit (Entries-delete k m h.1)
      | inr miss ↦ rw miss (h.0, Entries-delete k m h.1)
    ]
