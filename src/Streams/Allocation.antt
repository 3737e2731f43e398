-- ===== src/Streams/Allocation.antt =====
-- The search for a free stream id ends.
use axtp_ts_runtime.Common.{
  ℕ, zero, suc, ◌+◌, ◌-◌, ◌≤◌, List, [], ◌∷◌, Option, none, some, Bool, true, false, leb, ◌==◌,
  if◌then◌else◌, length, All, ◌≡◌, ◌≢◌, refl, sym, ap, ◌∙◌, subst, arith, inl, inr, Bool-cases,
  Option-cases, ne→==,
}
use axtp_ts_runtime.Common.Maps.{lookup, delete, lookup-delete, length-delete_le}
use axtp_ts_runtime.Streams.{StreamContext, StreamRegistry, next_id, has, free_id, allocate}

abbrev pub max_stream_id : ℕ
max_stream_id = 0xffffffff

-- The ids that the search passes.
abbrev visited : ℕ → ℕ → List ℕ
visited zero id = []
visited (suc k) id = id ∷ visited k (next_id id)

-- The id `j` steps on.
abbrev steps_on : ℕ → ℕ → ℕ
steps_on id j = if leb (id + j) max_stream_id then id + j else id + j - max_stream_id

visited-differ :
    (k j id : ℕ)
    → 1 ≤ id
    → id ≤ max_stream_id
    → 1 ≤ j
    → j + k ≤ max_stream_id
    → All (λ x. x ≢ id) (visited k (steps_on id j))
visited-differ zero j id low high some_j room = tt
visited-differ (suc k) j id low high some_j room = (
  λ e. ground (arith, e),
  subst (λ x. All (λ y. y ≢ id) (visited k x)) (ground arith)
      (visited-differ k (j + 1) id low high (omega arith) (omega arith)),
)

has-delete_other :
    (key other : ℕ) (streams : List (ℕ × StreamContext))
    → other ≢ key
    → has other streams ≡ true
    → has other (delete key streams) ≡ true
has-delete_other key other streams differs there =
    let same : lookup other (delete key streams) ≡ lookup other streams =
      lookup-delete key other streams
      ∙ ap (λ b. if b then none else lookup other streams)
          (ne→== key other (λ e. differs (sym e))) in
    ap (λ (o : Option StreamContext). elim o [ none ↦ false | some ctx ↦ true ]) same ∙ there

length-delete-has :
    (key : ℕ) (streams : List (ℕ × StreamContext))
    → has key streams ≡ true
    → suc (length (delete key streams)) ≤ length streams
unfolding lookup delete
length-delete-has key [] there = absurd (cc there)
length-delete-has key ((id, ctx) ∷ rest) there = elim (Bool-cases (id == key)) [
  | inl hit ↦ rw hit (omega (arith, length-delete_le key rest))
  | inr miss ↦ rw miss (omega (arith, length-delete-has key rest (behind miss)))
]
  where
    behind : (id == key) ≡ false → has key rest ≡ true
    behind miss =
        ap
          (λ b. elim (if b then some ctx else lookup key rest) as (λ o. Bool) [
            | none ↦ false
            | some held ↦ true
          ])
          (sym miss)
        ∙ there

AllHas : List ℕ → List (ℕ × StreamContext) → Type 0
AllHas ids streams = All (λ id. has id streams ≡ true) ids

AllHas-delete :
    (ids : List ℕ) (key : ℕ) (streams : List (ℕ × StreamContext))
    → All (λ x. x ≢ key) ids
    → AllHas ids streams
    → AllHas ids (delete key streams)
unfolding AllHas
AllHas-delete [] key streams differ there = tt
AllHas-delete (id ∷ ids) key streams differ there = (
  has-delete_other key id streams differ.0 there.0,
  AllHas-delete ids key streams differ.1 there.1,
)

-- The ids of a run of the search differ, so that no more of them are taken than the table has.
visited_few :
    (k id : ℕ) (streams : List (ℕ × StreamContext))
    → 1 ≤ id
    → id ≤ max_stream_id
    → k ≤ max_stream_id
    → AllHas (visited k id) streams
    → k ≤ length streams
unfolding AllHas
visited_few zero id streams low high room there = omega arith
visited_few (suc k) id streams low high room there =
    let others : All (λ x. x ≢ id) (visited k (next_id id)) =
      subst (λ x. All (λ y. y ≢ id) (visited k x)) (ground (arith, high))
        (visited-differ k 1 id low high (omega arith) (omega arith)) in
    let rest =
      visited_few k (next_id id) (delete id streams) (ground arith) (ground arith) (omega arith)
        (AllHas-delete (visited k (next_id id)) id streams others there.1) in
    omega (arith, rest, length-delete-has id streams there.0)

free_id-none :
    (fuel id : ℕ) (streams : List (ℕ × StreamContext))
    → 1 ≤ id
    → free_id fuel id streams ≡ none
    → AllHas (visited fuel id) streams
unfolding free_id AllHas
free_id-none zero id streams low e = tt
free_id-none (suc fuel) id streams low e = elim (Bool-cases (has id streams)) [
  | inl taken ↦ (taken, free_id-none fuel (next_id id) streams (ground arith) (rw taken at e))
  | inr free ↦ absurd (ground (arith, e, free, low))
]

free_id-some :
    (fuel id : ℕ) (streams : List (ℕ × StreamContext)) (found : ℕ)
    → 1 ≤ id
    → id ≤ max_stream_id
    → free_id fuel id streams ≡ some found
    → (has found streams ≡ false) × (1 ≤ found) × (found ≤ max_stream_id)
unfolding free_id
free_id-some zero id streams found low high e = absurd (cc e)
free_id-some (suc fuel) id streams found low high e = elim (Bool-cases (has id streams)) [
  | inl taken ↦
      free_id-some fuel (next_id id) streams found (ground arith) (ground arith) (rw taken at e)
  | inr free ↦
      let first : id ≡ found = ground (arith, e, free, low) in
      subst (λ x. (has x streams ≡ false) × (1 ≤ x) × (x ≤ max_stream_id)) first (free, low, high)
]

-- In a registry whose next id is in range and whose open streams leave two ids at least, the search
-- for a free id ends, within the table's length and two rounds more: it gives an id that is not zero,
-- fits 32 bits and is not in use, leaves the table as it is, and moves the next id on, in range.
pub allocate_total :
    (r : StreamRegistry)
    → 1 ≤ r.next_stream_id
    → r.next_stream_id ≤ max_stream_id
    → suc (suc (length r.streams)) ≤ max_stream_id
    → (id : ℕ) × (allocate r ≡ some (id, record r { next_stream_id = next_id id }))
      × (has id r.streams ≡ false)
      × (1 ≤ id)
      × (id ≤ max_stream_id)
      × (1 ≤ next_id id)
      × (next_id id ≤ max_stream_id)
unfolding allocate
allocate_total r low high room =
    let fuel = suc (suc (length r.streams)) in
    elim (Option-cases (free_id fuel r.next_stream_id r.streams)) [
      | inl e ↦ absurd (
          omega (
            arith,
            visited_few fuel r.next_stream_id r.streams low high room
                (free_id-none fuel r.next_stream_id r.streams low e),
          ))
      | inr (id, e) ↦
          let free = free_id-some fuel r.next_stream_id r.streams id low high e in
          (id, rw (e, allocate) refl, free.0, free.1, free.2, ground arith, ground (arith, free.2))
    ]
