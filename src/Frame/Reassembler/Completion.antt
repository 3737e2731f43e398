-- ===== src/Frame/Reassembler/Completion.antt =====
-- The frames of one message, in order and in time, come out as that message.
pub mod Runs
use mathlib.Core.List.{append-nil, append_assoc}
use axtp_ts_runtime.Common.{
  ℕ, zero, suc, ◌+◌, ◌-◌, ◌≤◌, ◌<◌, List, [], ◌∷◌, ◌++◌, Option, none, some, true, false, not, ◌||◌,
  ◌==◌, ltb, leb, if◌then◌else◌, length, length-replicate, length-append, replicate, set, get_elem?,
  All, ◌≡◌, ◌≢◌, refl, sym, ap, ◌∙◌, subst, arith, inl, inr, Bool-cases, le→ltb, lt→ltb, eq→==,
  ne→==,
}
use axtp_ts_runtime.Common.Maps.{lookup, insert, delete}
use axtp_ts_runtime.Model.{PayloadType, payload_type_code, Frame, Message}
use axtp_ts_runtime.Frame.Fragmenter.Laws.{AreParts, payloads}
use axtp_ts_runtime.Frame.Reassembler.{
  Assembly, MessageReassembler, Output, on_message, on_error, evict_loop, evict_expired,
  some_missing, concat_fragments, new_assembly, store_fragment, add_fragment, find_assembly,
  on_frame, on_frames, same_type, max_pending_assemblies,
}

-- The first fragments are there, and `k` more are to come.
abbrev pub filled : List (List ℕ) → ℕ → List (Option (List ℕ))
filled [] k = replicate k none
filled (p ∷ ps) k = some p ∷ filled ps k

abbrev pub snoc : List (List ℕ) → List ℕ → List (List ℕ)
snoc [] q = q ∷ []
snoc (p ∷ ps) q = p ∷ snoc ps q

abbrev pub joined : List (List ℕ) → List ℕ
joined [] = []
joined (p ∷ ps) = p ++ joined ps

pub length-snoc : (ps : List (List ℕ)) (q : List ℕ) → length (snoc ps q) ≡ suc (length ps)
length-snoc [] q = refl
length-snoc (p ∷ ps) q = ap suc (length-snoc ps q)

pub joined-snoc : (ps : List (List ℕ)) (q : List ℕ) → joined (snoc ps q) ≡ joined ps ++ q
joined-snoc [] q = append-nil q
joined-snoc (p ∷ ps) q = ap (λ l. p ++ l) (joined-snoc ps q) ∙ sym (append_assoc p (joined ps) q)

length-filled : (ps : List (List ℕ)) (k : ℕ) → length (filled ps k) ≡ length ps + k
length-filled [] k = omega (arith, length-replicate {A = Option (List ℕ)} k none)
length-filled (p ∷ ps) k = omega (arith, length-filled ps k)

get-filled : (ps : List (List ℕ)) (k : ℕ) → get_elem? (filled ps (suc k)) (length ps) ≡ some none
get-filled [] k = refl
get-filled (p ∷ ps) k = get-filled ps k

set-filled :
    (ps : List (List ℕ)) (k : ℕ) (q : List ℕ)
    → set (filled ps (suc k)) (length ps) (some q) ≡ filled (snoc ps q) k
set-filled [] k q = refl
set-filled (p ∷ ps) k q = ap (λ l. some p ∷ l) (set-filled ps k q)

some_missing-filled : (ps : List (List ℕ)) (k : ℕ) → some_missing (filled ps (suc k)) ≡ true
unfolding some_missing
some_missing-filled [] k = refl
some_missing-filled (p ∷ ps) k = some_missing-filled ps k

some_missing-full : (ps : List (List ℕ)) → some_missing (filled ps 0) ≡ false
unfolding some_missing
some_missing-full [] = refl
some_missing-full (p ∷ ps) = some_missing-full ps

concat-full : (ps : List (List ℕ)) → concat_fragments (filled ps 0) ≡ joined ps
unfolding concat_fragments
concat-full [] = refl
concat-full (p ∷ ps) = ap (λ l. p ++ l) (concat-full ps)

same_type_self : (t : PayloadType) → same_type t t ≡ true
unfolding payload_type_code
same_type_self PayloadType.control = refl
same_type_self PayloadType.rpc = refl
same_type_self PayloadType.stream = refl

-- The assembly with the first fragments in it, of a message of `count` frames that began at `t₀`.
abbrev pub partial : PayloadType → ℕ → List (List ℕ) → ℕ → ℕ → Assembly
partial type count ps k t₀ = record {
  payload_type = type;
  frame_count = count;
  total_size = length (joined ps);
  fragments = filled ps k;
  created_at = t₀;
}

-- The frame with the payload `q` that comes behind the payloads `ps`.
pub record IsNext (type : PayloadType) (id count : ℕ) (ps : List (List ℕ)) (frame : Frame)
    : Type 0 where
  pub type_same : frame.header.payload_type ≡ type
  pub id_same : frame.header.message_id ≡ id
  pub index_next : frame.header.frame_index ≡ length ps
  pub count_same : frame.header.frame_count ≡ count

module _ (type : PayloadType) (id count t₀ : ℕ) where
  abbrev pub holding : List (List ℕ) → ℕ → MessageReassembler → MessageReassembler
  holding ps k r = record r { assemblies = (id, partial type count ps k t₀) ∷ [] }

  -- What comes of the frame: the last one gives the message, another one is kept.
  abbrev pub after : List (List ℕ) → ℕ → MessageReassembler → MessageReassembler × List Output
  after ps (suc k) r = (holding ps (suc k) r, [])
  after ps zero r = (
    record r { assemblies = [] },
    on_message (record { message_id = id; payload_type = type; body = joined ps }) ∷ [],
  )

  store-filled :
      (ps : List (List ℕ)) (k : ℕ) (frame : Frame) (r : MessageReassembler)
      → IsNext type id count ps frame
      → length (joined ps) + length frame.payload ≤ r.max_message_size
      → store_fragment frame (partial type count ps (suc k) t₀) (holding ps (suc k) r)
        ≡ after (snoc ps frame.payload) k r
  unfolding store_fragment insert delete
  store-filled ps zero frame r h room =
      let q = frame.payload in
      let small = le→ltb r.max_message_size (length (joined ps) + length q) room in
      let full : some_missing (set (filled ps 1) frame.header.frame_index (some q)) ≡ false =
        ap some_missing (ap (λ i. set (filled ps 1) i (some q)) h.index_next ∙ set-filled ps 0 q)
        ∙ some_missing-full (snoc ps q) in
      let body : concat_fragments (set (filled ps 1) frame.header.frame_index (some q))
          ≡ joined (snoc ps q) =
        ap concat_fragments
          (ap (λ i. set (filled ps 1) i (some q)) h.index_next ∙ set-filled ps 0 q)
        ∙ concat-full (snoc ps q) in
      rw (small, full, body) (ground (arith, h.id_same))
  store-filled ps (suc k) frame r h room =
      let q = frame.payload in
      let small = le→ltb r.max_message_size (length (joined ps) + length q) room in
      let now_filled : set (filled ps (suc (suc k))) frame.header.frame_index (some q)
          ≡ filled (snoc ps q) (suc k) =
        ap (λ i. set (filled ps (suc (suc k))) i (some q)) h.index_next ∙ set-filled ps (suc k) q in
      let more = some_missing-filled (snoc ps q) k in
      let total : length (joined ps) + length q ≡ length (joined (snoc ps q)) =
        omega (arith, ap length (joined-snoc ps q), length-append (joined ps) q) in
      rw (small, now_filled, more) (ground (arith, h.id_same, total))

  add-filled :
      (ps : List (List ℕ)) (k : ℕ) (frame : Frame) (r : MessageReassembler)
      → IsNext type id count ps frame
      → length (joined ps) + length frame.payload ≤ r.max_message_size
      → add_fragment frame (partial type count ps (suc k) t₀) (holding ps (suc k) r)
        ≡ after (snoc ps frame.payload) k r
  unfolding add_fragment
  add-filled ps k frame r h room =
      let types : same_type type frame.header.payload_type ≡ true =
        ap (same_type type) h.type_same ∙ same_type_self type in
      let counts = eq→== count frame.header.frame_count (sym h.count_same) in
      let inside : leb (length (filled ps (suc k))) frame.header.frame_index ≡ false =
        ground (arith, h.index_next, length-filled ps (suc k)) in
      let hole : get_elem? (filled ps (suc k)) frame.header.frame_index ≡ some none =
        ap (get_elem? (filled ps (suc k))) h.index_next ∙ get-filled ps k in
      rw (types, counts, inside, hole) (store-filled ps k frame r h room)

  find-filled :
      (now : ℕ) (ps : List (List ℕ)) (k : ℕ) (frame : Frame) (r : MessageReassembler)
      → IsNext type id count ps frame
      → length (joined ps) + length frame.payload ≤ r.max_message_size
      → find_assembly now frame (holding ps (suc k) r) ≡ after (snoc ps frame.payload) k r
  unfolding find_assembly lookup
  find-filled now ps k frame r h room =
      let here : (id == frame.header.message_id) ≡ true =
        eq→== id frame.header.message_id (sym h.id_same) in
      rw (here, find_assembly) (add-filled ps k frame r h room)

  -- A frame that is not the first, before the assembly is too old.
  pub on_frame-filled :
      (now : ℕ) (ps : List (List ℕ)) (k : ℕ) (frame : Frame) (r : MessageReassembler)
      → IsNext type id count ps frame
      → 1 < count
      → now - t₀ ≤ r.assembly_timeout_ms
      → length (joined ps) + length frame.payload ≤ r.max_message_size
      → on_frame now frame (holding ps (suc k) r) ≡ after (snoc ps frame.payload) k r
  unfolding on_frame evict_expired evict_loop
  on_frame-filled now ps k frame r h many young room =
      let several : (frame.header.frame_count == 1) ≡ false = ground (arith, h.count_same) in
      let kept = le→ltb r.assembly_timeout_ms (now - t₀) young in
      rw (several, kept) (find-filled now ps k frame r h room)

-- A frame of a message that is not under way, in an empty table.
find-empty :
    (now : ℕ) (frame : Frame) (r : MessageReassembler)
    → find_assembly now frame (record r { assemblies = [] })
      ≡ add_fragment frame
          (new_assembly now frame)
          (record r { assemblies = (frame.header.message_id, new_assembly now frame) ∷ [] })
unfolding find_assembly lookup insert
find-empty now frame r = refl

new-partial :
    (type : PayloadType) (id count now k : ℕ) (frame : Frame)
    → IsNext type id count [] frame
    → count ≡ suc k
    → new_assembly now frame ≡ partial type count [] (suc k) now
unfolding new_assembly
new-partial type id count now k frame h size = cc (h.type_same, h.count_same, size)

module _ (type : PayloadType) (id count : ℕ) where
  -- The first frame of several.
  pub on_frame_first :
      (now k : ℕ) (frame : Frame) (r : MessageReassembler)
      → IsNext type id count [] frame
      → count ≡ suc (suc k)
      → length frame.payload ≤ r.max_message_size
      → on_frame now frame (record r { assemblies = [] })
        ≡ after type id count now (frame.payload ∷ []) (suc k) r
  unfolding on_frame evict_expired evict_loop
  on_frame_first now k frame r h size room =
      let several : (frame.header.frame_count == 1) ≡ false = ground (arith, h.count_same) in
      let put =
        λ (i : ℕ) (a : Assembly). add_fragment frame a (record r { assemblies = (i, a) ∷ [] }) in
      rw several (
        find-empty now frame r
        ∙ ap (λ i. put i (new_assembly now frame)) h.id_same
        ∙ ap (put id) (new-partial type id count now (suc k) frame h size)
        ∙ add-filled type id count now [] (suc k) frame r h (omega arith))

  -- A frame that is the whole message.
  pub on_frame_single :
      (now : ℕ) (frame : Frame) (r : MessageReassembler)
      → IsNext type id count [] frame
      → count ≡ 1
      → on_frame now frame r ≡ (
        r,
        on_message (record { message_id = id; payload_type = type; body = frame.payload }) ∷ [],
      )
  unfolding on_frame
  on_frame_single now frame r h one =
      ground (arith, h.count_same, h.index_next, h.id_same, h.type_same)
