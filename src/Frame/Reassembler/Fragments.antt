-- ===== src/Frame/Reassembler/Fragments.antt =====
-- The array of fragments of an assembly, against the chunks that the message was cut into.
use axtp_ts_runtime.Common.{
  ℕ, zero, suc, ◌+◌, ◌<◌, List, [], ◌∷◌, ◌++◌, Option, none, some, true, false, length, replicate,
  set, get_elem?, ◌≡◌, refl, ap, ◌∙◌, arith,
}
use axtp_ts_runtime.Frame.Reassembler.{some_missing, concat_fragments}

-- Each fragment that is there is the chunk of its index.
abbrev pub Agrees : List (Option (List ℕ)) → List (List ℕ) → Type 0
Agrees [] [] = Unit {0}
Agrees [] (chunk ∷ chunks) = ⊥
Agrees (fragment ∷ fragments) [] = ⊥
Agrees (none ∷ fragments) (chunk ∷ chunks) = Agrees fragments chunks
Agrees (some bytes ∷ fragments) (chunk ∷ chunks) = (bytes ≡ chunk) × Agrees fragments chunks

abbrev pub join : List (List ℕ) → List ℕ
join [] = []
join (chunk ∷ chunks) = chunk ++ join chunks

-- The bytes that the fragments hold, and how many fragments are missing.
abbrev pub held : List (Option (List ℕ)) → ℕ
held [] = 0
held (none ∷ fragments) = held fragments
held (some bytes ∷ fragments) = length bytes + held fragments

abbrev pub missing : List (Option (List ℕ)) → ℕ
missing [] = 0
missing (none ∷ fragments) = suc (missing fragments)
missing (some bytes ∷ fragments) = missing fragments

pub replicate-Agrees : (chunks : List (List ℕ)) → Agrees (replicate (length chunks) none) chunks
replicate-Agrees [] = tt
replicate-Agrees (chunk ∷ chunks) = replicate-Agrees chunks

pub held-replicate : (n : ℕ) → held (replicate n none) ≡ 0
held-replicate zero = refl
held-replicate (suc n) = held-replicate n

pub missing-replicate : (n : ℕ) → missing (replicate n none) ≡ n
missing-replicate zero = refl
missing-replicate (suc n) = ap suc (missing-replicate n)

pub set-Agrees :
    (fragments : List (Option (List ℕ))) (chunks : List (List ℕ)) (i : ℕ) (bytes : List ℕ)
    → Agrees fragments chunks
    → get_elem? chunks i ≡ some bytes
    → Agrees (set fragments i (some bytes)) chunks
set-Agrees [] [] i bytes h e = tt
set-Agrees [] (c ∷ cs) i bytes h e = absurd h
set-Agrees (f ∷ fs) [] i bytes h e = absurd h
set-Agrees (none ∷ fs) (c ∷ cs) zero bytes h e = (cc, h)
set-Agrees (some b ∷ fs) (c ∷ cs) zero bytes h e = (cc, h.1)
set-Agrees (none ∷ fs) (c ∷ cs) (suc i) bytes h e = set-Agrees fs cs i bytes h e
set-Agrees (some b ∷ fs) (c ∷ cs) (suc i) bytes h e = (h.0, set-Agrees fs cs i bytes h.1 e)

pub length-Agrees :
    (fragments : List (Option (List ℕ))) (chunks : List (List ℕ))
    → Agrees fragments chunks
    → length fragments ≡ length chunks
length-Agrees [] [] h = refl
length-Agrees [] (c ∷ cs) h = absurd h
length-Agrees (f ∷ fs) [] h = absurd h
length-Agrees (none ∷ fs) (c ∷ cs) h = ap suc (length-Agrees fs cs h)
length-Agrees (some b ∷ fs) (c ∷ cs) h = ap suc (length-Agrees fs cs h.1)

-- With no fragment missing, the concatenation is the message.
pub concat-Agrees :
    (fragments : List (Option (List ℕ))) (chunks : List (List ℕ))
    → Agrees fragments chunks
    → some_missing fragments ≡ false
    → concat_fragments fragments ≡ join chunks
unfolding some_missing concat_fragments
concat-Agrees [] [] h e = refl
concat-Agrees [] (c ∷ cs) h e = absurd h
concat-Agrees (f ∷ fs) [] h e = absurd h
concat-Agrees (none ∷ fs) (c ∷ cs) h e = absurd (cc e)
concat-Agrees (some b ∷ fs) (c ∷ cs) h e =
    ap (λ l. l ++ concat_fragments fs) h.0 ∙ ap (λ l. c ++ l) (concat-Agrees fs cs h.1 e)

pub some_missing-missing :
    (fragments : List (Option (List ℕ)))
    → (some_missing fragments ≡ true → 0 < missing fragments)
      × (some_missing fragments ≡ false → missing fragments ≡ 0)
unfolding some_missing
some_missing-missing [] = (λ e. absurd (cc e), λ e. refl)
some_missing-missing (none ∷ fs) = (λ e. omega arith, λ e. absurd (cc e))
some_missing-missing (some b ∷ fs) = some_missing-missing fs

-- A write to a hole.
pub held-set_hole :
    (fragments : List (Option (List ℕ))) (i : ℕ) (bytes : List ℕ)
    → get_elem? fragments i ≡ some none
    → (held (set fragments i (some bytes)) ≡ held fragments + length bytes)
      × (missing fragments ≡ suc (missing (set fragments i (some bytes))))
held-set_hole [] i bytes e = absurd (cc e)
held-set_hole (none ∷ fs) zero bytes e = omega arith
held-set_hole (some b ∷ fs) zero bytes e = absurd (cc e)
held-set_hole (none ∷ fs) (suc i) bytes e = omega (arith, held-set_hole fs i bytes e)
held-set_hole (some b ∷ fs) (suc i) bytes e = omega (arith, held-set_hole fs i bytes e)

pub get_elem?-in_range :
    {A : Type 0} (xs : List A) (i : ℕ) → i < length xs → (a : A) × (get_elem? xs i ≡ some a)
get_elem?-in_range [] i h = elim h [ ]
get_elem?-in_range (x ∷ xs) zero h = (x, refl)
get_elem?-in_range (x ∷ xs) (suc i) h = get_elem?-in_range xs i (omega arith)
