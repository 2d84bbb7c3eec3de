-- ===== src/Dtn/Session/Delivery.antt =====
-- End to end over internal/dtn/sync.go: the chunks of an object, delivered in any order and as often
-- as the carrier likes, are put together again.
use mathlib.Core.List.{append-nil, append_assoc, flatten}
use native.Mathlib.Nat.{add-zero, zero-add, add_assoc, add_comm}
use native.Mathlib.Numerals.{add-one}
use meshyants.Base.{
  ℕ, zero, suc, ◌+◌, ◌<◌, ◌≡◌, ◌⊎◌, refl, sym, ap, ◌∙◌, Bytes, ℤ, pos, Map, lookup, int_eq, list_eq,
  nat_eq, ==-refl, lookup-insert, Bool, true, false, inl, inr, none, some, ok, List, [], ◌∷◌, ◌++◌,
  length, get_elem?, All, arith, eqb, eqb_iff, ◌||◌, if◌then◌else◌, Option-cases, is_some,
}
use meshyants.Dtn.Session.{
  Session, new_session, handle_data, store_chunk, missing_from, assemble, complete,
}
use meshyants.Dtn.Session.Missing.{
  IsValid, new_session-IsValid, handle_data_within, handle_data-IsValid, complete-eq-assemble,
}

-- The DATA messages of a run, each handed to `HandleData`.
unfoldable pub receive : List (ℕ × Bytes) → Session → Session
receive [] s = s
receive ((i, c) ∷ packets) s = receive packets (handle_data s (pos i) c).0

-- Each packet carries the part of the object that its index names.
abbrev pub AreParts : List Bytes → List (ℕ × Bytes) → Type 0
AreParts parts = All (λ p. get_elem? parts p.0 ≡ some p.1)

unfoldable pub arrives : ℕ → List (ℕ × Bytes) → Bool
arrives j [] = false
arrives j ((i, c) ∷ packets) = eqb i j || arrives j packets

-- What the session holds is part of the object.
record Partial (parts : List Bytes) (s : Session) : Type 0 where
  valid : IsValid (length parts) s
  agrees : (j : ℕ) (c : Bytes) → lookup (pos j) s.chunks ≡ some c → get_elem? parts j ≡ some c

get_elem?-lt {ℓ} :
    {A : Type ℓ} (xs : List A) (i : ℕ) (a : A) → get_elem? xs i ≡ some a → i < length xs
get_elem?-lt [] i a h = cc
get_elem?-lt (x ∷ xs) zero a h = omega arith
get_elem?-lt (x ∷ xs) (suc i) a h = omega (arith, get_elem?-lt xs i a h)

store_chunk-lookup :
    (s : Session) (i j : ℕ) (c : Bytes)
    → (lookup (pos i) s.chunks ≡ none) ⊎ (lookup (pos i) s.chunks ≡ some c)
    → lookup (pos j) (store_chunk s (pos i) c (lookup (pos i) s.chunks)).0.chunks
      ≡ (if eqb i j then some c else lookup (pos j) s.chunks)
unfolding store_chunk
store_chunk-lookup s i j c (inl e) = rw (e, store_chunk) (lookup-insert (pos i) (pos j) c s.chunks)
store_chunk-lookup s i j c (inr e) = rw (e, store_chunk) (ground (arith, ==-refl {A = Bytes} c))

module _ (parts : List Bytes) (s : Session) (p : Partial parts s) (i : ℕ) (c : Bytes)
    (part : get_elem? parts i ≡ some c) where
  room : i < length parts
  room = get_elem?-lt parts i c part

  fresh_or_same : (lookup (pos i) s.chunks ≡ none) ⊎ (lookup (pos i) s.chunks ≡ some c)
  fresh_or_same = elim (Option-cases (lookup (pos i) s.chunks)) [
    | inl e ↦ inl e
    | inr (d, e) ↦ inr (cc (p.agrees i d e))
  ]

  lookup-handle_data :
      (j : ℕ)
      → lookup (pos j) (handle_data s (pos i) c).0.chunks
        ≡ (if eqb i j then some c else lookup (pos j) s.chunks)
  lookup-handle_data j =
      rw (handle_data_within (length parts) s i c p.valid.expects room)
        (store_chunk-lookup s i j c fresh_or_same)

  handle_data-Partial : Partial parts (handle_data s (pos i) c).0
  handle_data-Partial = record {
    valid = handle_data-IsValid (length parts) s (pos i) c p.valid;
    agrees = λ j d h. ground (arith, lookup-handle_data j, p.agrees j d, eqb_iff i j);
  }

receive-Partial :
    (parts : List Bytes) (packets : List (ℕ × Bytes)) (s : Session)
    → AreParts parts packets
    → Partial parts s
    → Partial parts (receive packets s)
unfolding receive
receive-Partial parts [] s a p = p
receive-Partial parts ((i, c) ∷ packets) s a p =
    receive-Partial parts packets (handle_data s (pos i) c).0 a.1
      (handle_data-Partial parts s p i c a.0)

-- What has arrived is held.
receive-lookup :
    (parts : List Bytes) (packets : List (ℕ × Bytes)) (s : Session) (j : ℕ)
    → AreParts parts packets
    → Partial parts s
    → is_some (lookup (pos j) (receive packets s).chunks)
      ≡ (arrives j packets || is_some (lookup (pos j) s.chunks))
unfolding receive arrives
receive-lookup parts [] s j a p = refl
receive-lookup parts ((i, c) ∷ packets) s j a p = ground (
  arith,
  receive-lookup parts packets (handle_data s (pos i) c).0 j a.1
      (handle_data-Partial parts s p i c a.0),
  lookup-handle_data parts s p i c a.0 j,
)

new_session-Partial : (parts : List Bytes) → Partial parts (new_session (pos (length parts)))
unfolding new_session lookup
new_session-Partial parts = record {
  valid = new_session-IsValid (length parts);
  agrees = λ j c h. cc;
}

-- The parts from index `i` on stand in the map.
Stores : Map ℤ Bytes → ℕ → List Bytes → Type 0
Stores m i [] = Unit {0}
Stores m i (c ∷ cs) = (lookup (pos i) m ≡ some c) × Stores m (i + 1) cs

assemble-Stores :
    (m : Map ℤ Bytes) (i : ℕ) (cs : List Bytes) (buf : Bytes)
    → Stores m i cs
    → assemble m i (length cs) buf ≡ ok (buf ++ flatten cs)
unfolding assemble Stores flatten
assemble-Stores m i [] buf h = ap ok (sym (append-nil buf))
assemble-Stores m i (c ∷ cs) buf h =
    rw (h.0, assemble) (assemble-Stores m (i + 1) cs (buf ++ c) h.1 ∙ ap ok (append_assoc buf c _))

missing-Stores :
    (m : Map ℤ Bytes) (i : ℕ) (cs : List Bytes) → Stores m i cs → missing_from m i (length cs) ≡ []
unfolding missing_from Stores
missing-Stores m i [] h = refl
missing-Stores m i (c ∷ cs) h = ground (arith, h.0, missing-Stores m (i + 1) cs h.1)

Stores-of_lookup :
    (m : Map ℤ Bytes) (i : ℕ) (cs : List Bytes)
    → ((j : ℕ) → j < length cs → lookup (pos (i + j)) m ≡ get_elem? cs j)
    → Stores m i cs
unfolding Stores
Stores-of_lookup m i [] h = tt
Stores-of_lookup m i (c ∷ cs) h = (
  rw (← add-zero i) (h 0 (omega arith)),
  Stores-of_lookup m (i + 1) cs
      λ j l. rw (add_assoc i 1 j, add_comm 1 j, add-one j) (h (suc j) (omega arith)),
)

held_part :
    (parts : List Bytes) (s : Session) (j : ℕ)
    → Partial parts s
    → is_some (lookup (pos j) s.chunks) ≡ true
    → lookup (pos j) s.chunks ≡ get_elem? parts j
held_part parts s j p h = elim (Option-cases (lookup (pos j) s.chunks)) [
  | inl e ↦ ground arith
  | inr (c, e) ↦ e ∙ sym (p.agrees j c e)
]

-- Let `packets` carry chunks of the object `parts`, in any order and with any repetition, each chunk
-- at least once. Then `Complete` returns the chunks of the object joined in their order.
pub complete-receive :
    (parts : List Bytes) (packets : List (ℕ × Bytes))
    → AreParts parts packets
    → ((j : ℕ) → j < length parts → arrives j packets ≡ true)
    → complete (receive packets (new_session (pos (length parts)))) ≡ ok (flatten parts)
complete-receive parts packets a all =
    let start = new_session (pos (length parts)) in
    let s = receive packets start in
    let begin = new_session-Partial parts in
    let p = receive-Partial parts packets start a begin in
    let stored = Stores-of_lookup s.chunks 0 parts λ j l.
      rw (zero-add j)
        (held_part parts s j p (receive-lookup parts packets start j a begin ∙ rw (all j l))) in
    complete-eq-assemble (length parts) s p.valid (missing-Stores s.chunks 0 parts stored)
    ∙ assemble-Stores s.chunks 0 parts [] stored
