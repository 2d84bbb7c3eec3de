-- ===== src/Dtn/Session.antt =====
-- internal/dtn/sync.go: the reassembly session of one object. A method on `*Session` returns the new
-- session; an `error` is an `Option Fault`.
mod Count
pub mod Missing
pub mod Delivery
mod Tests
use meshyants.Base.{
  ℕ, zero, suc, ◌+◌, Bytes, ℤ, pos, negsuc, ltb_ℤ, Map, lookup, insert, has, int_eq, nat_eq,
  list_eq, ◌==◌, Bool, ◌||◌, not, Option, none, some, Result, ok, err, List, [], ◌∷◌, ◌++◌, map,
  length, if◌then◌else◌,
}

pub data Fault : Type 0 where
  missing_chunk : Fault
  chunk_conflict : ℤ → Fault
  index_out_of_range : Fault

pub record Session : Type 0 where
  pub total_chunks : ℤ
  pub chunks : Map ℤ Bytes
  pub acked : Map ℤ (Unit {0})

unfoldable pub new_session : ℤ → Session
new_session total = record { total_chunks = total; chunks = []; acked = [] }

-- The second half of `HandleData`, on what `s.chunks[idx]` holds.
unfoldable pub store_chunk : Session → ℤ → Bytes → Option Bytes → Session × Option Fault
store_chunk s idx bytes (some prev) =
    if prev == bytes then (s, none) else (s, some (chunk_conflict idx))
store_chunk s idx bytes none = (record s { chunks = insert idx bytes s.chunks }, none)

unfoldable pub handle_data : Session → ℤ → Bytes → Session × Option Fault
unfolding store_chunk
handle_data s idx bytes =
    if ltb_ℤ idx (pos 0) || not (ltb_ℤ idx s.total_chunks)
    then (s, some index_out_of_range)
    else store_chunk s idx bytes (lookup idx s.chunks)

unfoldable pub handle_ack : Session → ℤ → Session
handle_ack s idx = record s { acked = insert idx tt s.acked }

-- sort.Ints: the ascending order of a list of integers.
unfoldable pub insert_sorted : ℤ → List ℤ → List ℤ
insert_sorted x [] = x ∷ []
insert_sorted x (y ∷ ys) = if ltb_ℤ y x then y ∷ insert_sorted x ys else x ∷ (y ∷ ys)

unfoldable pub sort_ints : List ℤ → List ℤ
unfolding insert_sorted
sort_ints [] = []
sort_ints (x ∷ xs) = insert_sorted x (sort_ints xs)

unfoldable pub offer : Session → List ℤ
unfolding sort_ints
offer s = sort_ints (map (λ p. p.0) s.chunks)

-- How often `for i := 0; i < total; i++` runs.
unfoldable pub rounds : ℤ → ℕ
rounds (pos n) = n
rounds (negsuc n) = 0

-- The loop of `RequestMissing` from `i` on, with `n` rounds to go.
unfoldable pub missing_from : Map ℤ Bytes → ℕ → ℕ → List ℤ
unfolding has
missing_from m i zero = []
missing_from m i (suc n) =
    let rest = missing_from m (i + 1) n in if has (pos i) m then rest else pos i ∷ rest

unfoldable pub request_missing : Session → List ℤ
unfolding missing_from rounds
request_missing s = missing_from s.chunks 0 (rounds s.total_chunks)

-- The loop of `Complete` from `i` on, with `n` rounds to go.
unfoldable pub assemble : Map ℤ Bytes → ℕ → ℕ → Bytes → Result Fault Bytes
assemble m i zero buf = ok buf
assemble m i (suc n) buf = elim (lookup (pos i) m) [
  | none ↦ err missing_chunk
  | some c ↦ assemble m (i + 1) n (buf ++ c)
]

unfoldable pub complete : Session → Result Fault Bytes
unfolding assemble rounds
complete s =
    if pos (length s.chunks) == s.total_chunks
    then assemble s.chunks 0 (rounds s.total_chunks) []
    else err missing_chunk

unfoldable pub reset : Session → ℤ → Session
reset s total = record s { total_chunks = total; chunks = []; acked = [] }
