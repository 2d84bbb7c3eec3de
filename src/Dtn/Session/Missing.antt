-- ===== src/Dtn/Session/Missing.antt =====
-- `RequestMissing` and `Complete` of internal/dtn/sync.go agree, and every handler keeps a session
-- valid.
use native.Mathlib.Decide.{dec_lt}
use meshyants.Base.{
  ℕ, zero, suc, ◌+◌, ◌≤◌, ◌<◌, ◌≡◌, ◌≢◌, refl, sym, ◌∙◌, Bytes, ℤ, pos, negsuc, Map, lookup, insert,
  int_eq, list_eq, nat_eq, IsMap, insert-IsMap, Bool-cases, inl, inr, Option, none, some, ok, err,
  List, [], ◌∷◌, ◌++◌, length, arith, eqb, eqb_iff, ap, if◌then◌else◌, Option-cases,
}
use meshyants.Dtn.Session.{
  Session, Fault, missing_chunk, index_out_of_range, new_session, handle_data, store_chunk,
  missing_from, request_missing, assemble, complete,
}
use meshyants.Dtn.Session.Count.{KeysWithin, held-eq-length, held-missing}

-- A session for `n` chunks that holds no index twice, and none outside 0 .. n - 1.
pub record IsValid (n : ℕ) (s : Session) : Type 0 where
  pub expects : s.total_chunks ≡ pos n
  pub distinct : IsMap s.chunks
  pub within : KeysWithin s.chunks n

pub new_session-IsValid : (n : ℕ) → IsValid n (new_session (pos n))
unfolding new_session
new_session-IsValid n = record { expects = refl; distinct = tt; within = tt }

insert-KeysWithin :
    (m : Map ℤ Bytes) (n i : ℕ) (c : Bytes)
    → i < n
    → KeysWithin m n
    → KeysWithin (insert (pos i) c m) n
unfolding insert
insert-KeysWithin [] n i c h k = (h, tt)
insert-KeysWithin ((pos j, v) ∷ m) n i c h k = ground (arith, insert-KeysWithin m n i c)
insert-KeysWithin ((negsuc j, v) ∷ m) n i c h k = absurd k

store_chunk-IsValid :
    (n : ℕ) (s : Session) (i : ℕ) (c : Bytes) (o : Option Bytes)
    → i < n
    → IsValid n s
    → IsValid n (store_chunk s (pos i) c o).0
unfolding store_chunk
store_chunk-IsValid n s i c (some prev) h v = ground arith
store_chunk-IsValid n s i c none h v = record {
  expects = v.expects;
  distinct = insert-IsMap (pos i) c s.chunks v.distinct;
  within = insert-KeysWithin s.chunks n i c h v.within;
}

-- The two ways of the range test of `HandleData`.
pub handle_data_within :
    (n : ℕ) (s : Session) (i : ℕ) (bytes : Bytes)
    → s.total_chunks ≡ pos n
    → i < n
    → handle_data s (pos i) bytes ≡ store_chunk s (pos i) bytes (lookup (pos i) s.chunks)
unfolding handle_data
handle_data_within n s i bytes e h = rw e (ground arith)

pub handle_data_beyond :
    (n : ℕ) (s : Session) (i : ℕ) (bytes : Bytes)
    → s.total_chunks ≡ pos n
    → n ≤ i
    → handle_data s (pos i) bytes ≡ (s, some index_out_of_range)
unfolding handle_data
handle_data_beyond n s i bytes e h = rw e (ground arith)

-- Whatever the index and the bytes, `HandleData` keeps a session valid.
pub handle_data-IsValid :
    (n : ℕ) (s : Session) (idx : ℤ) (bytes : Bytes)
    → IsValid n s
    → IsValid n (handle_data s idx bytes).0
unfolding handle_data
handle_data-IsValid n s (pos i) bytes v = elim (dec_lt i n) [
  | yes h ↦
      rw (handle_data_within n s i bytes v.expects h)
        (store_chunk-IsValid n s i bytes (lookup (pos i) s.chunks) h v)
  | no h ↦ rw (handle_data_beyond n s i bytes v.expects (omega arith)) v
]
handle_data-IsValid n s (negsuc i) bytes v = v

-- An error leaves the session as it was.
pub handle_data_error :
    (s : Session) (idx : ℤ) (bytes : Bytes) {f : Fault}
    → (handle_data s idx bytes).1 ≡ some f
    → (handle_data s idx bytes).0 ≡ s
unfolding handle_data store_chunk
handle_data_error s idx bytes h = ground arith

assemble_held :
    (m : Map ℤ Bytes) (i n : ℕ) (buf : Bytes)
    → missing_from m i n ≡ []
    → (b : Bytes) × (assemble m i n buf ≡ ok b)
unfolding assemble missing_from
assemble_held m i zero buf h = (buf, refl)
assemble_held m i (suc n) buf h = elim (Option-cases (lookup (pos i) m)) [
  | inl e ↦ ground arith
  | inr p ↦
      let (b, q) = assemble_held m (i + 1) n (buf ++ p.0) (ground (arith, p.1)) in
      (b, rw (p.1, assemble) q)
]

empty_of_length : (l : List ℤ) → length l ≡ 0 → l ≡ []
empty_of_length [] h = refl
empty_of_length (x ∷ l) h = absurd (omega arith)

module _ (n : ℕ) (s : Session) (v : IsValid n s) where
  request_missing_lem : request_missing s ≡ missing_from s.chunks 0 n
  unfolding request_missing
  request_missing_lem = rw v.expects

  complete_lem :
      complete s ≡ (if eqb (length s.chunks) n then assemble s.chunks 0 n [] else err missing_chunk)
  unfolding complete
  complete_lem = rw v.expects

  -- A valid session lacks exactly as many chunks as its count says.
  size_missing : length s.chunks + length (missing_from s.chunks 0 n) ≡ n
  size_missing =
      omega (arith, held-eq-length s.chunks n v.distinct v.within, held-missing s.chunks 0 n)

  pub complete-eq-assemble : missing_from s.chunks 0 n ≡ [] → complete s ≡ assemble s.chunks 0 n []
  complete-eq-assemble h =
      let size : length s.chunks ≡ n = omega (arith, size_missing, ap length h) in
      complete_lem ∙ rw ((eqb_iff (length s.chunks) n).1 size)

  pub complete_none_missing : request_missing s ≡ [] → (b : Bytes) × (complete s ≡ ok b)
  complete_none_missing h =
      let none_missing = sym request_missing_lem ∙ h in
      let (b, q) = assemble_held s.chunks 0 n [] none_missing in
      (b, complete-eq-assemble none_missing ∙ q)

  pub complete_some_missing : request_missing s ≢ [] → complete s ≡ err missing_chunk
  complete_some_missing h = elim (Bool-cases (eqb (length s.chunks) n)) [
    | inl same ↦ absurd (
        h (
          request_missing_lem
          ∙ empty_of_length _ (omega (arith, size_missing, (eqb_iff (length s.chunks) n).0 same))))
    | inr other ↦ rw complete_lem (rw other)
  ]

-- For a valid session `Complete` returns a payload when `RequestMissing` asks for nothing, and
-- ErrMissingChunk whenever it asks for something.
pub complete_exactly :
    (n : ℕ) (s : Session)
    → IsValid n s
    → (request_missing s ≡ [] → (b : Bytes) × (complete s ≡ ok b))
      × (request_missing s ≢ [] → complete s ≡ err missing_chunk)
complete_exactly n s v = (complete_none_missing n s v, complete_some_missing n s v)
