-- ===== src/Dtn/Session/Count.antt =====
-- The pigeonhole behind `Complete` of internal/dtn/sync.go: a session that holds only indices in
-- range holds as many chunks as there are indices held.
use meshyants.Base.{
  ℕ, zero, suc, ◌+◌, ◌≤◌, ◌<◌, ◌≡◌, refl, Bytes, ℤ, pos, negsuc, Map, lookup, has, int_eq, IsMap,
  none, [], ◌∷◌, length, arith, if◌then◌else◌,
}
use meshyants.Dtn.Session.{missing_from}

-- How many of the `n` indices from `i` on are held.
pub held : Map ℤ Bytes → ℕ → ℕ → ℕ
held m i zero = 0
held m i (suc n) = (if has (pos i) m then 1 else 0) + held m (i + 1) n

-- Each key is an index from `i` up to `i + n`.
abbrev pub KeysWithin : Map ℤ Bytes → ℕ → Type 0
KeysWithin [] n = Unit {0}
KeysWithin ((pos k, v) ∷ m) n = (k < n) × KeysWithin m n
KeysWithin ((negsuc k, v) ∷ m) n = ⊥

held-cons_out :
    (m : Map ℤ Bytes) (k : ℕ) (v : Bytes) (i n : ℕ) → k < i → held ((pos k, v) ∷ m) i n ≡ held m i n
unfolding held has lookup
held-cons_out m k v i zero h = refl
held-cons_out m k v i (suc n) h = ground (arith, held-cons_out m k v (i + 1) n)

held-cons :
    (m : Map ℤ Bytes) (k : ℕ) (v : Bytes) (i n : ℕ)
    → lookup (pos k) m ≡ none
    → i ≤ k
    → k < i + n
    → held ((pos k, v) ∷ m) i n ≡ suc (held m i n)
unfolding held has lookup
held-cons m k v i zero e h l = absurd (omega arith)
held-cons m k v i (suc n) e h l =
    ground (arith, held-cons m k v (i + 1) n, held-cons_out m k v (i + 1) n)

held-nil : (i n : ℕ) → held [] i n ≡ 0
unfolding held has lookup
held-nil i zero = refl
held-nil i (suc n) = omega (arith, held-nil (i + 1) n)

pub held-eq-length : (m : Map ℤ Bytes) (n : ℕ) → IsMap m → KeysWithin m n → held m 0 n ≡ length m
held-eq-length [] n h k = held-nil 0 n
held-eq-length ((pos i, v) ∷ m) n h k =
    omega (arith, held-cons m i v 0 n h.0, held-eq-length m n h.1 k.1)
held-eq-length ((negsuc i, v) ∷ m) n h k = absurd k

pub held-missing : (m : Map ℤ Bytes) (i n : ℕ) → held m i n + length (missing_from m i n) ≡ n
unfolding held missing_from
held-missing m i zero = omega arith
held-missing m i (suc n) = ground (arith, held-missing m (i + 1) n)
