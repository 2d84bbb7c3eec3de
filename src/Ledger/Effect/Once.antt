-- ===== src/Ledger/Effect/Once.antt =====
-- Exactly-once effects: `TryApply` of internal/ledger/effect/ledger.go says "first" at most once.
use meshyants.Base.{
  ℕ, ◌+◌, ◌≡◌, Bytes, list_eq, nat_eq, ◌==◌, eq_of_==, ◌&&◌, Bool, inl, inr, true, false, Option,
  Option-cases, none, some, List, [], ◌∷◌, arith, if◌then◌else◌,
}
use meshyants.Ledger.Bolt.{Bolt}
use meshyants.Ledger.Effect.{Fault, try_apply, has_effect}

-- The caller was told that it is the first.
abbrev pub is_first : Bool × Option Fault → Bool
is_first (applied, none) = applied
is_first (applied, some f) = false

abbrev pub bit : Bool → ℕ
bit true = 1
bit false = 0

module _ (b : Bolt) where
  open b use {Bucket, get, put, commits, get-put, get-aborted}

  -- A call marks its own key when it reports the first application, and no other key.
  pub has-try_apply :
      (k j : Bytes) (s : Bucket)
      → has_effect b j (try_apply b k s).0
        ≡ (if is_first (try_apply b k s).1 && (k == j) then true else has_effect b j s)
  unfolding has_effect try_apply
  has-try_apply k j s = elim (Option-cases (put s k (1 ∷ []))) [
    | inl e ↦ ground (arith, get-aborted s j)
    | inr (t, e) ↦ ground (arith, get-put s t k j (1 ∷ []) e, get-aborted s j)
  ]

  -- A call reports the first application only for a key that was not recorded.
  pub first_was_new :
      (k : Bytes) (s : Bucket) → is_first (try_apply b k s).1 ≡ true → has_effect b k s ≡ false
  unfolding has_effect try_apply
  first_was_new k s h = ground arith

  unfoldable pub run : List Bytes → Bucket → Bucket
  run [] s = s
  run (k ∷ ks) s = run ks (try_apply b k s).0

  -- How many of the calls reported the first application of `j`.
  unfoldable pub firsts : Bytes → List Bytes → Bucket → ℕ
  firsts j [] s = 0
  firsts j (k ∷ ks) s =
      bit (is_first (try_apply b k s).1 && (k == j)) + firsts j ks (try_apply b k s).0

  -- Over any sequence of calls, the number of times that `j` was reported as the first application is
  -- 1 if `j` went from not recorded to recorded, and 0 if it did not.
  pub firsts_exact :
      (j : Bytes) (ks : List Bytes) (s : Bucket)
      → firsts j ks s + bit (has_effect b j s) ≡ bit (has_effect b j (run ks s))
  unfolding firsts run
  firsts_exact j [] s = omega arith
  firsts_exact j (k ∷ ks) s = ground (
    arith,
    firsts_exact j ks (try_apply b k s).0,
    has-try_apply k j s,
    first_was_new k s,
    eq_of_== k j,
  )
