-- ===== src/Text/Decimal.antt =====
-- `%d` of package fmt for an int64 that is not negative, and its value read back.
use native.Mathlib.Nat.{pow-suc}
use meshyants.Base.{
  ℕ, zero, suc, ◌+◌, ◌-◌, ◌*◌, ◌/◌, ◌%◌, ◌^◌, ◌<◌, ◌≡◌, refl, ◌∙◌, Bytes, ltb, Bool-cases, inl, inr,
  [], ◌∷◌, ◌++◌, if◌then◌else◌, arith,
}

-- The last `fuel` digits.
unfoldable pub decimal_from : ℕ → ℕ → Bytes
decimal_from zero n = []
decimal_from (suc fuel) n =
    let rest = decimal_from fuel (n / 10) in
    if ltb n 10 then (48 + n) ∷ [] else rest ++ ((48 + n % 10) ∷ [])

-- An int64 has at most 20 digits.
unfoldable pub decimal : ℕ → Bytes
unfolding decimal_from
decimal n = decimal_from 20 n

abbrev pub read_from : ℕ → Bytes → ℕ
read_from acc [] = acc
read_from acc (d ∷ ds) = read_from (acc * 10 + (d - 48)) ds

read_from-append :
    (acc : ℕ) (xs : Bytes) (d : ℕ)
    → read_from acc (xs ++ (d ∷ [])) ≡ read_from acc xs * 10 + (d - 48)
read_from-append acc [] d = refl
read_from-append acc (x ∷ xs) d = read_from-append (acc * 10 + (x - 48)) xs d

read_from-decimal_from : (fuel n : ℕ) → n < 10 ^ fuel → read_from 0 (decimal_from fuel n) ≡ n
unfolding decimal_from
read_from-decimal_from zero n h = omega arith
read_from-decimal_from (suc fuel) n h = elim (Bool-cases (ltb n 10)) [
  | inl small ↦ rw small (omega arith)
  | inr large ↦
      let h' : n < 10 ^ fuel * 10 = rw pow-suc at h in
      let rest = read_from-decimal_from fuel (n / 10) (omega arith) in
      rw large (read_from-append 0 (decimal_from fuel (n / 10)) (48 + n % 10) ∙ omega (arith, rest))
]

-- The digits of a number below 10 ^ 20 read as the number.
pub read_from-decimal : (n : ℕ) → n < 10 ^ 20 → read_from 0 (decimal n) ≡ n
unfolding decimal
read_from-decimal n h = read_from-decimal_from 20 n h
