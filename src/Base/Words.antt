-- ===== src/Base/Words.antt =====
-- encoding/binary's big-endian words over byte slices (`List ℕ`, each below 256), and Go's slice
-- expression `b[lo:hi]` with its run-time panic.
use Prim.Native.Nat.{ℕ, zero, suc, ◌+◌, ◌-◌, ◌*◌, ◌/◌, ◌%◌, ◌^◌, ◌≤◌, ◌<◌}
use mathlib.Core.Path.{◌≡◌, refl, ◌∙◌}
use mathlib.Core.Bool.{◌&&◌}
use mathlib.Core.List.{List, [], ◌∷◌, ◌++◌}
use native.Mathlib.Nat.{pow-suc}
use native.Mathlib.Omega.{arith}
use meshyants.Base.Tests.{leb, le→leb, if◌then◌else◌}
use meshyants.Base.Lists.{length, take, drop, length-append, take-length_append, drop-length_append}
use meshyants.Base.Results.{Result, ok, err}

abbrev pub Bytes : Type 0
Bytes = List ℕ

-- PutUint16 and PutUint64 at widths 2 and 8.
unfoldable pub put_be : ℕ → ℕ → Bytes
put_be zero n = []
put_be (suc w) n = put_be w (n / 256) ++ (n % 256) ∷ []

unfoldable pub be_from : ℕ → Bytes → ℕ
be_from acc [] = acc
be_from acc (b ∷ bs) = be_from (acc * 256 + b) bs

-- Uint16 and Uint64.
unfoldable pub be : Bytes → ℕ
unfolding be_from
be bs = be_from 0 bs

be_from-append :
    (acc : ℕ) (xs : Bytes) (b : ℕ) → be_from acc (xs ++ b ∷ []) ≡ be_from acc xs * 256 + b
unfolding be_from
be_from-append acc [] b = refl
be_from-append acc (x ∷ xs) b = be_from-append (acc * 256 + x) xs b

pub be-put_be : (w n : ℕ) → n < 256 ^ w → be (put_be w n) ≡ n
unfolding be put_be
be-put_be zero n h = omega arith
be-put_be (suc w) n h =
    be_from-append 0 (put_be w (n / 256)) (n % 256)
    ∙ (let h' : n < 256 ^ w * 256 = rw pow-suc at h in
        omega (arith, be-put_be w (n / 256) (omega arith)))

pub length-put_be : (w n : ℕ) → length (put_be w n) ≡ w
unfolding put_be
length-put_be zero n = refl
length-put_be (suc w) n =
    omega (arith, length-append (put_be w (n / 256)) ((n % 256) ∷ []), length-put_be w (n / 256))

module _ {E : Type 0} (panic : E) where
  -- b[lo:hi]. Go allows `hi` up to the capacity; here the bound is the length.
  unfoldable pub slice : Bytes → ℕ → ℕ → Result E Bytes
  slice b lo hi =
      if leb lo hi && leb hi (length b) then ok (take (hi - lo) (drop lo b)) else err panic

  -- b[i]
  unfoldable pub at : Bytes → ℕ → Result E ℕ
  at [] i = err panic
  at (x ∷ xs) zero = ok x
  at (x ∷ xs) (suc i) = at xs i

  pub slice_total :
      (b : Bytes) (lo hi : ℕ)
      → lo ≤ hi
      → hi ≤ length b
      → slice b lo hi ≡ ok (take (hi - lo) (drop lo b))
  unfolding slice
  slice_total b lo hi h k = rw (le→leb lo hi h) (rw (le→leb hi (length b) k))

  pub slice_mid :
      (xs ys zs : Bytes) (lo hi : ℕ)
      → lo ≡ length xs
      → hi ≡ length xs + length ys
      → slice (xs ++ (ys ++ zs)) lo hi ≡ ok ys
  slice_mid xs ys zs lo hi p q =
      let n : hi - lo ≡ length ys = omega arith in
      slice_total (xs ++ (ys ++ zs)) lo hi (omega arith)
        (omega (arith, length-append xs (ys ++ zs), length-append ys zs))
      ∙ rw (n, p) (rw drop-length_append (rw take-length_append))

  pub slice_prefix :
      (xs ys : Bytes) (lo hi n : ℕ)
      → lo ≡ length xs
      → hi ≡ length xs + n
      → n ≤ length ys
      → slice (xs ++ ys) lo hi ≡ ok (take n ys)
  slice_prefix xs ys lo hi n p q h =
      let m : hi - lo ≡ n = omega arith in
      slice_total (xs ++ ys) lo hi (omega arith) (omega (arith, length-append xs ys))
      ∙ rw (m, p) (rw drop-length_append)
