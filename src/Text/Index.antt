-- ===== src/Text/Index.antt =====
-- The functions of Go's package strings that look for a text and cut by it.
use mathlib.Core.List.{reverse}
use meshyants.Base.{
  ℕ, suc, ◌+◌, ◌≤◌, ◌≡◌, ◌≢◌, refl, ap, Bytes, Bool, Bool-cases, inl, inr, true, false, eqb, ◌||◌,
  Option, Option-cases, none, some, [], ◌∷◌, ◌++◌, All, length, drop, if◌then◌else◌, arith,
}
use meshyants.Text.{has_prefix}
use meshyants.Text.Search.{has_prefix-append}

abbrev pub later : Option ℕ → Option ℕ
later none = none
later (some i) = some (suc i)

-- strings.Index(s, sub), `none` for -1.
unfoldable pub index : Bytes → Bytes → Option ℕ
unfolding has_prefix
index [] sub = if has_prefix sub [] then some 0 else none
index (c ∷ s) sub = let rest = index s sub in if has_prefix sub (c ∷ s) then some 0 else later rest

abbrev or_here : Bool → Option ℕ → Option ℕ
or_here here (some i) = some (suc i)
or_here true none = some 0
or_here false none = none

-- strings.LastIndex(s, sub)
unfoldable pub last_index : Bytes → Bytes → Option ℕ
unfolding has_prefix
last_index [] sub = if has_prefix sub [] then some 0 else none
last_index (c ∷ s) sub = or_here (has_prefix sub (c ∷ s)) (last_index s sub)

-- strings.TrimPrefix(s, prefix)
abbrev pub trim_prefix : Bytes → Bytes → Bytes
trim_prefix s prefix = if has_prefix prefix s then drop (length prefix) s else s

-- strings.TrimSuffix(s, suffix)
abbrev pub trim_suffix : Bytes → Bytes → Bytes
trim_suffix s suffix = reverse (trim_prefix (reverse s) (reverse suffix))

abbrev pub among : ℕ → Bytes → Bool
among c [] = false
among c (x ∷ cutset) = eqb c x || among c cutset

-- strings.TrimLeft(s, cutset), for a cutset in ASCII.
unfoldable pub trim_left : Bytes → Bytes → Bytes
trim_left [] cutset = []
trim_left (c ∷ s) cutset = let rest = trim_left s cutset in if among c cutset then rest else c ∷ s

has_prefix-le : (sub s : Bytes) → has_prefix sub s ≡ true → length sub ≤ length s
unfolding has_prefix
has_prefix-le [] s h = omega arith
has_prefix-le (p ∷ sub) [] h = ground arith
has_prefix-le (p ∷ sub) (c ∷ s) h = ground (arith, has_prefix-le sub s)

-- An index is that of an occurrence, inside the text.
pub index-le : (s sub : Bytes) (i : ℕ) → index s sub ≡ some i → i + length sub ≤ length s
unfolding index
index-le [] sub i h = ground (arith, has_prefix-le sub [])
index-le (c ∷ s) sub i h =
    let prefixed = has_prefix-le sub (c ∷ s) in
    elim (Option-cases (index s sub)) [
      | inl none_later ↦ ground (arith, none_later)
      | inr (k, e) ↦ ground (arith, e, index-le s sub k e)
    ]

-- A text is not found where its first byte is not.
pub index-append :
    (x : ℕ) (sub before s : Bytes) (k : ℕ)
    → All (λ y. y ≢ x) before
    → index s (x ∷ sub) ≡ some k
    → index (before ++ s) (x ∷ sub) ≡ some (length before + k)
unfolding index has_prefix
index-append x sub [] s k h found = ground (arith, found)
index-append x sub (y ∷ before) s k h found =
    ground (arith, index-append x sub before s k h.1 found)

pub index_absent : (x : ℕ) (sub s : Bytes) → All (λ y. y ≢ x) s → index s (x ∷ sub) ≡ none
unfolding index has_prefix
index_absent x sub [] h = refl
index_absent x sub (y ∷ s) h = ground (arith, index_absent x sub s h.1)

-- A text is found where it stands at the start.
pub index-here : (x : ℕ) (sub after : Bytes) → index ((x ∷ sub) ++ after) (x ∷ sub) ≡ some 0
unfolding index
index-here x sub after = ground (arith, has_prefix-append (x ∷ sub) after)

-- The index of a byte splits the text at the first one.
pub index-byte :
    (x : ℕ) (s : Bytes) (k : ℕ)
    → index s (x ∷ []) ≡ some k
    → (before : Bytes) × (after : Bytes) × (s ≡ before ++ (x ∷ after)) × All (λ y. y ≢ x) before
unfolding index has_prefix
index-byte x [] k h = absurd cc
index-byte x (c ∷ s) k h = elim (Bool-cases (eqb x c)) [
  | inl here ↦ let same : c ≡ x = ground (arith, here) in ([], s, ap (λ y. y ∷ s) same, tt)
  | inr e ↦ elim (Option-cases (index s (x ∷ []))) [
    | inl absent ↦ absurd (ground (arith, h, e, absent))
    | inr (i, found) ↦
        let (before, after, split, free) = index-byte x s i found in
        (c ∷ before, after, ap (λ t. c ∷ t) split, (ground (arith, e), free))
  ]
]
