-- ===== src/Text/Search.antt =====
-- `contains` finds a text exactly where it stands, and texts joined by a separator come apart in one
-- way only if the second part is free of it.
use meshyants.Base.{
  ℕ, Bytes, ◌≡◌, ◌≢◌, inl, inr, refl, subst, ap, true, Bool-cases, [], ◌∷◌, ◌++◌, All, arith,
}
use meshyants.Text.{has_prefix, contains}

-- `sub` stands somewhere in `s`.
abbrev pub StandsIn : Bytes → Bytes → Type 0
StandsIn sub s = (before : Bytes) × (after : Bytes) × (s ≡ before ++ (sub ++ after))

pub has_prefix-append : (p s : Bytes) → has_prefix p (p ++ s) ≡ true
unfolding has_prefix
has_prefix-append [] s = refl
has_prefix-append (c ∷ p) s = ground (arith, has_prefix-append p s)

rest_of_prefix : (p s : Bytes) → has_prefix p s ≡ true → (after : Bytes) × (s ≡ p ++ after)
unfolding has_prefix
rest_of_prefix [] s h = (s, refl)
rest_of_prefix (c ∷ p) [] h = ground arith
rest_of_prefix (c ∷ p) (d ∷ s) h =
    let (after, e) = rest_of_prefix p s (ground arith) in
    let same : c ≡ d = ground arith in (after, cc)

contains_of_prefix : (s sub : Bytes) → has_prefix sub s ≡ true → contains s sub ≡ true
unfolding contains
contains_of_prefix [] sub h = h
contains_of_prefix (c ∷ s) sub h = rw h

contains_after : (before sub after : Bytes) → contains (before ++ (sub ++ after)) sub ≡ true
unfolding contains
contains_after [] sub after = contains_of_prefix (sub ++ after) sub (has_prefix-append sub after)
contains_after (c ∷ before) sub after = ground (arith, contains_after before sub after)

pub contains-StandsIn : (s sub : Bytes) → StandsIn sub s → contains s sub ≡ true
contains-StandsIn s sub (before, after, e) = rw e (contains_after before sub after)

pub StandsIn-contains : (s sub : Bytes) → contains s sub ≡ true → StandsIn sub s
unfolding contains
StandsIn-contains [] sub h = let (after, e) = rest_of_prefix sub [] h in ([], after, e)
StandsIn-contains (c ∷ s) sub h = elim (Bool-cases (has_prefix sub (c ∷ s))) [
  | inl here ↦ let (after, e) = rest_of_prefix sub (c ∷ s) here in ([], after, e)
  | inr not_here ↦
      let (before, after, e) = StandsIn-contains s sub (ground arith) in
      (c ∷ before, after, ap (λ t. c ∷ t) e)
]

separator_stands : (sep : ℕ) (c d : Bytes) → ¬ (All (λ x. x ≢ sep) (c ++ (sep ∷ d)))
separator_stands sep [] d h = h.0 refl
separator_stands sep (x ∷ c) d h = separator_stands sep c d h.1

-- Two texts with a separator between them, the second one free of it.
pub join_injective :
    (sep : ℕ) (a b c d : Bytes)
    → All (λ x. x ≢ sep) b
    → All (λ x. x ≢ sep) d
    → a ++ (sep ∷ b) ≡ c ++ (sep ∷ d)
    → (a ≡ c) × (b ≡ d)
join_injective sep [] b [] d f g h = (refl, cc)
join_injective sep [] b (x ∷ c) d f g h =
    let e : b ≡ c ++ (sep ∷ d) = cc in
    absurd (separator_stands sep c d (subst (All (λ y. y ≢ sep)) e f))
join_injective sep (x ∷ a) b [] d f g h =
    let e : d ≡ a ++ (sep ∷ b) = cc in
    absurd (separator_stands sep a b (subst (All (λ y. y ≢ sep)) e g))
join_injective sep (x ∷ a) b (y ∷ c) d f g h =
    let head : x ≡ y = cc in let (p, q) = join_injective sep a b c d f g (cc h) in (cc p, q)
