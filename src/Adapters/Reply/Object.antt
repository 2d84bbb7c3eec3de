-- ===== src/Adapters/Reply/Object.antt =====
-- extractJSONObject of internal/oracle/adapter_minimax.go finds exactly the first brace and its
-- partner. It counts braces only: those inside JSON strings count as well.
use mathlib.Core.List.{append_assoc}
use meshyants.Base.{
  ℕ, zero, suc, ◌+◌, ◌-◌, ◌≡◌, ◌≢◌, ◌↔◌, refl, sym, ap, subst, ◌∙◌, Bytes, eqb, Bool-cases, inl,
  inr, false, Option, Option-cases, none, some, [], ◌∷◌, ◌++◌, All, drop-length_add, arith,
}
use meshyants.Text.Index.{index, index-append, index-here, index-byte}
use meshyants.Adapters.Reply.{before_rest, scan_object, extract_json_object}

-- Texts in which the braces match.
pub data Matched : Bytes → Type 0 where
  nothing : Matched []
  other : {c : ℕ} {s : Bytes} → c ≢ b'{' → c ≢ b'}' → Matched s → Matched (c ∷ s)
  nested : {s t : Bytes} → Matched s → Matched t → Matched ((b'{' ∷ s) ++ (b'}' ∷ t))

-- What closes `d` braces: texts that match, with a closing brace after each.
abbrev pub Closes : ℕ → Bytes → Type 0
Closes zero r = r ≡ []
Closes (suc d) r = (s : Bytes) × (t : Bytes) × (r ≡ s ++ (b'}' ∷ t)) × Matched s × Closes d t

Closes-other :
    (d c : ℕ) (r : Bytes) → c ≢ b'{' → c ≢ b'}' → Closes (suc d) r → Closes (suc d) (c ∷ r)
Closes-other d c r h k (s, t, e, m, rest) = (c ∷ s, t, ap (λ x. c ∷ x) e, other h k m, rest)

Closes-open : (d : ℕ) (r : Bytes) → Closes (suc (suc d)) r → Closes (suc d) (b'{' ∷ r)
Closes-open d r (s, t, e, m, (s', t', e', m', rest)) = (
  (b'{' ∷ s) ++ (b'}' ∷ s'),
  t',
  cc (e, e', append_assoc s (b'}' ∷ s') (b'}' ∷ t')),
  nested m m',
  rest,
)

scan_object_open :
    (d : ℕ) (s : Bytes)
    → scan_object (suc d) (b'{' ∷ s) ≡ before_rest b'{' (scan_object (suc (suc d)) s)
unfolding scan_object
scan_object_open d s =
    let e : suc d + 1 ≡ suc (suc d) = omega arith in ap (λ k. before_rest b'{' (scan_object k s)) e

scan_object_close :
    (d : ℕ) (s : Bytes)
    → scan_object (suc (suc d)) (b'}' ∷ s) ≡ before_rest b'}' (scan_object (suc d) s)
unfolding scan_object
scan_object_close d s =
    let deep : eqb (suc (suc d)) 1 ≡ false = ground arith in
    let e : suc (suc d) - 1 ≡ suc d = omega arith in
    rw (deep, scan_object) (ap (λ k. before_rest b'}' (scan_object k s)) e)

scan_object_last : (s : Bytes) → scan_object 1 (b'}' ∷ s) ≡ some (b'}' ∷ [])
unfolding scan_object
scan_object_last s = refl

scan_object_other :
    (d c : ℕ) (s : Bytes)
    → eqb c b'{' ≡ false
    → eqb c b'}' ≡ false
    → scan_object d (c ∷ s) ≡ before_rest c (scan_object d s)
unfolding scan_object
scan_object_other d c s e e' = rw (e, scan_object) (rw (e', scan_object) refl)

before_rest-eq-some :
    (c : ℕ) (o : Option Bytes) (r : Bytes)
    → before_rest c o ≡ some r
    → (q : Bytes) × (o ≡ some q) × (c ∷ q ≡ r)
before_rest-eq-some c none r h = absurd cc
before_rest-eq-some c (some q) r h = (q, refl, cc h)

-- What a scan takes closes its braces, and is where the text starts.
abbrev Taken : ℕ → Bytes → Bytes → Type 0
Taken d s r = Closes (suc d) r × ((rest : Bytes) × (s ≡ r ++ rest))

Taken-cons :
    (d e c : ℕ) (s : Bytes) (q r : Bytes)
    → Taken e s q
    → (Closes (suc e) q → Closes (suc d) (c ∷ q))
    → c ∷ q ≡ r
    → Taken d (c ∷ s) r
Taken-cons d e c s q r (k, (rest, at_s)) f same =
    subst (Taken d (c ∷ s)) same (f k, (rest, ap (λ x. c ∷ x) at_s))

Closes-close : (d : ℕ) (q : Bytes) → Closes (suc d) q → Closes (suc (suc d)) (b'}' ∷ q)
Closes-close d q h = ([], q, refl, nothing, h)

scan_close-Taken :
    (s : Bytes) (d : ℕ) (r : Bytes)
    → ((e : ℕ) (q : Bytes) → scan_object (suc e) s ≡ some q → Taken e s q)
    → scan_object (suc d) (b'}' ∷ s) ≡ some r
    → Taken d (b'}' ∷ s) r
scan_close-Taken s zero r onward h =
    let same : b'}' ∷ [] ≡ r = cc (sym (scan_object_last s) ∙ h) in
    subst (Taken zero (b'}' ∷ s)) same (([], [], refl, nothing, refl), (s, refl))
scan_close-Taken s (suc d) r onward h =
    let (q, found, same) =
      before_rest-eq-some b'}' (scan_object (suc d) s) r (sym (scan_object_close d s) ∙ h) in
    Taken-cons (suc d) d b'}' s q r (onward d q found) (Closes-close d q) same

scan_object-Taken : (s : Bytes) (d : ℕ) (r : Bytes) → scan_object (suc d) s ≡ some r → Taken d s r
unfolding scan_object
scan_object-Taken [] d r h = absurd cc
scan_object-Taken (c ∷ s) d r h = elim (Bool-cases (eqb c b'{')) [
  | inl is_open ↦
      let at_c : b'{' ≡ c = ground (arith, is_open) in
      let (q, found, same) =
        before_rest-eq-some b'{' (scan_object (suc (suc d)) s) r
          (sym (scan_object_open d s) ∙ ap (λ x. scan_object (suc d) (x ∷ s)) at_c ∙ h) in
      subst (λ x. Taken d (x ∷ s) r) at_c
        (Taken-cons d (suc d) b'{' s q r (scan_object-Taken s (suc d) q found) (Closes-open d q)
          same)
  | inr e ↦ elim (Bool-cases (eqb c b'}')) [
    | inl is_close ↦
        let at_c : b'}' ≡ c = ground (arith, is_close) in
        subst (λ x. Taken d (x ∷ s) r) at_c
          (scan_close-Taken s d r (scan_object-Taken s)
            (ap (λ x. scan_object (suc d) (x ∷ s)) at_c ∙ h))
    | inr e' ↦
        let (q, found, same) =
          before_rest-eq-some c (scan_object (suc d) s) r
            (sym (scan_object_other (suc d) c s e e') ∙ h) in
        Taken-cons d d c s q r (scan_object-Taken s d q found)
          (Closes-other d c q (ground (arith, e)) (ground (arith, e'))) same
  ]
]

-- A scan passes over what matches.
scan_object-Matched :
    {m : Bytes}
    → Matched m
    → (d : ℕ) (t r : Bytes) → scan_object (suc d) t ≡ some r
    → scan_object (suc d) (m ++ t) ≡ some (m ++ r)
scan_object-Matched nothing d t r h = h
scan_object-Matched (other {c} {s} e e' m) d t r h =
    scan_object_other (suc d) c (s ++ t) (ground (arith, e)) (ground (arith, e'))
    ∙ ap (before_rest c) (scan_object-Matched m d t r h)
scan_object-Matched (nested {s} {t = n} m m') d t r h =
    ap (λ x. scan_object (suc d) (b'{' ∷ x)) (append_assoc s (b'}' ∷ n) t)
    ∙ scan_object_open d (s ++ (b'}' ∷ (n ++ t)))
    ∙ ap (before_rest b'{') (
        scan_object-Matched m (suc d) (b'}' ∷ (n ++ t)) (b'}' ∷ (n ++ r))
          (scan_object_close d (n ++ t) ∙ ap (before_rest b'}') (scan_object-Matched m' d t r h)))
    ∙ ap (λ x. some (b'{' ∷ x)) (sym (append_assoc s (b'}' ∷ n) r))

-- The spec of the whole: the first brace with its partner and what stands between.
abbrev pub IsObject : Bytes → Type 0
IsObject r = (m : Bytes) × (r ≡ b'{' ∷ (m ++ (b'}' ∷ []))) × Matched m

scan_start : (s : Bytes) → scan_object 0 (b'{' ∷ s) ≡ before_rest b'{' (scan_object 1 s)
unfolding scan_object
scan_start s = refl

extract_at :
    (before s : Bytes)
    → All (λ y. y ≢ b'{') before
    → extract_json_object (before ++ (b'{' ∷ s)) ≡ before_rest b'{' (scan_object 1 s)
unfolding extract_json_object
extract_at before s h =
    rw (index-append b'{' [] before (b'{' ∷ s) 0 h (index-here b'{' [] s))
      (rw (drop-length_add before 0 (b'{' ∷ s)) (scan_start s))

-- What `extract_json_object_iff` says that an object is.
abbrev pub FirstObject : Bytes → Bytes → Type 0
FirstObject s r =
    (before : Bytes) × (after : Bytes) × (s ≡ before ++ (r ++ after))
    × All (λ y. y ≢ b'{') before
    × IsObject r

extract-FirstObject : (s r : Bytes) → extract_json_object s ≡ some r → FirstObject s r
unfolding extract_json_object
extract-FirstObject s r h = elim (Option-cases (index s (b'{' ∷ []))) [
  | inl absent ↦ absurd (ground (arith, h, absent))
  | inr (k, found) ↦
      let (before, after, split, free) = index-byte b'{' s k found in
      let (q, scanned, same) =
        before_rest-eq-some b'{' (scan_object 1 after) r
          (sym (extract_at before after free) ∙ ap extract_json_object (sym split) ∙ h) in
      let ((m, t, closed, matched, ends), (rest, taken)) = scan_object-Taken after 0 q scanned in
      (before, rest, cc (split, taken, same), free, (m, cc (same, closed, ends), matched))
]

FirstObject-extract : (s r : Bytes) → FirstObject s r → extract_json_object s ≡ some r
FirstObject-extract s r (before, after, split, free, (m, is_r, matched)) =
    let tail : s ≡ before ++ (b'{' ∷ (m ++ (b'}' ∷ after))) =
      split
      ∙ ap (λ x. before ++ (x ++ after)) is_r
      ∙ ap (λ x. before ++ (b'{' ∷ x)) (append_assoc m (b'}' ∷ []) after) in
    ap extract_json_object tail
    ∙ extract_at before (m ++ (b'}' ∷ after)) free
    ∙ ap (before_rest b'{')
        (scan_object-Matched matched 0 (b'}' ∷ after) (b'}' ∷ []) (scan_object_last after))
    ∙ ap some (sym is_r)

-- extractJSONObject returns a text exactly if it stands in its argument, starts at the first opening
-- brace there, and ends at the closing brace that matches that one, by the count of braces alone.
pub extract_json_object_iff : (s r : Bytes) → (extract_json_object s ≡ some r) ↔ FirstObject s r
extract_json_object_iff s r = (extract-FirstObject s r, FirstObject-extract s r)
