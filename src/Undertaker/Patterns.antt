-- ===== src/Undertaker/Patterns.antt =====
-- What the loops of internal/undertaker/undertaker.go count and collect.
use mathlib.Core.List.{append_assoc, append-nil}
use meshyants.Base.{
  not, is_empty, leb, ◌&&◌, ◌+◌, ◌≡◌, ◌⊎◌, ◌↔◌, inl, inr, refl, sym, ap, ◌∙◌, Bytes, list_eq,
  nat_eq, ◌==◌, eq_of_==, ne_of_==, subst, ==-refl, Map, lookup, insert, has, lookup-insert, Bool,
  Bool-cases, Option-cases, true, false, Option, none, some, List, [], ◌∷◌, ◌++◌, length,
  length-append, if◌then◌else◌, arith,
}
use meshyants.Contracts.{Instant, TaskAtom}
use meshyants.Undertaker.{DlqEntry, IssuerCount, blamed, counted, or_new, patterns, uniq_from, uniq}

abbrev is_blamed : Bytes → Option Bytes → Bool
is_blamed j none = false
is_blamed j (some k) = k == j

-- The data is a task of the issuer `j`, which is not empty.
abbrev pub is_issuer : Bytes → Option TaskAtom → Bool
is_issuer j none = false
is_issuer j (some task) = not (is_empty task.issuer) && (task.issuer == j)

module _ (unmarshal : Bytes → Option TaskAtom) (window : Instant) where
  -- The entry is a failure of the issuer `j` that is not older than the window.
  abbrev pub is_failure_of : Bytes → DlqEntry → Bool
  is_failure_of j e = leb window e.enqueued_at && is_issuer j (unmarshal e.original_data)

  -- The reasons of the failures of issuer `j` in the window, in the order of the queue.
  unfoldable pub reasons_of : Bytes → List DlqEntry → List Bytes
  reasons_of j [] = []
  reasons_of j (e ∷ es) =
      let rest = reasons_of j es in if is_failure_of j e then e.reason ∷ rest else rest

  is_blamed-blamed :
      (j : Bytes) (e : DlqEntry) → is_failure_of j e ≡ is_blamed j (blamed unmarshal window e)
  unfolding blamed
  is_blamed-blamed j e = elim (Option-cases (unmarshal e.original_data)) [
    | inl nothing ↦ rw nothing (ground arith)
    | inr (task, at_data) ↦ rw at_data (ground arith)
  ]

  abbrev pub tally : Bytes → List Bytes → Option IssuerCount
  tally j [] = none
  tally j (r ∷ rs) = some (record { issuer = j; count = length (r ∷ rs); reasons = r ∷ rs })

  tally_more :
      (j r : Bytes) (rs : List Bytes)
      → some (counted r (or_new j (tally j rs))) ≡ tally j (rs ++ (r ∷ []))
  tally_more j r [] = refl
  tally_more j r (x ∷ rs) =
      let n : length (x ∷ rs) + 1 ≡ length (x ∷ (rs ++ (r ∷ []))) =
        omega (arith, length-append rs (r ∷ [])) in
      ap (λ k. some (record { issuer = j; count = k; reasons = x ∷ (rs ++ (r ∷ [])) })) n

  counted_once :
      (k j r : Bytes) (m : Map Bytes IssuerCount) (rs : List Bytes)
      → k ≡ j
      → lookup j m ≡ tally j rs
      → lookup j (insert k (counted r (or_new k (lookup k m))) m) ≡ tally j (rs ++ (r ∷ []))
  counted_once k j r m rs e h = rw e (
      lookup-insert j j (counted r (or_new j (lookup j m))) m
      ∙ rw (==-refl j) (rw h (tally_more j r rs)))

  patterns_from :
      (j : Bytes) (es : List DlqEntry) (m : Map Bytes IssuerCount) (rs : List Bytes)
      → lookup j m ≡ tally j rs
      → lookup j (patterns unmarshal window es m) ≡ tally j (rs ++ reasons_of j es)
  unfolding patterns reasons_of
  patterns_from j [] m rs h = h ∙ ap (tally j) (sym (append-nil rs))
  patterns_from j (e ∷ es) m rs h =
      rw (is_blamed-blamed j e) (elim (Option-cases (blamed unmarshal window e)) [
        | inl nobody ↦ rw nobody (patterns_from j es m rs h)
        | inr (k, at_k) ↦ elim (Bool-cases (k == j)) [
          | inl same ↦ rw at_k (
              rw same (
                patterns_from j es (insert k (counted e.reason (or_new k (lookup k m))) m)
                  (rs ++ (e.reason ∷ [])) (counted_once k j e.reason m rs (eq_of_== k j same) h)
                ∙ ap (tally j) (append_assoc rs (e.reason ∷ []) (reasons_of j es))))
          | inr other ↦ rw at_k (
              rw other (
                patterns_from j es (insert k (counted e.reason (or_new k (lookup k m))) m) rs
                  (lookup-insert k j (counted e.reason (or_new k (lookup k m))) m ∙ rw other h)))
        ]
      ])

  -- After the loop the pattern map holds, for every issuer with a failure in the window, the number and
  -- the reasons of all its failures there, in order, and nothing for any other issuer.
  pub patterns_exact :
      (j : Bytes) (es : List DlqEntry)
      → lookup j (patterns unmarshal window es []) ≡ tally j (reasons_of j es)
  unfolding lookup
  patterns_exact j es = patterns_from j es [] [] refl

abbrev pub Occurs : Bytes → List Bytes → Type 0
Occurs s [] = ⊥
Occurs s (x ∷ xs) = (x ≡ s) ⊎ Occurs s xs

abbrev pub NoRepeat : List Bytes → Type 0
NoRepeat [] = Unit {0}
NoRepeat (x ∷ xs) = ¬ (Occurs x xs) × NoRepeat xs

Occurs-snoc : (s x : Bytes) (xs : List Bytes) → Occurs s (xs ++ (x ∷ [])) ↔ (Occurs s xs ⊎ (x ≡ s))
Occurs-snoc s x [] = ground arith
Occurs-snoc s x (y ∷ xs) = ground (arith, Occurs-snoc s x xs)

NoRepeat-snoc :
    (x : Bytes) (xs : List Bytes) → NoRepeat xs → ¬ (Occurs x xs) → NoRepeat (xs ++ (x ∷ []))
NoRepeat-snoc x [] h n = ((λ o. o), tt)
NoRepeat-snoc x (y ∷ xs) (p, h) n = (
  λ o. elim ((Occurs-snoc y x xs).0 o) [ inl e ↦ p e | inr e ↦ n (inl (sym e)) ],
  NoRepeat-snoc x xs h (λ o. n (inr o)),
)

-- `seen` marks what `out` holds.
abbrev Marks : Map Bytes Bool → List Bytes → Type 0
Marks seen out = (s : Bytes) → (has s seen ≡ true) ↔ Occurs s out

Marks-more :
    (x : Bytes) (seen : Map Bytes Bool) (out : List Bytes)
    → Marks seen out
    → Marks (insert x true seen) (out ++ (x ∷ []))
unfolding has
Marks-more x seen out h s = elim (Bool-cases (x == s)) [
  | inl same ↦
      (λ _. (Occurs-snoc s x out).1 (inr (eq_of_== x s same)), λ _. rw (lookup-insert, same) refl)
  | inr other ↦
      ground (arith, lookup-insert x s true seen, Occurs-snoc s x out, h s, ne_of_== x s other)
]

nothing-Marks : Marks [] []
unfolding has lookup
nothing-Marks s = ground arith

again :
    (x s : Bytes) (ss out : List Bytes) {T : Type 0}
    → (T ↔ (Occurs s out ⊎ Occurs s ss))
    → Occurs x out
    → T ↔ (Occurs s out ⊎ Occurs s (x ∷ ss))
again x s ss out (to, fro) o = (
  λ t. elim (to t) [ inl e ↦ inl e | inr e ↦ inr (inr e) ],
  λ c. elim c [
    | inl e ↦ fro (inl e)
    | inr d ↦ elim d [ inl e ↦ fro (inl (subst (λ y. Occurs y out) e o)) | inr e ↦ fro (inr e) ]
  ],
)

uniq_kept :
    (ss : List Bytes) (seen : Map Bytes Bool) (out : List Bytes)
    → Marks seen out
    → NoRepeat out
    → NoRepeat (uniq_from ss seen out)
      × ((s : Bytes) → Occurs s (uniq_from ss seen out) ↔ (Occurs s out ⊎ Occurs s ss))
unfolding uniq_from
uniq_kept [] seen out m n = (n, λ s. ground arith)
uniq_kept (x ∷ ss) seen out m n = elim (Bool-cases (has x seen)) [
  | inl old ↦
      let (a, b) = uniq_kept ss seen out m n in
      rw old (a, λ s. again x s ss out (b s) ((m x).0 old))
  | inr new ↦
      let fresh : ¬ (Occurs x out) = λ o. ground (arith, (m x).1 o) in
      let (a, b) =
        uniq_kept ss (insert x true seen) (out ++ (x ∷ [])) (Marks-more x seen out m)
          (NoRepeat-snoc x out n fresh) in
      rw new (a, λ s. ground (arith, b s, Occurs-snoc s x out))
]

-- `uniq` repeats nothing, and holds what its argument holds.
pub uniq-NoRepeat :
    (ss : List Bytes) → NoRepeat (uniq ss) × ((s : Bytes) → Occurs s (uniq ss) ↔ Occurs s ss)
unfolding uniq
uniq-NoRepeat ss = let (a, b) = uniq_kept ss [] [] nothing-Marks tt in (a, λ s. ground (arith, b s))
