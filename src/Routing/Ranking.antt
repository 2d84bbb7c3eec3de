-- ===== src/Routing/Ranking.antt =====
-- The exchange sort of internal/routing/routing.go.
use mathlib.Core.List.{Perm}
use mathlib.Core.List.Perm
use meshyants.Base.{
  ℕ, zero, suc, ◌+◌, ◌-◌, ◌≤◌, ◌≡◌, inl, inr, refl, ltb, Bool-cases, List, [], ◌∷◌, All, length,
  arith,
}
use meshyants.Routing.{RouteTarget, sweep, exchange, sort_by_score}

sweep-Perm :
    (x : RouteTarget) (ys : List RouteTarget) → Perm (x ∷ ys) ((sweep x ys).0 ∷ (sweep x ys).1)
unfolding sweep
sweep-Perm x [] = Perm.refl (x ∷ [])
sweep-Perm x (y ∷ ys) = elim (Bool-cases (ltb x.score y.score)) [
  | inl less ↦
      rw less
        (Perm.trans (Perm.cons x (sweep-Perm y ys)) (Perm.swap (sweep y ys).0 x (sweep y ys).1))
  | inr not_less ↦ rw not_less (
      Perm.trans (Perm.swap y x ys)
        (Perm.trans (Perm.cons y (sweep-Perm x ys)) (Perm.swap (sweep x ys).0 y (sweep x ys).1)))
]

exchange-Perm : (n : ℕ) (t : List RouteTarget) → Perm t (exchange n t)
unfolding exchange
exchange-Perm zero t = Perm.refl t
exchange-Perm (suc n) [] = Perm.refl []
exchange-Perm (suc n) (x ∷ t) =
    Perm.trans (sweep-Perm x t) (Perm.cons (sweep x t).0 (exchange-Perm n (sweep x t).1))

module _ {κ} (P : RouteTarget → Type κ) where
  pub sweep-All :
      (x : RouteTarget) (ys : List RouteTarget)
      → P x
      → All P ys
      → P (sweep x ys).0 × All P (sweep x ys).1
  unfolding sweep
  sweep-All x [] p ps = (p, tt)
  sweep-All x (y ∷ ys) p (q, qs) = elim (Bool-cases (ltb x.score y.score)) [
    | inl less ↦ let (b, r) = sweep-All y ys q qs in rw less (b, (p, r))
    | inr not_less ↦ let (b, r) = sweep-All x ys p qs in rw not_less (b, (q, r))
  ]

  pub exchange-All : (n : ℕ) (t : List RouteTarget) → All P t → All P (exchange n t)
  unfolding exchange
  exchange-All zero t ps = ps
  exchange-All (suc n) [] ps = ps
  exchange-All (suc n) (x ∷ t) (p, ps) =
      let (b, r) = sweep-All x t p ps in (b, exchange-All n (sweep x t).1 r)

-- `best` scores at least as high as what follows it.
abbrev pub IsBest : RouteTarget → RouteTarget → Type 0
IsBest best t = t.score ≤ best.score

weaken-IsBest :
    (a b : RouteTarget) (ts : List RouteTarget)
    → a.score ≤ b.score
    → All (IsBest a) ts
    → All (IsBest b) ts
weaken-IsBest a b [] h ps = tt
weaken-IsBest a b (t ∷ ts) h (p, ps) = (omega arith, weaken-IsBest a b ts h ps)

sweep-IsBest :
    (x : RouteTarget) (ys : List RouteTarget)
    → (x.score ≤ (sweep x ys).0.score)
      × All (IsBest (sweep x ys).0) (sweep x ys).1
      × (length (sweep x ys).1 ≡ length ys)
unfolding sweep
sweep-IsBest x [] = (omega arith, tt, refl)
sweep-IsBest x (y ∷ ys) = elim (Bool-cases (ltb x.score y.score)) [
  | inl less ↦
      let (b, r, n) = sweep-IsBest y ys in
      rw less (ground (arith, b), (ground (arith, b), r), omega (arith, n))
  | inr not_less ↦
      let (b, r, n) = sweep-IsBest x ys in rw not_less (b, (ground (arith, b), r), omega (arith, n))
]

-- Scores never rise.
abbrev pub Descending : List RouteTarget → Type 0
Descending [] = Unit {0}
Descending (t ∷ ts) = All (IsBest t) ts × Descending ts

exchange-Descending : (n : ℕ) (t : List RouteTarget) → length t ≤ n + 1 → Descending (exchange n t)
unfolding exchange
exchange-Descending zero [] h = tt
exchange-Descending zero (x ∷ []) h = (tt, tt)
exchange-Descending zero (x ∷ (y ∷ t)) h = ground arith
exchange-Descending (suc n) [] h = tt
exchange-Descending (suc n) (x ∷ t) h =
    let (b, r, k) = sweep-IsBest x t in
    (
      exchange-All (IsBest (sweep x t).0) n (sweep x t).1 r,
      exchange-Descending n (sweep x t).1 (omega (arith, k)),
    )

-- sortByScore rearranges the targets, no more and no less, so that scores never rise.
pub sort_by_score-Descending :
    (t : List RouteTarget) → Perm t (sort_by_score t) × Descending (sort_by_score t)
unfolding sort_by_score
sort_by_score-Descending t =
    (exchange-Perm (length t - 1) t, exchange-Descending (length t - 1) t (omega arith))
