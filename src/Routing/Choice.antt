-- ===== src/Routing/Choice.antt =====
-- Which nodes `Route` of internal/routing/routing.go names, and in which order.
use meshyants.Base.{
  ℕ, zero, suc, ◌+◌, ◌-◌, ◌≤◌, ◌≡◌, ◌≢◌, ◌⊎◌, inl, inr, refl, sym, ap, subst, ◌∙◌, Bytes, list_eq,
  nat_eq, ◌==◌, eq_of_==, ==-refl, ne_of_==, lookup, IsMap, ok, err, ltb, Bool, Bool-cases,
  is_empty, is_empty_iff, true, false, Option, none, some, List, [], ◌∷◌, map, All, length, arith,
}
use meshyants.Contracts.{CapabilityAdvertisement, TaskAtom}
use meshyants.Routing.{
  no_capable_nodes, Items, RouteTarget, targets_for, sweep, exchange, sort_by_score, node_of, route,
}
use meshyants.Routing.Ranking.{Descending, sort_by_score-Descending, exchange-All}

-- The node is in the trust domain and its queue is at most 40 deep.
abbrev pub IsEligible : Bytes → CapabilityAdvertisement → Type 0
IsEligible domain cap = (cap.trust_domain ≡ domain) × (cap.queue_depth ≤ 40)

-- A target stands for an eligible advertisement of the store.
abbrev pub Offers : Bytes → Items → RouteTarget → Type 0
Offers domain items t =
    (cap : CapabilityAdvertisement) × (lookup t.node_id items ≡ some (some cap))
    × IsEligible domain cap
    × (t.score + cap.queue_depth ≡ 50)

-- No advertisement of the store is nil.
abbrev pub IsFilled : Items → Type 0
IsFilled [] = Unit {0}
IsFilled ((node_id, none) ∷ items) = ⊥
IsFilled ((node_id, some cap) ∷ items) = IsFilled items

-- One of the targets is the node.
abbrev pub Names : Bytes → List RouteTarget → Type 0
Names node_id [] = ⊥
Names node_id (t ∷ ts) = (t.node_id ≡ node_id) ⊎ Names node_id ts

Offers-later :
    (domain j : Bytes) (cap : Option CapabilityAdvertisement) (items : Items)
    (ts : List RouteTarget)
    → lookup j items ≡ none
    → All (Offers domain items) ts
    → All (Offers domain ((j, cap) ∷ items)) ts
unfolding lookup
Offers-later domain j cap items [] h p = tt
Offers-later domain j cap items (t ∷ ts) h ((c, at_t, e, k), ps) =
    elim (Bool-cases (j == t.node_id)) [
      | inl same ↦
          let key = eq_of_== j t.node_id same in
          absurd (ground (arith, sym (ap (λ k. lookup k items) key) ∙ h, at_t))
      | inr other ↦ ((c, rw other at_t, e, k), Offers-later domain j cap items ts h ps)
    ]

-- What the loop over the store collects: eligible advertisements, and all of them.
abbrev pub IsScan : Bytes → Items → List RouteTarget → Type 0
IsScan domain items ts =
    All (Offers domain items) ts
    × ((id : Bytes) (cap : CapabilityAdvertisement)
        → lookup id items ≡ some (some cap)
        → IsEligible domain cap
        → Names id ts)

IsScan-skip :
    (domain j : Bytes) (cap : CapabilityAdvertisement) (items : Items) (ts : List RouteTarget)
    → lookup j items ≡ none
    → ¬ (IsEligible domain cap)
    → IsScan domain items ts
    → IsScan domain ((j, some cap) ∷ items) ts
unfolding lookup
IsScan-skip domain j cap items ts h out (sound, complete) = (
  Offers-later domain j (some cap) items ts h sound,
  λ id c at_id fits. elim (Bool-cases (j == id)) [
    | inl same ↦
        let here : cap ≡ c = ground arith in
        absurd (out (subst (IsEligible domain) (sym here) fits))
    | inr other ↦ complete id c (ground arith) fits
  ],
)

abbrev pub target_of : Bytes → CapabilityAdvertisement → RouteTarget
target_of node_id cap = record {
  node_id = node_id;
  queue_depth = cap.queue_depth;
  score = 50 - cap.queue_depth;
}

IsScan-take :
    (domain j : Bytes) (cap : CapabilityAdvertisement) (items : Items) (ts : List RouteTarget)
    → lookup j items ≡ none
    → IsEligible domain cap
    → IsScan domain items ts
    → IsScan domain ((j, some cap) ∷ items) (target_of j cap ∷ ts)
unfolding lookup
IsScan-take domain j cap items ts h fits (sound, complete) = (
  (
    (cap, rw (==-refl j) refl, fits, omega (arith, fits.1)),
    Offers-later domain j (some cap) items ts h sound,
  ),
  λ id c at_id e. elim (Bool-cases (j == id)) [
    | inl same ↦ inl (eq_of_== j id same)
    | inr other ↦ inr (complete id c (ground arith) e)
  ],
)

targets_for-IsScan :
    (domain : Bytes) (items : Items)
    → IsMap items
    → IsFilled items
    → (ts : List RouteTarget) × (targets_for domain items ≡ ok ts) × IsScan domain items ts
unfolding targets_for lookup
targets_for-IsScan domain [] m f = ([], refl, (tt, λ id cap h e. ground arith))
targets_for-IsScan domain ((j, none) ∷ items) m f = elim f [ ]
targets_for-IsScan domain ((j, some cap) ∷ items) m f =
    let (ts, found, scan) = targets_for-IsScan domain items m.1 f in
    elim (Bool-cases (cap.trust_domain == domain)) [
      | inl same ↦ elim (Bool-cases (ltb 40 cap.queue_depth)) [
        | inl full ↦ (
          ts,
          rw same (rw (full, found) refl),
          IsScan-skip domain j cap items ts m.0 (λ e. ground (arith, e.1)) scan,
        )
        | inr free ↦ (
          target_of j cap ∷ ts,
          rw same (rw (free, found) refl),
          IsScan-take domain j cap items ts m.0
              (eq_of_== cap.trust_domain domain same, ground arith) scan,
        )
      ]
      | inr other ↦ (
        ts,
        rw other (rw found refl),
        IsScan-skip domain j cap items ts m.0 (λ e. ne_of_== cap.trust_domain domain other e.0)
            scan,
      )
    ]

sweep-Names :
    (id : Bytes) (x : RouteTarget) (ys : List RouteTarget)
    → Names id (x ∷ ys)
    → Names id ((sweep x ys).0 ∷ (sweep x ys).1)
unfolding sweep
sweep-Names id x [] h = h
sweep-Names id x (y ∷ ys) h = elim (Bool-cases (ltb x.score y.score)) [
  | inl less ↦ rw less (ground (arith, sweep-Names id y ys))
  | inr not_less ↦ rw not_less (ground (arith, sweep-Names id x ys))
]

exchange-Names : (id : Bytes) (n : ℕ) (t : List RouteTarget) → Names id t → Names id (exchange n t)
unfolding exchange
exchange-Names id zero t h = h
exchange-Names id (suc n) [] h = h
exchange-Names id (suc n) (x ∷ t) h = elim (sweep-Names id x t h) [
  | inl here ↦ inl here
  | inr later ↦ inr (exchange-Names id n (sweep x t).1 later)
]

sorted_nonempty : (x : RouteTarget) (t : List RouteTarget) → sort_by_score (x ∷ t) ≢ []
unfolding sort_by_score
sorted_nonempty x t e =
    subst (Names x.node_id) e (exchange-Names x.node_id (length (x ∷ t) - 1) (x ∷ t) (inl refl))

nonempty : (ts : List RouteTarget) → is_empty ts ≡ false → sort_by_score ts ≢ []
nonempty [] h = ground arith
nonempty (x ∷ t) h = sorted_nonempty x t

sorted-IsScan :
    (domain : Bytes) (items : Items) (ts : List RouteTarget)
    → IsScan domain items ts
    → IsScan domain items (sort_by_score ts)
unfolding sort_by_score
sorted-IsScan domain items ts (sound, complete) = (
  exchange-All (Offers domain items) (length ts - 1) ts sound,
  λ id c at_id e. exchange-Names id (length ts - 1) ts (complete id c at_id e),
)

-- For requirements that parse, whatever they ask for, and a store without nil advertisements, Route
-- fails for want of nodes where no advertisement is eligible, and otherwise returns the nodes of the
-- eligible advertisements, all of them and no other, those with a shorter queue first. Eligible is
-- what is in the task's trust domain with a queue of at most 40: tier, transport and resources do not count.
pub route_ranked :
    (parses : Bytes → Bool) (items : Items) (task : TaskAtom)
    → parses task.requirements_json ≡ true
    → IsMap items
    → IsFilled items
    → ((route parses items task ≡ err no_capable_nodes)
        × ((id : Bytes) (cap : CapabilityAdvertisement)
            → lookup id items ≡ some (some cap)
            → ¬ (IsEligible task.trust_domain cap)))
      ⊎ ((ts : List RouteTarget) × (route parses items task ≡ ok (map node_of ts))
          × (ts ≢ [])
          × Descending ts
          × IsScan task.trust_domain items ts)
unfolding route
route_ranked parses items task p m f =
    let (ts, found, (sound, complete)) = targets_for-IsScan task.trust_domain items m f in
    elim (Bool-cases (is_empty ts)) [
      | inl none_found ↦
          let no_targets : ts ≡ [] = (is_empty_iff ts).0 none_found in
          inl (
            rw p (rw found (rw none_found refl)),
            λ id c at_id e. subst (Names id) no_targets (complete id c at_id e),
          )
      | inr some_found ↦ inr (
        sort_by_score ts,
        rw p (rw found (rw some_found refl)),
        nonempty ts some_found,
        (sort_by_score-Descending ts).1,
        sorted-IsScan task.trust_domain items ts (sound, complete),
      )
    ]
