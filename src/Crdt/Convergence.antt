-- ===== src/Crdt/Convergence.antt =====
-- What the last-write-wins merge of internal/crdt/crdt.go promises to replicas: the latest value of
-- each key, whatever the order of exchange, as long as no two values of a key share a timestamp.
use native.Mathlib.Nat.{le_trans}
use meshyants.Base.{
  Option-cases, Bytes, ◌≡◌, ◌≢◌, ◌≤◌, ◌⊎◌, refl, sym, ap, ◌∙◌, Map, lookup, IsMap, list_eq, nat_eq,
  ltb, ◌↔◌, Bool-cases, Option, inl, inr, none, some, List, [], ◌∷◌, arith, All,
}
use meshyants.Contracts.{Instant}
use meshyants.Crdt.{
  copy_into, merge_values, PheromoneEntry, PheromoneSummary, any_pheromone, merge_pheromone,
}
use meshyants.Crdt.Lww.{newest, lookup-copy_into, copy_into-IsMap, lookup-overlay, overlay-IsMap}

module _ {V : Type 0} (time : V → Instant) where
  -- In the merge of two summaries each key holds the later of its two values, or the only one.
  lookup-merge_values :
      (k : Bytes) (m o : Map Bytes V)
      → IsMap m
      → IsMap o
      → lookup k (merge_values time m o) ≡ newest time (lookup k m) (lookup k o)
  unfolding merge_values lookup
  lookup-merge_values k m o h g =
      ground (arith, lookup-overlay time k o (copy_into m []) g, lookup-copy_into k m [] h)

  merge_values-IsMap : (m o : Map Bytes V) → IsMap (merge_values time m o)
  unfolding merge_values
  merge_values-IsMap m o = overlay-IsMap time o (copy_into m []) (copy_into-IsMap m [] tt)

  -- A replica that merges what it receives, one summary after the other.
  unfoldable pub gossip : Map Bytes V → List (Map Bytes V) → Map Bytes V
  gossip a [] = a
  gossip a (m ∷ ms) = gossip (merge_values time a m) ms

  -- `v` is the value of `k` in one of the summaries.
  abbrev pub Held : Bytes → V → List (Map Bytes V) → Type 0
  Held k v [] = ⊥
  Held k v (m ∷ ms) = (lookup k m ≡ some v) ⊎ Held k v ms

  later_held : (x y : Option V) (v : V) → newest time x y ≡ some v → (x ≡ some v) ⊎ (y ≡ some v)
  later_held x y v h = ground arith

  later_bounds :
      (x y : Option V) (w : V)
      → (x ≡ some w) ⊎ (y ≡ some w)
      → (v : V) × (newest time x y ≡ some v) × (time w ≤ time v)
  later_bounds none none w h = ground arith
  later_bounds none (some y) w h = (y, refl, ground arith)
  later_bounds (some x) none w h = (x, refl, ground arith)
  later_bounds (some x) (some y) w h = elim (Bool-cases (ltb (time x) (time y))) [
    | inl b ↦ (y, rw b, ground arith)
    | inr b ↦ (x, rw b, ground arith)
  ]

  gossip-Held :
      (k : Bytes) (v : V) (a : Map Bytes V) (ms : List (Map Bytes V))
      → IsMap a
      → All IsMap ms
      → lookup k (gossip a ms) ≡ some v
      → Held k v (a ∷ ms)
  unfolding gossip
  gossip-Held k v a [] ha hs h = inl h
  gossip-Held k v a (m ∷ ms) ha hs h =
      elim (gossip-Held k v (merge_values time a m) ms (merge_values-IsMap a m) hs.1 h) [
        | inl e ↦
            elim (later_held (lookup k a) (lookup k m) v
              (sym (lookup-merge_values k a m ha hs.0) ∙ e)) [
                | inl first ↦ inl first
                | inr second ↦ inr (inl second)
              ]
        | inr later ↦ inr (inr later)
      ]

  gossip_upper :
      (k : Bytes) (v w : V) (a : Map Bytes V) (ms : List (Map Bytes V))
      → IsMap a
      → All IsMap ms
      → lookup k (gossip a ms) ≡ some v
      → Held k w (a ∷ ms)
      → time w ≤ time v
  unfolding gossip
  gossip_upper k v w a [] ha hs h (inl e) = let same : w ≡ v = cc in omega (arith, ap time same)
  gossip_upper k v w a [] ha hs h (inr nowhere) = elim nowhere [ ]
  gossip_upper k v w a (m ∷ ms) ha hs h (inl e) =
      let (x, now, below) = later_bounds (lookup k a) (lookup k m) w (inl e) in
      le_trans below (
        gossip_upper k v x (merge_values time a m) ms (merge_values-IsMap a m) hs.1 h
          (inl (lookup-merge_values k a m ha hs.0 ∙ now)))
  gossip_upper k v w a (m ∷ ms) ha hs h (inr (inl e)) =
      let (x, now, below) = later_bounds (lookup k a) (lookup k m) w (inr e) in
      le_trans below (
        gossip_upper k v x (merge_values time a m) ms (merge_values-IsMap a m) hs.1 h
          (inl (lookup-merge_values k a m ha hs.0 ∙ now)))
  gossip_upper k v w a (m ∷ ms) ha hs h (inr (inr later)) =
      gossip_upper k v w (merge_values time a m) ms (merge_values-IsMap a m) hs.1 h (inr later)

  -- A replica that has merged any sequence of summaries holds, at each key that it holds, a value of
  -- one of them, and none of them holds a later one.
  pub gossip_latest :
      (k : Bytes) (v : V) (a : Map Bytes V) (ms : List (Map Bytes V))
      → IsMap a
      → All IsMap ms
      → lookup k (gossip a ms) ≡ some v
      → Held k v (a ∷ ms) × ((w : V) → Held k w (a ∷ ms) → time w ≤ time v)
  gossip_latest k v a ms ha hs h =
      (gossip-Held k v a ms ha hs h, λ w. gossip_upper k v w a ms ha hs h)

  gossip_keeps :
      (k : Bytes) (w : V) (a : Map Bytes V) (ms : List (Map Bytes V))
      → IsMap a
      → All IsMap ms
      → Held k w (a ∷ ms)
      → (v : V) × (lookup k (gossip a ms) ≡ some v)
  unfolding gossip
  gossip_keeps k w a [] ha hs (inl e) = (w, e)
  gossip_keeps k w a [] ha hs (inr nowhere) = elim nowhere [ ]
  gossip_keeps k w a (m ∷ ms) ha hs (inl e) =
      let (x, now, below) = later_bounds (lookup k a) (lookup k m) w (inl e) in
      gossip_keeps k x (merge_values time a m) ms (merge_values-IsMap a m) hs.1
        (inl (lookup-merge_values k a m ha hs.0 ∙ now))
  gossip_keeps k w a (m ∷ ms) ha hs (inr (inl e)) =
      let (x, now, below) = later_bounds (lookup k a) (lookup k m) w (inr e) in
      gossip_keeps k x (merge_values time a m) ms (merge_values-IsMap a m) hs.1
        (inl (lookup-merge_values k a m ha hs.0 ∙ now))
  gossip_keeps k w a (m ∷ ms) ha hs (inr (inr later)) =
      gossip_keeps k w (merge_values time a m) ms (merge_values-IsMap a m) hs.1 (inr later)

  absent_too :
      (k : Bytes) (a b : Map Bytes V) (ms ns : List (Map Bytes V))
      → IsMap a
      → IsMap b
      → All IsMap ms
      → All IsMap ns
      → ((x : V) → Held k x (b ∷ ns) → Held k x (a ∷ ms))
      → lookup k (gossip a ms) ≡ none
      → lookup k (gossip b ns) ≡ none
  absent_too k a b ms ns ha hb hs gs same p = elim (Option-cases (lookup k (gossip b ns))) [
    | inl q ↦ q
    | inr (w, q) ↦
        let (v, here) = gossip_keeps k w a ms ha hs (same w (gossip-Held k w b ns hb gs q)) in
        absurd (ground (arith, here, p))
  ]

  -- Two replicas that start from and receive summaries with the same values at a key, in whatever
  -- order and repetition, hold the same at the key, if no two of the values have one timestamp.
  pub gossip_converges :
      (k : Bytes) (a b : Map Bytes V) (ms ns : List (Map Bytes V))
      → IsMap a
      → IsMap b
      → All IsMap ms
      → All IsMap ns
      → ((x : V) → Held k x (a ∷ ms) ↔ Held k x (b ∷ ns))
      → ((x y : V) → Held k x (a ∷ ms) → Held k y (a ∷ ms) → time x ≡ time y → x ≡ y)
      → lookup k (gossip a ms) ≡ lookup k (gossip b ns)
  gossip_converges k a b ms ns ha hb hs gs same no_ties =
      elim (Option-cases (lookup k (gossip a ms))) [
        | inl p ↦ p ∙ sym (absent_too k a b ms ns ha hb hs gs (λ x. (same x).1) p)
        | inr (v, p) ↦
            let (held_v, above_v) = gossip_latest k v a ms ha hs p in
            let (w, q) = gossip_keeps k v b ns hb gs ((same v).0 held_v) in
            let (held_w, above_w) = gossip_latest k w b ns hb gs q in
            let seen_w = (same w).1 held_w in
            let one : v ≡ w =
              no_ties v w held_v seen_w
                (omega (arith, above_v w seen_w, above_w v ((same v).0 held_v))) in
            p ∙ ap some one ∙ sym q
      ]

abbrev issued : PheromoneEntry → Instant
issued v = v.issued_at

keeps_first :
    (k : Bytes) (a b : PheromoneSummary) (x y : PheromoneEntry)
    → IsMap a
    → IsMap b
    → lookup k a ≡ some x
    → lookup k b ≡ some y
    → x.issued_at ≡ y.issued_at
    → lookup k (merge_pheromone a (any_pheromone b)) ≡ some x
unfolding merge_pheromone
keeps_first k a b x y ha hb p q t =
    lookup-merge_values issued k a b ha hb ∙ rw (p, q) (ground arith)

-- Where two summaries hold different values of a key with one timestamp, each keeps its own: the two
-- replicas differ after they have merged each other.
pub merge_pheromone_tie :
    (k : Bytes) (a b : PheromoneSummary) (x y : PheromoneEntry)
    → IsMap a
    → IsMap b
    → lookup k a ≡ some x
    → lookup k b ≡ some y
    → x.issued_at ≡ y.issued_at
    → x ≢ y
    → lookup k (merge_pheromone a (any_pheromone b))
      ≢ lookup k (merge_pheromone b (any_pheromone a))
merge_pheromone_tie k a b x y ha hb p q t ne same =
    ne (cc (keeps_first k a b x y ha hb p q t, keeps_first k b a y x hb ha q p (sym t), same))
