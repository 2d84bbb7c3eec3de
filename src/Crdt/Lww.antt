-- ===== src/Crdt/Lww.antt =====
-- The loops of internal/crdt/crdt.go, key by key.
use meshyants.Base.{
  Bytes, ◌≡◌, refl, sym, ap, ◌∙◌, Map, lookup, insert, lookup-insert, insert-IsMap, IsMap, list_eq,
  nat_eq, ◌==◌, eq_of_==, Bool-cases, inl, inr, ltb, Option, none, some, [], ◌∷◌, arith,
  if◌then◌else◌,
}
use meshyants.Contracts.{Instant}
use meshyants.Crdt.{copy_into, overlay, wins}

module _ {V : Type 0} where
  abbrev pub or_else : Option V → Option V → Option V
  or_else none y = y
  or_else (some x) y = some x

  -- The later of two values of one key; the first one where neither is later.
  abbrev pub newest : (V → Instant) → Option V → Option V → Option V
  newest time none y = y
  newest time (some x) none = some x
  newest time (some x) (some y) = if ltb (time x) (time y) then some y else some x

  pub lookup-copy_into :
      (k : Bytes) (m out : Map Bytes V)
      → IsMap m
      → lookup k (copy_into m out) ≡ or_else (lookup k m) (lookup k out)
  unfolding copy_into lookup
  lookup-copy_into k [] out h = refl
  lookup-copy_into k ((j, v) ∷ m) out h = elim (Bool-cases (j == k)) [
    | inl same ↦
        let absent : lookup k m ≡ none = sym (ap (λ x. lookup x m) (eq_of_== j k same)) ∙ h.0 in
        ground (arith, lookup-copy_into k m (insert j v out) h.1, lookup-insert j k v out, absent)
    | inr other ↦ ground (arith, lookup-copy_into k m (insert j v out) h.1, lookup-insert j k v out)
  ]

  pub copy_into-IsMap : (m out : Map Bytes V) → IsMap out → IsMap (copy_into m out)
  unfolding copy_into
  copy_into-IsMap [] out h = h
  copy_into-IsMap ((k, v) ∷ m) out h = copy_into-IsMap m (insert k v out) (insert-IsMap k v out h)

  pub lookup-overlay :
      (time : V → Instant) (k : Bytes) (o out : Map Bytes V)
      → IsMap o
      → lookup k (overlay time o out) ≡ newest time (lookup k out) (lookup k o)
  unfolding overlay lookup
  lookup-overlay time k [] out h = ground arith
  lookup-overlay time k ((j, v) ∷ o) out h =
      let w = wins time v (lookup j out) in
      let step = lookup-overlay time k o (if w then insert j v out else out) h.1 in
      elim (Bool-cases (j == k)) [
        | inl same ↦
            let key = eq_of_== j k same in
            let absent : lookup k o ≡ none = sym (ap (λ x. lookup x o) key) ∙ h.0 in
            let here : lookup j out ≡ lookup k out = ap (λ x. lookup x out) key in
            ground (arith, step, lookup-insert j k v out, absent, here)
        | inr other ↦ ground (arith, step, lookup-insert j k v out)
      ]

  pub overlay-IsMap :
      (time : V → Instant) (o out : Map Bytes V) → IsMap out → IsMap (overlay time o out)
  unfolding overlay
  overlay-IsMap time [] out h = h
  overlay-IsMap time ((k, v) ∷ o) out h = elim (Bool-cases (wins time v (lookup k out))) [
    | inl won ↦ rw won (overlay-IsMap time o (insert k v out) (insert-IsMap k v out h))
    | inr lost ↦ rw lost (overlay-IsMap time o out h)
  ]
