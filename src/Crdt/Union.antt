-- ===== src/Crdt/Union.antt =====
-- The capability summary of internal/crdt/crdt.go as sets: what a merge lists, and the keys that the
-- pheromone summary forms.
use mathlib.Core.List.{append_assoc}
use meshyants.Base.{
  ℕ, Bytes, ◌≡◌, ◌≢◌, ◌⊎◌, ◌↔◌, refl, Map, lookup, IsMap, list_eq, nat_eq, ◌==◌, Bool, Bool-cases,
  inl, inr, true, false, none, some, [], ◌∷◌, ◌++◌, arith, All, eq_of_==, list_beq,
}
use Prim.Native.Nat.{max}
use meshyants.Text.{Unicode, codes, to_lower, trim_space, trim_end, is_ascii, lower_byte}
use meshyants.Text.Search.{join_injective}
use meshyants.Merge.{allow_naive_crdt, is_allowed}
use meshyants.Crdt.{
  CapabilitySummary, copy_into, copy_capability, merge_capability, Any, any_capability, record_key,
  family,
}
use meshyants.Crdt.Lww.{lookup-copy_into}

-- The maps of the summary are sets: a key that stands in one has the value true.
abbrev pub IsSetMap : Map Bytes Bool → Type 0
IsSetMap m = IsMap m × ((k : Bytes) → lookup k m ≢ some false)

abbrev pub IsSummary : CapabilitySummary → Type 0
IsSummary c = IsSetMap c.tiers × IsSetMap c.accelerators × IsSetMap c.transport_profs

-- `k` is listed.
abbrev pub Lists : Map Bytes Bool → Bytes → Type 0
Lists m k = lookup k m ≡ some true

joined :
    (k : Bytes) (m o : Map Bytes Bool)
    → IsSetMap m
    → IsSetMap o
    → (Lists (copy_into o (copy_into m [])) k ↔ (Lists m k ⊎ Lists o k))
unfolding lookup
joined k m o hm ho =
    let outer = lookup-copy_into k o (copy_into m []) ho.0 in
    let inner = lookup-copy_into k m [] hm.0 in ground (arith, outer, inner, hm.1 k, ho.1 k)

-- A merged capability summary lists a tier, an accelerator or a transport profile exactly where one of
-- the two lists it, and its queue depth is the larger one.
pub merge_capability_union :
    (m o : CapabilitySummary) (k : Bytes)
    → IsSummary m
    → IsSummary o
    → let out = merge_capability m (any_capability o) in
      (Lists out.tiers k ↔ (Lists m.tiers k ⊎ Lists o.tiers k))
      × (Lists out.accelerators k ↔ (Lists m.accelerators k ⊎ Lists o.accelerators k))
      × (Lists out.transport_profs k ↔ (Lists m.transport_profs k ⊎ Lists o.transport_profs k))
      × (out.queue_depth ≡ max m.queue_depth o.queue_depth)
unfolding merge_capability copy_capability
merge_capability_union m o k (ht, ha, hp) (gt, ga, gp) = (
  joined k m.tiers o.tiers ht gt,
  joined k m.accelerators o.accelerators ha ga,
  joined k m.transport_profs o.transport_profs hp gp,
  ground arith,
)

-- Records of issuers whose names hold no underscore share a key only if subject and issuer agree.
pub record_key_injective :
    (s i t j : Bytes)
    → All (λ x. x ≢ b'_') i
    → All (λ x. x ≢ b'_') j
    → record_key s i ≡ record_key t j
    → (s ≡ t) × (i ≡ j)
unfolding record_key
record_key_injective s i t j hi hj e = join_injective b'_' s i t j hi hj e

longer_append : (a b : Bytes) (c : ℕ) → (a ++ (c ∷ b)) ≢ a
longer_append [] b c p = ground arith
longer_append (x ∷ a) b c p = longer_append a b c (cc p)

-- An underscore in the issuer's name gives the records of two different subjects one key.
pub record_key_collision :
    (a b c : Bytes)
    → (record_key (a ++ (b'_' ∷ b)) c ≡ record_key a (b ++ (b'_' ∷ c))) × ((a ++ (b'_' ∷ b)) ≢ a)
unfolding record_key
record_key_collision a b c = (append_assoc a (b'_' ∷ b) (b'_' ∷ c), longer_append a b b'_')

module _ (u : Unicode) where
  allowed_name :
      (name : Bytes)
      → (allow_naive_crdt u name ≡ none)
      → (n : Bytes) → n ≡ name
      → allow_naive_crdt u n ≡ none
  allowed_name name h n e = rw e h

  -- Every name that has a summary type may be merged naively.
  pub family-allow_naive_crdt :
      (name : Bytes) (a : Any) → family name ≡ some a → allow_naive_crdt u name ≡ none
  unfolding family allow_naive_crdt is_allowed to_lower trim_space trim_end is_ascii lower_byte
      list_beq
  family-allow_naive_crdt name a h = elim (Bool-cases (name == codes "pheromone_summary")) [
    | inl p ↦
        allowed_name (codes "pheromone_summary") refl name
          (eq_of_== name (codes "pheromone_summary") p)
    | inr not_p ↦ elim (Bool-cases (name == codes "capability_summary")) [
      | inl p ↦
          allowed_name (codes "capability_summary") refl name
            (eq_of_== name (codes "capability_summary") p)
      | inr not_c ↦ elim (Bool-cases (name == codes "sensor_aggregate")) [
        | inl p ↦
            allowed_name (codes "sensor_aggregate") refl name
              (eq_of_== name (codes "sensor_aggregate") p)
        | inr not_s ↦ ground arith
      ]
    ]
  ]
