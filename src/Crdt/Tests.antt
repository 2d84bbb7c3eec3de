-- ===== src/Crdt/Tests.antt =====
-- Small summaries of internal/crdt/crdt.go, merged.
use meshyants.Base.{ℕ, Bytes, ◌≡◌, ◌≢◌, ◌↔◌, refl, Map, lookup, list_eq, nat_eq, [], ◌∷◌, arith}
use meshyants.Contracts.{Instant}
use meshyants.Crdt.{PheromoneEntry}
use meshyants.Crdt.Convergence.{gossip, Held, gossip_converges}

abbrev instant : ℕ → Instant
instant n = n

abbrev one : Map Bytes ℕ
one = (1 ∷ [], 5) ∷ []

abbrev two : Map Bytes ℕ
two = (1 ∷ [], 8) ∷ []

Held-swap :
    (x : ℕ) → Held instant (1 ∷ []) x (one ∷ two ∷ []) ↔ Held instant (1 ∷ []) x (two ∷ one ∷ [])
Held-swap x = ground arith

gossip_converges_example :
    lookup (1 ∷ []) (gossip instant one (two ∷ []))
    ≡ lookup (1 ∷ []) (gossip instant two (one ∷ []))
unfolding lookup
gossip_converges_example =
    gossip_converges instant (1 ∷ []) one two (two ∷ []) (one ∷ []) (refl, tt) (refl, tt)
      ((refl, tt), tt) ((refl, tt), tt) Held-swap (λ x y hx hy e. e)

abbrev entry : ℕ → PheromoneEntry
entry strength = record {
  kind = [];
  subject = 1 ∷ [];
  issuer = 2 ∷ [];
  issued_at = 3;
  strength = strength;
}

entries_differ : entry 1 ≢ entry 2
entries_differ p = ground arith
