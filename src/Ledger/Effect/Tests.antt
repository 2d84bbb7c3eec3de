-- ===== src/Ledger/Effect/Tests.antt =====
-- The effect ledger of internal/ledger/effect/ledger.go over a bucket in memory.
use meshyants.Base.{
  ◌≡◌, refl, Bytes, lookup, insert, list_eq, nat_eq, list_beq, true, false, none, [], ◌∷◌, List,
  Map,
}
use meshyants.Ledger.Bolt.{in_memory}
use meshyants.Ledger.Effect.{try_apply}
use meshyants.Ledger.Effect.Once.{run}

abbrev empty : Map Bytes Bytes
empty = []

abbrev deliveries : List Bytes
deliveries = (1 ∷ []) ∷ (2 ∷ []) ∷ (1 ∷ []) ∷ []

first_delivery : (try_apply in_memory (1 ∷ []) empty).1 ≡ (true, none)
unfolding try_apply lookup
first_delivery = refl

redelivered : (try_apply in_memory (1 ∷ []) (run in_memory deliveries empty)).1 ≡ (false, none)
unfolding try_apply lookup insert list_beq run
redelivered = refl
