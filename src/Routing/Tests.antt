-- ===== src/Routing/Tests.antt =====
-- A store of three nodes for internal/routing/routing.go.
use mathlib.Core.List.{Perm}
use meshyants.Base.{
  ℕ, ◌≡◌, ◌≢◌, ◌⊎◌, refl, Bytes, lookup, list_eq, nat_eq, list_beq, true, ok, err, none, some, List,
  [], ◌∷◌, map,
}
use meshyants.Contracts.{CapabilityAdvertisement, TaskAtom, tier_relay}
use meshyants.Routing.{
  Items, RouteTarget, no_capable_nodes, sort_by_score, route, node_of, targets_for,
}
use meshyants.Routing.Ranking.{Descending, sort_by_score-Descending}
use meshyants.Routing.Choice.{IsEligible, IsScan, route_ranked}

abbrev advert : ℕ → CapabilityAdvertisement
advert depth = record {
  schema_version = 1;
  device_id = [];
  trust_domain = b'd' ∷ [];
  runtime_tier = tier_relay;
  resources = none;
  accelerators = [];
  queue_depth = depth;
  transport_profile = [];
  valid_until = none;
  signature = [];
}

abbrev task : TaskAtom
task = record {
  schema_version = 1;
  task_id = [];
  idempotency_key = [];
  issuer = [];
  trust_domain = b'd' ∷ [];
  causal_parents = [];
  requirements_json = [];
  payload = [];
  expires_at = none;
  content_ref = [];
  signature = [];
}

abbrev store : Items
store =
    (b'a' ∷ [], some (advert 9)) ∷ (b'b' ∷ [], some (advert 41)) ∷ (b'c' ∷ [], some (advert 2)) ∷ []

-- The saturated node is left out and the idle one comes first.
store_ranked : route (λ s. true) store task ≡ ok ((b'c' ∷ []) ∷ (b'a' ∷ []) ∷ [])
unfolding route targets_for sort_by_score list_beq
store_ranked = refl

abbrev target : ℕ → RouteTarget
target depth = record { node_id = []; queue_depth = depth; score = 3 }

sort_by_score-Descending_example :
    Perm (target 1 ∷ target 2 ∷ []) (sort_by_score (target 1 ∷ target 2 ∷ []))
    × Descending (sort_by_score (target 1 ∷ target 2 ∷ []))
sort_by_score-Descending_example = sort_by_score-Descending (target 1 ∷ target 2 ∷ [])

route_ranked_example :
    ((route (λ s. true) store task ≡ err no_capable_nodes)
      × ((id : Bytes) (cap : CapabilityAdvertisement)
          → lookup id store ≡ some (some cap)
          → ¬ (IsEligible (b'd' ∷ []) cap)))
    ⊎ ((ts : List RouteTarget) × (route (λ s. true) store task ≡ ok (map node_of ts))
        × (ts ≢ [])
        × Descending ts
        × IsScan (b'd' ∷ []) store ts)
unfolding lookup list_beq
route_ranked_example = route_ranked (λ s. true) store task refl (refl, (refl, (refl, tt))) tt
