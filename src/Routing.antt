-- ===== src/Routing.antt =====
-- internal/routing/routing.go: advertisements of capability, and the choice of nodes for a task.
pub mod Ranking
pub mod Choice
mod Tests
use meshyants.Base.{
  ℕ, zero, suc, ◌+◌, ◌-◌, ◌*◌, Bytes, list_eq, nat_eq, ◌==◌, not, Map, lookup, insert, Result, ok,
  err, ◌>>=◌, ltb, eqb, Bool, true, false, is_empty, Option, none, some, List, [], ◌∷◌, ◌++◌, map,
  length, if◌then◌else◌,
}
use meshyants.Text.{codes}
use meshyants.Contracts.{Instant, RuntimeTier, ResourceHints, CapabilityAdvertisement, TaskAtom}
use meshyants.Signing
use meshyants.Signing.{Ed25519, sign}
use meshyants.Signing.Messages.{signable_capability}
use meshyants.Fabric.{Broker, transport_publish, stable_msg_id}

pub data Fault : Type 0 where
  parse_requirements no_capable_nodes : Fault
  -- A panic: a field of a nil advertisement is read.
  nil_dereference : Fault

-- CapabilityStore; `none` is a nil advertisement.
abbrev pub Items : Type 0
Items = Map Bytes (Option CapabilityAdvertisement)

unfoldable pub set : Bytes → Option CapabilityAdvertisement → Items → Items
set node_id cap items = insert node_id cap items

abbrev pub or_nil : Option (Option CapabilityAdvertisement) → Option CapabilityAdvertisement
or_nil none = none
or_nil (some cap) = cap

-- The method `Get`: nil for an unknown node.
unfoldable pub get : Bytes → Items → Option CapabilityAdvertisement
get node_id items = or_nil (lookup node_id items)

-- float64(50 - cap.QueueDepth) is exact: the depth is at most 40.
pub record RouteTarget : Type 0 where
  pub node_id : Bytes
  pub queue_depth : ℕ
  pub score : ℕ

-- One advertisement of the loop: a target, or nothing where the loop goes on.
unfoldable pub consider :
    Bytes → Bytes → Option CapabilityAdvertisement → Result Fault (List RouteTarget)
consider domain node_id none = if [] == domain then err nil_dereference else ok []
consider domain node_id (some cap) =
    if not (cap.trust_domain == domain)
    then ok []
    else if ltb 40 cap.queue_depth
    then ok []
    else ok (
        record { node_id = node_id; queue_depth = cap.queue_depth; score = 50 - cap.queue_depth }
        ∷ [])

-- The loop over the store, in the order of the range.
unfoldable pub targets_for : Bytes → Items → Result Fault (List RouteTarget)
unfolding consider
targets_for domain [] = ok []
targets_for domain ((node_id, cap) ∷ items) =
    let rest = targets_for domain items in
    consider domain node_id cap >>= λ first. rest >>= λ later. ok (first ++ later)

-- The inner loop of sortByScore: what stands at `i` in the end, and what stands after it.
unfoldable pub sweep : RouteTarget → List RouteTarget → RouteTarget × List RouteTarget
sweep at_i [] = (at_i, [])
sweep at_i (at_j ∷ rest) =
    let swapped = sweep at_j rest in
    let kept = sweep at_i rest in
    if ltb at_i.score at_j.score then (swapped.0, at_i ∷ swapped.1) else (kept.0, at_j ∷ kept.1)

-- The outer loop, `i` moving on by one element.
unfoldable pub exchange : ℕ → List RouteTarget → List RouteTarget
unfolding sweep
exchange zero t = t
exchange (suc n) [] = []
exchange (suc n) (x ∷ t) = let (best, rest) = sweep x t in best ∷ exchange n rest

unfoldable pub sort_by_score : List RouteTarget → List RouteTarget
unfolding exchange
sort_by_score t = exchange (length t - 1) t

abbrev pub node_of : RouteTarget → Bytes
node_of t = t.node_id

abbrev pub ranked : List RouteTarget → Result Fault (List Bytes)
ranked targets =
    if is_empty targets then err no_capable_nodes else ok (map node_of (sort_by_score targets))

-- `parses`: whether json.Unmarshal of the requirements succeeds; what it reads is not used.
unfoldable pub route : (Bytes → Bool) → Items → TaskAtom → Result Fault (List Bytes)
unfolding targets_for sort_by_score
route parses items task =
    if not (parses task.requirements_json)
    then err parse_requirements
    else targets_for task.trust_domain items >>= ranked

pub record Advertiser : Type 0 where
  pub private_key : Bytes
  pub device_id : Bytes
  pub trust_domain : Bytes
  pub interval : ℕ

-- 30 seconds in nanoseconds.
abbrev pub default_advertiser_interval : ℕ
default_advertiser_interval = 30 * 1000000000

abbrev pub interval_of : Advertiser → ℕ
interval_of a = if eqb a.interval 0 then default_advertiser_interval else a.interval

unfoldable pub advertisement : Advertiser → RuntimeTier → Instant → CapabilityAdvertisement
advertisement a tier now = record {
  schema_version = 1;
  device_id = a.device_id;
  trust_domain = a.trust_domain;
  runtime_tier = tier;
  resources = some (record { memory_bytes = 1024 * 1024 * 1024; cpu_millicores = 1000 });
  accelerators = [];
  queue_depth = 10;
  transport_profile = codes "fast-wide";
  valid_until = some (now + interval_of a * 2);
  signature = [];
}

module _ (marshal : CapabilityAdvertisement → Option Bytes) (ed : Ed25519) (sum_hex : Bytes → Bytes)
    (b : Broker) where
  abbrev send : Advertiser → b.Server → Option Bytes → b.Server
  send a server none = server
  send a server (some payload) =
      (transport_publish b server (codes "mesh.cap." ++ a.trust_domain) payload
        (stable_msg_id sum_hex (codes "cap-" ++ a.device_id))).0

  -- The method `publish`, which only logs its errors.
  unfoldable pub publish : Advertiser → CapabilityAdvertisement → b.Server → b.Server
  publish a cap server = send a server (marshal cap)

  abbrev on_signed :
      Advertiser
      → CapabilityAdvertisement
      → b.Server
      → Result Signing.Fault CapabilityAdvertisement
      → CapabilityAdvertisement × b.Server
  on_signed a cap server (err f) = (cap, server)
  on_signed a cap server (ok signed) = (signed, publish a signed server)

  -- A tick of `Run`: a later expiry, the signature cleared and made again, and published. A failure to
  -- sign leaves the advertisement unsigned until the next tick.
  unfoldable pub tick :
      Advertiser → Instant → CapabilityAdvertisement × b.Server → CapabilityAdvertisement × b.Server
  unfolding publish
  tick a now (cap, server) =
      let renewed = record cap { valid_until = some (now + interval_of a * 2); signature = [] } in
      on_signed a renewed server (sign (signable_capability marshal) ed renewed a.private_key)
