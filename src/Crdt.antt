-- ===== src/Crdt.antt =====
-- internal/crdt/crdt.go: the three state-based summaries that nodes merge. A Go map is a list of its
-- entries in the order of one `range`; a float64 is its bits. `other any` is a value of `Any`.
mod Lww
pub mod Convergence
pub mod Union
mod Tests
use meshyants.Base.{
  ℕ, Bytes, Map, lookup, insert, list_eq, nat_eq, ◌==◌, ltb, Bool, true, false, Option, none, some,
  List, [], ◌∷◌, ◌++◌, if◌then◌else◌,
}
use meshyants.Contracts.{Instant}
use meshyants.Text.{codes}

pub record PheromoneEntry : Type 0 where
  pub kind : Bytes
  pub subject : Bytes
  pub issuer : Bytes
  pub issued_at : Instant
  pub strength : ℕ

pub record SensorValue : Type 0 where
  pub val : ℕ
  pub unit : Bytes
  pub at : Instant

pub record CapabilitySummary : Type 0 where
  pub tiers : Map Bytes Bool
  pub accelerators : Map Bytes Bool
  pub transport_profs : Map Bytes Bool
  pub queue_depth : ℕ

abbrev pub PheromoneSummary : Type 0
PheromoneSummary = Map Bytes PheromoneEntry

abbrev pub SensorAggregate : Type 0
SensorAggregate = Map Bytes SensorValue

-- What `Merge` may be given, told apart by its type assertions.
pub data Any : Type 0 where
  any_pheromone : PheromoneSummary → Any
  any_capability : CapabilitySummary → Any
  any_sensor : SensorAggregate → Any
  any_other : Any

module _ {V : Type 0} where
  -- for k, v := range m { out[k] = v }
  unfoldable pub copy_into : Map Bytes V → Map Bytes V → Map Bytes V
  copy_into [] out = out
  copy_into ((k, v) ∷ m) out = copy_into m (insert k v out)

  -- `existing, ok := out[k]; !ok || v.At.After(existing.At)`
  abbrev pub wins : (V → Instant) → V → Option V → Bool
  wins time v none = true
  wins time v (some existing) = ltb (time existing) (time v)

  -- The second loop of a last-write-wins merge.
  unfoldable pub overlay : (V → Instant) → Map Bytes V → Map Bytes V → Map Bytes V
  overlay time [] out = out
  overlay time ((k, v) ∷ o) out =
      overlay time o (if wins time v (lookup k out) then insert k v out else out)

  -- `Merge` of two summaries of one type: a copy of the first, then the second loop.
  unfoldable pub merge_values : (V → Instant) → Map Bytes V → Map Bytes V → Map Bytes V
  unfolding copy_into overlay
  merge_values time m o = overlay time o (copy_into m [])

unfoldable pub merge_pheromone : PheromoneSummary → Any → PheromoneSummary
unfolding merge_values
merge_pheromone m (any_pheromone o) = merge_values (λ v. v.issued_at) m o
merge_pheromone m _ = copy_into m []

unfoldable pub merge_sensor : SensorAggregate → Any → SensorAggregate
unfolding merge_values
merge_sensor m (any_sensor o) = merge_values (λ v. v.at) m o
merge_sensor m _ = copy_into m []

unfoldable pub copy_capability : CapabilitySummary → CapabilitySummary
copy_capability m = record {
  tiers = copy_into m.tiers [];
  accelerators = copy_into m.accelerators [];
  transport_profs = copy_into m.transport_profs [];
  queue_depth = m.queue_depth;
}

unfoldable pub merge_capability : CapabilitySummary → Any → CapabilitySummary
unfolding copy_capability
merge_capability m (any_capability o) =
    let out = copy_capability m in
    record {
      tiers = copy_into o.tiers out.tiers;
      accelerators = copy_into o.accelerators out.accelerators;
      transport_profs = copy_into o.transport_profs out.transport_profs;
      queue_depth = if ltb out.queue_depth o.queue_depth then o.queue_depth else out.queue_depth;
    }
merge_capability m _ = copy_capability m

-- m.Records[subject+"_"+issuer]
unfoldable pub record_key : Bytes → Bytes → Bytes
record_key subject issuer = subject ++ (b'_' ∷ issuer)

unfoldable pub set_pheromone :
    Bytes → Bytes → Bytes → Instant → ℕ → PheromoneSummary → PheromoneSummary
unfolding record_key
set_pheromone kind subject issuer issued_at strength m =
    insert (record_key subject issuer)
      (record {
        kind = kind;
        subject = subject;
        issuer = issuer;
        issued_at = issued_at;
        strength = strength;
      })
      m

unfoldable pub set_sensor : Bytes → ℕ → Bytes → Instant → SensorAggregate → SensorAggregate
set_sensor key val unit at m = insert key (record { val = val; unit = unit; at = at }) m

unfoldable pub add_tier : Bytes → CapabilitySummary → CapabilitySummary
add_tier t m = record m { tiers = insert t true m.tiers }

unfoldable pub add_accelerator : Bytes → CapabilitySummary → CapabilitySummary
add_accelerator a m = record m { accelerators = insert a true m.accelerators }

unfoldable pub add_transport_profile : Bytes → CapabilitySummary → CapabilitySummary
add_transport_profile p m = record m { transport_profs = insert p true m.transport_profs }

unfoldable pub new_capability : CapabilitySummary
new_capability = record { tiers = []; accelerators = []; transport_profs = []; queue_depth = 0 }

unfoldable pub family : Bytes → Option Any
unfolding new_capability
family name =
    if name == codes "pheromone_summary"
    then some (any_pheromone [])
    else if name == codes "capability_summary"
    then some (any_capability new_capability)
    else if name == codes "sensor_aggregate"
    then some (any_sensor [])
    else none
