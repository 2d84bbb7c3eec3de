-- ===== src/Merge.antt =====
-- internal/merge/merge.go: which artifact families may be merged naively.
use meshyants.Base.{
  Bytes, list_eq, nat_eq, ◌==◌, Bool, ◌||◌, Option, none, some, is_empty, if◌then◌else◌,
}
use meshyants.Text.{Unicode, to_lower, trim_space, codes}

pub data Fault : Type 0 where
  disallowed_family : Fault

-- The keys of the map `allowedFamilies`.
unfoldable pub is_allowed : Bytes → Bool
is_allowed f =
    f == codes "pheromone_summary"
    || f == codes "capability_summary"
    || f == codes "sensor_aggregate"

-- Both branches of the last `switch` return the same error.
unfoldable pub allow_naive_crdt : Unicode → Bytes → Option Fault
unfolding is_allowed
allow_naive_crdt u artifact_family =
    let f = trim_space u (to_lower u artifact_family) in
    if is_empty f
    then some disallowed_family
    else if is_allowed f
    then none
    else some disallowed_family
