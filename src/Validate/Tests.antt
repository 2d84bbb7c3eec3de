-- ===== src/Validate/Tests.antt =====
-- Messages accepted and refused by internal/validate/validate.go.
use meshyants.Base.{ℕ, ◌≡◌, ◌↔◌, refl, ok, err, Option, some, none, true, false, [], ◌∷◌}
use meshyants.Contracts.{JoinGrant, TaskAtom, PheromoneRecord, kind_danger}
use meshyants.Validate.{join_grant, task_atom, pheromone_record, missing, in_the_past, over_budget}
use meshyants.Validate.Exact.{IsTaskAtom, FitsBudget, task_atom_iff}

abbrev grant : JoinGrant
grant = record {
  schema_version = 1;
  grant_id = 1 ∷ [];
  trust_domain = 2 ∷ [];
  issuer = 3 ∷ [];
  expires_at = some 100;
  signature = 9 ∷ [];
}

grant_expires :
    (join_grant 100 (some grant) ≡ ok tt)
    × (join_grant 101 (some grant) ≡ err (in_the_past "expires_at"))
unfolding join_grant
grant_expires = (refl, refl)

abbrev task : TaskAtom
task = record {
  schema_version = 1;
  task_id = 5 ∷ [];
  idempotency_key = 6 ∷ [];
  issuer = 3 ∷ [];
  trust_domain = 2 ∷ [];
  causal_parents = (7 ∷ []) ∷ [];
  requirements_json = [];
  payload = 8 ∷ [];
  expires_at = some 100;
  content_ref = [];
  signature = 9 ∷ [];
}

abbrev heavy : TaskAtom → Option ℕ
heavy t = some 2049

task_too_heavy :
    (task_atom heavy (some task) false ≡ ok tt)
    × (task_atom heavy (some task) true ≡ err (over_budget 2049))
unfolding task_atom
task_too_heavy = (refl, refl)

task_atom_iff_example :
    ((task_atom heavy (some task) false ≡ ok tt) ↔ IsTaskAtom task)
    × ((task_atom heavy (some task) true ≡ ok tt) ↔ (IsTaskAtom task × FitsBudget heavy task))
task_atom_iff_example = task_atom_iff heavy task

abbrev danger : PheromoneRecord
danger = record {
  schema_version = 1;
  record_id = 1 ∷ [];
  kind = kind_danger;
  subject = [];
  strength = 0;
  decay_policy = none;
  issuer = 3 ∷ [];
  trust_domain = 2 ∷ [];
  causal_parents = [];
  issued_at = some 50;
  signature = 9 ∷ [];
}

danger_about_nothing : pheromone_record (some danger) ≡ err (missing "subject")
unfolding pheromone_record
danger_about_nothing = refl
