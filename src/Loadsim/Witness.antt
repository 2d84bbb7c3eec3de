-- ===== src/Loadsim/Witness.antt =====
-- The count of the SAFE pheromones in cmd/loadsim/main.go.
use meshyants.Base.{
  ℕ, ◌+◌, ◌≤◌, ◌<◌, ◌≡◌, ◌↔◌, refl, ltb, ◌&&◌, Bool-cases, inl, inr, Option, List, [], ◌∷◌, All,
  length, arith,
}
use meshyants.Contracts.{PheromoneKind}
use meshyants.Loadsim.{
  Fetched, batch, timed_out, failed, Round, count_safe, want_of, fetched_count, witness, exit_code,
}

count_safe-le : (ms : List (Option PheromoneKind)) → count_safe ms ≤ length ms
unfolding count_safe
count_safe-le [] = omega arith
count_safe-le (m ∷ ms) = ground (arith, count_safe-le ms)

want_of-le :
    (tasks count : ℕ)
    → count < tasks
    → (want_of tasks count + count ≤ tasks)
      × (1 ≤ want_of tasks count)
      × (want_of tasks count ≤ 256)
unfolding want_of
want_of-le tasks count h = ground arith

-- What NATS documents of a fetch: no more messages than asked for.
abbrev pub IsBounded : Round → Type 0
IsBounded r = (n : ℕ) (ms : List (Option PheromoneKind)) → r.fetch n ≡ batch ms → length ms ≤ n

fetched_count-le :
    (tasks count : ℕ) (f : Fetched) (next : ℕ → ℕ)
    → count < tasks
    → ((ms : List (Option PheromoneKind)) → f ≡ batch ms → length ms ≤ want_of tasks count)
    → ((c : ℕ) → c ≤ tasks → next c ≤ tasks)
    → fetched_count f count next ≤ tasks
fetched_count-le tasks count failed next lt bound keep = omega (arith, lt)
fetched_count-le tasks count timed_out next lt bound keep = keep count (omega (arith, lt))
fetched_count-le tasks count (batch ms) next lt bound keep =
    keep (count + count_safe ms)
      (omega (arith, count_safe-le ms, bound ms refl, (want_of-le tasks count lt).0))

witness_count-le :
    (tasks : ℕ) (rounds : List Round) (count : ℕ)
    → All IsBounded rounds
    → count ≤ tasks
    → witness tasks rounds count ≤ tasks
unfolding witness
witness_count-le tasks [] count bounded le = le
witness_count-le tasks (r ∷ rs) count bounded le =
    elim (Bool-cases (ltb count tasks && r.in_time)) [
      | inl goes ↦ rw goes (
          fetched_count-le tasks count (r.fetch (want_of tasks count)) (witness tasks rs)
            (ground (arith, goes)) (λ ms e. bounded.0 (want_of tasks count) ms e)
            (λ c h. witness_count-le tasks rs c bounded.1 h))
      | inr ends ↦ rw ends le
    ]

-- However the rounds go, the count of a run never passes the number of its tasks, if no fetch gets
-- more messages than it asks for; the exit code is 0 exactly if the count reaches that number.
pub witness-le :
    (tasks : ℕ) (rounds : List Round) (count : ℕ)
    → All IsBounded rounds
    → count ≤ tasks
    → (witness tasks rounds count ≤ tasks)
      × ((exit_code tasks (witness tasks rounds count) ≡ 0) ↔ (witness tasks rounds count ≡ tasks))
unfolding exit_code
witness-le tasks rounds count bounded le =
    let below = witness_count-le tasks rounds count bounded le in (below, ground (arith, below))
