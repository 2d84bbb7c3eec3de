-- ===== src/Agent/Once.antt =====
-- The worker of internal/agent/worker.go runs a task at most once per idempotency key, however often
-- its message is delivered.
use meshyants.Base.{
  ℕ, ◌+◌, ◌≤◌, ◌≡◌, refl, Bytes, list_eq, nat_eq, ◌==◌, eq_of_==, ◌&&◌, Bool, Bool-cases, inl, inr,
  true, false, ltb, eqb, ◌||◌, Result, ok, err, Option, none, some, List, [], ◌∷◌, arith,
}
use meshyants.Contracts.{TaskAtom}
use meshyants.Policy
use meshyants.Signing.{verify}
use meshyants.Signing.Messages.{signable_task}
use meshyants.Ledger.Effect
use meshyants.Ledger.Effect.{try_apply, has_effect}
use meshyants.Ledger.Effect.Once.{bit, is_first, has-try_apply, first_was_new}
use meshyants.Agent.{
  Site, is_ok, Worker, World, Clock, execute_if, safety, perform, on_effect, claim, issuer_key,
  with_key, handle_task, on_message, handle_message,
}

-- How many of the tasks have the idempotency key `j`.
abbrev pub times : Bytes → List TaskAtom → ℕ
times j [] = 0
times j (t ∷ ts) = bit (t.idempotency_key == j) + times j ts

module _ (site : Site) (worker : Worker) where
  open site use {bolt}

  -- A key was executed once at most, and only if the ledger has it.
  abbrev pub IsOnce : World site worker → Type 0
  IsOnce w = (j : Bytes) → times j w.executed ≤ bit (has_effect bolt j w.ledger)

  -- `v` comes after `w` with the same ledger and at most one more call of the executor, on a task with
  -- the key `k` and only if `allowed`.
  abbrev Follows : Bool → Bytes → World site worker → World site worker → Type 0
  Follows allowed k w v =
      (v.ledger ≡ w.ledger)
      × ((j : Bytes) → times j v.executed ≤ bit (allowed && (k == j)) + times j w.executed)

  execute_if-Follows :
      (clock : Clock) (task : TaskAtom) (w : World site worker) (r : Result Policy.Fault (Unit {0}))
      → Follows true task.idempotency_key w (execute_if site worker clock task w r).0
  execute_if-Follows clock task w (err f) = (refl, λ j. omega arith)
  execute_if-Follows clock task w (ok x) = (refl, λ j. omega arith)

  on_effect-Follows :
      (clock : Clock) (task : TaskAtom) (w : World site worker)
      (answer : Bool × Option Effect.Fault)
      → Follows
          (is_first answer)
          task.idempotency_key
          w
          (on_effect site worker clock task w answer).0
  unfolding perform
  on_effect-Follows clock task w (recorded, some f) = (refl, λ j. omega arith)
  on_effect-Follows clock task w (false, none) = (refl, λ j. omega arith)
  on_effect-Follows clock task w (true, none) =
      execute_if-Follows clock task w (safety site worker task)

  claim-IsOnce :
      (clock : Clock) (task : TaskAtom) (w : World site worker)
      → IsOnce w
      → IsOnce (claim site worker clock task w).0
  unfolding claim
  claim-IsOnce clock task w h j =
      let k = task.idempotency_key in
      let (ledger, answer) = try_apply bolt k w.ledger in
      let (same, calls) = on_effect-Follows clock task (record w { ledger = ledger }) answer in
      rw same (
        ground (
          arith,
          calls j,
          h j,
          has-try_apply bolt k j w.ledger,
          first_was_new bolt k w.ledger,
          eq_of_== k j,
        ))

  with_key-IsOnce :
      (clock : Clock) (task : TaskAtom) (w : World site worker) (key : Option Bytes)
      → IsOnce w
      → IsOnce (with_key site worker clock task w key).0
  with_key-IsOnce clock task w none h = h
  with_key-IsOnce clock task w (some key) h =
      elim (Bool-cases (is_ok (verify (signable_task site.marshal_task) site.ed task key))) [
        | inl good ↦ rw good (claim-IsOnce clock task w h)
        | inr bad ↦ rw bad h
      ]

  on_message-IsOnce :
      (clock : Clock) (w : World site worker) (message : Option TaskAtom)
      → IsOnce w
      → IsOnce (on_message site worker clock w message).0
  unfolding handle_task
  on_message-IsOnce clock w none h = h
  on_message-IsOnce clock w (some task) h =
      elim (Bool-cases (eqb task.schema_version 0 || ltb 1 task.schema_version)) [
        | inl other ↦ rw other h
        | inr one ↦ rw one (with_key-IsOnce clock task w (issuer_key site worker task.issuer) h)
      ]

  -- The poll loop over a sequence of deliveries, each at its time.
  unfoldable pub deliver : List (Clock × Bytes) → World site worker → World site worker
  deliver [] w = w
  deliver ((clock, body) ∷ rest) w = deliver rest (handle_message site worker clock body w).0

  -- Over any sequence of deliveries, repeated or not and whatever fails, the executor is called at most
  -- once for each idempotency key, if no key had been executed without a mark in the effect ledger.
  pub deliver-IsOnce :
      (messages : List (Clock × Bytes)) (w : World site worker)
      → IsOnce w
      → (j : Bytes)
      → times j (deliver messages w).executed ≤ bit (has_effect bolt j (deliver messages w).ledger)
  unfolding deliver handle_message
  deliver-IsOnce [] w h = h
  deliver-IsOnce ((clock, body) ∷ rest) w h =
      deliver-IsOnce rest (handle_message site worker clock body w).0
        (on_message-IsOnce clock w (site.unmarshal_task body) h)
