-- ===== src/Agent/Trusted.antt =====
-- What the worker of internal/agent/worker.go lets through to its executor, and what a redelivered
-- message does.
use meshyants.Base.{
  ◌≡◌, ◌⊎◌, refl, ap, subst, ◌∙◌, Bytes, list_eq, nat_eq, ◌==◌, eq_of_==, ==-refl, Bool, Bool-cases,
  inl, inr, true, false, ltb, eqb, is_empty, is_empty_iff, ◌||◌, Result, ok, err, Option,
  Option-cases, none, some, List, [], ◌∷◌, All, arith,
}
use meshyants.Contracts.{TaskAtom}
use meshyants.Policy
use meshyants.Policy.{verify_task_safety}
use meshyants.Signing.{verify}
use meshyants.Signing.Messages.{signable_task}
use meshyants.Ledger.Effect
use meshyants.Ledger.Effect.{try_apply, has_effect}
use meshyants.Agent.{
  Site, is_ok, Worker, World, Clock, execute_if, safety, perform, on_effect, claim, issuer_key,
  with_key, handle_task, on_message, handle_message,
}
use meshyants.Agent.Once.{deliver}

module _ (site : Site) (worker : Worker) where
  open site use {bolt}

  -- The task comes from the worker's own issuer, signed with its key, in schema version 1.
  pub record IsGenuine (task : TaskAtom) : Type 0 where
    pub versioned : task.schema_version ≡ 1
    pub own : task.issuer ≡ worker.issuer
    pub signed : verify (signable_task site.marshal_task) site.ed task worker.public_key ≡ ok tt

  abbrev pub IsSafe : TaskAtom → Type 0
  IsSafe task =
      (task.payload ≡ [])
      ⊎ (verify_task_safety site.unicode task.requirements_json task.payload ≡ ok tt)

  abbrev pub IsTrusted : TaskAtom → Type 0
  IsTrusted task = IsGenuine task × IsSafe task

  abbrev Trusts : World site worker → Type 0
  Trusts w = All IsTrusted w.executed

  safety-IsSafe : (task : TaskAtom) → safety site worker task ≡ ok tt → IsSafe task
  unfolding safety
  safety-IsSafe task h = elim (Bool-cases (is_empty task.payload)) [
    | inl e ↦ inl ((is_empty_iff task.payload).0 e)
    | inr e ↦ inr (ground arith)
  ]

  execute_if-Trusts :
      (clock : Clock) (task : TaskAtom) (w : World site worker) (r : Result Policy.Fault (Unit {0}))
      → IsGenuine task
      → safety site worker task ≡ r
      → Trusts w
      → Trusts (execute_if site worker clock task w r).0
  execute_if-Trusts clock task w (err f) g s h = h
  execute_if-Trusts clock task w (ok x) g s h = ((g, safety-IsSafe task s), h)

  on_effect-Trusts :
      (clock : Clock) (task : TaskAtom) (w : World site worker)
      (answer : Bool × Option Effect.Fault)
      → IsGenuine task
      → Trusts w
      → Trusts (on_effect site worker clock task w answer).0
  unfolding perform
  on_effect-Trusts clock task w (recorded, some f) g h = h
  on_effect-Trusts clock task w (false, none) g h = h
  on_effect-Trusts clock task w (true, none) g h =
      execute_if-Trusts clock task w (safety site worker task) g refl h

  genuine :
      (task : TaskAtom) (key : Bytes)
      → task.schema_version ≡ 1
      → issuer_key site worker task.issuer ≡ some key
      → is_ok (verify (signable_task site.marshal_task) site.ed task key) ≡ true
      → IsGenuine task
  unfolding issuer_key
  genuine task key v e good =
      let own : task.issuer ≡ worker.issuer = eq_of_== task.issuer worker.issuer (ground arith) in
      let same : key ≡ worker.public_key = ground arith in
      record { versioned = v; own = own; signed = rw (← same) (ground arith) }

  with_key-Trusts :
      (clock : Clock) (task : TaskAtom) (w : World site worker) (key : Option Bytes)
      → task.schema_version ≡ 1
      → issuer_key site worker task.issuer ≡ key
      → Trusts w
      → Trusts (with_key site worker clock task w key).0
  unfolding claim
  with_key-Trusts clock task w none v e h = h
  with_key-Trusts clock task w (some key) v e h =
      elim (Bool-cases (is_ok (verify (signable_task site.marshal_task) site.ed task key))) [
        | inl good ↦
            let (ledger, answer) = try_apply bolt task.idempotency_key w.ledger in
            rw good (
              on_effect-Trusts clock task (record w { ledger = ledger }) answer
                (genuine task key v e good) h)
        | inr bad ↦ rw bad h
      ]

  on_message-Trusts :
      (clock : Clock) (w : World site worker) (message : Option TaskAtom)
      → Trusts w
      → Trusts (on_message site worker clock w message).0
  unfolding handle_task
  on_message-Trusts clock w none h = h
  on_message-Trusts clock w (some task) h =
      elim (Bool-cases (eqb task.schema_version 0 || ltb 1 task.schema_version)) [
        | inl other ↦ rw other h
        | inr one ↦
            let v : task.schema_version ≡ 1 = ground arith in
            rw one (with_key-Trusts clock task w (issuer_key site worker task.issuer) v refl h)
      ]

  -- If it was so before, then over any sequence of deliveries every task that reaches the executor
  -- carries the worker's own issuer and a signature that its public key verifies, is of schema version
  -- 1, and has an empty payload or passes VerifyTaskSafety.
  pub deliver-IsTrusted :
      (messages : List (Clock × Bytes)) (w : World site worker)
      → All IsTrusted w.executed
      → All IsTrusted (deliver site worker messages w).executed
  unfolding deliver handle_message
  deliver-IsTrusted [] w h = h
  deliver-IsTrusted ((clock, body) ∷ rest) w h =
      deliver-IsTrusted rest (handle_message site worker clock body w).0
        (on_message-Trusts clock w (site.unmarshal_task body) h)

  claim_seen :
      (clock : Clock) (task : TaskAtom) (w : World site worker)
      → has_effect bolt task.idempotency_key w.ledger ≡ true
      → bolt.commits w.ledger ≡ true
      → claim site worker clock task w ≡ (w, none)
  unfolding claim try_apply has_effect
  claim_seen clock task w seen commits =
      elim (Option-cases (bolt.get w.ledger task.idempotency_key)) [
        | inl e ↦ ground arith
        | inr (v, e) ↦ rw e (rw commits refl)
      ]

  -- A message with a genuine task gets as far as the effect ledger.
  pub genuine-claim :
      (clock : Clock) (body : Bytes) (task : TaskAtom) (w : World site worker)
      → site.unmarshal_task body ≡ some task
      → IsGenuine task
      → handle_message site worker clock body w ≡ claim site worker clock task w
  unfolding handle_message handle_task issuer_key
  genuine-claim clock body task w parsed g =
      let own : (task.issuer == worker.issuer) ≡ true =
        subst (λ i. (task.issuer == i) ≡ true) g.own (==-refl task.issuer) in
      let one : (eqb task.schema_version 0 || ltb 1 task.schema_version) ≡ false =
        ground (arith, g.versioned) in
      let checked : is_ok (verify (signable_task site.marshal_task) site.ed task worker.public_key)
          ≡ true =
        ap is_ok g.signed in
      rw parsed (rw one (rw own (rw checked refl)))

  -- A message with a genuine task whose key the ledger has is acknowledged without any effect, if the
  -- ledger's transaction commits: no pheromone is published, whatever became of the first delivery.
  pub redelivery_silent :
      (clock : Clock) (body : Bytes) (task : TaskAtom) (w : World site worker)
      → site.unmarshal_task body ≡ some task
      → IsGenuine task
      → has_effect bolt task.idempotency_key w.ledger ≡ true
      → bolt.commits w.ledger ≡ true
      → handle_message site worker clock body w ≡ (w, none)
  redelivery_silent clock body task w parsed g seen commits =
      genuine-claim clock body task w parsed g ∙ claim_seen clock task w seen commits
