-- ===== src/Journey.antt =====
-- A goal from the person who states it to the node that carries it out: internal/oracle/service.go on
-- one side of the blackboard and internal/agent/worker.go on the other, which
-- cmd/meshyants/main.go runs with one key and one issuer name.
use meshyants.Base.{
  ◌≡◌, refl, sym, ap, subst, ◌∙◌, Bytes, list_eq, nat_eq, ==-refl, Bool, true, false, ok, Option,
  none, some, ◌∷◌, arith,
}
use meshyants.Contracts.{TaskAtom, PheromoneRecord}
use meshyants.Ledger.Effect.{try_apply, has_effect}
use meshyants.Ledger.Effect.Once.{is_first, has-try_apply}
use meshyants.Signing.{IsPair}
use meshyants.Agent
use meshyants.Agent.{
  Worker, World, Clock, is_ok, execute_if, safety, perform, on_effect, claim, issuer_key, with_key,
  handle_task, on_message, handle_message, emit,
}
use meshyants.Agent.Trusted.{IsGenuine, genuine-claim, redelivery_silent}
use meshyants.Oracle
use meshyants.Oracle.{Service, Draw, handle_goal}
use meshyants.Oracle.Trust.{handle_goal-IsGenuine}

module _ (place : Agent.Site) (worker : Worker) where
  open place use {bolt}

  on_effect_first :
      (clock : Clock) (task : TaskAtom) (w : World place worker) (answer : Bool × Option _)
      → is_first answer ≡ true
      → on_effect place worker clock task w answer ≡ perform place worker clock task w
  on_effect_first clock task w (true, none) h = refl
  on_effect_first clock task w (false, none) h = absurd cc
  on_effect_first clock task w (r, some f) h = absurd cc

  -- The world in which the executor has been called on the task, with its key in the ledger.
  abbrev pub started : TaskAtom → World place worker → World place worker
  started task w = record w {
    ledger = (try_apply bolt task.idempotency_key w.ledger).0;
    executed = task ∷ w.executed;
  }

  -- A genuine and safe task whose key the effect ledger takes as new is executed, and what the
  -- worker publishes is the outcome of the executor.
  genuine_executed :
      (clock : Clock) (body : Bytes) (task : TaskAtom) (w : World place worker)
      → place.unmarshal_task body ≡ some task
      → IsGenuine place worker task
      → safety place worker task ≡ ok tt
      → is_first (try_apply bolt task.idempotency_key w.ledger).1 ≡ true
      → handle_message place worker clock body w
        ≡ emit place worker clock (place.execute task) task (started task w)
  unfolding claim perform
  genuine_executed clock body task w parsed g safe new =
      let (ledger, answer) = try_apply bolt task.idempotency_key w.ledger in
      genuine-claim place worker clock body task w parsed g
      ∙ on_effect_first clock task (record w { ledger = ledger }) answer new
      ∙ ap (execute_if place worker clock task (record w { ledger = ledger })) safe

  pub started_recorded :
      (task : TaskAtom) (w : World place worker)
      → is_first (try_apply bolt task.idempotency_key w.ledger).1 ≡ true
      → has_effect bolt task.idempotency_key (started task w).ledger ≡ true
  started_recorded task w new = ground (
    arith,
    has-try_apply bolt task.idempotency_key task.idempotency_key w.ledger,
    new,
    ==-refl {A = Bytes} task.idempotency_key,
  )

module _ (site : Oracle.Site) (s : Service) (place : Agent.Site) (worker : Worker) where
  -- If HandleGoal returns a task, and a worker with the service's issuer name and the public key of its pair,
  -- with the same wire format and signature scheme, is handed the bytes that were published for it, that the wire format reads back, then:
  -- where its effect ledger takes the key as new and the safety check passes, the executor is called on that
  -- very task and the outcome is published; and any second delivery, once the ledger commits, does
  -- nothing and reports no error.
  pub goal_executed :
      (raw : Bytes) (draw : Draw) (server : site.broker.Server) (task : TaskAtom)
      (p : PheromoneRecord) (body : Bytes) (clock later : Clock) (w : World place worker)
      → place.marshal_task ≡ site.marshal_task
      → place.ed ≡ site.ed
      → worker.issuer ≡ s.issuer
      → IsPair site.ed worker.public_key s.private_key
      → (handle_goal site s raw draw server).1 ≡ ok (task, p)
      → place.unmarshal_task body ≡ some task
      → safety place worker task ≡ ok tt
      → is_first (try_apply place.bolt task.idempotency_key w.ledger).1 ≡ true
      → place.bolt.commits (handle_message place worker clock body w).0.ledger ≡ true
      → ((handle_message place worker clock body w)
          ≡ emit place worker clock (place.execute task) task (started place worker task w))
        × (handle_message place worker later body (handle_message place worker clock body w).0
            ≡ ((handle_message place worker clock body w).0, none))
  goal_executed raw draw server task p body clock later w same_wire same_scheme same_issuer pair d
        parsed safe new commits =
      let g =
        handle_goal-IsGenuine site s place worker raw draw server task p same_wire same_scheme
          same_issuer pair d in
      let done = genuine_executed place worker clock body task w parsed g safe new in
      (
        done,
        redelivery_silent place worker later body task (handle_message place worker clock body w).0
            parsed g
            (subst (λ v. has_effect place.bolt task.idempotency_key v.ledger ≡ true)
              (ap (λ r. r.0) (sym done)) (started_recorded place worker task w new))
            commits,
      )
