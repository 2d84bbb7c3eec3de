-- ===== src/Agent.antt =====
-- internal/agent/worker.go: what a field node does with one message of its pull consumer. What the
-- worker rests on and what is not in the repository are the fields of `Site`; logging is left out.
pub mod Once
pub mod Reports
pub mod Trusted
pub mod Running
mod Tests
use meshyants.Base.{
  ℕ, ◌+◌, ◌*◌, ◌^◌, Bytes, list_eq, nat_eq, ◌==◌, Result, ok, err, ltb, eqb, not, ◌||◌, Bool, true,
  false, is_empty, Option, none, some, List, [], ◌∷◌, ◌++◌, if◌then◌else◌,
}
use meshyants.Text.{Unicode, codes}
use meshyants.Text.Decimal.{decimal}
use meshyants.Contracts.{Instant, TaskAtom, PheromoneRecord, PheromoneKind, kind_danger, kind_safe}
use meshyants.Ledger.Bolt.{Bolt}
use meshyants.Ledger.Effect.{try_apply}
use meshyants.Ledger.Effect
use meshyants.Policy
use meshyants.Policy.{verify_task_safety}
use meshyants.Signing
use meshyants.Signing.{Ed25519, sign, verify}
use meshyants.Signing.Messages.{signable_task, signable_pheromone}
use meshyants.Fabric.{Broker, transport_publish, stable_msg_id}

pub data Fault : Type 0 where
  unmarshal_failed effect_ledger marshal_pheromone publish_pheromone : Fault
  sign_pheromone : Signing.Fault → Fault

-- The worker's identity.
pub record Worker : Type 0 where
  pub public_key : Bytes
  pub private_key : Bytes
  pub issuer : Bytes
  pub trust_domain : Bytes

-- protobuf's wire format, SHA-256 in hexadecimal digits, Ed25519, Unicode, bbolt, NATS, and the
-- worker's executor.
pub record Site : Type 1 where
  pub unmarshal_task : Bytes → Option TaskAtom
  pub marshal_task : TaskAtom → Option Bytes
  pub marshal_pheromone : PheromoneRecord → Option Bytes
  pub sum_hex : Bytes → Bytes
  pub ed : Ed25519
  pub unicode : Unicode
  pub bolt : Bolt
  pub broker : Broker
  pub execute : TaskAtom → PheromoneKind × Bytes

-- The two readings of the clock for one pheromone: UnixNano for its ID, and the time in it.
pub record Clock : Type 0 where
  pub unix_nano : ℕ
  pub issued_at : Instant

-- The bits of the float64 1.
abbrev pub one_strength : ℕ
one_strength = 1023 * 2 ^ 52

-- WasmExecutor; `run` is execwasm.Run with the worker's quotas, `none` for nil.
unfoldable pub wasm_execute : (Bytes → Option Bytes) → Option TaskAtom → PheromoneKind × Bytes
wasm_execute run none = (kind_danger, codes "empty payload")
wasm_execute run (some task) =
    if is_empty task.payload
    then (kind_danger, codes "empty payload")
    else elim (run task.payload) [
      | some text ↦ (kind_danger, text)
      | none ↦ (kind_safe, codes "executed")
    ]

unfoldable pub native_execute : Option TaskAtom → PheromoneKind × Bytes
native_execute none = (kind_danger, codes "empty payload")
native_execute (some task) =
    if is_empty task.payload
    then (kind_danger, codes "empty payload")
    else (kind_safe, codes "acknowledged")

-- err.Error() of VerifyTaskSafety, which has no other error.
abbrev pub reason : Policy.Fault → Bytes
reason (Policy.dangerous_action b) =
    codes "oracle/policy: dangerous action rejected: " ++ (34 ∷ b ++ (34 ∷ []))
reason _ = []

abbrev pub is_ok : {E A : Type 0} → Result E A → Bool
is_ok (err e) = false
is_ok (ok a) = true

module _ (site : Site) (worker : Worker) where
  -- The effect ledger, the server, and the calls of the executor so far, the last one first.
  pub record World : Type 0 where
    pub ledger : site.bolt.Bucket
    pub server : site.broker.Server
    pub executed : List TaskAtom

  abbrev pub sent : site.broker.Server × Bool → site.broker.Server × Option Fault
  sent (server, true) = (server, none)
  sent (server, false) = (server, some publish_pheromone)

  -- The end of emitPheromone, from proto.Marshal on.
  abbrev pub marshal_and_publish :
      PheromoneRecord → site.broker.Server → Option Bytes → site.broker.Server × Option Fault
  marshal_and_publish rec server none = (server, some marshal_pheromone)
  marshal_and_publish rec server (some payload) = sent (
      transport_publish site.broker server (codes "mesh.phero." ++ worker.trust_domain) payload
        (stable_msg_id site.sum_hex rec.record_id))

  abbrev pub publish_signed :
      site.broker.Server → Result Signing.Fault PheromoneRecord → site.broker.Server × Option Fault
  publish_signed server (err f) = (server, some (sign_pheromone f))
  publish_signed server (ok rec) = marshal_and_publish rec server (site.marshal_pheromone rec)

  -- `detail` is not part of the record.
  unfoldable pub emit_pheromone :
      Clock → PheromoneKind → Bytes → Bytes → site.broker.Server → site.broker.Server × Option Fault
  emit_pheromone clock kind subject detail server =
      let rec : PheromoneRecord = record {
        schema_version = 1;
        record_id = codes "phero-" ++ (decimal clock.unix_nano ++ (codes "-" ++ subject));
        kind = kind;
        subject = subject;
        strength = one_strength;
        decay_policy = none;
        issuer = worker.issuer;
        trust_domain = worker.trust_domain;
        causal_parents = subject ∷ [];
        issued_at = some clock.issued_at;
        signature = [];
      } in
      publish_signed server
        (sign (signable_pheromone site.marshal_pheromone) site.ed rec worker.private_key)

  abbrev pub emit : Clock → PheromoneKind × Bytes → TaskAtom → World → World × Option Fault
  emit clock (kind, detail) task w =
      let (server, fault) = emit_pheromone clock kind task.task_id detail w.server in
      (record w { server = server }, fault)

  -- issuerKey: the only key that the worker knows is its own.
  unfoldable pub issuer_key : Bytes → Option Bytes
  issuer_key issuer = if issuer == worker.issuer then some worker.public_key else none

  -- Step 4, which skips an empty payload.
  unfoldable pub safety : TaskAtom → Result Policy.Fault (Unit {0})
  safety task =
      if is_empty task.payload
      then ok tt
      else verify_task_safety site.unicode task.requirements_json task.payload

  -- Steps 5 and 6, on the outcome of step 4.
  abbrev pub execute_if :
      Clock → TaskAtom → World → Result Policy.Fault (Unit {0}) → World × Option Fault
  execute_if clock task w (err f) = emit clock (kind_danger, reason f) task w
  execute_if clock task w (ok _) =
      emit clock (site.execute task) task (record w { executed = task ∷ w.executed })

  -- Steps 4 to 6.
  unfoldable pub perform : Clock → TaskAtom → World → World × Option Fault
  unfolding safety
  perform clock task w = execute_if clock task w (safety task)

  -- What step 3 does with the answer of the effect ledger.
  abbrev pub on_effect :
      Clock → TaskAtom → World → Bool × Option Effect.Fault → World × Option Fault
  on_effect clock task w (recorded, some f) = (w, some effect_ledger)
  on_effect clock task w (false, none) = (w, none)
  on_effect clock task w (true, none) = perform clock task w

  -- Steps 3 to 6.
  unfoldable pub claim : Clock → TaskAtom → World → World × Option Fault
  unfolding perform
  claim clock task w =
      let (ledger, answer) = try_apply site.bolt task.idempotency_key w.ledger in
      on_effect clock task (record w { ledger = ledger }) answer

  abbrev pub with_key : Clock → TaskAtom → World → Option Bytes → World × Option Fault
  with_key clock task w none = emit clock (kind_danger, codes "unknown issuer") task w
  with_key clock task w (some key) =
      if is_ok (verify (signable_task site.marshal_task) site.ed task key)
      then claim clock task w
      else emit clock (kind_danger, codes "signature verification failed") task w

  unfoldable pub handle_task : Clock → TaskAtom → World → World × Option Fault
  unfolding issuer_key claim
  handle_task clock task w =
      if eqb task.schema_version 0 || ltb 1 task.schema_version
      then emit clock (kind_danger, codes "unsupported schema version") task w
      else with_key clock task w (issuer_key task.issuer)

  abbrev pub on_message : Clock → World → Option TaskAtom → World × Option Fault
  on_message clock w none = (w, some unmarshal_failed)
  on_message clock w (some task) = handle_task clock task w

  unfoldable pub handle_message : Clock → Bytes → World → World × Option Fault
  unfolding handle_task
  handle_message clock body w = on_message clock w (site.unmarshal_task body)
