-- ===== src/Agent/Reports.antt =====
-- What emitPheromone of internal/agent/worker.go publishes.
use meshyants.Base.{
  ◌≡◌, refl, Bytes, ok, Bool, true, false, Option, none, some, [], ◌++◌, take, if◌then◌else◌,
}
use meshyants.Text.{codes}
use meshyants.Contracts.{PheromoneKind, PheromoneRecord}
use meshyants.Signing.{IsPair, sign, verify}
use meshyants.Signing.Messages.{signable_pheromone}
use meshyants.Signing.Trust.{sign-verify}
use meshyants.Fabric.{Msg, transport_publish, stable_msg_id}
use meshyants.Agent.{
  Site, Worker, Clock, Fault, publish_pheromone, emit_pheromone, sent, publish_signed,
}

-- The wire format has bytes for every message.
abbrev pub IsTotal : {M : Type 0} → (M → Option Bytes) → Type 0
IsTotal {M} marshal = (m : M) → (body : Bytes) × (marshal m ≡ some body)

module _ (site : Site) (worker : Worker) where
  open site use {broker}

  -- A pheromone of that kind about a task, in the worker's name and trust domain, that verifies with the
  -- worker's public key.
  pub record IsReport (kind : PheromoneKind) (task_id : Bytes) (p : PheromoneRecord) : Type 0 where
    pub kind_is : p.kind ≡ kind
    pub subject_is : p.subject ≡ task_id
    pub issuer_is : p.issuer ≡ worker.issuer
    pub domain_is : p.trust_domain ≡ worker.trust_domain
    pub verifies :
        verify (signable_pheromone site.marshal_pheromone) site.ed p worker.public_key ≡ ok tt

  -- The message on the blackboard for a pheromone.
  abbrev pub posted : PheromoneRecord → Bytes → Msg
  posted p body = record {
    subject = codes "mesh.phero." ++ worker.trust_domain;
    body = body;
    msg_id = take 32 (site.sum_hex p.record_id);
  }

  -- One such pheromone is handed to the server, and the error is that of the server, if it has one.
  abbrev pub Reports : PheromoneKind → Bytes → broker.Server → broker.Server × Option Fault → Type 0
  Reports kind task_id server result =
      (p : PheromoneRecord) × (body : Bytes) × IsReport kind task_id p
      × (site.marshal_pheromone p ≡ some body)
      × (let r = broker.publish server (posted p body) in
          result ≡ (r.0, if r.1 then none else some publish_pheromone))

  sent_lem :
      (r : broker.Server × Bool)
      → sent site worker r ≡ (r.0, if r.1 then none else some publish_pheromone)
  sent_lem (server, true) = refl
  sent_lem (server, false) = refl

  publish_signed-Reports :
      (draft : PheromoneRecord) (server : broker.Server)
      → IsPair site.ed worker.public_key worker.private_key
      → IsTotal site.marshal_pheromone
      → draft.issuer ≡ worker.issuer
      → draft.trust_domain ≡ worker.trust_domain
      → Reports draft.kind draft.subject server (
          publish_signed site worker server
            (sign (signable_pheromone site.marshal_pheromone) site.ed draft worker.private_key))
  unfolding transport_publish stable_msg_id
  publish_signed-Reports draft server pair total of_worker here =
      let (payload, e) = total (record draft { signature = [] }) in
      let p = record draft { signature = site.ed.sign worker.private_key payload } in
      let (body, e') = total p in
      let (signed, holds) =
        sign-verify (signable_pheromone site.marshal_pheromone) site.ed draft worker.public_key
          worker.private_key payload pair refl e in
      (
        p,
        body,
        record {
          kind_is = refl;
          subject_is = refl;
          issuer_is = of_worker;
          domain_is = here;
          verifies = holds;
        },
        e',
        rw signed (rw e' (sent_lem (broker.publish server (posted p body)))),
      )

  pub emit_pheromone-Reports :
      (clock : Clock) (kind : PheromoneKind) (subject detail : Bytes) (server : broker.Server)
      → IsPair site.ed worker.public_key worker.private_key
      → IsTotal site.marshal_pheromone
      → Reports kind subject server (emit_pheromone site worker clock kind subject detail server)
  unfolding emit_pheromone
  emit_pheromone-Reports clock kind subject detail server pair total =
      publish_signed-Reports _ server pair total refl refl
