-- ===== src/Oracle/Trust.antt =====
-- What a goal that HandleGoal of internal/oracle/service.go has published means to the workers.
use meshyants.Base.{
  ◌==◌, eq_of_==, ne_of_==, list_eq, nat_eq, ◌++◌, ◌≡◌, ◌≢◌, ◌⊎◌, inl, inr, refl, sym, ap, ◌∙◌,
  Bytes, Result, ok, err, Bool, Bool-cases, Option-cases, true, false, All, Option, none, some, [],
  arith,
}
use meshyants.Text.{trim_space, codes}
use meshyants.Contracts.{TaskAtom, PheromoneRecord}
use meshyants.Policy
use meshyants.Policy.{TaskIntentHeader, check_dtn_size}
use meshyants.Policy.Safety.{Collision, derive_idempotency_key_injective}
use meshyants.Signing.{IsPair, sign, verify, marshal_canonical}
use meshyants.Signing
use meshyants.Signing.Messages.{signable_task, signable_pheromone}
use meshyants.Fabric.{transport_publish, stable_msg_id}
use meshyants.Signing.Trust.{verify-sign}
use meshyants.Agent
use meshyants.Agent.{Worker}
use meshyants.Agent.Trusted.{IsGenuine}
use meshyants.Oracle.{
  Fault, publish_task, build_pheromone, published, Site, Service, Draw, build_task, emit_todo,
  emit_signed, publish_signed, send_task, with_canonical, with_header, handle_goal,
}

module _ (site : Site) (s : Service) where
  emit_signed_task :
      (t task : TaskAtom) (p : PheromoneRecord) (server : site.broker.Server)
      (r : Result Signing.Fault PheromoneRecord)
      → (emit_signed site s t server r).1 ≡ ok (task, p)
      → task ≡ t
  emit_signed_task t task p server r h = ground arith

  emit_todo_task :
      (t task : TaskAtom) (p : PheromoneRecord) (draw : Draw) (server : site.broker.Server)
      → (emit_todo site s t draw server).1 ≡ ok (task, p)
      → task ≡ t
  unfolding emit_todo
  emit_todo_task t task p draw server h =
      emit_signed_task t task p server
        (sign (signable_pheromone site.marshal_pheromone) site.ed (build_pheromone site s t draw)
          s.private_key)
        h

  published_ok :
      (f : Fault) (r : site.broker.Server × Bool)
      (next : site.broker.Server → site.broker.Server × Result Fault (TaskAtom × PheromoneRecord))
      {x : TaskAtom × PheromoneRecord}
      → (published site s f r next).1 ≡ ok x
      → (next r.0).1 ≡ ok x
  published_ok f (server, false) next h = ground arith
  published_ok f (server, true) next h = h

  send_task_task :
      (t task : TaskAtom) (p : PheromoneRecord) (draw : Draw) (server : site.broker.Server)
      (payload : Option Bytes)
      → (send_task site s t draw server payload).1 ≡ ok (task, p)
      → task ≡ t
  send_task_task t task p draw server none h = ground arith
  send_task_task t task p draw server (some payload) h =
      let sent =
        transport_publish site.broker server (codes "mesh.task." ++ s.trust_domain) payload
          (stable_msg_id site.codecs.sum256_hex t.idempotency_key) in
      emit_todo_task t task p draw sent.0
        (published_ok publish_task sent (emit_todo site s t draw) h)

  publish_signed_task :
      (draw : Draw) (server : site.broker.Server) (r : Result Signing.Fault TaskAtom)
      (task : TaskAtom) (p : PheromoneRecord)
      → (publish_signed site s draw server r).1 ≡ ok (task, p)
      → r ≡ ok task
  unfolding publish_signed
  publish_signed_task draw server (err f) task p h = ground arith
  publish_signed_task draw server (ok t) task p h =
      ap ok (sym (send_task_task t task p draw server (site.marshal_task t) h))

  -- What is known of a header and its JSON that became the task.
  abbrev pub Became : TaskIntentHeader → Bytes → Draw → TaskAtom → Type 0
  Became h canonical draw task =
      (check_dtn_size site.unicode site.codecs (some h) false ≡ ok canonical)
      × (sign (signable_task site.marshal_task) site.ed (build_task site s h canonical draw)
            s.private_key
          ≡ ok task)

  with_canonical_task :
      (h : Option TaskIntentHeader) (draw : Draw) (server : site.broker.Server)
      (r : Result Policy.Fault Bytes) (task : TaskAtom) (p : PheromoneRecord)
      → check_dtn_size site.unicode site.codecs h false ≡ r
      → (with_canonical site s h draw server r).1 ≡ ok (task, p)
      → (i : TaskIntentHeader) × (canonical : Bytes) × (h ≡ some i) × Became i canonical draw task
  with_canonical_task h draw server (err f) task p e d = ground arith
  with_canonical_task none draw server (ok canonical) task p e d = ground arith
  with_canonical_task (some h) draw server (ok canonical) task p e d =
      (h, canonical, refl, (e, publish_signed_task draw server _ task p d))

  with_header_task :
      (header : Option (Option TaskIntentHeader)) (draw : Draw) (server : site.broker.Server)
      (task : TaskAtom) (p : PheromoneRecord)
      → (with_header site s draw server header).1 ≡ ok (task, p)
      → (h : TaskIntentHeader) × (canonical : Bytes) × (header ≡ some (some h))
        × Became h canonical draw task
  with_header_task none draw server task p d = ground arith
  with_header_task (some h) draw server task p d =
      let (i, canonical, e, became) =
        with_canonical_task h draw server (check_dtn_size site.unicode site.codecs h false) task p
          refl d in
      (i, canonical, ap some e, became)

  sign_keeps :
      (t task : TaskAtom)
      → sign (signable_task site.marshal_task) site.ed t s.private_key ≡ ok task
      → task ≡ record t { signature = task.signature }
  unfolding sign marshal_canonical
  sign_keeps t task h = elim (Option-cases (site.marshal_task (record t { signature = [] }))) [
    | inl e ↦ ground arith
    | inr (payload, e) ↦ ground arith
  ]

  -- A task that HandleGoal returns is the one built from a header that the adapter returned and that
  -- passed CheckDTNSize, with its JSON as the payload, and with a signature that the service's public
  -- key verifies.
  pub handle_goal_signed :
      (raw : Bytes) (draw : Draw) (server : site.broker.Server) (task : TaskAtom)
      (p : PheromoneRecord) (public_key : Bytes)
      → IsPair site.ed public_key s.private_key
      → (handle_goal site s raw draw server).1 ≡ ok (task, p)
      → (h : TaskIntentHeader) × (canonical : Bytes) × (site.canonicalize raw ≡ some (some h))
        × (check_dtn_size site.unicode site.codecs (some h) false ≡ ok canonical)
        × (task ≡ record (build_task site s h canonical draw) { signature = task.signature })
        × (verify (signable_task site.marshal_task) site.ed task public_key ≡ ok tt)
  unfolding handle_goal
  handle_goal_signed raw draw server task p public_key pair d =
      let (h, canonical, e, (fits, signed)) =
        with_header_task (site.canonicalize raw) draw server task p d in
      (
        h,
        canonical,
        e,
        fits,
        sign_keeps (build_task site s h canonical draw) task signed,
        verify-sign (signable_task site.marshal_task) site.ed (build_task site s h canonical draw)
            task public_key s.private_key pair signed,
      )

  -- A task that HandleGoal returns passes the schema, issuer and signature checks of every worker that
  -- has the service's issuer name and the public key of its pair, with the same wire format and
  -- signature scheme.
  pub handle_goal-IsGenuine :
      (place : Agent.Site) (worker : Worker) (raw : Bytes) (draw : Draw)
      (server : site.broker.Server) (task : TaskAtom) (p : PheromoneRecord)
      → place.marshal_task ≡ site.marshal_task
      → place.ed ≡ site.ed
      → worker.issuer ≡ s.issuer
      → IsPair site.ed worker.public_key s.private_key
      → (handle_goal site s raw draw server).1 ≡ ok (task, p)
      → IsGenuine place worker task
  unfolding build_task
  handle_goal-IsGenuine place worker raw draw server task p same_wire same_scheme same_issuer pair
        d =
      let (h, canonical, e, fits, built, signed) =
        handle_goal_signed raw draw server task p worker.public_key pair d in
      record {
        versioned = ap (λ t. t.schema_version) built;
        own = ap (λ t. t.issuer) built ∙ sym same_issuer;
        signed = rw (same_wire, same_scheme) signed;
      }

  -- The same goal handed in twice, with UUIDs that differ and hold no NUL byte, gets two idempotency
  -- keys, or else SHA-256 has a collision.
  pub repeated_goal :
      (h : TaskIntentHeader) (canonical : Bytes) (draw other : Draw)
      → All (λ x. x ≢ 0) (trim_space site.unicode draw.client_id)
      → All (λ x. x ≢ 0) (trim_space site.unicode other.client_id)
      → trim_space site.unicode draw.client_id ≢ trim_space site.unicode other.client_id
      → ((build_task site s h canonical draw).idempotency_key
          ≢ (build_task site s h canonical other).idempotency_key)
        ⊎ Collision site.codecs
  unfolding build_task
  repeated_goal h canonical draw other f g differ =
      let key = (build_task site s h canonical draw).idempotency_key in
      let other_key = (build_task site s h canonical other).idempotency_key in
      elim (Bool-cases (key == other_key)) [
        | inr apart ↦ inl (ne_of_== key other_key apart)
        | inl same ↦
            elim (derive_idempotency_key_injective site.unicode site.codecs h.canonical_goal
              h.canonical_goal draw.client_id other.client_id f g (eq_of_== key other_key same)) [
                | inl (goals, ids) ↦ absurd (differ ids)
                | inr collision ↦ inr collision
              ]
      ]
