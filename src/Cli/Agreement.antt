-- ===== src/Cli/Agreement.antt =====
-- Whether the parts that the commands of cmd/meshyants/main.go start agree with each other.
use meshyants.Base.{
  ℕ, ◌≤◌, ◌≡◌, ◌≢◌, ◌⊎◌, ◌↔◌, inl, inr, refl, sym, ap, subst, ◌∙◌, Bytes, list_eq, nat_eq, ◌==◌,
  eq_of_==, ne_of_==, Result, ok, err, >>=-eq-ok, refuse_if, not, Bool-cases, true, is_empty,
  is_empty_iff, Option, none, some, [], ◌∷◌, arith,
}
use meshyants.Text.{Unicode, codes}
use meshyants.Contracts.{
  TaskAtom, PheromoneRecord, RuntimeTier, tier_executor_wasm, tier_unspecified, tier_relay,
  tier_executor_basic, tier_other, kind_safe,
}
use meshyants.Ledger.Effect.{try_apply, has_effect}
use meshyants.Ledger.Effect.Once.{is_first}
use meshyants.Signing.{IsPair}
use meshyants.Tier.{detect, detect_wasm_iff, is_general_purpose, default_min_memory}
use meshyants.Execwasm.{Engine, default_quotas}
use meshyants.Agent
use meshyants.Agent.{
  Worker, World, Clock, safety, emit, handle_message, handle_task, issuer_key, native_execute,
}
use meshyants.Oracle
use meshyants.Oracle.{Draw, handle_goal}
use meshyants.Agent.Reports.{IsTotal, Reports, emit_pheromone-Reports}
use meshyants.Journey.{started, started_recorded, goal_executed}
use meshyants.Cli.{
  wasm_executor, native_executor, execute, by_tier, choose_executor, run_executor, Host, Exit,
  or_exit, nats_url, no_nats, no_key, no_ledger, temporary_db, Started, Speaker, agent_cmd,
}

native_full :
    (task : TaskAtom)
    → task.payload ≢ []
    → native_execute (some task) ≡ (kind_safe, codes "acknowledged")
unfolding native_execute
native_full task full = ground (arith, is_empty_iff task.payload)

module _ (host : Host) where
  -- The agent's worker has the issuer name, the trust domain and the key of its oracle, and the native executor.
  abbrev Matches : Speaker → Started → Type 0
  Matches s w =
      (w.worker.issuer ≡ s.service.issuer)
      × (w.worker.public_key ≡ s.public_key)
      × (w.worker.private_key ≡ s.service.private_key)
      × (w.worker.trust_domain ≡ s.service.trust_domain)
      × (w.executor ≡ native_executor)

  abbrev AllMatch : Result Exit (Speaker × Started) → Type 0
  AllMatch (err e) = Unit {0}
  AllMatch (ok (s, w)) = Matches s w

  agent_cmd-Matches :
      (td : Option Bytes) (s : Speaker) (w : Started) → agent_cmd td host ≡ ok (s, w) → Matches s w
  unfolding agent_cmd
  agent_cmd-Matches td s w d =
      let (_, _, d1) = >>=-eq-ok (refuse_if (not (host.reaches (nats_url host))) no_nats) _ d in
      let (keys, _, d2) = >>=-eq-ok (or_exit no_key host.generate_key) _ d1 in
      let (_, _, d3) =
        >>=-eq-ok (refuse_if (not (host.opens (temporary_db host))) no_ledger) _ d2 in
      subst AllMatch d3 (refl, refl, refl, refl, refl)

  -- `meshyants agent`: where HandleGoal returns a task to the service that the command has started, the worker that
  -- it has started with the service calls the executor on that task once, records its key in the effect ledger, and hands the server
  -- one pheromone about it that says SAFE and verifies with its public key, with the server's error as its own if the server refuses it. This is
  -- so if the key that was drawn is a pair, both sides have the same wire format and signature scheme,
  -- every pheromone can be marshalled, the bytes delivered are read as the task, its payload is not empty and
  -- passes the safety check, and the effect ledger takes its key as new and commits; a second delivery
  -- then does nothing.
  pub agent_executes :
      (site : Oracle.Site) (place : Agent.Site) (u : Unicode) (engine : Engine) (td : Option Bytes)
      (s : Speaker) (w : Started) (raw : Bytes) (draw : Draw) (server : site.broker.Server)
      (task : TaskAtom) (p : PheromoneRecord) (body : Bytes) (clock later : Clock)
      (world : World place w.worker)
      → agent_cmd td host ≡ ok (s, w)
      → place.execute ≡ execute u engine w.executor
      → place.marshal_task ≡ site.marshal_task
      → place.ed ≡ site.ed
      → IsPair site.ed s.public_key s.service.private_key
      → IsTotal place.marshal_pheromone
      → (handle_goal site s.service raw draw server).1 ≡ ok (task, p)
      → place.unmarshal_task body ≡ some task
      → task.payload ≢ []
      → safety place w.worker task ≡ ok tt
      → is_first (try_apply place.bolt task.idempotency_key world.ledger).1 ≡ true
      → place.bolt.commits (handle_message place w.worker clock body world).0.ledger ≡ true
      → let r = handle_message place w.worker clock body world in
        (r.0.executed ≡ task ∷ world.executed)
        × (has_effect place.bolt task.idempotency_key r.0.ledger ≡ true)
        × Reports place w.worker kind_safe task.task_id world.server (r.0.server, r.1)
        × (handle_message place w.worker later body r.0 ≡ (r.0, none))
  unfolding execute native_execute
  agent_executes site place u engine td s w raw draw server task p body clock later world d runs
        wire scheme pair total goal parsed full safe new commits =
      let (issuer, public_key, private_key, domain, native) = agent_cmd-Matches td s w d in
      let worker_pair : IsPair site.ed w.worker.public_key w.worker.private_key =
        rw (public_key, private_key) pair in
      let (done, silent) =
        goal_executed site s.service place w.worker raw draw server task p body clock later world
          wire scheme issuer
          (subst (λ k. IsPair site.ed k s.service.private_key) (sym public_key) pair) goal parsed
          safe new commits in
      let acknowledged : place.execute task ≡ (kind_safe, codes "acknowledged") =
        ap (λ f. f task) runs ∙ ap (λ e. execute u engine e task) native ∙ native_full task full in
      let reported =
        done
        ∙ ap (λ o. emit place w.worker clock o task (started place w.worker task world))
            acknowledged in
      (
        ap (λ r. r.0.executed) reported,
        subst (λ r. has_effect place.bolt task.idempotency_key r.0.ledger ≡ true) (sym reported)
            (started_recorded place w.worker task world new),
        subst (λ r. Reports place w.worker kind_safe task.task_id world.server (r.0.server, r.1))
            (sym reported)
            (emit_pheromone-Reports place w.worker clock kind_safe task.task_id
              (codes "acknowledged") world.server
              (subst (λ ed. IsPair ed w.worker.public_key w.worker.private_key) (sym scheme)
                worker_pair)
              total),
        silent,
      )

by_tier-wasm :
    (rt : RuntimeTier) → by_tier rt ≡ wasm_executor default_quotas → rt ≡ tier_executor_wasm
by_tier-wasm tier_executor_wasm h = refl
by_tier-wasm tier_unspecified h = absurd cc
by_tier-wasm tier_relay h = absurd cc
by_tier-wasm tier_executor_basic h = absurd cc
by_tier-wasm (tier_other n) h = absurd cc

-- A worker runs the Wasm executor exactly if its flag is not "native" and, where the flag is empty, the
-- host is a general-purpose system whose memory is unknown or at least 256 MiB: any other text of the
-- flag, a misspelt one as well, selects it.
pub run_executor-wasm_iff :
    (flag goos : Bytes) (sys_mem : ℕ)
    → (run_executor (choose_executor flag (detect goos sys_mem default_min_memory))
        ≡ wasm_executor default_quotas)
      ↔ ((flag ≢ codes "native")
          × ((flag ≢ [])
              ⊎ ((is_general_purpose goos ≡ true)
                  × ((sys_mem ≡ 0) ⊎ (default_min_memory ≤ sys_mem)))))
unfolding run_executor choose_executor
run_executor-wasm_iff flag goos sys_mem = elim (Bool-cases (flag == codes "wasm")) [
  | inl e ↦
      let is_wasm = eq_of_== {A = Bytes} flag (codes "wasm") e in
      rw e (λ h. (λ h'. ground (arith, is_wasm, h'), inl λ h'. cc), λ h. refl)
  | inr e ↦ elim (Bool-cases (flag == codes "native")) [
    | inl e' ↦
        let is_native = eq_of_== {A = Bytes} flag (codes "native") e' in
        rw e (rw e' (λ h. absurd cc, λ h. absurd (h.0 is_native)))
    | inr e' ↦ elim (Bool-cases (is_empty flag)) [
      | inl e'' ↦
          let nothing : flag ≡ [] = (is_empty_iff flag).0 e'' in
          rw e (
            rw e' (
              rw e'' (
                λ h. (
                  λ h'. cc,
                  inr ((detect_wasm_iff goos sys_mem default_min_memory).0 (by_tier-wasm _ h)),
                ),
                λ (h, choice). elim choice [
                  | inl some_text ↦ absurd (some_text nothing)
                  | inr able ↦ ap by_tier ((detect_wasm_iff goos sys_mem default_min_memory).1 able)
                ],
              )))
      | inr e'' ↦ rw e (
          rw e' (
            rw e'' (
              λ h. (
                ne_of_== {A = Bytes} flag (codes "native") e',
                inl λ h'. absurd (ground (arith, e'', h')),
              ),
              λ h. refl,
            )))
    ]
  ]
]
