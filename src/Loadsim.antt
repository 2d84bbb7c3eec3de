-- ===== src/Loadsim.antt =====
-- cmd/loadsim/main.go: the tasks of a load run, round-robin over the devices, and the count of the SAFE
-- pheromones that answer them. The devices themselves are workers of internal/agent.
pub mod Witness
pub mod Tasks
use meshyants.Base.{
  ℕ, zero, suc, ◌+◌, ◌-◌, ◌*◌, ◌%◌, Bytes, Result, ok, err, ◌>>=◌, ◌>>◌, refuse_if, ltb, not, ◌&&◌,
  ◌||◌, Bool, true, false, is_empty, Option, none, some, List, [], ◌∷◌, ◌++◌, if◌then◌else◌,
}
use meshyants.Text.{codes}
use meshyants.Text.Decimal.{decimal}
use meshyants.Contracts.{Instant, TaskAtom, PheromoneRecord, PheromoneKind, kind_safe}
use meshyants.Signing
use meshyants.Signing.{Ed25519, sign}
use meshyants.Signing.Messages.{signable_task}
use meshyants.Fabric.{Broker, transport_publish, stable_msg_id}

-- The flags that bear on the run; a number below 0 is refused like 0.
pub record Options : Type 0 where
  pub nats : Bytes
  pub devices : ℕ
  pub tasks : ℕ
  pub trust : Bytes
  pub wasm : Bool
  pub publish_only : Bool
  pub key_file : Bytes

pub data Fault : Type 0 where
  no_nats no_devices no_key_file marshal_failed publish_failed : Fault
  sign_failed : Signing.Fault → Fault

-- The tests at the start of main.
unfoldable pub check_options : Options → Result Fault (Unit {0})
check_options o = do
  refuse_if (is_empty o.nats) no_nats
  refuse_if (ltb o.devices 1 || ltb o.tasks 1) no_devices
  refuse_if (o.publish_only && is_empty o.key_file) no_key_file

-- The wire format, SHA-256 in hexadecimal digits, Ed25519, NATS, and the bytes of execwasm.ValidWasm.
pub record Site : Type 1 where
  pub marshal_task : TaskAtom → Option Bytes
  pub sum_hex : Bytes → Bytes
  pub ed : Ed25519
  pub broker : Broker
  pub valid_wasm : Bytes

-- One hour in nanoseconds.
abbrev pub one_hour : ℕ
one_hour = 3600 * 1000000000

module _ (site : Site) (o : Options) (run_id private_key : Bytes) where
  open site use {broker}

  unfoldable pub idempotency_key_of : ℕ → Bytes
  idempotency_key_of k = codes "idem-" ++ (run_id ++ (codes "-" ++ decimal k))

  unfoldable pub subject_of : ℕ → Bytes
  subject_of k = codes "mesh.task." ++ (o.trust ++ (codes ".dev" ++ decimal (k % o.devices)))

  -- The task number `k`, before it is signed.
  unfoldable pub load_task : ℕ → Instant → TaskAtom
  unfolding idempotency_key_of
  load_task k now = record {
    schema_version = 1;
    task_id = codes "task-" ++ (run_id ++ (codes "-" ++ decimal k));
    idempotency_key = idempotency_key_of k;
    issuer = codes "oracle";
    trust_domain = o.trust;
    causal_parents = codes "genesis" ∷ [];
    requirements_json = codes "{\"transport\":\"fast-local\"}";
    payload = if o.wasm then site.valid_wasm else codes "{\"load\":true}";
    expires_at = some (now + one_hour);
    content_ref = [];
    signature = [];
  }

  abbrev pub sent : broker.Server × Bool → broker.Server × Option Fault
  sent (server, true) = (server, none)
  sent (server, false) = (server, some publish_failed)

  abbrev pub send_marshalled : ℕ → broker.Server → Option Bytes → broker.Server × Option Fault
  send_marshalled k server none = (server, some marshal_failed)
  send_marshalled k server (some payload) = sent (
      transport_publish broker server (subject_of k) payload
        (stable_msg_id site.sum_hex (idempotency_key_of k)))

  abbrev pub send_signed :
      ℕ → broker.Server → Result Signing.Fault TaskAtom → broker.Server × Option Fault
  send_signed k server (err f) = (server, some (sign_failed f))
  send_signed k server (ok task) = send_marshalled k server (site.marshal_task task)

  -- The body of the loop; the clock is read at each round.
  unfoldable pub send_task : (ℕ → Instant) → ℕ → broker.Server → broker.Server × Option Fault
  unfolding load_task subject_of
  send_task now k server =
      send_signed k server
        (sign (signable_task site.marshal_task) site.ed (load_task k (now k)) private_key)

  -- log.Fatalf ends the loop.
  abbrev pub unless_fatal :
      (broker.Server → broker.Server × Option Fault)
      → broker.Server × Option Fault
      → broker.Server × Option Fault
  unless_fatal next (server, some f) = (server, some f)
  unless_fatal next (server, none) = next server

  -- The loop, with `n` tasks left from number `k` on.
  unfoldable pub send_from : (ℕ → Instant) → ℕ → ℕ → broker.Server → broker.Server × Option Fault
  unfolding send_task
  send_from now zero k server = (server, none)
  send_from now (suc n) k server = unless_fatal (send_from now n (k + 1)) (send_task now k server)

-- What a fetch of the witness gets: for each message its kind, and none where it cannot be read.
pub data Fetched : Type 0 where
  batch : List (Option PheromoneKind) → Fetched
  timed_out failed : Fetched

-- One round of the loop: whether it is before the deadline, and what a fetch of that many gets.
pub record Round : Type 0 where
  pub in_time : Bool
  pub fetch : ℕ → Fetched

abbrev pub is_safe : Option PheromoneKind → Bool
is_safe (some kind_safe) = true
is_safe _ = false

unfoldable pub count_safe : List (Option PheromoneKind) → ℕ
count_safe [] = 0
count_safe (m ∷ ms) = let rest = count_safe ms in if is_safe m then 1 + rest else rest

-- `want`, where fewer than `tasks` are counted.
unfoldable pub want_of : ℕ → ℕ → ℕ
want_of tasks count =
    let want = tasks - count in
    let most = if ltb 256 want then 256 else want in if ltb most 1 then 1 else most

abbrev pub fetched_count : Fetched → ℕ → (ℕ → ℕ) → ℕ
fetched_count failed count next = count
fetched_count timed_out count next = next count
fetched_count (batch ms) count next = next (count + count_safe ms)

-- The goroutine that counts, over the rounds that come.
unfoldable pub witness : ℕ → List Round → ℕ → ℕ
unfolding want_of count_safe
witness tasks [] count = count
witness tasks (r ∷ rs) count =
    if ltb count tasks && r.in_time
    then fetched_count (r.fetch (want_of tasks count)) count (witness tasks rs)
    else count

-- The exit code of the run.
unfoldable pub exit_code : ℕ → ℕ → ℕ
exit_code tasks got = if ltb got tasks then 1 else 0
