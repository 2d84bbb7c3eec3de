-- ===== src/Cli/Tests.antt =====
-- The agent command of cmd/meshyants/main.go: a goal handled, delivered, and delivered again.
use meshyants.Base.{
  ◌≡◌, refl, list_eq, nat_eq, ◌==◌, ==-refl, true, false, ok, none, some, List, [], ◌∷◌, lookup,
  insert, arith,
}
use meshyants.Text.{ascii_only, trim_space, contains, to_lower, lower_byte, codes}
use meshyants.Contracts.{TaskAtom, PheromoneRecord, kind_safe}
use meshyants.Ledger.Bolt.{in_memory}
use meshyants.Ledger.Effect.{try_apply, has_effect}
use meshyants.Agent.Reports.{Reports}
use meshyants.Policy.{TaskIntentHeader, Codecs, check_dtn_size, verify_task_safety}
use meshyants.Signing.{Ed25519, IsPair, sign}
use meshyants.Fabric.{Broker, Msg, transport_publish}
use meshyants.Agent
use meshyants.Agent.{World, Clock, native_execute, emit, safety, handle_message}
use meshyants.Oracle.{Site, Service, Draw, build_task, build_pheromone, handle_goal}
use meshyants.Execwasm.{Engine}
use meshyants.Cli.{Host, Speaker, Started, native_executor, execute, agent_cmd}
use meshyants.Cli.Agreement.{agent_executes}

abbrev codecs : Codecs
codecs = record {
  parses_rfc3339 = λ s. true;
  marshal = λ h. h.canonical_goal;
  unmarshal = λ s. none;
  sum256_hex = λ s. s;
}

abbrev goal : TaskIntentHeader
goal = record {
  scope = 1 ∷ [];
  prohibited_actions = some [];
  deadline_rfc3339 = [];
  transport_class = 2 ∷ [];
  required_approvals = [];
  canonical_goal = 3 ∷ [];
}

-- A signature is a 1 before the payload, and the server takes everything.
abbrev toy : Ed25519
toy = record { sign = λ key p. 1 ∷ p; verify = λ key p s. s == (1 ∷ p) }

toy-IsPair : IsPair toy [] []
toy-IsPair payload = ((λ p. ground arith), ==-refl (1 ∷ payload))

abbrev accepting : Broker
accepting = record {
  Server = List Msg;
  publish = λ s m. (m ∷ s, true);
  publish_async = λ s m. (m ∷ s, true);
}

abbrev site : Site
site = record {
  canonicalize = λ raw. some (some goal);
  parse_rfc3339 = λ s. none;
  requirements_json = λ transport scope. [];
  marshal_task = λ t. some t.payload;
  marshal_pheromone = λ p. some p.subject;
  unicode = ascii_only;
  codecs = codecs;
  ed = toy;
  broker = accepting;
}

-- A host without any environment, on which everything succeeds.
abbrev host : Host
host = record {
  getenv = λ key. [];
  reaches = λ url. true;
  load_key = λ file. none;
  generate_key = some ([], []);
  opens = λ file. true;
  goos = codes "linux";
  sys_mem = 0;
  ledger_id = b'u' ∷ [];
  durable_id = b'v' ∷ [];
}

abbrev service : Service
service = record { private_key = []; issuer = codes "oracle"; trust_domain = codes "default" }

abbrev speaker : Speaker
speaker = record { service = service; public_key = [] }

abbrev agent : Started
agent = record {
  worker = record {
    public_key = [];
    private_key = [];
    issuer = codes "oracle";
    trust_domain = codes "default";
  };
  executor = native_executor;
  subject = codes "mesh.task.default";
  durable = codes "agent-v";
  effect_db = codes "/tmp/meshyants_effect_u.db";
}

agent_started : agent_cmd none host ≡ ok (speaker, agent)
unfolding agent_cmd
agent_started = refl

-- wazero, which is not asked.
abbrev engine : Engine
engine = record {
  instantiate_wasi = λ l. none;
  compile = λ l b. none;
  instantiate = λ l b. none;
  start = λ l b. none;
  expired = false;
}

abbrev draw : Draw
draw = record { client_id = b'u' ∷ []; task_id = b't' ∷ []; now = 5; unix_nano = 6; issued_at = 7 }

abbrev task : TaskAtom
task = record (build_task site service goal (3 ∷ []) draw) { signature = 1 ∷ 3 ∷ [] }

abbrev pheromone : PheromoneRecord
pheromone = record (build_pheromone site service task draw) { signature = 1 ∷ b't' ∷ [] }

goal_handled : (handle_goal site service [] draw []).1 ≡ ok (task, pheromone)
unfolding handle_goal check_dtn_size sign trim_space transport_publish
goal_handled = refl

abbrev place : Agent.Site
place = record {
  unmarshal_task = λ body. some task;
  marshal_task = λ t. some t.payload;
  marshal_pheromone = λ p. some p.subject;
  sum_hex = λ s. s;
  ed = toy;
  unicode = ascii_only;
  bolt = in_memory;
  broker = accepting;
  execute = execute ascii_only engine native_executor;
}

abbrev clock : Clock
clock = record { unix_nano = 5; issued_at = 6 }

abbrev idle : World place agent.worker
idle = record { ledger = []; server = []; executed = [] }

agent_executes_example :
    let r = handle_message place agent.worker clock (3 ∷ []) idle in
    (r.0.executed ≡ task ∷ [])
    × (has_effect in_memory task.idempotency_key r.0.ledger ≡ true)
    × Reports place agent.worker kind_safe task.task_id [] (r.0.server, r.1)
    × (handle_message place agent.worker clock (3 ∷ []) r.0 ≡ (r.0, none))
unfolding safety verify_task_safety try_apply lookup insert build_task contains to_lower lower_byte
agent_executes_example =
    agent_executes host site place ascii_only engine none speaker agent [] draw [] task pheromone
      (3 ∷ []) clock clock idle agent_started refl refl refl toy-IsPair (λ m. (_, refl))
      goal_handled refl (λ e. ground (arith, e)) refl refl refl
