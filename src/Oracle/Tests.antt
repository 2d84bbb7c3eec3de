-- ===== src/Oracle/Tests.antt =====
-- One goal through internal/oracle/service.go.
use meshyants.Base.{
  ◌≡◌, refl, list_eq, nat_eq, ◌==◌, ==-refl, true, ok, none, some, List, [], ◌∷◌, arith,
}
use meshyants.Text.{ascii_only, trim_space}
use meshyants.Contracts.{TaskAtom, PheromoneRecord, kind_safe}
use meshyants.Ledger.Bolt.{in_memory}
use meshyants.Policy.{TaskIntentHeader, Codecs, check_dtn_size}
use meshyants.Signing.{Ed25519, IsPair, sign}
use meshyants.Fabric.{Broker, Msg, transport_publish}
use meshyants.Agent
use meshyants.Agent.{Worker}
use meshyants.Agent.Trusted.{IsGenuine}
use meshyants.Oracle.{Site, Service, Draw, build_task, build_pheromone, handle_goal}
use meshyants.Oracle.Trust.{handle_goal-IsGenuine}

abbrev codecs : Codecs
codecs = record {
  parses_rfc3339 = λ s. true;
  marshal = λ h. h.canonical_goal;
  unmarshal = λ s. none;
  sum256_hex = λ s. s;
}

abbrev goal : TaskIntentHeader
goal = record {
  scope = 1 ∷ [];
  prohibited_actions = some [];
  deadline_rfc3339 = [];
  transport_class = 2 ∷ [];
  required_approvals = [];
  canonical_goal = 3 ∷ [];
}

-- A signature is a 1 before the payload, and the server takes everything.
abbrev toy : Ed25519
toy = record { sign = λ key p. 1 ∷ p; verify = λ key p s. s == (1 ∷ p) }

toy-IsPair : IsPair toy [] []
toy-IsPair payload = ((λ p. ground arith), ==-refl (1 ∷ payload))

abbrev accepting : Broker
accepting = record {
  Server = List Msg;
  publish = λ s m. (m ∷ s, true);
  publish_async = λ s m. (m ∷ s, true);
}

abbrev site : Site
site = record {
  canonicalize = λ raw. some (some goal);
  parse_rfc3339 = λ s. none;
  requirements_json = λ transport scope. [];
  marshal_task = λ t. some t.payload;
  marshal_pheromone = λ p. some p.subject;
  unicode = ascii_only;
  codecs = codecs;
  ed = toy;
  broker = accepting;
}

abbrev service : Service
service = record { private_key = []; issuer = b'q' ∷ []; trust_domain = b'd' ∷ [] }

abbrev draw : Draw
draw = record { client_id = b'u' ∷ []; task_id = b't' ∷ []; now = 5; unix_nano = 6; issued_at = 7 }

abbrev task : TaskAtom
task = record (build_task site service goal (3 ∷ []) draw) { signature = 1 ∷ 3 ∷ [] }

abbrev pheromone : PheromoneRecord
pheromone = record (build_pheromone site service task draw) { signature = 1 ∷ b't' ∷ [] }

goal_handled : (handle_goal site service [] draw []).1 ≡ ok (task, pheromone)
unfolding handle_goal check_dtn_size sign trim_space transport_publish
goal_handled = refl

abbrev place : Agent.Site
place = record {
  unmarshal_task = λ body. none;
  marshal_task = λ t. some t.payload;
  marshal_pheromone = λ p. none;
  sum_hex = λ s. s;
  ed = toy;
  unicode = ascii_only;
  bolt = in_memory;
  broker = accepting;
  execute = λ t. (kind_safe, []);
}

abbrev worker : Worker
worker = record { public_key = []; private_key = []; issuer = b'q' ∷ []; trust_domain = b'd' ∷ [] }

handle_goal-IsGenuine_example : IsGenuine place worker task
handle_goal-IsGenuine_example =
    handle_goal-IsGenuine site service place worker [] draw [] task pheromone refl refl refl
      toy-IsPair goal_handled
