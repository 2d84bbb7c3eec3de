-- ===== src/Oracle.antt =====
-- internal/oracle/service.go: from a human goal to a signed task and its pheromone. The language model
-- behind the adapter, the UUIDs and the clock are arguments; verbose logging is left out.
pub mod Trust
mod Tests
use meshyants.Base.{
  ℕ, ◌+◌, ◌*◌, Bytes, Result, ok, err, Bool, true, false, is_empty, Option, none, some, List, [],
  ◌∷◌, ◌++◌, if◌then◌else◌,
}
use meshyants.Text.{Unicode, codes}
use meshyants.Text.Decimal.{decimal}
use meshyants.Contracts.{Instant, TaskAtom, PheromoneRecord, kind_todo}
use meshyants.Policy
use meshyants.Policy.{TaskIntentHeader, Codecs, check_dtn_size, derive_idempotency_key}
use meshyants.Signing
use meshyants.Signing.{Ed25519, sign}
use meshyants.Signing.Messages.{signable_task, signable_pheromone}
use meshyants.Fabric.{Broker, transport_publish, stable_msg_id}
use meshyants.Agent.{one_strength}

pub data Fault : Type 0 where
  canonicalize marshal_task publish_task marshal_pheromone publish_pheromone : Fault
  over_budget : Policy.Fault → Fault
  sign_task sign_pheromone : Signing.Fault → Fault

pub record Service : Type 0 where
  pub private_key : Bytes
  pub issuer : Bytes
  pub trust_domain : Bytes

-- `canonicalize`: the adapter, `none` for an error and `some none` for a nil header. `parse_rfc3339` is
-- time.Parse(time.RFC3339, s). `requirements_json` is json.Marshal of the map from the transport class
-- and the scope.
pub record Site : Type 1 where
  pub canonicalize : Bytes → Option (Option TaskIntentHeader)
  pub parse_rfc3339 : Bytes → Option Instant
  pub requirements_json : Bytes → Bytes → Bytes
  pub marshal_task : TaskAtom → Option Bytes
  pub marshal_pheromone : PheromoneRecord → Option Bytes
  pub unicode : Unicode
  pub codecs : Codecs
  pub ed : Ed25519
  pub broker : Broker

-- What one call reads from outside: two UUIDs, and three readings of the clock.
pub record Draw : Type 0 where
  pub client_id : Bytes
  pub task_id : Bytes
  pub now : Instant
  pub unix_nano : ℕ
  pub issued_at : Instant

-- 24 hours in nanoseconds.
abbrev pub one_day : ℕ
one_day = 24 * 3600 * 1000000000

module _ (site : Site) (s : Service) where
  open site use {broker}

  abbrev Step : Type 0
  Step = broker.Server × Result Fault (TaskAtom × PheromoneRecord)

  abbrev or_default : Instant → Option Instant → Instant
  or_default fallback none = fallback
  or_default fallback (some d) = d

  -- A deadline that does not parse as it stands is replaced by the default.
  unfoldable pub deadline_of : TaskIntentHeader → Instant → Instant
  deadline_of h now =
      if is_empty h.deadline_rfc3339
      then now + one_day
      else or_default (now + one_day) (site.parse_rfc3339 h.deadline_rfc3339)

  -- Steps 3 and 4.
  unfoldable pub build_task : TaskIntentHeader → Bytes → Draw → TaskAtom
  unfolding deadline_of
  build_task h canonical draw = record {
    schema_version = 1;
    task_id = draw.task_id;
    idempotency_key =
        derive_idempotency_key site.unicode site.codecs h.canonical_goal draw.client_id;
    issuer = s.issuer;
    trust_domain = s.trust_domain;
    causal_parents = codes "genesis" ∷ [];
    requirements_json = site.requirements_json h.transport_class h.scope;
    payload = canonical;
    expires_at = some (deadline_of h draw.now);
    content_ref = [];
    signature = [];
  }

  unfoldable pub build_pheromone : TaskAtom → Draw → PheromoneRecord
  build_pheromone task draw = record {
    schema_version = 1;
    record_id = codes "phero-todo-" ++ (decimal draw.unix_nano ++ (codes "-" ++ task.task_id));
    kind = kind_todo;
    subject = task.task_id;
    strength = one_strength;
    decay_policy = none;
    issuer = s.issuer;
    trust_domain = s.trust_domain;
    causal_parents = task.task_id ∷ [];
    issued_at = some draw.issued_at;
    signature = [];
  }

  abbrev pub published : Fault → broker.Server × Bool → (broker.Server → Step) → Step
  published f (server, false) next = (server, err f)
  published f (server, true) next = next server

  abbrev topic : Bytes → Bytes
  topic prefix = prefix ++ s.trust_domain

  abbrev pub send_pheromone : TaskAtom → PheromoneRecord → broker.Server → Option Bytes → Step
  send_pheromone task phero server none = (server, err marshal_pheromone)
  send_pheromone task phero server (some payload) =
      published publish_pheromone
        (transport_publish broker server (topic (codes "mesh.phero.")) payload
          (stable_msg_id site.codecs.sum256_hex phero.record_id))
        λ later. (later, ok (task, phero))

  abbrev pub emit_signed : TaskAtom → broker.Server → Result Signing.Fault PheromoneRecord → Step
  emit_signed task server (err f) = (server, err (sign_pheromone f))
  emit_signed task server (ok phero) =
      send_pheromone task phero server (site.marshal_pheromone phero)

  -- Step 6.
  unfoldable pub emit_todo : TaskAtom → Draw → broker.Server → Step
  unfolding build_pheromone
  emit_todo task draw server = emit_signed task server (
      sign (signable_pheromone site.marshal_pheromone) site.ed (build_pheromone task draw)
        s.private_key)

  abbrev pub send_task : TaskAtom → Draw → broker.Server → Option Bytes → Step
  send_task task draw server none = (server, err marshal_task)
  send_task task draw server (some payload) =
      published publish_task
        (transport_publish broker server (topic (codes "mesh.task.")) payload
          (stable_msg_id site.codecs.sum256_hex task.idempotency_key))
        (emit_todo task draw)

  -- Step 5, once the task is signed, and step 6.
  unfoldable pub publish_signed : Draw → broker.Server → Result Signing.Fault TaskAtom → Step
  unfolding emit_todo
  publish_signed draw server (err f) = (server, err (sign_task f))
  publish_signed draw server (ok task) = send_task task draw server (site.marshal_task task)

  abbrev pub with_canonical :
      Option TaskIntentHeader → Draw → broker.Server → Result Policy.Fault Bytes → Step
  with_canonical h draw server (err f) = (server, err (over_budget f))
  with_canonical none draw server (ok canonical) = (server, err canonicalize)
  with_canonical (some h) draw server (ok canonical) =
      publish_signed draw server
        (sign (signable_task site.marshal_task) site.ed (build_task h canonical draw) s.private_key)

  abbrev pub with_header : Draw → broker.Server → Option (Option TaskIntentHeader) → Step
  with_header draw server none = (server, err canonicalize)
  with_header draw server (some h) =
      with_canonical h draw server (check_dtn_size site.unicode site.codecs h false)

  unfoldable pub handle_goal : Bytes → Draw → broker.Server → Step
  unfolding publish_signed build_task
  handle_goal raw_input draw server = with_header draw server (site.canonicalize raw_input)
