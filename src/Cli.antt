-- ===== src/Cli.antt =====
-- cmd/meshyants/main.go: how the commands put the parts together. The environment, the host, the key that is
-- loaded or drawn, the UUIDs and the effect ledger's file are arguments; what is printed is left out.
pub mod Agreement
pub mod Tail
mod Tests
use meshyants.Base.{
  ℕ, Bytes, String, list_eq, nat_eq, ◌==◌, Result, ok, err, ◌>>=◌, ◌>>◌, refuse_if, eqb, not, Bool,
  true, false, is_empty, Option, none, some, List, [], ◌∷◌, ◌++◌, take, length, if◌then◌else◌,
}
use meshyants.Text.{Unicode, codes}
use meshyants.Contracts.{RuntimeTier, tier_executor_wasm, TaskAtom, PheromoneKind}
use meshyants.Tier.{detect, default_min_memory}
use meshyants.Execwasm
use meshyants.Execwasm.{Quotas, default_quotas, Engine}
use meshyants.Agent.{Worker, wasm_execute, native_execute}
use meshyants.Oracle.{Service}
use meshyants.Adapters.Factory.{env_or}

pub data Executor : Type 0 where
  wasm_executor : Quotas → Executor
  native_executor : Executor

-- The text of an execwasm error.
abbrev pub text_of : Option Execwasm.Fault → Option Bytes
text_of none = none
text_of (some (Execwasm.timeout text)) = some text
text_of (some (Execwasm.memory_limit text)) = some text
text_of (some (Execwasm.other text)) = some text

-- The method Execute.
unfoldable pub execute : Unicode → Engine → Executor → TaskAtom → PheromoneKind × Bytes
unfolding wasm_execute native_execute default_quotas
execute u engine (wasm_executor quotas) task =
    wasm_execute (λ payload. text_of (Execwasm.run u engine payload quotas)) (some task)
execute u engine native_executor task = native_execute (some task)

abbrev pub by_tier : RuntimeTier → Executor
by_tier tier_executor_wasm = wasm_executor default_quotas
by_tier _ = native_executor

-- The two switches of workerCmd; nil for any other text of the flag.
unfoldable pub choose_executor : Bytes → RuntimeTier → Option Executor
choose_executor executor_type rt =
    if executor_type == codes "wasm"
    then some (wasm_executor default_quotas)
    else if executor_type == codes "native"
    then some native_executor
    else if is_empty executor_type
    then some (by_tier rt)
    else none

-- The start of Worker.Run in internal/agent/worker.go.
unfoldable pub run_executor : Option Executor → Executor
run_executor none = wasm_executor default_quotas
run_executor (some e) = e

-- The flags of the worker command; `none` is one that is not given.
pub record WorkerFlags : Type 0 where
  pub trust_domain : Option Bytes
  pub executor : Bytes
  pub subject : Bytes
  pub issuer : Option Bytes
  pub key_file : Bytes
  pub effect_db : Bytes

-- What a command finds outside: the environment, whether NATS is reached, the keys that a file holds and
-- those that are drawn (public and private), whether a ledger opens, and two UUIDs.
pub record Host : Type 0 where
  pub getenv : Bytes → Bytes
  pub reaches : Bytes → Bool
  pub load_key : Bytes → Option (Bytes × Bytes)
  pub generate_key : Option (Bytes × Bytes)
  pub opens : Bytes → Bool
  pub goos : Bytes
  pub sys_mem : ℕ
  pub ledger_id : Bytes
  pub durable_id : Bytes

pub data Exit : Type 0 where
  usage no_nats no_key no_ledger : Exit

abbrev pub given : Option Bytes → Bytes → Bytes
given none fallback = fallback
given (some v) fallback = v

abbrev pub or_exit : {A : Type 0} → Exit → Option A → Result Exit A
or_exit e none = err e
or_exit e (some x) = ok x

-- A worker as it is run: its identity, executor and subscription, and the file of its ledger.
pub record Started : Type 0 where
  pub worker : Worker
  pub executor : Executor
  pub subject : Bytes
  pub durable : Bytes
  pub effect_db : Bytes

abbrev pub nats_url : Host → Bytes
nats_url host = env_or host.getenv (codes "NATS_URL") (codes "nats://localhost:4222")

-- MESHYANTS_TRUST_DOMAIN, or "default".
abbrev pub home_domain : Host → Bytes
home_domain host = env_or host.getenv (codes "MESHYANTS_TRUST_DOMAIN") (codes "default")

abbrev pub key_of : Host → Bytes → Option (Bytes × Bytes)
key_of host key_file = if is_empty key_file then host.generate_key else host.load_key key_file

abbrev pub or_text : Bytes → Bytes → Bytes
or_text text fallback = if is_empty text then fallback else text

abbrev pub temporary_db : Host → Bytes
temporary_db host = codes "/tmp/meshyants_effect_" ++ (host.ledger_id ++ codes ".db")

unfoldable pub worker_cmd : WorkerFlags → Host → Result Exit Started
unfolding choose_executor run_executor env_or detect
worker_cmd flags host = do
  let td = given flags.trust_domain (home_domain host)
  refuse_if (not (host.reaches (nats_url host))) no_nats
  keys ← or_exit no_key (key_of host flags.key_file)
  let db = or_text flags.effect_db (temporary_db host)
  refuse_if (not (host.opens db)) no_ledger
  ok (record {
    worker = record {
      public_key = keys.0;
      private_key = keys.1;
      issuer = given flags.issuer (codes "worker");
      trust_domain = td;
    };
    executor =
        run_executor
          (choose_executor flags.executor (detect host.goos host.sys_mem default_min_memory));
    subject = or_text flags.subject (codes "mesh.task." ++ td);
    durable = codes "worker-" ++ take 8 host.durable_id;
    effect_db = db;
  })

-- The service that a command starts, and its public key.
pub record Speaker : Type 0 where
  pub service : Service
  pub public_key : Bytes

-- oracleCmd up to HandleGoal; `rest` are the arguments behind the flags, the goal alone.
unfoldable pub oracle_cmd : Bytes → List Bytes → Host → Result Exit Speaker
unfolding env_or
oracle_cmd key_file rest host = do
  refuse_if (not (eqb (length rest) 1)) usage
  refuse_if (not (host.reaches (nats_url host))) no_nats
  keys ← or_exit no_key (key_of host key_file)
  ok (record {
    service = record {
      private_key = keys.1;
      issuer = codes "oracle";
      trust_domain = home_domain host;
    };
    public_key = keys.0;
  })

-- agentCmd: the service and the worker of one process.
unfoldable pub agent_cmd : Option Bytes → Host → Result Exit (Speaker × Started)
unfolding env_or
agent_cmd trust_domain host = do
  let td = given trust_domain (home_domain host)
  refuse_if (not (host.reaches (nats_url host))) no_nats
  keys ← or_exit no_key host.generate_key
  refuse_if (not (host.opens (temporary_db host))) no_ledger
  ok (
    record {
      service = record { private_key = keys.1; issuer = codes "oracle"; trust_domain = td };
      public_key = keys.0;
    },
    record {
      worker = record {
        public_key = keys.0;
        private_key = keys.1;
        issuer = codes "oracle";
        trust_domain = td;
      };
      executor = native_executor;
      subject = codes "mesh.task." ++ td;
      durable = codes "agent-" ++ take 8 host.durable_id;
      effect_db = temporary_db host;
    },
  )
