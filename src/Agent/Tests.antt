-- ===== src/Agent/Tests.antt =====
-- Deliveries to the worker of internal/agent/worker.go on one site.
use meshyants.Base.{
  ◌≤◌, ◌≡◌, refl, inl, true, Bytes, Map, lookup, list_eq, nat_eq, list_beq, ◌==◌, false, none, some,
  List, [], ◌∷◌, All, arith,
}
use meshyants.Text.{ascii_only}
use meshyants.Contracts.{TaskAtom, kind_safe}
use meshyants.Ledger.Bolt.{in_memory}
use meshyants.Ledger.Effect.{has_effect}
use meshyants.Ledger.Effect.Once.{bit}
use meshyants.Signing.{verify, marshal_canonical}
use meshyants.Fabric.{Msg}
use meshyants.Fabric.Subscription.{
  made, unstarted, handling, connected, handle_next, go_on, batch, message, pull_subscribe, polls,
  subscribes, Reach, here, next,
}
use meshyants.Agent.{Site, Worker, World, Clock, Fault, handle_message}
use meshyants.Agent.Running.{handler, Running, Reach-IsOnce}
use meshyants.Agent.Once.{times, deliver, deliver-IsOnce}
use meshyants.Agent.Trusted.{IsGenuine, IsTrusted, deliver-IsTrusted, redelivery_silent}

abbrev task : TaskAtom
task = record {
  schema_version = 1;
  task_id = b't' ∷ [];
  idempotency_key = b'k' ∷ [];
  issuer = b'q' ∷ [];
  trust_domain = b'd' ∷ [];
  causal_parents = [];
  requirements_json = [];
  payload = 1 ∷ [];
  expires_at = none;
  content_ref = [];
  signature = 7 ∷ [];
}

-- Every message is `task`, the signature 7 holds for everything, and the server refuses.
abbrev site : Site
site = record {
  unmarshal_task = λ body. some task;
  marshal_task = λ t. some t.payload;
  marshal_pheromone = λ p. some p.subject;
  sum_hex = λ s. s;
  ed = record { sign = λ key p. 7 ∷ []; verify = λ key p s. s == (7 ∷ []) };
  unicode = ascii_only;
  bolt = in_memory;
  broker = record {
    Server = List Msg;
    publish = λ s m. (s, false);
    publish_async = λ s m. (s, false);
  };
  execute = λ t. (kind_safe, []);
}

abbrev worker : Worker
worker = record { public_key = []; private_key = []; issuer = b'q' ∷ []; trust_domain = b'd' ∷ [] }

abbrev clock : Clock
clock = record { unix_nano = 5; issued_at = 6 }

abbrev start : World site worker
start = record { ledger = []; server = []; executed = [] }

abbrev twice : List (Clock × Bytes)
twice = (clock, []) ∷ (clock, []) ∷ []

deliver-IsOnce_example :
    times (b'k' ∷ []) (deliver site worker twice start).executed
    ≤ bit (has_effect in_memory (b'k' ∷ []) (deliver site worker twice start).ledger)
deliver-IsOnce_example = deliver-IsOnce site worker twice start (λ j. omega arith) (b'k' ∷ [])

deliver-IsTrusted_example : All (IsTrusted site worker) (deliver site worker twice start).executed
deliver-IsTrusted_example = deliver-IsTrusted site worker twice start tt

-- The key of `task` is in the ledger.
abbrev marked : Map Bytes Bytes
marked = (b'k' ∷ [], 1 ∷ []) ∷ []

abbrev later : World site worker
later = record { ledger = marked; server = []; executed = task ∷ [] }

task-IsGenuine : IsGenuine site worker task
unfolding verify marshal_canonical list_beq
task-IsGenuine = record { versioned = refl; own = refl; signed = refl }

redelivery_silent_example : handle_message site worker clock [] later ≡ (later, none)
unfolding has_effect lookup list_beq
redelivery_silent_example =
    redelivery_silent site worker clock [] task later refl task-IsGenuine refl refl

-- The poll loop with two deliveries fetched, and with the first of them handled.
abbrev two_fetched : Running site worker
two_fetched =
    record (connected (Clock × Bytes) (World site worker) Fault (handler site worker) start) {
      poll_stop = made;
      poll_done = made;
      subscribed = true;
      loop = handling twice;
      earlier = unstarted ∷ [];
      fetched = twice;
    }

abbrev one_handled : Running site worker
one_handled =
    handle_next (Clock × Bytes) (World site worker) Fault (handler site worker) (clock, [])
      ((clock, []) ∷ []) two_fetched

reached : Reach (Clock × Bytes) (World site worker) Fault (handler site worker) start one_handled
reached =
    next
      (next
        (next (next here (subscribes (inl refl) (pull_subscribe refl))) (polls (go_on refl refl)))
        (polls (batch twice refl (omega arith))))
      (polls (message (clock, []) ((clock, []) ∷ []) refl))

Reach-IsOnce_example :
    ((j : Bytes)
      → times j one_handled.world.executed ≤ bit (has_effect in_memory j one_handled.world.ledger))
    × All (IsTrusted site worker) one_handled.world.executed
Reach-IsOnce_example = Reach-IsOnce site worker start one_handled reached (λ j. omega arith) tt
