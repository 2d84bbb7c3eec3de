-- ===== src/Lib.antt =====
-- Verification of the MeshyAnts node, a mesh of field devices that work without a coordinator (Go).
-- Paths are from the root of the repository.
--
-- The program and how its parts interact. A human goal is turned into an intent header by a language
-- model behind an adapter (internal/oracle), becomes a TaskAtom that passes the intent policy
-- (internal/oracle/policy) and is signed (internal/signing) and published through the fabric
-- (internal/fabric), which records its intent in the publish ledger before it sends and marks it after
-- the acknowledgement (internal/ledger/publish). Nodes get a grant and a manifest from the queen
-- (cmd/queen), join through the onboarding state machine (internal/onboarding), advertise what they
-- can do, and are chosen by the router (internal/routing). The worker of a node (internal/agent) pulls
-- tasks through the subscription of the fabric, checks each delivered task, claims its idempotency key
-- in the effect ledger (internal/ledger/effect), runs it and emits a pheromone. Failed records can be
-- kept in a dead-letter queue (internal/dlq), which the undertaker (internal/undertaker) reads to
-- quarantine issuers; no command of the repository calls these two, or the sniffer of internal/oracle,
-- yet. Nodes that meet after a disconnection merge summaries (internal/crdt, internal/merge) and exchange
-- objects in chunks (internal/dtn). Large payloads are kept in a content-addressed store
-- (internal/store). Releases go through internal/ops. Every message has its validator
-- (internal/validate). The command meshyants (cmd/meshyants) builds an oracle, a worker, or both from
-- its flags; cmd/loadsim drives many workers and counts their answers.
--
-- Files and code:
--   Base, Base/*      the shared names: tests on numbers, lists, big-endian words, Go's maps, errors
--   Text, Text/*      package strings on bytes (searching, trimming, splitting at an index), and %d of package fmt
--   Contracts         gen/meshyantsv1/contracts.pb.go: the messages as records
--   Dtn/Framing       internal/dtn/framing.go: Encode, Decode
--   Dtn/Session       internal/dtn/sync.go: the reassembly session
--   Ledger/Bolt       what both ledgers need of bbolt, as an interface
--   Ledger/Publish    internal/ledger/publish/ledger.go: encode, decode, PutPending, MarkAcked, Get, and in
--                     Refinement the abstract map that the ledger implements
--   Ledger/Effect     internal/ledger/effect/ledger.go: TryApply, Has
--   Ledger/Files      Open and Close of both ledgers, on a file that may be locked; Ledger/Restarts has the
--                     runs of a process, each of which opens the file anew
--   Validate          internal/validate/validate.go: one function per message
--   Onboarding        internal/onboarding/onboarding.go: Session and its methods
--   Merge, Crdt       internal/merge/merge.go and internal/crdt/crdt.go
--   Policy            internal/oracle/policy/policy.go
--   Oracle            internal/oracle/service.go: HandleGoal
--   Adapters/Reply    internal/oracle/adapter_minimax.go: how a reply of the model is cleaned
--   Adapters/Minimax, Adapters/Openai
--                     internal/oracle/adapter_minimax.go and adapter_openai.go, prompt.go: the two adapters
--   Adapters/Factory  MockAdapter of internal/oracle/service.go, and oracleAdapterFromEnv of cmd/meshyants
--   Adapters/Sniffer  internal/oracle/sniffer.go
--   Signing           internal/signing/signing.go, with the signed messages in Signing/Messages
--   Fabric            internal/fabric/publish.go and the publishing half of jetstream.go
--   Fabric/Connect, Fabric/Subscription
--                     internal/fabric/jetstream.go: ConnectJetStream; PullSubscribe, pollLoop, Unsubscribe
--   Agent             internal/agent/worker.go: handleMessage and both executors; Run is Agent/Running, and
--                     Agent/Reports says what a report must hold, apart from the code
--   Routing, Tier     internal/routing/routing.go and internal/runtime/tier (tier.go, memory_linux.go)
--   Dlq               internal/dlq/dlq.go; Dlq/Watched joins it to the undertaker
--   Undertaker        internal/undertaker/undertaker.go, with the entry type of internal/dlq/dlq.go;
--                     Undertaker/Notices says what a notice must hold, apart from the code
--   Execwasm          internal/execwasm/exec.go: Run, classifyError
--   Oracleview        internal/oracleview/view.go
--   Store             internal/store/store.go: New, Put, Get, the FileStore writer, GetReader
--   Ops               internal/ops/update.go and internal/ops/apply.go
--   Queen             cmd/queen/main.go: the three signing handlers and the key files
--   Cli               cmd/meshyants/main.go: the oracle, worker and agent commands; Cli/Tail is
--                     pheromones.go, the tail of pheromones
--   Loadsim           cmd/loadsim/main.go: the tasks sent and the answers counted
--   Journey           a goal from HandleGoal to the worker that executes its task
-- The children of a module hold its theorems, and its Tests the witnesses; a short module holds its
-- own theorems.
--
-- Conventions. A Go string or byte slice is the list of its bytes. A method that changes its receiver
-- takes the state and returns the new one; `(T, error)` is a Result, or a pair with an Option of the
-- error where state changes on the way. Errors are data types; a text inside an error is kept only
-- where the code uses it. A map is the list of its entries in one order of `range`, so that a theorem
-- over all lists holds for every order. Times are nanoseconds from year 1; time.Now() is an argument.
-- The undertaker's range over its map is an argument in any order. The subscription's two goroutines
-- are a step relation in which either may move, and a fetch may answer anything; each move is atomic.
-- PullSubscribe is a move of that relation while no goroutine polls: a second goroutine beside a first
-- is outside it. The goroutine of AsyncPublish runs after whatever the others did to the ledger while
-- it waited, which is an argument. A bucket of bbolt also stands for what the disk does next, so a
-- commit that failed may succeed when it is tried again. A failed os.WriteFile may leave a part of
-- the data in the file.
--
-- Parameters, for code that is not in the repository: bbolt (Ledger/Bolt), the NATS server (Fabric's
-- Broker, the attempts of Fabric/Connect, the fetches of Fabric/Subscription, Dlq's Site), Ed25519,
-- SHA-256, base64, protobuf's wire format, encoding/json and time.Parse, Unicode's tables beyond
-- ASCII, HTTP, the environment, wazero, the file system's refusals, and the platform's apply function.
-- Hypotheses on them are named: what bbolt's Put and Get promise, that a key pair verifies what it
-- signs, that a JetStream stream keeps what was published in order, that every message can be
-- marshalled, that range visits each key once, and that the other goroutines spare an entry. No
-- theorem assumes that SHA-256 is free of collisions: a collision is an alternative of the conclusion.
--
-- Bounds and fuel. Besides the counted loops of Dtn, `exchange`, `decimal_from` and `strip_pair`
-- recurse on fuel: sortByScore's outer loop gets the length less one, which the sorting theorem shows
-- to be enough, %d gets 20 digits, which hold every int64 (Text/Decimal), and stripThinkTags gets the
-- length of the text, since each round that goes on shortens it (Adapters/Reply/Think).
-- ConnectJetStream counts its own forty rounds. A slice expression is bounded by the length of its
-- operand, where Go allows the capacity. A float64 is its bits, or a natural number where it is exact.
-- Paths are lists of elements, so a multihash or a release ID with a separator is outside the model.
--
-- Not modelled: what the commands print (but for the tail of pheromones), their signals and waiting,
-- the doctor and version commands, the queen's HTTP server and its two handlers that only read,
-- starting and stopping the devices of loadsim, the ticker loops of the undertaker and the router, the simulator and test helpers,
-- generated code beyond the message types, and logging.
pub mod Adapters
pub mod Agent
pub mod Base
pub mod Cli
pub mod Contracts
pub mod Crdt
pub mod Dlq
pub mod Dtn
pub mod Execwasm
pub mod Fabric
pub mod Journey
pub mod Ledger
pub mod Loadsim
pub mod Merge
pub mod Onboarding
pub mod Ops
pub mod Oracle
pub mod Oracleview
pub mod Policy
pub mod Queen
pub mod Routing
pub mod Signing
pub mod Store
pub mod Text
pub mod Tier
pub mod Undertaker
pub mod Validate
