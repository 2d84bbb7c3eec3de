-- ===== src/Fabric.antt =====
-- internal/fabric: the publishing side of the blackboard, in jetstream.go and publish.go. The NATS
-- server is a parameter; the publish ledger is one of the implementations of `LedgerWriter`.
pub mod Tracking
pub mod Subscription
pub mod Connect
mod Tests
use meshyants.Base.{
  ℕ, Bytes, Result, Bool, true, false, is_empty, Option, none, some, [], take, if◌then◌else◌,
}
use meshyants.Ledger.Bolt.{Bolt}
use meshyants.Ledger.Publish
use meshyants.Ledger.Publish.{put_pending, mark_acked}

-- `msg_id` is empty where the option nats.MsgId is not given.
pub record Msg : Type 0 where
  pub subject : Bytes
  pub body : Bytes
  pub msg_id : Bytes

-- The server. `publish` is js.Publish and `publish_async` is js.PublishAsync: the server afterwards,
-- and whether the call returned no error.
pub record Broker : Type 1 where
  pub Server : Type 0
  pub publish : Server → Msg → Server × Bool
  pub publish_async : Server → Msg → Server × Bool

-- hex.EncodeToString(sum[:16]), with `sum_hex` the digits of SHA-256.
unfoldable pub stable_msg_id : (Bytes → Bytes) → Bytes → Bytes
stable_msg_id sum_hex idempotency_key = take 32 (sum_hex idempotency_key)

-- The method `Publish` of JetStreamTransport.
unfoldable pub transport_publish : (b : Broker) → b.Server → Bytes → Bytes → Bytes → b.Server × Bool
transport_publish b server subject body msg_id =
    b.publish server (record { subject = subject; body = body; msg_id = msg_id })

-- The interface LedgerWriter, on a state of its own; `panics` tells which failures of the implementation are
-- panics.
pub record LedgerWriter : Type 1 where
  pub Store : Type 0
  pub Failure : Type 0
  pub panics : Failure → Bool
  pub put_pending : Bytes → Bytes → Bytes → Store → Store × Option Failure
  pub mark_acked : Bytes → Store → Store × Option Failure

-- The panic of encode in internal/ledger/publish/ledger.go.
abbrev pub is_panic : Publish.Fault → Bool
is_panic Publish.field_too_large = true
is_panic _ = false

-- *publish.Ledger is a LedgerWriter; `now` is the clock of the call.
abbrev pub publish_ledger : Bolt → ℕ → LedgerWriter
publish_ledger b now = record {
  Store = b.Bucket;
  Failure = Publish.Fault;
  panics = is_panic;
  put_pending = Publish.put_pending b now;
  mark_acked = Publish.mark_acked b;
}

-- Which of the three channels the goroutine receives from.
pub data Outcome : Type 0 where
  acknowledged refused cancelled : Outcome

pub data PublishFault (F : Type 0) : Type 0 where
  ledger_put_pending : F → PublishFault F
  -- A panic of PutPending, which AsyncPublish does not recover: it returns nothing.
  panicked : F → PublishFault F
  sync_publish async_publish_failed context_done : PublishFault F

module _ (l : LedgerWriter) (b : Broker) where
  -- `store` is `none` for a service without a ledger.
  pub record World : Type 0 where
    pub store : Option l.Store
    pub server : b.Server

  pub record PublishResult : Type 0 where
    pub publish_id : Bytes
    pub msg_id : Bytes
    pub fault : Option (PublishFault l.Failure)

  -- if s.ledger != nil { s.ledger.PutPending(...) }
  abbrev pub intend : Bytes → Bytes → Bytes → Option l.Store → Option l.Store × Option l.Failure
  intend publish_id msg_id hash none = (none, none)
  intend publish_id msg_id hash (some s) =
      let (t, f) = l.put_pending publish_id msg_id hash s in (some t, f)

  -- if s.ledger != nil { _ = s.ledger.MarkAcked(publishID) }
  abbrev pub settle : Bytes → Option l.Store → Option l.Store
  settle publish_id none = none
  settle publish_id (some s) = some (l.mark_acked publish_id s).0

  -- The goroutine that waits for the acknowledgement, on the ledger that it finds then.
  abbrev pub await :
      Outcome → Bytes → Option l.Store → Option l.Store × Option (PublishFault l.Failure)
  await acknowledged publish_id store = (settle publish_id store, none)
  await refused publish_id store = (store, some async_publish_failed)
  await cancelled publish_id store = (store, some context_done)

  -- The synchronous publish where the server does not take the asynchronous one.
  abbrev pub fall_back :
      Bytes
      → Option l.Store
      → b.Server × Bool
      → Option l.Store × b.Server × Option (PublishFault l.Failure)
  fall_back publish_id store (server, true) = (settle publish_id store, server, none)
  fall_back publish_id store (server, false) = (store, server, some sync_publish)

  -- `others` is what other goroutines do to the ledger and the server between the return of AsyncPublish
  -- and the acknowledgement.
  abbrev pub send :
      (World → World)
      → Outcome
      → Bytes
      → Msg
      → Option l.Store
      → b.Server × Bool
      → Option l.Store × b.Server × Option (PublishFault l.Failure)
  send others outcome publish_id msg store (server, true) =
      let w = others (record { store = store; server = server }) in
      let (kept, fault) = await outcome publish_id w.store in (kept, w.server, fault)
  send others outcome publish_id msg store (server, false) =
      fall_back publish_id store (b.publish server msg)

  abbrev pub publish_id_of : (Bytes → Bytes) → Bytes → Bytes → Bytes
  publish_id_of sum_hex body msg_id = if is_empty msg_id then stable_msg_id sum_hex body else msg_id

  abbrev pub put_fault : l.Failure → PublishFault l.Failure
  put_fault f = if l.panics f then panicked f else ledger_put_pending f

  -- What follows `PutPending`.
  abbrev pub dispatch :
      (World → World)
      → Outcome
      → Bytes
      → Msg
      → b.Server
      → Option l.Store × Option l.Failure
      → Option l.Store × b.Server × Option (PublishFault l.Failure)
  dispatch others outcome publish_id msg server (store, some f) =
      (store, server, some (put_fault f))
  dispatch others outcome publish_id msg server (store, none) =
      send others outcome publish_id msg store (b.publish_async server msg)

  -- AsyncPublish and its goroutine, which ends with `outcome`; `sum` is SHA-256 and `sum_hex` its
  -- hexadecimal digits.
  unfoldable pub async_publish :
      (Bytes → Bytes)
      → (Bytes → Bytes)
      → (World → World)
      → Outcome
      → Bytes
      → Bytes
      → Bytes
      → World
      → World × PublishResult
  unfolding stable_msg_id
  async_publish sum sum_hex others outcome subject body msg_id w =
      let publish_id = publish_id_of sum_hex body msg_id in
      let msg : Msg = record { subject = subject; body = body; msg_id = msg_id } in
      let (store, server, fault) =
        dispatch others outcome publish_id msg w.server
          (intend publish_id msg_id (sum body) w.store) in
      (
        record { store = store; server = server },
        record { publish_id = publish_id; msg_id = msg_id; fault = fault },
      )
