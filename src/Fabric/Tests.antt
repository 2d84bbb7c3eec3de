-- ===== src/Fabric/Tests.antt =====
-- Messages published by internal/fabric with a ledger in memory and a server that takes everything.
use meshyants.Base.{
  ◌≡◌, refl, inr, Bytes, Map, lookup, insert, list_eq, nat_eq, list_beq, Bool, true, false, none,
  some, List, [], ◌∷◌, ◌++◌, arith,
}
use meshyants.Ledger.Bolt.{in_memory}
use meshyants.Ledger.Publish.{Entry, state_acked, put_pending, encode, resurrected}
use meshyants.Ledger.Publish.Codec.{IsStorable}
use meshyants.Ledger.Publish.Lifecycle.{IsLedger, stored}
use meshyants.Ledger.Publish.Calls.{IsAcked}
use meshyants.Fabric.{
  Msg, Broker, World, publish_ledger, LedgerWriter, acknowledged, ledger_put_pending, async_publish,
}
use meshyants.Fabric.Tracking.{
  with_ledger, Spares, acked_not_resent, async_publish_recorded, Tracked,
}

-- The server is the list of what it was sent.
abbrev accepting : Broker
accepting = record {
  Server = List Msg;
  publish = λ s m. (s ++ (m ∷ []), true);
  publish_async = λ s m. (s ++ (m ∷ []), true);
}

abbrev idle : List Msg
idle = []

abbrev same_bytes : Bytes → Bytes
same_bytes s = s

abbrev empty : Map Bytes Bytes
empty = []

abbrev id : Bytes
id = b'p' ∷ []

abbrev topic : Bytes
topic = b't' ∷ []

abbrev body : Bytes
body = 1 ∷ 2 ∷ []

abbrev writer : LedgerWriter
writer = publish_ledger in_memory 5

empty-IsLedger : IsLedger in_memory empty
unfolding lookup
empty-IsLedger = record { entry_at = λ k v h. cc }

put_succeeds : (put_pending in_memory 5 id id body empty).1 ≡ none
unfolding put_pending encode lookup insert
put_succeeds = refl

abbrev reached : List Msg → Bool
reached [] = false
reached (m ∷ ms) = true

-- Meanwhile the server gets another message, without a ledger.
abbrev meanwhile : World writer accepting → World writer accepting
meanwhile w = record w {
  server = w.server ++ (record { subject = topic; body = []; msg_id = [] } ∷ []);
}

meanwhile-Spares : Spares in_memory 5 accepting same_bytes same_bytes id meanwhile
meanwhile-Spares t server l = (t, refl, l, refl)

async_publish_recorded_example :
    Tracked in_memory 5 accepting same_bytes same_bytes id id body
      (async_publish writer accepting same_bytes same_bytes meanwhile acknowledged topic body id
        (with_ledger writer accepting same_bytes same_bytes empty idle)).0.store
async_publish_recorded_example =
    async_publish_recorded in_memory 5 accepting same_bytes same_bytes meanwhile acknowledged topic
      body id empty idle (omega arith) empty-IsLedger put_succeeds meanwhile-Spares

abbrev sent : Entry
sent = record {
  publish_id = [];
  msg_id = id;
  payload_hash = body;
  state = state_acked;
  created_unix = 3;
}

sent-IsStorable : IsStorable sent
sent-IsStorable = record {
  known = inr refl;
  created_fits = omega arith;
  msg_fits = omega arith;
  hash_fits = omega arith;
}

abbrev acked_bucket : Map Bytes Bytes
acked_bucket = (id, stored sent) ∷ []

acked_bucket-IsAcked : IsAcked in_memory id acked_bucket
unfolding lookup list_beq
acked_bucket-IsAcked = (sent, sent-IsStorable, refl, refl)

acked_not_resent_example :
    async_publish writer accepting same_bytes same_bytes meanwhile acknowledged topic body id
      (with_ledger writer accepting same_bytes same_bytes acked_bucket idle)
    ≡ (
      with_ledger writer accepting same_bytes same_bytes acked_bucket idle,
      record { publish_id = id; msg_id = id; fault = some (ledger_put_pending (resurrected id)) },
    )
acked_not_resent_example =
    acked_not_resent in_memory 5 accepting same_bytes same_bytes meanwhile acknowledged topic body
      id acked_bucket idle acked_bucket-IsAcked
