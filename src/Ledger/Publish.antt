-- ===== src/Ledger/Publish.antt =====
-- internal/ledger/publish/ledger.go: the durable record of each outbound message. The bucket is a
-- parameter; `time.Now().Unix()` is an argument. An int64 is its bit pattern, below 2 ^ 64, which
-- the conversions to and from uint64 keep.
pub mod Codec
pub mod Lifecycle
pub mod Calls
pub mod Refinement
mod Tests
use meshyants.Base.{
  ℕ, ◌+◌, Bytes, put_be, be, slice, at, Result, ok, err, ◌>>=◌, ◌>>◌, refuse_if, ltb, eqb, Bool,
  ◌&&◌, ◌||◌, not, Option, none, some, List, [], ◌∷◌, ◌++◌, length, if◌then◌else◌,
}
use meshyants.Ledger.Bolt.{Bolt, update, written}

-- `field_too_large` and `out_of_range` are panics.
pub data Fault : Type 0 where
  corrupt_entry : Fault
  unknown_state : ℕ → Fault
  resurrected : Bytes → Fault
  not_found bad_state database field_too_large out_of_range : Fault

abbrev pub state_pending : ℕ
state_pending = 1

abbrev pub state_acked : ℕ
state_acked = 2

pub record Entry : Type 0 where
  pub publish_id : Bytes
  pub msg_id : Bytes
  pub payload_hash : Bytes
  pub state : ℕ  -- uint8
  pub created_unix : ℕ  -- int64

-- state(1) + created(8) + len msgID(2) + msgID + len hash(2) + hash
unfoldable pub encode : Entry → Result Fault Bytes
encode e = do
  let msg = e.msg_id
  let h = e.payload_hash
  refuse_if (ltb 65535 (length h) || ltb 65535 (length msg)) field_too_large
  ok (
      ((e.state ∷ put_be 8 e.created_unix) ++ (put_be 2 (length msg) ++ msg))
      ++ (put_be 2 (length h) ++ h))

unfoldable pub decode : Bytes → Result Fault Entry
decode b = do
  refuse_if (ltb (length b) 11) corrupt_entry
  st ← at out_of_range b 0
  refuse_if (not (eqb st state_pending) && not (eqb st state_acked)) (unknown_state st)
  created ← slice out_of_range b 1 9
  mword ← slice out_of_range b 9 11
  let mlen = be mword
  refuse_if (ltb (length b) (11 + mlen + 2)) corrupt_entry
  msg_id ← slice out_of_range b 11 (11 + mlen)
  hword ← slice out_of_range b (11 + mlen) (11 + mlen + 2)
  let hlen = be hword
  refuse_if (ltb (length b) (11 + mlen + 2 + hlen)) corrupt_entry
  hash ← slice out_of_range b (11 + mlen + 2) (11 + mlen + 2 + hlen)
  ok (record {
    publish_id = [];
    msg_id = msg_id;
    payload_hash = hash;
    state = st;
    created_unix = be created;
  })

-- The first test of `PutPending`, on what the bucket holds under the key.
unfoldable pub resurrects : Bytes → Option Bytes → Result Fault (Unit {0})
resurrects publish_id none = ok tt
resurrects publish_id (some v) = do
  ent ← decode v
  refuse_if (eqb ent.state state_acked) (resurrected publish_id)

-- The tests of `MarkAcked`, and the entry that it writes.
unfoldable pub acknowledge : Bytes → Option Bytes → Result Fault Entry
acknowledge publish_id none = err not_found
acknowledge publish_id (some v) = do
  ent ← decode v
  refuse_if (not (eqb ent.state state_pending)) bad_state
  ok (record ent { state = state_acked; publish_id = publish_id })

unfoldable pub read_entry : Bytes → Option Bytes → Result Fault Entry
read_entry publish_id none = err not_found
read_entry publish_id (some v) = do ent ← decode v; ok (record ent { publish_id = publish_id })

module _ (b : Bolt) where
  open b use {Bucket, get, put as put_key}

  -- The function that `PutPending` hands to `db.Update`.
  unfoldable pub pending_tx : ℕ → Bytes → Bytes → Bytes → Bucket → Result Fault Bucket
  unfolding resurrects
  pending_tx now publish_id msg_id payload_hash s = do
    resurrects publish_id (get s publish_id)
    v ← encode (record {
      publish_id = publish_id;
      msg_id = msg_id;
      payload_hash = payload_hash;
      state = state_pending;
      created_unix = now;
    })
    written b database (put_key s publish_id v)

  unfoldable pub put_pending : ℕ → Bytes → Bytes → Bytes → Bucket → Bucket × Option Fault
  unfolding pending_tx
  put_pending now publish_id msg_id payload_hash =
      update b database (pending_tx now publish_id msg_id payload_hash)

  -- The function that `MarkAcked` hands to `db.Update`.
  unfoldable pub acked_tx : Bytes → Bucket → Result Fault Bucket
  unfolding acknowledge
  acked_tx publish_id s = do
    ent ← acknowledge publish_id (get s publish_id)
    v ← encode ent
    written b database (put_key s publish_id v)

  unfoldable pub mark_acked : Bytes → Bucket → Bucket × Option Fault
  unfolding acked_tx
  mark_acked publish_id = update b database (acked_tx publish_id)

  -- The method `Get`.
  unfoldable pub get_entry : Bytes → Bucket → Result Fault Entry
  unfolding read_entry
  get_entry publish_id s = read_entry publish_id (get s publish_id)
