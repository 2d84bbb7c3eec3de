-- ===== src/Dtn/Framing.antt =====
-- internal/dtn/framing.go: the OFFER/REQUEST/DATA/ACK/RESET messages on the wire. A `[]byte` and a
-- Go `string` are lists of bytes. Every slice expression of `Decode` is a `slice`, whose panic is
-- the fault `out_of_range`.
mod Wire
pub mod RoundTrip
pub mod Safety
mod Tests
use meshyants.Base.{
  ℕ, zero, suc, ◌+◌, ◌*◌, ◌%◌, Bytes, put_be, be, slice, at, Result, ok, err, ◌>>=◌, ◌>>◌,
  refuse_if, ltb, eqb, Bool, ◌||◌, Option, none, some, List, [], ◌∷◌, ◌++◌, length, drop,
  if◌then◌else◌,
}

-- The structs ChunkOffer, ChunkReq, ChunkData, ChunkAck and ChunkReset.
pub data Message : Type 0 where
  chunk_offer : Bytes → List ℕ → Message
  chunk_req : Bytes → List ℕ → Message
  chunk_data : Bytes → ℕ → Bytes → Message
  chunk_ack : Bytes → List ℕ → Message
  chunk_reset : Bytes → Bytes → Message

pub data Fault : Type 0 where
  too_short truncated_session truncated_count truncated_list : Fault
  truncated_data_header truncated_reset truncated_reason : Fault
  unknown_type : ℕ → Fault
  unknown_message : Fault
  out_of_range : Fault

-- uint16(len(x)) and the byte that a MsgType is.
abbrev pub u16 : ℕ → ℕ
u16 n = n % 65536

abbrev pub msg_chunk_offer : ℕ
msg_chunk_offer = 1

abbrev pub msg_chunk_req : ℕ
msg_chunk_req = 2

abbrev pub msg_chunk_data : ℕ
msg_chunk_data = 3

abbrev pub msg_chunk_ack : ℕ
msg_chunk_ack = 4

abbrev pub msg_chunk_reset : ℕ
msg_chunk_reset = 5

unfoldable pub put_ids : List ℕ → Bytes
put_ids [] = []
put_ids (id ∷ ids) = put_be 8 id ++ put_ids ids

-- The type byte and the session ID, with which every message begins.
unfoldable pub header : ℕ → Bytes → Bytes
header t session_id = (t ∷ put_be 2 (u16 (length session_id))) ++ session_id

unfoldable pub encode_chunks : ℕ → Bytes → List ℕ → Bytes
encode_chunks t session_id chunk_ids =
    header t session_id ++ (put_be 2 (u16 (length chunk_ids)) ++ put_ids chunk_ids)

unfoldable pub encode_offer : Bytes → List ℕ → Bytes
unfolding encode_chunks
encode_offer session_id chunk_ids = encode_chunks msg_chunk_offer session_id chunk_ids

unfoldable pub encode_req : Bytes → List ℕ → Bytes
unfolding encode_chunks
encode_req session_id chunk_ids = encode_chunks msg_chunk_req session_id chunk_ids

unfoldable pub encode_ack : Bytes → List ℕ → Bytes
unfolding encode_chunks
encode_ack session_id chunk_ids = encode_chunks msg_chunk_ack session_id chunk_ids

unfoldable pub encode_data : Bytes → ℕ → Bytes → Bytes
encode_data session_id chunk_id bytes =
    header msg_chunk_data session_id ++ (put_be 8 chunk_id ++ bytes)

unfoldable pub encode_reset : Bytes → Bytes → Bytes
encode_reset session_id reason =
    header msg_chunk_reset session_id ++ (put_be 2 (u16 (length reason)) ++ reason)

-- `none` stands for a value of any other dynamic type.
unfoldable pub encode : Option Message → Result Fault Bytes
unfolding encode_offer encode_req encode_ack encode_data encode_reset
encode (some (chunk_offer s ids)) = ok (encode_offer s ids)
encode (some (chunk_req s ids)) = ok (encode_req s ids)
encode (some (chunk_data s id bytes)) = ok (encode_data s id bytes)
encode (some (chunk_ack s ids)) = ok (encode_ack s ids)
encode (some (chunk_reset s reason)) = ok (encode_reset s reason)
encode none = err unknown_message

-- The loop that fills `ids`: `count` words of eight bytes from `offset` on.
unfoldable pub read_ids : Bytes → ℕ → ℕ → Result Fault (List ℕ)
read_ids buf offset zero = ok []
read_ids buf offset (suc count) = slice out_of_range buf offset (offset + 8) >>= λ word.
    read_ids buf (offset + 8) count >>= λ ids. ok (be word ∷ ids)

-- The case of OFFER, REQUEST and ACK up to the inner switch on `t`.
unfoldable pub decode_ids : Bytes → ℕ → Result Fault (List ℕ)
unfolding read_ids
decode_ids buf offset = do
  refuse_if (ltb (length buf) (offset + 2)) truncated_count
  word ← slice out_of_range buf offset (offset + 2)
  let count = be word
  refuse_if (ltb (length buf) (offset + 2 + count * 8)) truncated_list
  read_ids buf (offset + 2) count

unfoldable pub decode_data : Bytes → Bytes → ℕ → Result Fault Message
decode_data session_id buf offset = do
  refuse_if (ltb (length buf) (offset + 8)) truncated_data_header
  word ← slice out_of_range buf offset (offset + 8)
  bytes ← slice out_of_range buf (offset + 8) (length buf)
  ok (chunk_data session_id (be word) bytes)

unfoldable pub decode_reset : Bytes → Bytes → ℕ → Result Fault Message
decode_reset session_id buf offset = do
  refuse_if (ltb (length buf) (offset + 2)) truncated_reset
  word ← slice out_of_range buf offset (offset + 2)
  let rlen = be word
  refuse_if (ltb (length buf) (offset + 2 + rlen)) truncated_reason
  reason ← slice out_of_range buf (offset + 2) (offset + 2 + rlen)
  ok (chunk_reset session_id reason)

-- `switch t`; the inner switch of the first case is the choice of the constructor.
unfoldable pub decode_body : ℕ → Bytes → Bytes → ℕ → Result Fault Message
unfolding decode_ids decode_data decode_reset
decode_body t session_id buf offset =
    if eqb t msg_chunk_offer
    then (do ids ← decode_ids buf offset; ok (chunk_offer session_id ids))
    else if eqb t msg_chunk_req
    then (do ids ← decode_ids buf offset; ok (chunk_req session_id ids))
    else if eqb t msg_chunk_ack
    then (do ids ← decode_ids buf offset; ok (chunk_ack session_id ids))
    else if eqb t msg_chunk_data
    then decode_data session_id buf offset
    else if eqb t msg_chunk_reset
    then decode_reset session_id buf offset
    else err (unknown_type t)

unfoldable pub decode : Bytes → Result Fault Message
unfolding decode_body
decode buf = do
  refuse_if (ltb (length buf) 4) too_short
  t ← at out_of_range buf 0
  word ← slice out_of_range buf 1 3
  let slen = be word
  refuse_if (ltb (length buf) (3 + slen)) truncated_session
  session_id ← slice out_of_range buf 3 (3 + slen)
  decode_body t session_id buf (3 + slen)
