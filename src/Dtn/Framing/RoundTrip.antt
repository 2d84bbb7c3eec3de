-- ===== src/Dtn/Framing/RoundTrip.antt =====
-- What `Encode` of internal/dtn/framing.go writes, `Decode` reads back.
use native.Mathlib.Nat.{mod-eq_of_lt}
use meshyants.Dtn.Framing.Wire.{
  length-header, decode-header, AreWords, decode_ids-counted, decode_data-written,
  decode_reset-written, body_size,
}
use meshyants.Base.{
  ℕ, ◌+◌, ◌<◌, ◌≡◌, refl, ap, sym, ◌∙◌, Bytes, put_be, ok, ◌>>=◌, some, List, [], ◌∷◌, ◌++◌, length,
  take, take-length, arith,
}
use meshyants.Dtn.Framing.{
  Message, chunk_offer, chunk_req, chunk_data, chunk_ack, chunk_reset, u16, put_ids, header, encode,
  encode_chunks, decode_body, decode,
}

-- What is left of a message on the wire: a list of more than 65535 chunk IDs, or a reason of more
-- than 65535 bytes, is cut to its length modulo 65536.
pub on_wire : Message → Message
on_wire (chunk_offer s ids) = chunk_offer s (take (u16 (length ids)) ids)
on_wire (chunk_req s ids) = chunk_req s (take (u16 (length ids)) ids)
on_wire (chunk_data s id bytes) = chunk_data s id bytes
on_wire (chunk_ack s ids) = chunk_ack s (take (u16 (length ids)) ids)
on_wire (chunk_reset s reason) = chunk_reset s (take (u16 (length reason)) reason)

abbrev pub session_of : Message → Bytes
session_of (chunk_offer s ids) = s
session_of (chunk_req s ids) = s
session_of (chunk_data s id bytes) = s
session_of (chunk_ack s ids) = s
session_of (chunk_reset s reason) = s

abbrev pub words_of : Message → List ℕ
words_of (chunk_offer s ids) = ids
words_of (chunk_req s ids) = ids
words_of (chunk_data s id bytes) = id ∷ []
words_of (chunk_ack s ids) = ids
words_of (chunk_reset s reason) = []

-- Of a message whose session ID has at most 65535 bytes and whose chunk IDs fit a uint64, `Decode`
-- reads back what `on_wire` leaves of it.
pub decode-encode-on_wire :
    (m : Message)
    → length (session_of m) < 65536
    → AreWords (words_of m)
    → (encode (some m) >>= decode) ≡ ok (on_wire m)
unfolding encode encode_chunks decode_body on_wire
decode-encode-on_wire (chunk_offer s ids) h w =
    rw (decode-header 1 s _ h (body_size 2 (u16 (length ids)) s (put_ids ids) (omega arith)))
      (rw (decode_ids-counted (header 1 s) ids (3 + length s) (sym (length-header 1 s)) w))
decode-encode-on_wire (chunk_req s ids) h w =
    rw (decode-header 2 s _ h (body_size 2 (u16 (length ids)) s (put_ids ids) (omega arith)))
      (rw (decode_ids-counted (header 2 s) ids (3 + length s) (sym (length-header 2 s)) w))
decode-encode-on_wire (chunk_data s id bytes) h w =
    decode-header 3 s (put_be 8 id ++ bytes) h (body_size 8 id s bytes (omega arith))
    ∙ decode_data-written s (header 3 s) bytes id (3 + length s) (sym (length-header 3 s)) w.0
decode-encode-on_wire (chunk_ack s ids) h w =
    rw (decode-header 4 s _ h (body_size 2 (u16 (length ids)) s (put_ids ids) (omega arith)))
      (rw (decode_ids-counted (header 4 s) ids (3 + length s) (sym (length-header 4 s)) w))
decode-encode-on_wire (chunk_reset s reason) h w =
    decode-header 5 s _ h (body_size 2 (u16 (length reason)) s reason (omega arith))
    ∙ decode_reset-written s (header 5 s) reason (3 + length s) (sym (length-header 5 s))

-- The counted part of a message.
abbrev pub counted : Message → ℕ
counted (chunk_offer s ids) = length ids
counted (chunk_req s ids) = length ids
counted (chunk_data s id bytes) = 0
counted (chunk_ack s ids) = length ids
counted (chunk_reset s reason) = length reason

on_wire_fits : (m : Message) → counted m < 65536 → on_wire m ≡ m
unfolding on_wire
on_wire_fits (chunk_offer s ids) h = ap (chunk_offer s) (rw (mod-eq_of_lt h) (take-length ids))
on_wire_fits (chunk_req s ids) h = ap (chunk_req s) (rw (mod-eq_of_lt h) (take-length ids))
on_wire_fits (chunk_data s id bytes) h = refl
on_wire_fits (chunk_ack s ids) h = ap (chunk_ack s) (rw (mod-eq_of_lt h) (take-length ids))
on_wire_fits (chunk_reset s reason) h =
    ap (chunk_reset s) (rw (mod-eq_of_lt h) (take-length reason))

pub decode-encode :
    (m : Message)
    → length (session_of m) < 65536
    → counted m < 65536
    → AreWords (words_of m)
    → (encode (some m) >>= decode) ≡ ok m
decode-encode m h c w = decode-encode-on_wire m h w ∙ ap ok (on_wire_fits m c)
