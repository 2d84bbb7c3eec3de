-- ===== src/Dtn/Framing/Tests.antt =====
-- Messages of internal/dtn/framing.go written and read, and the theorems at concrete messages.
use meshyants.Base.{◌≡◌, refl, ok, err, ◌>>=◌, put_be, slice, at, be, some, [], ◌∷◌, arith}
use meshyants.Dtn.Framing.{
  chunk_offer, chunk_data, chunk_reset, truncated_session, encode, encode_chunks, header, put_ids,
  decode,
}
use meshyants.Dtn.Framing.RoundTrip.{on_wire, decode-encode-on_wire}
use meshyants.Dtn.Framing.Safety.{Returns, decode-Returns}

offer_bytes :
    encode (some (chunk_offer (b's' ∷ []) (258 ∷ [])))
    ≡ ok (1 ∷ 0 ∷ 1 ∷ b's' ∷ 0 ∷ 1 ∷ 0 ∷ 0 ∷ 0 ∷ 0 ∷ 0 ∷ 0 ∷ 1 ∷ 2 ∷ [])
unfolding encode encode_chunks header put_ids put_be
offer_bytes = refl

reset_read :
    decode (5 ∷ 0 ∷ 1 ∷ b's' ∷ 0 ∷ 2 ∷ b'n' ∷ b'o' ∷ [])
    ≡ ok (chunk_reset (b's' ∷ []) (b'n' ∷ b'o' ∷ []))
unfolding decode slice at be
reset_read = refl

short_read : decode (1 ∷ 0 ∷ 9 ∷ 0 ∷ []) ≡ err truncated_session
unfolding decode slice at be
short_read = refl

decode-encode-on_wire_example :
    (encode (some (chunk_data (b's' ∷ []) 5 (1 ∷ 2 ∷ []))) >>= decode)
    ≡ ok (on_wire (chunk_data (b's' ∷ []) 5 (1 ∷ 2 ∷ [])))
decode-encode-on_wire_example =
    decode-encode-on_wire (chunk_data (b's' ∷ []) 5 (1 ∷ 2 ∷ [])) (omega arith) (omega arith)

decode-Returns_example : Returns (decode (3 ∷ 0 ∷ 0 ∷ 1 ∷ []))
decode-Returns_example = decode-Returns (3 ∷ 0 ∷ 0 ∷ 1 ∷ [])
