-- ===== src/Ledger/Publish/Codec.antt =====
-- `decode` of internal/ledger/publish/ledger.go reads what `encode` writes.
use mathlib.Core.List.{append_assoc}
use meshyants.Base.{
  ℕ, ◌+◌, ◌^◌, ◌≤◌, ◌<◌, ◌≡◌, ◌⊎◌, refl, sym, ap, ◌∙◌, Bytes, put_be, be-put_be, length-put_be,
  slice, slice_mid, slice_prefix, at, ok, ◌>>=◌, le→ltb, eqb, ◌&&◌, not, false, take-length, [],
  ◌∷◌, ◌++◌, length, length-append, arith,
}
use meshyants.Ledger.Publish.{Entry, encode, decode, out_of_range}

-- What Go's types and the size test of `encode` bound.
pub record IsStorable (e : Entry) : Type 0 where
  pub known : (e.state ≡ 1) ⊎ (e.state ≡ 2)
  pub created_fits : e.created_unix < 256 ^ 8
  pub msg_fits : length e.msg_id ≤ 65535
  pub hash_fits : length e.payload_hash ≤ 65535

-- The bytes of an entry, in the order of the comment above `encode`.
pub layout : ℕ → ℕ → Bytes → Bytes → Bytes
layout st created msg hash =
    ((st ∷ put_be 8 created) ++ (put_be 2 (length msg) ++ msg)) ++ (put_be 2 (length hash) ++ hash)

module _ (st created : ℕ) (msg hash : Bytes) where
  size_lengths :
      (length (put_be 8 created) ≡ 8)
      × (length (put_be 2 (length msg)) ≡ 2)
      × (length (put_be 2 (length hash)) ≡ 2)
  size_lengths =
      (length-put_be 8 created, length-put_be 2 (length msg), length-put_be 2 (length hash))

  length-layout : length (layout st created msg hash) ≡ 11 + length msg + 2 + length hash
  unfolding layout
  length-layout = omega (
    arith,
    size_lengths,
    length-append ((st ∷ put_be 8 created) ++ (put_be 2 (length msg) ++ msg))
        (put_be 2 (length hash) ++ hash),
    length-append (st ∷ put_be 8 created) (put_be 2 (length msg) ++ msg),
    length-append (put_be 2 (length msg)) msg,
    length-append (put_be 2 (length hash)) hash,
  )

  at-layout : at out_of_range (layout st created msg hash) 0 ≡ ok st
  unfolding layout at
  at-layout = refl

  created_slice : slice out_of_range (layout st created msg hash) 1 9 ≡ ok (put_be 8 created)
  unfolding layout
  created_slice =
      simp append_assoc (
        slice_mid out_of_range (st ∷ []) (put_be 8 created) _ 1 9 refl
          (omega (arith, size_lengths)))

  msg_size_slice : slice out_of_range (layout st created msg hash) 9 11 ≡ ok (put_be 2 (length msg))
  unfolding layout
  msg_size_slice = simp append_assoc (
      slice_mid out_of_range (st ∷ put_be 8 created) (put_be 2 (length msg)) _ 9 11
        (omega (arith, size_lengths)) (omega (arith, size_lengths)))

  msg_slice : slice out_of_range (layout st created msg hash) 11 (11 + length msg) ≡ ok msg
  unfolding layout
  msg_slice = simp append_assoc (
      simp append_assoc at (
        slice_mid out_of_range (st ∷ (put_be 8 created ++ put_be 2 (length msg))) msg
          (put_be 2 (length hash) ++ hash) 11 (11 + length msg)
          (omega (arith, size_lengths, length-append (put_be 8 created) (put_be 2 (length msg))))
          (omega (arith, size_lengths, length-append (put_be 8 created) (put_be 2 (length msg))))))

  hash_size_slice :
      slice out_of_range (layout st created msg hash) (11 + length msg) (11 + length msg + 2)
      ≡ ok (put_be 2 (length hash))
  unfolding layout
  hash_size_slice =
      slice_mid out_of_range ((st ∷ put_be 8 created) ++ (put_be 2 (length msg) ++ msg))
        (put_be 2 (length hash)) hash (11 + length msg) (11 + length msg + 2)
        (omega (
          arith,
          size_lengths,
          length-append (st ∷ put_be 8 created) (put_be 2 (length msg) ++ msg),
          length-append (put_be 2 (length msg)) msg,
        ))
        (omega (
          arith,
          size_lengths,
          length-append (st ∷ put_be 8 created) (put_be 2 (length msg) ++ msg),
          length-append (put_be 2 (length msg)) msg,
        ))

  hash_slice :
      slice out_of_range
        (layout st created msg hash)
        (11 + length msg + 2)
        (11 + length msg + 2 + length hash)
      ≡ ok hash
  unfolding layout
  hash_slice =
      let pre = (st ∷ put_be 8 created) ++ (put_be 2 (length msg) ++ msg) in
      let size : length (pre ++ put_be 2 (length hash)) ≡ 11 + length msg + 2 = omega (
        arith,
        size_lengths,
        length-append pre (put_be 2 (length hash)),
        length-append (st ∷ put_be 8 created) (put_be 2 (length msg) ++ msg),
        length-append (put_be 2 (length msg)) msg,
      ) in
      rw (← append_assoc pre (put_be 2 (length hash)) hash) (
        slice_prefix out_of_range (pre ++ put_be 2 (length hash)) hash (11 + length msg + 2)
          (11 + length msg + 2 + length hash) (length hash) (sym size) (omega (arith, size))
          (omega arith)
        ∙ ap ok (take-length hash))

pub encode-layout :
    (e : Entry)
    → length e.msg_id ≤ 65535
    → length e.payload_hash ≤ 65535
    → encode e ≡ ok (layout e.state e.created_unix e.msg_id e.payload_hash)
unfolding encode layout
encode-layout e m h = rw (le→ltb 65535 _ h) (rw (le→ltb 65535 _ m))

pub decode-layout :
    (e : Entry)
    → IsStorable e
    → decode (layout e.state e.created_unix e.msg_id e.payload_hash)
      ≡ ok (record e { publish_id = [] })
unfolding decode
decode-layout e v =
    let st = e.state in
    let c = e.created_unix in
    let m = e.msg_id in
    let h = e.payload_hash in
    let size = length-layout st c m h in
    let long = length (layout st c m h) in
    let mlen = be-put_be 2 (length m) (omega arith) in
    let hlen = be-put_be 2 (length h) (omega arith) in
    let seen : (not (eqb st 1) && not (eqb st 2)) ≡ false = ground (arith, v.known) in
    rw (le→ltb long 11 (omega arith)) (
      rw (at-layout st c m h) (
        rw seen (
          rw (created_slice st c m h, msg_size_slice st c m h, mlen)
            (rw (le→ltb long (11 + length m + 2) (omega arith)) (
              rw (msg_slice st c m h, hash_size_slice st c m h, hlen)
                (rw (le→ltb long (11 + length m + 2 + length h) (omega arith))
                  (rw (hash_slice st c m h, be-put_be 8 c v.created_fits))))))))

-- An entry whose fields fit is written without a panic, and reads back as it was, but for its
-- publish ID, which is the key and not part of the value.
pub decode-encode_entry :
    (e : Entry) → IsStorable e → (encode e >>= decode) ≡ ok (record e { publish_id = [] })
decode-encode_entry e v = rw (encode-layout e v.msg_fits v.hash_fits) (decode-layout e v)
