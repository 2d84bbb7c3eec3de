-- ===== src/Dtn/Framing/Wire.antt =====
-- Lemmas on the layout of internal/dtn/framing.go: where the parts of a written message stand.
use mathlib.Core.List.{append_assoc, append-nil}
use meshyants.Base.{
  ℕ, zero, suc, ◌+◌, ◌*◌, ◌^◌, ◌≤◌, ◌<◌, ◌≡◌, refl, ap, sym, ◌∙◌, Bytes, put_be, be, be-put_be,
  length-put_be, slice, slice_mid, slice_prefix, at, ok, le→ltb, List, [], ◌∷◌, ◌++◌, length, take,
  length-append, All, arith,
}
use meshyants.Dtn.Framing.{
  chunk_data, chunk_reset, out_of_range, u16, put_ids, header, read_ids, decode_ids, decode_data,
  decode_reset, decode_body, decode,
}

pub length-header : (t : ℕ) (s : Bytes) → length (header t s) ≡ 3 + length s
unfolding header
length-header t s =
    omega (arith, length-append (t ∷ put_be 2 (u16 (length s))) s, length-put_be 2 (u16 (length s)))

module _ (t : ℕ) (s rest : Bytes) where
  slen_slice : slice out_of_range (header t s ++ rest) 1 3 ≡ ok (put_be 2 (u16 (length s)))
  unfolding header
  slen_slice = rw append_assoc (
      slice_mid out_of_range (t ∷ []) (put_be 2 (u16 (length s))) (s ++ rest) 1 3 refl
        (omega (arith, length-put_be 2 (u16 (length s)))))

  session_slice : slice out_of_range (header t s ++ rest) 3 (3 + length s) ≡ ok s
  unfolding header
  session_slice = rw append_assoc (
      slice_mid out_of_range (t ∷ put_be 2 (u16 (length s))) s rest 3 (3 + length s)
        (omega (arith, length-put_be 2 (u16 (length s))))
        (omega (arith, length-put_be 2 (u16 (length s)))))

  at-header : at out_of_range (header t s ++ rest) 0 ≡ ok t
  unfolding header at
  at-header = refl

  pub decode-header :
      length s < 65536
      → 0 < length s + length rest
      → decode (header t s ++ rest) ≡ decode_body t s (header t s ++ rest) (3 + length s)
  unfolding decode
  decode-header h k =
      let n = length-header t s in
      let m = length-append (header t s) rest in
      let slen : be (put_be 2 (u16 (length s))) ≡ length s =
        be-put_be 2 (u16 (length s)) (omega arith) ∙ omega arith in
      rw (le→ltb (length (header t s ++ rest)) 4 (omega arith)) (
        rw (at-header, slen_slice, slen)
          (rw (le→ltb (length (header t s ++ rest)) (3 + length s) (omega arith), session_slice)))

put_ids-cons :
    (id : ℕ) (ids post : Bytes) → put_ids (id ∷ ids) ++ post ≡ put_be 8 id ++ (put_ids ids ++ post)
unfolding put_ids
put_ids-cons id ids post = append_assoc (put_be 8 id) (put_ids ids) post

length-put_ids : (ids : List ℕ) → length (put_ids ids) ≡ length ids * 8
unfolding put_ids
length-put_ids [] = refl
length-put_ids (id ∷ ids) =
    omega (arith, length-append (put_be 8 id) (put_ids ids), length-put_be 8 id, length-put_ids ids)

-- Every word of a uint64 fits.
abbrev pub AreWords : List ℕ → Type 0
AreWords = All (λ id. id < 256 ^ 8)

read_ids-put_ids :
    (n : ℕ) (ids : List ℕ) (buf pre post : Bytes) (offset : ℕ)
    → buf ≡ pre ++ (put_ids ids ++ post)
    → n ≤ length ids
    → offset ≡ length pre
    → AreWords ids
    → read_ids buf offset n ≡ ok (take n ids)
unfolding read_ids
read_ids-put_ids zero ids buf pre post offset e h p w = refl
read_ids-put_ids (suc n) [] buf pre post offset e h p w = absurd (omega arith)
read_ids-put_ids (suc n) (id ∷ ids) buf pre post offset e h p w =
    let e' : buf ≡ pre ++ (put_be 8 id ++ (put_ids ids ++ post)) =
      e ∙ ap (λ t. pre ++ t) (put_ids-cons id ids post) in
    let word : slice out_of_range buf offset (offset + 8) ≡ ok (put_be 8 id) = rw e' (
      slice_mid out_of_range pre (put_be 8 id) (put_ids ids ++ post) offset (offset + 8) p
        (omega (arith, length-put_be 8 id))) in
    let rest =
      read_ids-put_ids n ids buf (pre ++ put_be 8 id) post (offset + 8)
        (e' ∙ sym (append_assoc pre (put_be 8 id) (put_ids ids ++ post))) (omega arith)
        (omega (arith, length-append pre (put_be 8 id), length-put_be 8 id)) w.1 in
    rw (word, be-put_be 8 id w.0) (rw rest)

module _ (pre body : Bytes) (offset n : ℕ) (start : offset ≡ length pre) where
  -- The two-byte count that stands at `offset`.
  count_slice :
      slice out_of_range (pre ++ (put_be 2 (u16 n) ++ body)) offset (offset + 2)
      ≡ ok (put_be 2 (u16 n))
  count_slice =
      slice_mid out_of_range pre (put_be 2 (u16 n)) body offset (offset + 2) start
        (omega (arith, length-put_be 2 (u16 n)))

  count-be : be (put_be 2 (u16 n)) ≡ u16 n
  count-be = be-put_be 2 (u16 n) (omega arith)

  length-counted : length (pre ++ (put_be 2 (u16 n) ++ body)) ≡ offset + 2 + length body
  length-counted = omega (
    arith,
    length-append pre (put_be 2 (u16 n) ++ body),
    length-append (put_be 2 (u16 n)) body,
    length-put_be 2 (u16 n),
  )

pub decode_ids-counted :
    (pre : Bytes) (ids : List ℕ) (offset : ℕ)
    → offset ≡ length pre
    → AreWords ids
    → decode_ids (pre ++ (put_be 2 (u16 (length ids)) ++ put_ids ids)) offset
      ≡ ok (take (u16 (length ids)) ids)
unfolding decode_ids
decode_ids-counted pre ids offset p w =
    let n = length ids in
    let buf = pre ++ (put_be 2 (u16 n) ++ put_ids ids) in
    let size = length-counted pre (put_ids ids) offset n p in
    let words = length-put_ids ids in
    let rest =
      read_ids-put_ids (u16 n) ids buf (pre ++ put_be 2 (u16 n)) [] (offset + 2)
        (rw (append-nil, append_assoc) refl) (omega arith)
        (omega (arith, length-append pre (put_be 2 (u16 n)), length-put_be 2 (u16 n))) w in
    rw (le→ltb (length buf) (offset + 2) (omega arith)) (
      rw (count_slice pre (put_ids ids) offset n p, count-be pre (put_ids ids) offset n p)
        (rw (le→ltb (length buf) (offset + 2 + u16 n * 8) (omega arith)) rest))

pub decode_data-written :
    (s pre bytes : Bytes) (id offset : ℕ)
    → offset ≡ length pre
    → id < 256 ^ 8
    → decode_data s (pre ++ (put_be 8 id ++ bytes)) offset ≡ ok (chunk_data s id bytes)
unfolding decode_data
decode_data-written s pre bytes id offset p w =
    let buf = pre ++ (put_be 8 id ++ bytes) in
    let word = length-put_be 8 id in
    let size : length buf ≡ offset + 8 + length bytes =
      omega (arith, length-append pre (put_be 8 id ++ bytes), length-append (put_be 8 id) bytes) in
    let tail =
      slice_mid out_of_range (pre ++ put_be 8 id) bytes [] (offset + 8) (length buf)
        (omega (arith, length-append pre (put_be 8 id)))
        (omega (arith, length-append pre (put_be 8 id))) in
    rw (le→ltb (length buf) (offset + 8) (omega arith)) (
      rw
        (
          slice_mid out_of_range pre (put_be 8 id) bytes offset (offset + 8) p (omega arith),
          be-put_be 8 id w,
        )
        (rw (rw (append-nil, append_assoc) at tail)))

pub decode_reset-written :
    (s pre reason : Bytes) (offset : ℕ)
    → offset ≡ length pre
    → decode_reset s (pre ++ (put_be 2 (u16 (length reason)) ++ reason)) offset
      ≡ ok (chunk_reset s (take (u16 (length reason)) reason))
unfolding decode_reset
decode_reset-written s pre reason offset p =
    let n = length reason in
    let buf = pre ++ (put_be 2 (u16 n) ++ reason) in
    let size = length-counted pre reason offset n p in
    let tail =
      slice_prefix out_of_range (pre ++ put_be 2 (u16 n)) reason (offset + 2) (offset + 2 + u16 n)
        (u16 n) (omega (arith, length-append pre (put_be 2 (u16 n)), length-put_be 2 (u16 n)))
        (omega (arith, length-append pre (put_be 2 (u16 n)), length-put_be 2 (u16 n)))
        (omega arith) in
    rw (le→ltb (length buf) (offset + 2) (omega arith)) (
      rw (count_slice pre reason offset n p, count-be pre reason offset n p)
        (rw (le→ltb (length buf) (offset + 2 + u16 n) (omega arith))
          (rw (rw append_assoc at tail))))

-- A body that begins with a word is not empty.
pub body_size : (w n : ℕ) (s body : Bytes) → 0 < w → 0 < length s + length (put_be w n ++ body)
body_size w n s body h = omega (arith, length-append (put_be w n) body, length-put_be w n)
