-- ===== src/Dtn/Framing/Safety.antt =====
-- `Decode` of internal/dtn/framing.go guards every slice expression that it evaluates.
use meshyants.Base.{
  ℕ, zero, suc, ◌+◌, ◌*◌, ◌≤◌, ◌≡◌, ◌≢◌, refl, Bytes, be, slice, slice_total, at, Result, ok, err,
  ◌>>=◌, ◌>>◌, refuse_if, ltb→le, eqb, Bool, true, false, [], ◌∷◌, length, arith, if◌then◌else◌,
}
use meshyants.Dtn.Framing.{
  Fault, out_of_range, too_short, truncated_session, truncated_count, truncated_list,
  truncated_data_header, truncated_reset, truncated_reason, read_ids, decode_ids, decode_data,
  decode_reset, decode_body, decode,
}

-- The call does not panic.
abbrev pub Returns {ℓ} : {A : Type ℓ} → Result Fault A → Type ℓ
Returns r = r ≢ err out_of_range

Returns-ok {ℓ} : {A : Type ℓ} (a : A) → Returns (ok a)
Returns-ok a h = cc

Returns-bind {ℓ κ} :
    {A : Type ℓ} {B : Type κ} (m : Result Fault A) (f : A → Result Fault B)
    → Returns m
    → ((a : A) → Returns (f a))
    → Returns (m >>= f)
Returns-bind (ok a) f h k p = k a p
Returns-bind (err e) f h k p = h (cc)

-- What follows `if cond { return err }` may use that the condition failed.
Returns-refuse :
    {A : Type 0} (b : Bool) (e : Fault) (k : Result Fault A)
    → e ≢ out_of_range
    → (b ≡ false → Returns k)
    → Returns (refuse_if b e >> k)
Returns-refuse true e k h r p = h (cc)
Returns-refuse false e k h r p = r refl p

Returns-slice :
    (b : Bytes) (lo hi : ℕ) → lo ≤ hi → hi ≤ length b → Returns (slice out_of_range b lo hi)
Returns-slice b lo hi h k p = cc (slice_total out_of_range b lo hi h k)

Returns-read_ids :
    (count : ℕ) (buf : Bytes) (offset : ℕ)
    → offset + count * 8 ≤ length buf
    → Returns (read_ids buf offset count)
unfolding read_ids
Returns-read_ids zero buf offset h = Returns-ok []
Returns-read_ids (suc count) buf offset h =
    Returns-bind _ _ (Returns-slice buf offset (offset + 8) (omega arith) (omega arith)) λ word.
      Returns-bind _ _ (Returns-read_ids count buf (offset + 8) (omega arith)) λ ids. Returns-ok _

Returns-decode_ids : (buf : Bytes) (offset : ℕ) → Returns (decode_ids buf offset)
unfolding decode_ids
Returns-decode_ids buf offset =
    Returns-refuse _ truncated_count _ (λ p. cc)
      λ h.
        Returns-bind _ _ (Returns-slice buf offset (offset + 2) (omega arith) (ltb→le _ _ h))
          λ word.
            Returns-refuse _ truncated_list _ (λ p. cc)
              λ k. Returns-read_ids (be word) buf (offset + 2) (ltb→le _ _ k)

Returns-decode_data : (s buf : Bytes) (offset : ℕ) → Returns (decode_data s buf offset)
unfolding decode_data
Returns-decode_data s buf offset =
    Returns-refuse _ truncated_data_header _ (λ p. cc)
      λ h.
        Returns-bind _ _ (Returns-slice buf offset (offset + 8) (omega arith) (ltb→le _ _ h))
          λ word.
            Returns-bind _ _
              (Returns-slice buf (offset + 8) (length buf) (ltb→le _ _ h) (omega arith))
              λ bytes. Returns-ok _

Returns-decode_reset : (s buf : Bytes) (offset : ℕ) → Returns (decode_reset s buf offset)
unfolding decode_reset
Returns-decode_reset s buf offset =
    Returns-refuse _ truncated_reset _ (λ p. cc)
      λ h.
        Returns-bind _ _ (Returns-slice buf offset (offset + 2) (omega arith) (ltb→le _ _ h))
          λ word.
            Returns-refuse _ truncated_reason _ (λ p. cc)
              λ k.
                Returns-bind _ _
                  (Returns-slice buf (offset + 2) (offset + 2 + be word) (omega arith)
                    (ltb→le _ _ k))
                  λ reason. Returns-ok _

Returns-if :
    {A : Type 0} (b : Bool) (r s : Result Fault A)
    → Returns r
    → Returns s
    → Returns (if b then r else s)
Returns-if true r s h k = h
Returns-if false r s h k = k

Returns-decode_body : (t : ℕ) (s buf : Bytes) (offset : ℕ) → Returns (decode_body t s buf offset)
unfolding decode_body
Returns-decode_body t s buf offset =
    let ids = Returns-decode_ids buf offset in
    Returns-if (eqb t 1) _ _ (Returns-bind _ _ ids (λ l. Returns-ok _)) (
      Returns-if (eqb t 2) _ _ (Returns-bind _ _ ids (λ l. Returns-ok _)) (
        Returns-if (eqb t 4) _ _ (Returns-bind _ _ ids (λ l. Returns-ok _)) (
          Returns-if (eqb t 3) _ _ (Returns-decode_data s buf offset)
            (Returns-if (eqb t 5) _ _ (Returns-decode_reset s buf offset) (λ p. cc)))))

Returns-at_zero : (buf : Bytes) → 4 ≤ length buf → Returns (at out_of_range buf 0)
unfolding at
Returns-at_zero [] h = absurd (omega arith)
Returns-at_zero (b ∷ bs) h = Returns-ok b

-- For every buffer `Decode` returns a message or an error: no index or slice expression of it
-- leaves the buffer.
pub decode-Returns : (buf : Bytes) → Returns (decode buf)
unfolding decode
decode-Returns buf =
    Returns-refuse _ too_short _ (λ p. cc)
      λ h.
        let room = ltb→le _ _ h in
        Returns-bind _ _ (Returns-at_zero buf room) λ t.
          Returns-bind _ _ (Returns-slice buf 1 3 (omega arith) (omega arith)) λ word.
            Returns-refuse _ truncated_session _ (λ p. cc)
              λ k.
                Returns-bind _ _ (Returns-slice buf 3 (3 + be word) (omega arith) (ltb→le _ _ k))
                  λ session. Returns-decode_body t session buf _
