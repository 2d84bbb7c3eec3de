-- ===== src/Signing/Trust.antt =====
-- What a signature of internal/signing/signing.go covers, and which seeds can be loaded.
use meshyants.Base.{
  ◌≡◌, ◌≢◌, ◌↔◌, refl, Bytes, ok, err, Bool, inl, inr, true, Option-cases, some, [], length, arith,
}
use meshyants.Signing.{
  Ed25519, IsPair, Signable, marshal_canonical, sign, verify, load_private_key_from_file,
  wrong_length,
}

module _ {M : Type 0} (x : Signable M) (ed : Ed25519) where
  canonical-set :
      (s : Bytes) (m : M) → marshal_canonical x ed (x.set_signature s m) ≡ marshal_canonical x ed m
  unfolding marshal_canonical
  canonical-set s m = rw x.set-set

  -- A message that `Sign` has signed passes `Verify` with the public key of the pair, whatever
  -- signature it held before.
  pub verify-sign :
      (m n : M) (public_key private_key : Bytes)
      → IsPair ed public_key private_key
      → sign x ed m private_key ≡ ok n
      → verify x ed n public_key ≡ ok tt
  unfolding sign verify marshal_canonical
  verify-sign m n public_key private_key pair h =
      elim (Option-cases (x.marshal (x.set_signature [] m))) [
        | inl e ↦ ground arith
        | inr (payload, e) ↦
            let sig = ed.sign private_key payload in
            let here : x.set_signature sig m ≡ n = ground arith in
            rw (← here) (rw (x.set-set, x.signature-set) (rw e (ground (arith, pair payload))))
      ]

  -- A message that can be marshalled is signed, and passes `Verify` with the public key of the pair.
  pub sign-verify :
      (m : M) (public_key private_key payload : Bytes)
      → IsPair ed public_key private_key
      → x.has_signature ≡ true
      → x.marshal (x.set_signature [] m) ≡ some payload
      → let n = x.set_signature (ed.sign private_key payload) m in
        (sign x ed m private_key ≡ ok n) × (verify x ed n public_key ≡ ok tt)
  unfolding sign marshal_canonical
  sign-verify m public_key private_key payload pair signable e =
      let signed : sign x ed m private_key ≡ ok (x.set_signature (ed.sign private_key payload) m) =
        rw (e, signable) refl in
      (signed, verify-sign m _ public_key private_key pair signed)

  -- `Verify` accepts exactly the messages whose signature is not empty and holds for the wire bytes of
  -- the message with the signature left out.
  pub verify_iff :
      (m : M) (public_key : Bytes)
      → (verify x ed m public_key ≡ ok tt) ↔ (
          (x.has_signature ≡ true)
          × (x.signature m ≢ [])
          × ((payload : Bytes) × (x.marshal (x.set_signature [] m) ≡ some payload)
              × (ed.verify public_key payload (x.signature m) ≡ true)))
  unfolding verify marshal_canonical
  verify_iff m public_key = ground arith

-- A raw seed of 32 bytes whose bytes happen to be base64 digits is decoded to 24 bytes and refused.
pub raw_seed_refused :
    (base64 : Bytes → Bytes × Bool) (seed_key : Bytes → Bytes) (content dec : Bytes)
    → length content ≡ 32
    → base64 content ≡ (dec, true)
    → length dec ≡ 24
    → load_private_key_from_file base64 seed_key (some content) ≡ err (wrong_length 24)
unfolding load_private_key_from_file
raw_seed_refused base64 seed_key content dec n h k = rw h (rw k (rw k refl))

module _ {M : Type 0} (x : Signable M) (ed : Ed25519) where
  -- What `Sign` returns is the message with a signature.
  pub sign-eq-ok :
      (m n : M) (private_key : Bytes)
      → sign x ed m private_key ≡ ok n
      → (payload : Bytes) × (n ≡ x.set_signature (ed.sign private_key payload) m)
  unfolding sign marshal_canonical
  sign-eq-ok m n private_key h = elim (Option-cases (x.marshal (x.set_signature [] m))) [
    | inl e ↦ absurd (ground (arith, e, h))
    | inr (payload, e) ↦ (payload, ground (arith, e, h))
  ]
