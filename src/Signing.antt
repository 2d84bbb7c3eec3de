-- ===== src/Signing.antt =====
-- internal/signing/signing.go: signatures over messages that carry their own signature. Ed25519 and
-- protobuf's wire format are not part of the repository: they are parameters.
pub mod Trust
pub mod Messages
mod Tests
use meshyants.Base.{
  ltb, ℕ, ◌≡◌, ◌≢◌, Bytes, Result, ok, err, ◌>>=◌, ◌>>◌, refuse_if, Bool, true, false, not,
  is_empty, Option, none, some, [], take, length, eqb, if◌then◌else◌,
}

pub data Fault : Type 0 where
  invalid_signature empty_signature no_signature_field marshal_failed : Fault

-- crypto/ed25519, on the bytes of keys.
pub record Ed25519 : Type 0 where
  pub sign : Bytes → Bytes → Bytes
  pub verify : Bytes → Bytes → Bytes → Bool

-- What Ed25519 documents of a key pair.
abbrev pub IsPair : Ed25519 → Bytes → Bytes → Type 0
IsPair ed public_key private_key =
    (payload : Bytes)
    → (ed.sign private_key payload ≢ [])
      × (ed.verify public_key payload (ed.sign private_key payload) ≡ true)

-- A type of messages: whether it has a field `signature`, the field, and proto.Marshal (`none` where
-- it fails).
pub record Signable (M : Type 0) : Type 0 where
  pub has_signature : Bool
  pub signature : M → Bytes
  pub set_signature : Bytes → M → M
  pub marshal : M → Option Bytes
  pub signature-set : (s : Bytes) (m : M) → signature (set_signature s m) ≡ s
  pub set-set : (s t : Bytes) (m : M) → set_signature s (set_signature t m) ≡ set_signature s m

abbrev pub marshalled : Option Bytes → Result Fault Bytes
marshalled none = err marshal_failed
marshalled (some b) = ok b

module _ {M : Type 0} (x : Signable M) (ed : Ed25519) where
  unfoldable pub marshal_canonical : M → Result Fault Bytes
  marshal_canonical m =
      refuse_if (not x.has_signature) no_signature_field
      >> marshalled (x.marshal (x.set_signature [] m))

  -- The message as `Sign` leaves it.
  unfoldable pub sign : M → Bytes → Result Fault M
  unfolding marshal_canonical
  sign m private_key = marshal_canonical m >>= λ payload.
      let sig = ed.sign private_key payload in
      refuse_if (not x.has_signature) no_signature_field >> ok (x.set_signature sig m)

  unfoldable pub verify : M → Bytes → Result Fault (Unit {0})
  unfolding marshal_canonical
  verify m public_key = marshal_canonical m >>= λ payload.
      refuse_if (not x.has_signature) no_signature_field
      >> (let sig = x.signature m in
          refuse_if (is_empty sig) empty_signature
          >> refuse_if (not (ed.verify public_key payload sig)) invalid_signature)

pub data KeyFault : Type 0 where
  not_raw_or_base64 : KeyFault
  wrong_length : ℕ → KeyFault
  unreadable : KeyFault
  -- A panic.
  index_out_of_range : KeyFault

-- base64.StdEncoding.Decode into a slice of 32 bytes: what it has to write, and whether it finds no
-- error; it does not test the length of the slice. `seed_key` is ed25519.NewKeyFromSeed.
abbrev pub seed_of : Bytes → Bytes × Bool → Result KeyFault Bytes
seed_of content (dec, true) = ok dec
seed_of content (dec, false) =
    refuse_if (not (eqb (length content) 32)) not_raw_or_base64 >> ok content

unfoldable pub load_private_key_from_file :
    (Bytes → Bytes × Bool) → (Bytes → Bytes) → Option Bytes → Result KeyFault Bytes
load_private_key_from_file base64 seed_key none = err unreadable
load_private_key_from_file base64 seed_key (some content) =
    (refuse_if (ltb 32 (length (base64 content).0)) index_out_of_range
      >> seed_of content (base64 content))
    >>= λ dec.
        refuse_if (not (eqb (length dec) 32)) (wrong_length (length dec)) >> ok (seed_key dec)
