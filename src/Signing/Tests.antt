-- ===== src/Signing/Tests.antt =====
-- Signatures by a toy scheme that meets what internal/signing/signing.go needs of Ed25519.
use meshyants.Base.{
  ◌≡◌, refl, Bytes, list_eq, nat_eq, ◌==◌, ==-refl, ok, true, some, [], ◌∷◌, arith,
}
use meshyants.Signing.{Ed25519, IsPair, Signable, marshal_canonical, sign, verify}
use meshyants.Signing.Trust.{verify-sign}

pub record Letter : Type 0 where
  pub body : Bytes
  pub signature : Bytes

abbrev letter : Bytes → Bytes → Letter
letter body signature = record { body = body; signature = signature }

abbrev letters : Signable Letter
letters = record {
  has_signature = true;
  signature = λ m. m.signature;
  set_signature = λ s m. letter m.body s;
  marshal = λ m. some m.body;
  signature-set = λ s m. refl;
  set-set = λ s t m. refl;
}

-- A signature is the key before the payload.
abbrev toy : Ed25519
toy = record { sign = λ key p. 1 ∷ p; verify = λ key p s. s == (1 ∷ p) }

toy-IsPair : IsPair toy [] []
toy-IsPair payload = ((λ p. ground arith), ==-refl (1 ∷ payload))

abbrev hello : Letter
hello = letter (104 ∷ []) []

abbrev signed : Letter
signed = letter (104 ∷ []) (1 ∷ 104 ∷ [])

verify-sign_example : verify letters toy signed [] ≡ ok tt
unfolding sign marshal_canonical
verify-sign_example = verify-sign letters toy hello signed [] [] toy-IsPair refl
