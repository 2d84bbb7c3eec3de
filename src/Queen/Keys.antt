-- ===== src/Queen/Keys.antt =====
-- The key files of cmd/queen/main.go: loadKey and EnsureKeyFile.
use meshyants.Base.{
  ◌≡◌, ◌≢◌, refl, Bytes, list_eq, nat_eq, Map, lookup, insert, lookup-insert_self, has, Result, ok,
  err, ◌>>=◌, ◌>>◌, refuse_if, eqb, ltb, not, Bool, true, false, Option, none, some, length,
  if◌then◌else◌, arith,
}
use meshyants.Signing.{
  KeyFault, not_raw_or_base64, wrong_length, unreadable, index_out_of_range,
  load_private_key_from_file,
}

-- What loadKey makes of the outcome of base64.StdEncoding.Decode: the buffer of 32 bytes and `n`.
abbrev pub filled : Bytes → Bytes × Bool → Result KeyFault Bytes
filled content (dec, true) = ok dec
filled content (dec, false) = if eqb (length content) 32 then ok content else err not_raw_or_base64

-- loadKey; `base64` and `seed_key` are as in internal/signing, and a result that does not fit the buffer
-- is a panic.
unfoldable pub load_key :
    (Bytes → Bytes × Bool) → (Bytes → Bytes) → Option Bytes → Result KeyFault Bytes
load_key base64 seed_key none = err unreadable
load_key base64 seed_key (some content) = do
  refuse_if (ltb 32 (length (base64 content).0)) index_out_of_range
  dec ← filled content (base64 content)
  refuse_if (not (eqb (length dec) 32)) (wrong_length (length dec))
  ok (seed_key dec)

pub data EnsureFault : Type 0 where
  generate_failed write_failed : EnsureFault

abbrev pub write_key :
    Bytes → Bool → Map Bytes Bytes → Option (Bytes × Bytes) → Map Bytes Bytes × Option EnsureFault
write_key path writes files none = (files, some generate_failed)
write_key path false files (some (public_key, private_key)) = (files, some write_failed)
write_key path true files (some (public_key, private_key)) = (insert path private_key files, none)

-- EnsureKeyFile on the files by path; `pair` is what GenerateKeyPair returns, and `writes` whether the
-- file can be written.
unfoldable pub ensure_key_file :
    Option (Bytes × Bytes) → Bool → Bytes → Map Bytes Bytes → Map Bytes Bytes × Option EnsureFault
ensure_key_file pair writes path files =
    if has path files then (files, none) else write_key path writes files pair

-- The queen reads key files as the other commands do.
load_key-load_private_key_from_file :
    (base64 : Bytes → Bytes × Bool) (seed_key : Bytes → Bytes) (content : Option Bytes)
    → load_key base64 seed_key content ≡ load_private_key_from_file base64 seed_key content
unfolding load_key load_private_key_from_file
load_key-load_private_key_from_file base64 seed_key none = refl
load_key-load_private_key_from_file base64 seed_key (some content) = ground arith

not_loaded :
    (base64 : Bytes → Bytes × Bool) (seed_key : Bytes → Bytes) (content key : Bytes)
    → length content ≡ 64
    → (base64 content).1 ≡ false
    → load_key base64 seed_key (some content) ≢ ok key
unfolding load_key
not_loaded base64 seed_key content key n e = ground (arith, n, e)

-- Where no key file is, EnsureKeyFile writes one that loadKey does not load: the private key has 64 bytes
-- and is written as it is, if a key of 64 bytes that is not base64 is drawn and the file can be
-- written.
pub ensured_key_refused :
    (base64 : Bytes → Bytes × Bool) (seed_key : Bytes → Bytes)
    (public_key private_key path key : Bytes) (files : Map Bytes Bytes)
    → has path files ≡ false
    → length private_key ≡ 64
    → (base64 private_key).1 ≡ false
    → ((ensure_key_file (some (public_key, private_key)) true path files).1 ≡ none)
      × (load_key base64 seed_key
            (lookup path (ensure_key_file (some (public_key, private_key)) true path files).0)
          ≢ ok key)
unfolding ensure_key_file
ensured_key_refused base64 seed_key public_key private_key path key files new n e = rw new (
  refl,
  rw (lookup-insert_self path private_key files) (not_loaded base64 seed_key private_key key n e),
)
