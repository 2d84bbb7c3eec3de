-- ===== src/Store.antt =====
-- internal/store/store.go: the content-addressed store. A path is the list of its elements, so a
-- multihash is one without separators; what the file system refuses is a parameter.
pub mod Content
mod Tests
use meshyants.Base.{
  ℕ, Bytes, list_eq, nat_eq, ◌==◌, not, Map, lookup, insert, Result, ok, err, ◌>>=◌, ◌>>◌,
  refuse_if, ltb, eqb, Bool, true, false, Option, none, some, List, [], ◌∷◌, ◌++◌, take, length,
  if◌then◌else◌,
}
use meshyants.Text.{codes}

pub data Fault : Type 0 where
  mkdir write_failed read hash_mismatch : Fault
  invalid_multihash : Bytes → Fault

-- io.LimitReader(nil, n).
pub data Reader : Type 0 where
  limited_nil : ℕ → Reader

pub data ReadOutcome : Type 0 where
  eof nil_dereference : ReadOutcome

-- The first Read of package io on it: at the limit it does not touch the reader beneath.
abbrev pub first_read : Reader → ReadOutcome
first_read (limited_nil n) = if eqb n 0 then eof else nil_dereference

abbrev pub ElementPath : Type 0
ElementPath = List Bytes

-- How os.WriteFile ends: an error may leave a file with a part of the bytes.
pub data Written : Type 0 where
  complete : Written
  failed : Option Bytes → Written

-- The files by path; `mkdir_fails` and `write` say how the calls to the file system end.
pub record Disk : Type 0 where
  pub files : Map ElementPath Bytes
  pub mkdir_fails : ElementPath → Bool
  pub write : ElementPath → Written

module _ (sum_hex : Bytes → Bytes) (root : Bytes) where
  -- "1220" + hex.EncodeToString(hash[:])
  abbrev pub multihash_of : Bytes → Bytes
  multihash_of content = codes "1220" ++ sum_hex content

  abbrev pub path_of : Bytes → ElementPath
  path_of mh = root ∷ take 4 mh ∷ mh ∷ []

  abbrev pub with_file : Bytes → Bytes → Disk → Disk
  with_file mh content d = record d { files = insert (path_of mh) content d.files }

  -- os.WriteFile
  abbrev pub write_new : Bytes → Bytes → Disk → Written → Disk × Result Fault Bytes
  write_new mh content d complete = (with_file mh content d, ok mh)
  write_new mh content d (failed none) = (d, err write_failed)
  write_new mh content d (failed (some part)) = (with_file mh part d, err write_failed)

  -- os.Stat succeeds where the file is.
  abbrev pub write_missing : Bytes → Bytes → Disk → Option Bytes → Disk × Result Fault Bytes
  write_missing mh content d (some old) = (d, ok mh)
  write_missing mh content d none = write_new mh content d (d.write (path_of mh))

  unfoldable pub put : Bytes → Disk → Disk × Result Fault Bytes
  put content d =
      let mh = multihash_of content in
      if d.mkdir_fails (root ∷ take 4 mh ∷ [])
      then (d, err mkdir)
      else write_missing mh content d (lookup (path_of mh) d.files)

  abbrev pub checked : Bytes → Option Bytes → Result Fault Bytes
  checked multihash none = err read
  checked multihash (some content) =
      refuse_if (not (multihash_of content == multihash)) hash_mismatch >> ok content

  unfoldable pub get : Bytes → Disk → Result Fault Bytes
  get multihash d =
      refuse_if (ltb (length multihash) 4) (invalid_multihash multihash)
      >> checked multihash (lookup (path_of multihash) d.files)

  -- The method `Write` of FileStore.
  unfoldable pub file_store_write : Bytes → Disk → Disk × (ℕ × Result Fault Bytes)
  unfolding put
  file_store_write content d = let (e, r) = put content d in (e, (length content, r))

  -- New: the root, made if need be.
  unfoldable pub new_store : Disk → Result Fault Bytes
  new_store d = if d.mkdir_fails (root ∷ []) then err mkdir else ok root

  -- GetReader: a LimitReader over a nil reader, with the length of the content as its limit.
  unfoldable pub get_reader : Bytes → Disk → Result Fault Reader
  unfolding get
  get_reader multihash d = do content ← get multihash d; ok (limited_nil (length content))
