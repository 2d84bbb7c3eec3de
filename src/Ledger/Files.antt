-- ===== src/Ledger/Files.antt =====
-- internal/ledger/effect/ledger.go and internal/ledger/publish/ledger.go: Open and Close on the database
-- file, which bbolt locks for one process at a time.
use meshyants.Base.{
  Bytes, list_eq, nat_eq, Map, lookup, insert, Result, ok, err, not, ◌&&◌, ◌||◌, Bool, true, false,
  Option, none, some, if◌then◌else◌,
}
use meshyants.Text.{codes}
use meshyants.Ledger.Bolt.{Bolt}

pub data OpenFault : Type 0 where
  not_opened not_created : OpenFault

-- What bbolt answers besides the lock and the commit: bolt.Open may open the file, and
-- CreateBucketIfNotExists returns no error.
pub record Answers : Type 0 where
  pub opens : Bool
  pub creates : Bool

-- The buckets of a file by name, and whether a process holds its lock.
pub record File (Bucket : Type 0) : Type 0 where
  pub buckets : Map Bytes Bucket
  pub locked : Bool

-- The variables bucketName.
abbrev pub effect_bucket : Bytes
effect_bucket = codes "effect_ledger"

abbrev pub publish_bucket : Bytes
publish_bucket = codes "publish_ledger"

-- `fresh` is the bucket that bbolt creates.
module _ (b : Bolt) (fresh : b.Bucket) where
  open b use {Bucket, commits}

  abbrev pub or_fresh : Option Bucket → Bucket
  or_fresh none = fresh
  or_fresh (some s) = s

  -- CreateBucketIfNotExists returns the bucket that is there.
  abbrev pub bucket_at : Bytes → File Bucket → Bucket
  bucket_at name f = or_fresh (lookup name f.buckets)

  -- db.Close()
  abbrev pub close_db : File Bucket → File Bucket
  close_db f = record f { locked = false }

  abbrev pub with_bucket : Bytes → Bucket → File Bucket → File Bucket
  with_bucket name s f = record f { buckets = insert name s f.buckets }

  -- db.Update, and the close after its error; the result holds the bucket that the ledger works on.
  abbrev pub create_bucket : Bytes → Answers → File Bucket → File Bucket × Result OpenFault Bucket
  create_bucket name a f =
      let s = bucket_at name f in
      if a.creates && commits s then (with_bucket name s f, ok s) else (close_db f, err not_created)

  -- bolt.Open gives up after three seconds on a locked file.
  abbrev pub open_file : Bytes → Answers → File Bucket → File Bucket × Result OpenFault Bucket
  open_file name a f =
      if f.locked || not a.opens
      then (f, err not_opened)
      else create_bucket name a (record f { locked = true })

  -- Open of the effect ledger.
  unfoldable pub open_effect : Answers → File Bucket → File Bucket × Result OpenFault Bucket
  open_effect = open_file effect_bucket

  -- Open of the publish ledger.
  unfoldable pub open_publish : Answers → File Bucket → File Bucket × Result OpenFault Bucket
  open_publish = open_file publish_bucket

  -- Close of the effect ledger; false for a nil receiver or database.
  unfoldable pub close_effect : Bool → File Bucket → File Bucket
  close_effect has_db f = if has_db then close_db f else f

  -- Close of the publish ledger, likewise.
  unfoldable pub close_publish : Bool → File Bucket → File Bucket
  close_publish has_db f = if has_db then close_db f else f
