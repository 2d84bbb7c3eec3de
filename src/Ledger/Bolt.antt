-- ===== src/Ledger/Bolt.antt =====
-- The bbolt bucket on which internal/ledger rests, as an interface: bbolt is not part of the
-- repository. `put` may fail (a read-only transaction, an empty or an oversized key) and so may the
-- commit of a transaction. A bucket stands for its contents and for what the disk will do next, so that
-- a commit that failed may succeed when it is tried again.
use meshyants.Base.{
  subst, refl, inl, inr, Bool-cases, Bytes, list_eq, nat_eq, ◌==◌, Map, lookup, insert,
  lookup-insert, Bool, true, Option, none, some, ◌≡◌, Result, ok, err, if◌then◌else◌, arith,
}

pub record Bolt : Type 1 where
  pub Bucket : Type 0
  pub get : Bucket → Bytes → Option Bytes
  pub put : Bucket → Bytes → Bytes → Option Bucket
  pub commits : Bucket → Bool
  -- The bucket after a commit that failed.
  pub aborted : Bucket → Bucket
  -- A written key reads back, and no other key changes.
  pub get-put :
      (s t : Bucket) (k j v : Bytes)
      → put s k v ≡ some t
      → get t j ≡ (if k == j then some v else get s j)
  -- A commit that failed changes no key.
  pub get-aborted : (s : Bucket) (j : Bytes) → get (aborted s) j ≡ get s j

module _ (b : Bolt) where
  open b use {Bucket, put, commits, aborted}

  -- b.Put(k, v), as the last call of a transaction.
  abbrev pub written : {E : Type 0} → E → Option Bucket → Result E Bucket
  written e none = err e
  written e (some t) = ok t

  abbrev pub committed : {E : Type 0} → E → Bucket → Result E Bucket → Bucket × Option E
  committed e s (err f) = (s, some f)
  committed e s (ok t) = if commits t then (t, none) else (aborted s, some e)

  -- db.Update(fn): what fn wrote is kept if fn returns nil and the commit succeeds. `e` is the error
  -- of a failed commit.
  abbrev pub update : {E : Type 0} → E → (Bucket → Result E Bucket) → Bucket → Bucket × Option E
  update e fn s = committed e s (fn s)

-- An in-memory bucket: the assumptions can be met.
pub get-put_map :
    (s t : Map Bytes Bytes) (k j v : Bytes)
    → some (insert k v s) ≡ some t
    → lookup j t ≡ (if k == j then some v else lookup j s)
get-put_map s t k j v h =
    subst (λ m. lookup j m ≡ (if k == j then some v else lookup j s)) (cc h) (lookup-insert k j v s)

abbrev pub in_memory : Bolt
in_memory = record {
  Bucket = Map Bytes Bytes;
  get = λ s k. lookup k s;
  put = λ s k v. some (insert k v s);
  commits = λ s. true;
  aborted = λ s. s;
  get-put = get-put_map;
  get-aborted = λ s j. refl;
}

module _ (b : Bolt) where
  open b use {Bucket, get, commits, get-aborted}

  -- A transaction that reports success has run `fn` to a new bucket, which is the result.
  pub update_kept :
      {E : Type 0} (e : E) (fn : Bucket → Result E Bucket) (s : Bucket)
      → (update b e fn s).1 ≡ none
      → fn s ≡ ok (update b e fn s).0
  update_kept e fn s h = ground arith

  committed_error :
      {E : Type 0} (e : E) (s : Bucket) (r : Result E Bucket) {f : E} (j : Bytes)
      → (committed b e s r).1 ≡ some f
      → get (committed b e s r).0 j ≡ get s j
  committed_error e s (err f) j h = refl
  committed_error e s (ok t) j h = elim (Bool-cases (commits t)) [
    | inl kept ↦ absurd (cc (rw kept at h))
    | inr lost ↦ rw lost (get-aborted s j)
  ]

  -- A transaction that reports an error has changed no key.
  pub update_rolled_back :
      {E : Type 0} (e : E) (fn : Bucket → Result E Bucket) (s : Bucket) {f : E} (j : Bytes)
      → (update b e fn s).1 ≡ some f
      → get (update b e fn s).0 j ≡ get s j
  update_rolled_back e fn s j h = committed_error e s (fn s) j h
