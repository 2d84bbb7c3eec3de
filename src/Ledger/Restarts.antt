-- ===== src/Ledger/Restarts.antt =====
-- The ledgers of internal/ledger over the runs of a process, each of which opens the file anew. A run ends
-- with Close or with a crash: either unlocks the file, and bbolt keeps the transactions that it committed.
use meshyants.Base.{
  ℕ, ◌+◌, ◌≡◌, ◌⊎◌, refl, ◌∙◌, Bytes, list_eq, nat_eq, lookup-insert_self, Result, ok, err, not,
  ◌&&◌, ◌||◌, Bool-cases, inl, inr, true, List, [], ◌∷◌, All, arith,
}
use meshyants.Ledger.Bolt.{Bolt}
use meshyants.Ledger.Files.{
  Answers, File, OpenFault, effect_bucket, publish_bucket, bucket_at, with_bucket, open_file,
  open_effect, open_publish, close_effect, close_publish, close_db,
}
use meshyants.Ledger.Effect.{has_effect}
use meshyants.Ledger.Effect.Once as Once
use meshyants.Ledger.Effect.Once.{bit, firsts, firsts_exact}
use meshyants.Ledger.Publish.Lifecycle.{IsLedger}
use meshyants.Ledger.Publish.Calls as Calls
use meshyants.Ledger.Publish.Calls.{Call, InTime, call, call-IsLedger, IsAcked, run_acked}

module _ (b : Bolt) (fresh : b.Bucket) where
  open b use {Bucket, get}

  abbrev Opened : Type 0
  Opened = File Bucket × Result OpenFault Bucket

  -- The work of a run on the bucket that Open returned, and its end.
  abbrev worked :
      {X : Type 0}
      → Bytes
      → (X → Bucket → Bucket)
      → (File Bucket → File Bucket)
      → X
      → Opened
      → File Bucket
  worked name act ends x (f, err e) = f
  worked name act ends x (f, ok s) = ends (with_bucket b fresh name (act x s) f)

  -- A run either fails to open the ledger, and leaves its bucket alone, or works on that bucket.
  opened_or_not :
      {X : Type 0} (name : Bytes) (act : X → Bucket → Bucket) (x : X) (a : Answers)
      (f : File Bucket)
      → let r = open_file b fresh name a f in
        let after = bucket_at b fresh name (worked name act (close_db b fresh) x r) in
        let before = bucket_at b fresh name f in
        ((e : OpenFault) × (r.1 ≡ err e) × (after ≡ before))
        ⊎ ((r.1 ≡ ok before) × (after ≡ act x before))
  opened_or_not name act x a f = elim (Bool-cases (f.locked || not a.opens)) [
    | inl e ↦ rw e (inl (_, refl, refl))
    | inr e ↦ elim (Bool-cases (a.creates && b.commits (bucket_at b fresh name f))) [
      | inl e' ↦ rw (e, e') (inr (refl, rw (lookup-insert_self name _ _) refl))
      | inr e' ↦ rw (e, e') (inl (_, refl, refl))
    ]
  ]

  -- A run of a process with the effect ledger: TryApply on the keys in turn.
  unfoldable pub effect_run : Answers → List Bytes → File Bucket → File Bucket
  unfolding open_effect close_effect
  effect_run a ks f =
      worked effect_bucket (Once.run b) (close_effect b fresh true) ks (open_effect b fresh a f)

  unfoldable pub effect_runs : List (Answers × List Bytes) → File Bucket → File Bucket
  effect_runs [] f = f
  effect_runs ((a, ks) ∷ runs) f = effect_runs runs (effect_run a ks f)

  abbrev pub firsts_opened : Bytes → List Bytes → Result OpenFault Bucket → ℕ
  firsts_opened j ks (err e) = 0
  firsts_opened j ks (ok s) = firsts b j ks s

  -- How many calls of all the runs reported the first application of `j`.
  unfoldable pub firsts_of_runs : Bytes → List (Answers × List Bytes) → File Bucket → ℕ
  unfolding open_effect
  firsts_of_runs j [] f = 0
  firsts_of_runs j ((a, ks) ∷ runs) f =
      firsts_opened j ks (open_effect b fresh a f).1 + firsts_of_runs j runs (effect_run a ks f)

  -- Whether the file records the key.
  abbrev pub recorded : Bytes → File Bucket → ℕ
  recorded j f = bit (has_effect b j (bucket_at b fresh effect_bucket f))

  effect_run-exact :
      (j : Bytes) (a : Answers) (ks : List Bytes) (f : File Bucket)
      → firsts_opened j ks (open_effect b fresh a f).1 + recorded j f
        ≡ recorded j (effect_run a ks f)
  unfolding effect_run open_effect close_effect
  effect_run-exact j a ks f = elim (opened_or_not effect_bucket (Once.run b) ks a f) [
    | inl (e, failed, same) ↦ rw (failed, same) (omega arith)
    | inr (opened, after) ↦
        rw (opened, after) (firsts_exact b j ks (bucket_at b fresh effect_bucket f))
  ]

  -- However often the process is started anew on the file of its effect ledger, and whether or not each
  -- start succeeds, the number of TryApply calls of all the runs that reported a key as first is 1 if the
  -- key went from not recorded to recorded in the file, and 0 if it did not.
  pub restarts_exact :
      (j : Bytes) (runs : List (Answers × List Bytes)) (f : File Bucket)
      → firsts_of_runs j runs f + recorded j f ≡ recorded j (effect_runs runs f)
  unfolding firsts_of_runs effect_runs
  restarts_exact j [] f = omega arith
  restarts_exact j ((a, ks) ∷ runs) f =
      omega (arith, effect_run-exact j a ks f, restarts_exact j runs (effect_run a ks f))

  -- A run of a process with the publish ledger.
  unfoldable pub publish_run : Answers → List Call → File Bucket → File Bucket
  unfolding open_publish close_publish
  publish_run a cs f =
      worked publish_bucket (Calls.run b) (close_publish b fresh true) cs (open_publish b fresh a f)

  unfoldable pub publish_runs : List (Answers × List Call) → File Bucket → File Bucket
  publish_runs [] f = f
  publish_runs ((a, cs) ∷ runs) f = publish_runs runs (publish_run a cs f)

  abbrev pub published : File Bucket → Bucket
  published f = bucket_at b fresh publish_bucket f

  run-IsLedger :
      (cs : List Call) (s : Bucket) → All InTime cs → IsLedger b s → IsLedger b (Calls.run b cs s)
  unfolding Calls.run
  run-IsLedger [] s t l = l
  run-IsLedger (c ∷ cs) s t l = run-IsLedger cs (call b c s).0 t.1 (call-IsLedger b c s t.0 l)

  publish_run-acked :
      (k : Bytes) (a : Answers) (cs : List Call) (f : File Bucket)
      → All InTime cs
      → IsLedger b (published f)
      → IsAcked b k (published f)
      → IsLedger b (published (publish_run a cs f))
        × (get (published (publish_run a cs f)) k ≡ get (published f) k)
  unfolding publish_run open_publish close_publish
  publish_run-acked k a cs f t l acked = elim (opened_or_not publish_bucket (Calls.run b) cs a f) [
    | inl (e, failed, same) ↦ rw same (l, refl)
    | inr (opened, after) ↦
        rw after (run-IsLedger cs (published f) t l, run_acked b cs k (published f) t l acked)
  ]

  -- However often the process is started anew on the file of its publish ledger, with any calls of
  -- PutPending and MarkAcked at times that fit an int64 in each run, what a well-formed ledger holds under the
  -- key of an acknowledged entry stays as it is.
  pub restarts_acked :
      (k : Bytes) (runs : List (Answers × List Call)) (f : File Bucket)
      → All (λ r. All InTime r.1) runs
      → IsLedger b (published f)
      → IsAcked b k (published f)
      → get (published (publish_runs runs f)) k ≡ get (published f) k
  unfolding publish_runs
  restarts_acked k [] f t l acked = refl
  restarts_acked k ((a, cs) ∷ runs) f t l (e, storable, at, is_acked) =
      let (kept, same) = publish_run-acked k a cs f t.0 l (e, storable, at, is_acked) in
      restarts_acked k runs (publish_run a cs f) t.1 kept (e, storable, same ∙ at, is_acked) ∙ same
