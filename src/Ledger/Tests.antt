-- ===== src/Ledger/Tests.antt =====
-- Restarts of a process on the files of its ledgers, with buckets in memory.
use meshyants.Base.{
  ◌+◌, ◌≡◌, refl, Bytes, lookup, list_eq, nat_eq, list_beq, true, false, [], ◌∷◌, List, Map, inr,
  arith,
}
use meshyants.Ledger.Bolt.{in_memory}
use meshyants.Ledger.Files.{Answers, File, publish_bucket}
use meshyants.Ledger.Publish.{Entry}
use meshyants.Ledger.Publish.Codec.{IsStorable}
use meshyants.Ledger.Publish.Lifecycle.{stored, IsLedger}
use meshyants.Ledger.Publish.Calls.{Call, put_call, ack_call, IsAcked}
use meshyants.Ledger.Restarts.{
  effect_runs, firsts_of_runs, recorded, restarts_exact, publish_runs, published, restarts_acked,
}

abbrev well : Answers
well = record { opens = true; creates = true }

abbrev refused : Answers
refused = record { opens = false; creates = true }

abbrev new_file : File (Map Bytes Bytes)
new_file = record { buckets = []; locked = false }

-- Three starts, the second of which fails.
abbrev starts : List (Answers × List Bytes)
starts =
    (well, (1 ∷ []) ∷ (2 ∷ []) ∷ [])
    ∷ (refused, (1 ∷ []) ∷ [])
    ∷ (well, (1 ∷ []) ∷ (3 ∷ []) ∷ [])
    ∷ []

abbrev sent : Entry
sent = record {
  publish_id = b'p' ∷ [];
  msg_id = b'm' ∷ [];
  payload_hash = 7 ∷ 8 ∷ [];
  state = 2;
  created_unix = 1700000000;
}

sent-IsStorable : IsStorable sent
sent-IsStorable = record {
  known = inr refl;
  created_fits = omega arith;
  msg_fits = omega arith;
  hash_fits = omega arith;
}

abbrev id : Bytes
id = b'p' ∷ []

-- A file whose publish ledger holds one acknowledged entry.
abbrev acked_file : File (Map Bytes Bytes)
acked_file = record { buckets = (publish_bucket, (id, stored sent) ∷ []) ∷ []; locked = false }

acked_file-IsLedger : IsLedger in_memory (published in_memory [] acked_file)
unfolding lookup list_beq
acked_file-IsLedger = record { entry_at = λ k v h. (sent, sent-IsStorable, ground arith) }

acked_file-IsAcked : IsAcked in_memory id (published in_memory [] acked_file)
unfolding lookup list_beq
acked_file-IsAcked = (sent, sent-IsStorable, refl, refl)

abbrev retries : List (Answers × List Call)
retries = (well, put_call 6 id [] [] ∷ []) ∷ (refused, []) ∷ (well, ack_call id ∷ []) ∷ []

restarts_exact_example :
    firsts_of_runs in_memory [] (1 ∷ []) starts new_file + recorded in_memory [] (1 ∷ []) new_file
    ≡ recorded in_memory [] (1 ∷ []) (effect_runs in_memory [] starts new_file)
restarts_exact_example = restarts_exact in_memory [] (1 ∷ []) starts new_file

restarts_acked_example :
    lookup id (published in_memory [] (publish_runs in_memory [] retries acked_file))
    ≡ lookup id (published in_memory [] acked_file)
restarts_acked_example =
    restarts_acked in_memory [] id retries acked_file ((omega arith, tt), (tt, ((tt, tt), tt)))
      acked_file-IsLedger acked_file-IsAcked
