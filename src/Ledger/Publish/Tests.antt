-- ===== src/Ledger/Publish/Tests.antt =====
-- The publish ledger of internal/ledger/publish/ledger.go over a bucket in memory.
use meshyants.Ledger.Publish.Refinement.{AllLegal, accepted, view, spec_run, view-run}
use meshyants.Base.{
  ◌≡◌, refl, Bytes, lookup, insert, list_eq, nat_eq, list_beq, put_be, slice, at, be, some, none,
  List, [], ◌∷◌, Map, arith,
}
use meshyants.Ledger.Bolt.{in_memory}
use meshyants.Ledger.Publish.{encode, decode, put_pending, mark_acked, not_found}
use meshyants.Ledger.Publish.Lifecycle.{IsLedger}
use meshyants.Ledger.Publish.Calls.{Call, put_call, ack_call, call, run}

abbrev empty : Map Bytes Bytes
empty = []

abbrev id : Bytes
id = b'p' ∷ []

empty-IsLedger : IsLedger in_memory empty
unfolding lookup
empty-IsLedger = record { entry_at = λ k v h. cc }

abbrev after_put : Map Bytes Bytes
after_put = (put_pending in_memory 5 id (b'm' ∷ []) (9 ∷ []) empty).0

put_succeeds : (put_pending in_memory 5 id (b'm' ∷ []) (9 ∷ []) empty).1 ≡ none
unfolding put_pending encode lookup insert
put_succeeds = refl

ack_succeeds : (mark_acked in_memory id after_put).1 ≡ none
unfolding put_pending mark_acked encode decode lookup insert list_beq put_be slice at be
ack_succeeds = refl

ack_absent : (call in_memory (ack_call id) empty).1 ≡ some not_found
unfolding call mark_acked lookup
ack_absent = refl

-- Two puts of one message around its acknowledgement, the second refused.
abbrev published_twice : List Call
published_twice =
    put_call 5 id (b'm' ∷ []) (9 ∷ []) ∷ ack_call id ∷ put_call 7 id (b'm' ∷ []) (9 ∷ []) ∷ []

view-run_example :
    (view in_memory (run in_memory published_twice empty)
      ≡ spec_run in_memory (accepted in_memory published_twice empty) (view in_memory empty))
    × AllLegal in_memory (accepted in_memory published_twice empty) (view in_memory empty)
view-run_example =
    view-run in_memory published_twice empty (omega arith, (tt, (omega arith, tt))) empty-IsLedger
