-- ===== src/Ledger/Publish/Refinement.antt =====
-- The publish ledger of internal/ledger/publish/ledger.go against an abstract map from publish ids to
-- entries.
use meshyants.Base.{
  ◌≡◌, ◌≢◌, inl, inr, refl, sym, ap, subst, ◌∙◌, Bytes, list_eq, nat_eq, ◌==◌, eq_of_==, ne_of_==,
  Bool-cases, Result, ok, err, Option, Option-cases, none, some, List, [], ◌∷◌, All, if◌then◌else◌,
  arith,
}
use mathlib.Core.Path.{fun_ext}
use meshyants.Ledger.Bolt.{Bolt}
use meshyants.Ledger.Publish.{Fault, Entry, state_pending, state_acked, read_entry, get_entry}
use meshyants.Ledger.Publish.Lifecycle.{IsLedger, pending_entry, stored}
use meshyants.Ledger.Publish.Calls.{
  Call, put_call, ack_call, InTime, call, call_error, call-IsLedger, run, put_pending_reads,
  mark_acked_reads, IsAcked, read-stored,
}

-- The specification: what `Get` returns for each publish id.
abbrev pub Spec : Type 0
Spec = Bytes → Option Entry

abbrev acked : Option Entry → Option Entry
acked none = none
acked (some e) = some (record e { state = state_acked })

module _ (b : Bolt) where
  open b use {Bucket, get}

  -- A call on the specification.
  unfoldable pub spec_call : Call → Spec → Spec
  spec_call (put_call now k msg hash) v j =
      if k == j then some (pending_entry b now k msg hash) else v j
  spec_call (ack_call k) v j = if k == j then acked (v j) else v j

  unfoldable pub spec_run : List Call → Spec → Spec
  spec_run [] v = v
  spec_run (c ∷ cs) v = spec_run cs (spec_call c v)

  -- What the specification asks of a call: nothing is published again once it is acknowledged, and
  -- only a pending entry is acknowledged.
  abbrev pub IsLegal : Call → Spec → Type 0
  IsLegal (put_call now k msg hash) v = (e : Entry) → v k ≡ some e → e.state ≢ state_acked
  IsLegal (ack_call k) v = (e : Entry) × (v k ≡ some e) × (e.state ≡ state_pending)

  abbrev pub AllLegal : List Call → Spec → Type 0
  AllLegal [] v = Unit {0}
  AllLegal (c ∷ cs) v = IsLegal c v × AllLegal cs (spec_call c v)

  abbrev entry_of : Result Fault Entry → Option Entry
  entry_of (ok e) = some e
  entry_of (err f) = none

  -- The bucket as the specification sees it.
  abbrev pub view : Bucket → Spec
  view s k = entry_of (get_entry b k s)

  abbrev keep : Call → Option Fault → List Call → List Call
  keep c none cs = c ∷ cs
  keep c (some f) cs = cs

  -- The calls of a run that reported no error.
  unfoldable pub accepted : List Call → Bucket → List Call
  accepted [] s = []
  accepted (c ∷ cs) s = keep c (call b c s).1 (accepted cs (call b c s).0)

  view-get : (s t : Bucket) (k : Bytes) → get t k ≡ get s k → view t k ≡ view s k
  unfolding get_entry
  view-get s t k e = ap (λ v. entry_of (read_entry k v)) e

  call-view :
      (c : Call) (s : Bucket)
      → InTime c
      → IsLedger b s
      → (call b c s).1 ≡ none
      → (j : Bytes) → view (call b c s).0 j ≡ spec_call c (view s) j
  unfolding call spec_call
  call-view (put_call now k msg hash) s t l h j =
      let (reads, elsewhere, fresh) = put_pending_reads b now k msg hash s t h in
      elim (Bool-cases (k == j)) [
        | inl e ↦ rw e (rw (← eq_of_== k j e) (ap entry_of reads))
        | inr e ↦ rw e (view-get s _ j (elsewhere j λ q. ne_of_== k j e (sym q)))
      ]
  call-view (ack_call k) s t l h j =
      let (ent, before, was, after, elsewhere) = mark_acked_reads b k s l h in
      elim (Bool-cases (k == j)) [
        | inl e ↦
            rw e (
              rw (← eq_of_== k j e) (ap entry_of after ∙ sym (ap (λ r. acked (entry_of r)) before)))
        | inr e ↦ rw e (view-get s _ j (elsewhere j λ q. ne_of_== k j e (sym q)))
      ]

  view-IsAcked :
      (s : Bucket) (k : Bytes) (e : Entry)
      → IsLedger b s
      → view s k ≡ some e
      → e.state ≡ state_acked
      → IsAcked b k s
  unfolding get_entry read_entry
  view-IsAcked s k e l at_k h = elim (Option-cases (get s k)) [
    | inl absent ↦ absurd (ground (arith, at_k, absent))
    | inr (v, present) ↦
        let (old, fits, same) = l.entry_at k v present in
        let here : get s k ≡ some (stored old) = present ∙ ap some same in
        (
          old,
          fits,
          here,
          ground (arith, at_k, here, h, ap entry_of (read-stored b k s old fits here)),
        )
  ]

  call-IsLegal :
      (c : Call) (s : Bucket) → InTime c → IsLedger b s → (call b c s).1 ≡ none → IsLegal c (view s)
  unfolding call
  call-IsLegal (put_call now k msg hash) s t l h =
      let (reads, elsewhere, fresh) = put_pending_reads b now k msg hash s t h in
      λ e at_k is_acked. fresh (view-IsAcked s k e l at_k is_acked)
  call-IsLegal (ack_call k) s t l h =
      let (ent, before, was, after, elsewhere) = mark_acked_reads b k s l h in
      (ent, ap entry_of before, was)

  abbrev Follows : Bucket → List Call → Spec → Type 0
  Follows t cs v = (view t ≡ spec_run cs v) × AllLegal cs v

  -- For every sequence of calls, at times that fit an int64, on a well-formed ledger: what Get returns
  -- afterwards for every key is what the abstract map holds after those calls of the sequence that
  -- reported no error, each of which the abstract map allows at its turn; no acknowledged message is
  -- made pending again.
  pub view-run :
      (cs : List Call) (s : Bucket)
      → All InTime cs
      → IsLedger b s
      → (view (run b cs s) ≡ spec_run (accepted cs s) (view s)) × AllLegal (accepted cs s) (view s)
  unfolding run accepted spec_run
  view-run [] s t l = (refl, tt)
  view-run (c ∷ cs) s t l =
      let onward = view-run cs (call b c s).0 t.1 (call-IsLedger b c s t.0 l) in
      elim (Option-cases (call b c s).1) [
        | inl e ↦
            let (later, rest) =
              subst (λ v. Follows (run b cs (call b c s).0) (accepted cs (call b c s).0) v)
                (fun_ext (call-view c s t.0 l e)) onward in
            rw e (later, (call-IsLegal c s t.0 l e, rest))
        | inr (f, e) ↦ rw e (
            subst (λ v. Follows (run b cs (call b c s).0) (accepted cs (call b c s).0) v)
              (fun_ext λ j. view-get s (call b c s).0 j (call_error b c s j e)) onward)
      ]
