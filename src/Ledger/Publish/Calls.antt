-- ===== src/Ledger/Publish/Calls.antt =====
-- Sequences of calls of internal/ledger/publish/ledger.go on one bucket.
use meshyants.Ledger.Publish.Lifecycle.{
  stored, IsLedger, Writes-IsLedger, same-IsLedger, read-Writes, pending_entry, put_pending-Writes,
  mark_acked-Writes,
}
use meshyants.Base.{
  ℕ, ◌^◌, ◌<◌, ◌≡◌, ◌≢◌, inl, inr, refl, sym, ap, ◌∙◌, Bytes, list_eq, nat_eq, Result, ok, err,
  Option, Option-cases, none, some, List, [], ◌∷◌, All, arith,
}
use meshyants.Ledger.Bolt.{Bolt, update_rolled_back}
use meshyants.Ledger.Publish.{
  Fault, Entry, decode, database, resurrected, bad_state, state_pending, state_acked, resurrects,
  acknowledge, pending_tx, acked_tx, read_entry, put_pending, mark_acked, get_entry,
}
use meshyants.Ledger.Publish.Codec.{IsStorable, decode-layout}

-- What is stored tells the state.
state_of : Result Fault Entry → ℕ
state_of (ok e) = e.state
state_of (err f) = 0

stored-state : (d e : Entry) → IsStorable d → IsStorable e → stored d ≡ stored e → d.state ≡ e.state
unfolding state_of
stored-state d e v w p = ap state_of (sym (decode-layout d v) ∙ ap decode p ∙ decode-layout e w)

-- A call of the ledger by the publishing side.
pub data Call : Type 0 where
  put_call : ℕ → Bytes → Bytes → Bytes → Call
  ack_call : Bytes → Call

-- The clock of a call is an int64.
abbrev pub InTime : Call → Type 0
InTime (put_call now k msg hash) = now < 256 ^ 8
InTime (ack_call k) = Unit {0}

module _ (b : Bolt) where
  open b use {Bucket, get}

  unfoldable pub call : Call → Bucket → Bucket × Option Fault
  call (put_call now k msg hash) = put_pending b now k msg hash
  call (ack_call k) = mark_acked b k

  -- A call that reports an error changes no key.
  pub call_error :
      (c : Call) (s : Bucket) {f : Fault} (j : Bytes)
      → (call c s).1 ≡ some f
      → get (call c s).0 j ≡ get s j
  unfolding call put_pending mark_acked
  call_error (put_call now k msg hash) s j h =
      update_rolled_back b database (pending_tx b now k msg hash) s j h
  call_error (ack_call k) s j h = update_rolled_back b database (acked_tx b k) s j h

  call-IsLedger_ok :
      (c : Call) (s : Bucket)
      → InTime c
      → IsLedger b s
      → (call c s).1 ≡ none
      → IsLedger b (call c s).0
  unfolding call
  call-IsLedger_ok (put_call now k msg hash) s t l h =
      let w = put_pending-Writes b now k msg hash s h in
      Writes-IsLedger b
        (record {
          known = inl refl;
          created_fits = t;
          msg_fits = w.0.sizes.0;
          hash_fits = w.0.sizes.1;
        })
        w.0 l
  call-IsLedger_ok (ack_call k) s t l h =
      let (e, fits, at_k, was, w) = mark_acked-Writes b k s l h in
      Writes-IsLedger b
        (record {
          known = inr refl;
          created_fits = fits.created_fits;
          msg_fits = fits.msg_fits;
          hash_fits = fits.hash_fits;
        })
        w l

  -- Every call, failing or not, keeps a bucket that the ledger may have written.
  pub call-IsLedger : (c : Call) (s : Bucket) → InTime c → IsLedger b s → IsLedger b (call c s).0
  call-IsLedger c s t l = elim (Option-cases (call c s).1) [
    | inl e ↦ call-IsLedger_ok c s t l e
    | inr (f, e) ↦ same-IsLedger b (λ j. call_error c s j e) l
  ]

  unfoldable pub run : List Call → Bucket → Bucket
  run [] s = s
  run (c ∷ cs) s = run cs (call c s).0

  -- The bucket holds an acknowledged entry under `k`.
  abbrev pub IsAcked : Bytes → Bucket → Type 0
  IsAcked k s = (e : Entry) × IsStorable e × (get s k ≡ some (stored e)) × (e.state ≡ state_acked)

  resurrects-stored :
      (k : Bytes) (e : Entry)
      → IsStorable e
      → e.state ≡ state_acked
      → resurrects k (some (stored e)) ≡ err (resurrected k)
  unfolding resurrects
  resurrects-stored k e v h = rw (decode-layout e v) (rw h)

  acknowledge-acked :
      (k : Bytes) (e : Entry)
      → IsStorable e
      → e.state ≡ state_acked
      → acknowledge k (some (stored e)) ≡ err bad_state
  unfolding acknowledge
  acknowledge-acked k e v h = rw (decode-layout e v) (rw h)

  pub read-stored :
      (k : Bytes) (s : Bucket) (e : Entry)
      → IsStorable e
      → get s k ≡ some (stored e)
      → get_entry b k s ≡ ok (record e { publish_id = k })
  unfolding get_entry
  read-stored k s e v at_k = rw (at_k, read_entry) (rw (decode-layout e v))

  call_acked_ok :
      (c : Call) (k : Bytes) (s : Bucket)
      → IsLedger b s
      → IsAcked k s
      → (call c s).1 ≡ none
      → get (call c s).0 k ≡ get s k
  unfolding call
  call_acked_ok (put_call now j msg hash) k s l (e, v, at_k, acked) h =
      let (w, fresh) = put_pending-Writes b now j msg hash s h in
      w.elsewhere k λ same.
        let at_j : get s j ≡ some (stored e) = sym (ap (get s) same) ∙ at_k in
        cc (resurrects-stored j e v acked, ap (resurrects j) at_j, fresh)
  call_acked_ok (ack_call j) k s l (e, v, at_k, acked) h =
      let (old, fits, at_j, was, w) = mark_acked-Writes b j s l h in
      w.elsewhere k λ same.
        let one : stored old ≡ stored e = cc (at_j, at_k, ap (get s) same) in
        absurd (omega (arith, was, acked, stored-state old e fits v one))

  call_acked :
      (c : Call) (k : Bytes) (s : Bucket)
      → IsLedger b s
      → IsAcked k s
      → get (call c s).0 k ≡ get s k
  call_acked c k s l a = elim (Option-cases (call c s).1) [
    | inl e ↦ call_acked_ok c k s l a e
    | inr (f, e) ↦ call_error c s k e
  ]

  -- In a well-formed ledger no sequence of calls, at times that fit an int64, changes what the bucket
  -- holds under the key of an acknowledged entry.
  pub run_acked :
      (cs : List Call) (k : Bytes) (s : Bucket)
      → All InTime cs
      → IsLedger b s
      → IsAcked k s
      → get (run cs s) k ≡ get s k
  unfolding run
  run_acked [] k s t l a = refl
  run_acked (c ∷ cs) k s t l a =
      let same = call_acked c k s l a in
      run_acked cs k (call c s).0 t.1 (call-IsLedger c s t.0 l) (a.0, a.1, same ∙ a.2, a.3) ∙ same

  -- Under an acknowledged key both writing calls are refused, and the bucket stays as it is.
  pub acked_refuses :
      (now : ℕ) (k msg hash : Bytes) (s : Bucket)
      → IsAcked k s
      → (put_pending b now k msg hash s ≡ (s, some (resurrected k)))
        × (mark_acked b k s ≡ (s, some bad_state))
  unfolding put_pending mark_acked
  acked_refuses now k msg hash s (e, v, at_k, acked) =
      (rw at_k (rw (resurrects-stored k e v acked)), rw at_k (rw (acknowledge-acked k e v acked)))

  -- When `PutPending` succeeds at a time that fits an int64, the key did not hold an acknowledged entry; `Get` then returns the
  -- pending entry with the arguments given, and no other key has changed.
  pub put_pending_reads :
      (now : ℕ) (k msg hash : Bytes) (s : Bucket)
      → now < 256 ^ 8
      → (put_pending b now k msg hash s).1 ≡ none
      → (get_entry b k (put_pending b now k msg hash s).0 ≡ ok (pending_entry b now k msg hash))
        × ((j : Bytes) → j ≢ k → get (put_pending b now k msg hash s).0 j ≡ get s j)
        × ¬ (IsAcked k s)
  put_pending_reads now k msg hash s t h =
      let (w, fresh) = put_pending-Writes b now k msg hash s h in
      let fits : IsStorable (pending_entry b now k msg hash) = record {
        known = inl refl;
        created_fits = t;
        msg_fits = w.sizes.0;
        hash_fits = w.sizes.1;
      } in
      (
        read-Writes b s (put_pending b now k msg hash s).0 k (pending_entry b now k msg hash) w
            fits,
        w.elsewhere,
        λ (e, v, at_k, acked). cc (resurrects-stored k e v acked, ap (resurrects k) at_k, fresh),
      )

  -- When `MarkAcked` succeeds on a well-formed ledger, `Get` returned a pending entry before and returns the same entry,
  -- acknowledged, after; no other key has changed.
  pub mark_acked_reads :
      (k : Bytes) (s : Bucket)
      → IsLedger b s
      → (mark_acked b k s).1 ≡ none
      → (e : Entry) × (get_entry b k s ≡ ok e)
        × (e.state ≡ state_pending)
        × (get_entry b k (mark_acked b k s).0 ≡ ok (record e { state = state_acked }))
        × ((j : Bytes) → j ≢ k → get (mark_acked b k s).0 j ≡ get s j)
  mark_acked_reads k s l h =
      let (e, fits, at_k, was, w) = mark_acked-Writes b k s l h in
      (
        record e { publish_id = k },
        read-stored k s e fits at_k,
        was,
        read-Writes b s (mark_acked b k s).0 k (record e { publish_id = k; state = state_acked }) w
            (record {
              known = inr refl;
              created_fits = fits.created_fits;
              msg_fits = fits.msg_fits;
              hash_fits = fits.hash_fits;
            }),
        w.elsewhere,
      )
