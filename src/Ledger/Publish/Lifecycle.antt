-- ===== src/Ledger/Publish/Lifecycle.antt =====
-- What `PutPending` and `MarkAcked` of internal/ledger/publish/ledger.go do to a bucket that the
-- ledger has written.
use meshyants.Base.{
  ℕ, ◌≤◌, ◌≡◌, ◌≢◌, inl, inr, sym, ap, subst, ◌∙◌, Bytes, list_eq, nat_eq, ◌==◌, ok, ◌>>=◌,
  >>=-eq-ok, Bool-cases, Option-cases, none, some, length, arith, ==-refl, eq_of_==, ne_of_==,
  ==-ne,
}
use meshyants.Ledger.Bolt.{Bolt, update, update_kept, written}
use meshyants.Ledger.Publish.{
  Entry, encode, database, state_pending, state_acked, resurrects, acknowledge, pending_tx,
  acked_tx, read_entry, put_pending, mark_acked, get_entry,
}
use meshyants.Ledger.Publish.Codec.{IsStorable, layout, encode-layout, decode-layout}

-- A successful `encode` has written the layout of an entry that fits.
encode-eq-ok :
    (e : Entry) {v : Bytes}
    → encode e ≡ ok v
    → (length e.msg_id ≤ 65535) × (length e.payload_hash ≤ 65535)
unfolding encode
encode-eq-ok e h = ground arith

-- The value that stands for `e` in the bucket.
abbrev pub stored : Entry → Bytes
stored e = layout e.state e.created_unix e.msg_id e.payload_hash

module _ (b : Bolt) where
  open b use {Bucket, get, put, get-put}

  -- Every value of the bucket is an entry that the ledger may have written.
  pub record IsLedger (s : Bucket) : Type 0 where
    pub entry_at : (k v : Bytes) → get s k ≡ some v → (e : Entry) × IsStorable e × (v ≡ stored e)

  -- The bucket `t` is `s` with the entry `e` under `k`.
  pub record Writes (s t : Bucket) (k : Bytes) (e : Entry) : Type 0 where
    pub here : get t k ≡ some (stored e)
    pub sizes : (length e.msg_id ≤ 65535) × (length e.payload_hash ≤ 65535)
    pub elsewhere : (j : Bytes) → j ≢ k → get t j ≡ get s j

  pub Writes-IsLedger :
      {s t : Bucket} {k : Bytes} {e : Entry}
      → IsStorable e
      → Writes s t k e
      → IsLedger s
      → IsLedger t
  Writes-IsLedger {k = k} {e = e} v w l = record {
    entry_at = λ j x h. elim (Bool-cases (j == k)) [
      | inl same ↦ (e, v, cc (eq_of_== j k same, w.here))
      | inr other ↦ l.entry_at j x (sym (w.elsewhere j (ne_of_== j k other)) ∙ h)
    ];
  }

  -- A bucket with the same keys and values.
  pub same-IsLedger : {s t : Bucket} → ((j : Bytes) → get t j ≡ get s j) → IsLedger s → IsLedger t
  same-IsLedger same l = record { entry_at = λ j v h. l.entry_at j v (sym (same j) ∙ h) }

  written-eq-ok :
      (s t : Bucket) (k v : Bytes) → written b database (put s k v) ≡ ok t → put s k v ≡ some t
  written-eq-ok s t k v h = ground arith

  written-Writes :
      (s t : Bucket) (k : Bytes) (e : Entry)
      → (encode e >>= λ v. written b database (put s k v)) ≡ ok t
      → Writes s t k e
  written-Writes s t k e h =
      let (v, coded, put_done) = >>=-eq-ok (encode e) _ h in
      let fits = encode-eq-ok e coded in
      let value : v ≡ stored e = cc (encode-layout e fits.0 fits.1) in
      let done = written-eq-ok s t k v put_done in
      record {
        here = get-put s t k k v done ∙ rw (==-refl {A = Bytes} k) (ap some value);
        sizes = fits;
        elsewhere = λ j ne. get-put s t k j v done ∙ rw (==-ne {A = Bytes} k j (λ p. ne (sym p)));
      }

  -- The entry that `PutPending` writes.
  abbrev pub pending_entry : ℕ → Bytes → Bytes → Bytes → Entry
  pending_entry now publish_id msg_id payload_hash = record {
    publish_id = publish_id;
    msg_id = msg_id;
    payload_hash = payload_hash;
    state = state_pending;
    created_unix = now;
  }

  pub read-Writes :
      (s t : Bucket) (k : Bytes) (e : Entry)
      → Writes s t k e
      → IsStorable e
      → get_entry b k t ≡ ok (record e { publish_id = k })
  unfolding get_entry
  read-Writes s t k e w v = rw (w.here, read_entry) (rw (decode-layout e v))

  pub put_pending-Writes :
      (now : ℕ) (k msg hash : Bytes) (s : Bucket)
      → (put_pending b now k msg hash s).1 ≡ none
      → Writes s (put_pending b now k msg hash s).0 k (pending_entry now k msg hash)
        × (resurrects k (get s k) ≡ ok tt)
  unfolding put_pending
  put_pending-Writes now k msg hash s h =
      let (u, first, rest) =
        >>=-eq-ok {B = Bucket} (resurrects k (get s k))
          (λ x. encode (pending_entry now k msg hash) >>= λ v. written b database (put s k v))
          (update_kept b database (pending_tx b now k msg hash) s h) in
      (written-Writes s _ k (pending_entry now k msg hash) rest, first)

  -- Where the bucket holds the entry `e`, `MarkAcked` succeeds only if `e` is pending, and writes it
  -- back as acknowledged.
  pub acknowledge-stored :
      (k : Bytes) (e ent : Entry)
      → IsStorable e
      → acknowledge k (some (stored e)) ≡ ok ent
      → (e.state ≡ state_pending) × (ent ≡ record e { publish_id = k; state = state_acked })
  unfolding acknowledge
  acknowledge-stored k e ent v h = ground (arith, decode-layout e v)

  acknowledge-none : (k : Bytes) (ent : Entry) → acknowledge k none ≢ ok ent
  unfolding acknowledge
  acknowledge-none k ent h = cc

  pub mark_acked-Writes :
      (k : Bytes) (s : Bucket)
      → IsLedger s
      → (mark_acked b k s).1 ≡ none
      → (e : Entry) × IsStorable e
        × (get s k ≡ some (stored e))
        × (e.state ≡ state_pending)
        × Writes s (mark_acked b k s).0 k (record e { publish_id = k; state = state_acked })
  unfolding mark_acked
  mark_acked-Writes k s l h =
      let (ent, first, rest) =
        >>=-eq-ok {B = Bucket} (acknowledge k (get s k))
          (λ x. encode x >>= λ v. written b database (put s k v))
          (update_kept b database (acked_tx b k) s h) in
      elim (Option-cases (get s k)) [
        | inl e ↦ absurd (acknowledge-none k ent (sym (ap (acknowledge k) e) ∙ first))
        | inr (v, e) ↦
            let (old, fits, same) = l.entry_at k v e in
            let at_k : get s k ≡ some (stored old) = e ∙ ap some same in
            let (was, now) =
              acknowledge-stored k old ent fits (sym (ap (acknowledge k) at_k) ∙ first) in
            (
              old,
              fits,
              at_k,
              was,
              subst (λ x. Writes s (mark_acked b k s).0 k x) now
                  (written-Writes s (update b database (acked_tx b k) s).0 k ent rest),
            )
      ]
