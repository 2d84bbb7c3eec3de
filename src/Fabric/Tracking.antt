-- ===== src/Fabric/Tracking.antt =====
-- The publish ledger around AsyncPublish of internal/fabric/publish.go: intent is on disk before the
-- server hears of a message, and the acknowledged state follows the acknowledgement.
use meshyants.Base.{
  ℕ, ◌^◌, ◌<◌, ◌≡◌, ◌≢◌, ◌⊎◌, inl, inr, refl, ap, ◌∙◌, Bytes, ok, Bool, true, false, Option,
  Option-cases, none, some,
}
use meshyants.Ledger.Bolt.{Bolt}
use meshyants.Ledger.Publish.{
  Entry, state_pending, state_acked, put_pending, mark_acked, get_entry, read_entry, resurrected,
}
use meshyants.Ledger.Publish.Lifecycle.{IsLedger, pending_entry}
use meshyants.Ledger.Publish.Calls.{
  IsAcked, call, put_call, call-IsLedger, mark_acked_reads, put_pending_reads, acked_refuses,
  call_error, ack_call,
}
use meshyants.Fabric.{
  Msg, Broker, LedgerWriter, publish_ledger, Outcome, acknowledged, refused, cancelled, send, await,
  ledger_put_pending, World, publish_id_of, async_publish, fall_back,
}

module _ (l : LedgerWriter) (b : Broker) (sum sum_hex : Bytes → Bytes) where
  abbrev pub with_ledger : l.Store → b.Server → World l b
  with_ledger s server = record { store = some s; server = server }

  -- If the server has changed, `PutPending` had succeeded for the message's publish ID and hash.
  pub sent_was_recorded :
      (others : World l b → World l b) (outcome : Outcome) (subject body msg_id : Bytes)
      (s : l.Store) (server : b.Server)
      → (async_publish l b sum sum_hex others outcome subject body msg_id
          (with_ledger s server)).0.server
        ≢ server
      → (l.put_pending (publish_id_of l b sum_hex body msg_id) msg_id (sum body) s).1 ≡ none
  unfolding async_publish
  sent_was_recorded others outcome subject body msg_id s server h =
      elim (Option-cases
        (l.put_pending (publish_id_of l b sum_hex body msg_id) msg_id (sum body) s).1) [
          | inl e ↦ e
          | inr (f, e) ↦ absurd (h (rw e refl))
        ]

module _ (lb : Bolt) (now : ℕ) (b : Broker) (sum sum_hex : Bytes → Bytes) where
  abbrev ledger : LedgerWriter
  ledger = publish_ledger lb now

  -- A message whose publish ID is acknowledged is not sent again: the call reports the ledger's
  -- refusal, and neither the server nor the bucket changes.
  pub acked_not_resent :
      (others : World ledger b → World ledger b) (outcome : Outcome) (subject body msg_id : Bytes)
      (s : lb.Bucket) (server : b.Server)
      → let id = publish_id_of ledger b sum_hex body msg_id in
        IsAcked lb id s
        → async_publish ledger b sum sum_hex others outcome subject body msg_id
            (with_ledger ledger b sum sum_hex s server)
          ≡ (
            with_ledger ledger b sum sum_hex s server,
            record {
              publish_id = id;
              msg_id = msg_id;
              fault = some (ledger_put_pending (resurrected id));
            },
          )
  unfolding async_publish
  acked_not_resent others outcome subject body msg_id s server h =
      let id = publish_id_of ledger b sum_hex body msg_id in
      rw (acked_refuses lb now id msg_id (sum body) s h).0 refl

  -- The bucket holds, under `id`, an entry with this message ID and hash.
  abbrev pub Recorded : Bytes → Bytes → Bytes → lb.Bucket → Type 0
  Recorded id msg_id hash t =
      (e : Entry) × (get_entry lb id t ≡ ok e)
      × (e.msg_id ≡ msg_id)
      × (e.payload_hash ≡ hash)
      × ((e.state ≡ state_pending) ⊎ (e.state ≡ state_acked))

  same_entry :
      (id : Bytes) (t u : lb.Bucket)
      → lb.get u id ≡ lb.get t id
      → get_entry lb id u ≡ get_entry lb id t
  unfolding get_entry
  same_entry id t u e = ap (read_entry id) e

  settled :
      (id msg_id hash : Bytes) (t : lb.Bucket)
      → IsLedger lb t
      → get_entry lb id t ≡ ok (pending_entry lb now id msg_id hash)
      → Recorded id msg_id hash (mark_acked lb id t).0
  unfolding call
  settled id msg_id hash t h at_id = elim (Option-cases (mark_acked lb id t).1) [
    | inl e ↦
        let (d, was, pending, is, elsewhere) = mark_acked_reads lb id t h e in
        let same : d ≡ pending_entry lb now id msg_id hash = cc in
        (
          record d { state = state_acked },
          is,
          ap (λ x. x.msg_id) same,
          ap (λ x. x.payload_hash) same,
          inr refl,
        )
    | inr (f, e) ↦ (
      pending_entry lb now id msg_id hash,
      same_entry id t (mark_acked lb id t).0 (call_error lb (ack_call id) t id e) ∙ at_id,
      refl,
      refl,
      inl refl,
    )
  ]

  -- The service's ledger is there and holds such an entry.
  abbrev pub Tracked : Bytes → Bytes → Bytes → Option lb.Bucket → Type 0
  Tracked id msg_id hash store = (u : lb.Bucket) × (store ≡ some u) × Recorded id msg_id hash u

  -- What other goroutines do leaves the ledger well-formed and does not touch the key.
  abbrev pub Spares : Bytes → (World ledger b → World ledger b) → Type 0
  Spares id others =
      (t : lb.Bucket) (server : b.Server)
      → IsLedger lb t
      → (u : lb.Bucket) × ((others (with_ledger ledger b sum sum_hex t server)).store ≡ some u)
        × IsLedger lb u
        × (lb.get u id ≡ lb.get t id)

  module _ (others : World ledger b → World ledger b) (id : Bytes) (msg : Msg) (hash : Bytes)
      (t : lb.Bucket) (l : IsLedger lb t)
      (at_id : get_entry lb id t ≡ ok (pending_entry lb now id msg.msg_id hash)) where
    kept : Tracked id msg.msg_id hash (some t)
    kept = (t, refl, (pending_entry lb now id msg.msg_id hash, at_id, refl, refl, inl refl))

    fall_back-Tracked :
        (r : b.Server × Bool) → Tracked id msg.msg_id hash (fall_back ledger b id (some t) r).0
    fall_back-Tracked (server, true) =
        ((mark_acked lb id t).0, refl, settled id msg.msg_id hash t l at_id)
    fall_back-Tracked (server, false) = kept

    await-Tracked :
        (outcome : Outcome) (u : lb.Bucket)
        → IsLedger lb u
        → lb.get u id ≡ lb.get t id
        → Tracked id msg.msg_id hash (await ledger b outcome id (some u)).0
    await-Tracked acknowledged u m same = (
      (mark_acked lb id u).0,
      refl,
      settled id msg.msg_id hash u m (same_entry id t u same ∙ at_id),
    )
    await-Tracked refused u m same = (
      u,
      refl,
      (
        pending_entry lb now id msg.msg_id hash,
        same_entry id t u same ∙ at_id,
        refl,
        refl,
        inl refl,
      ),
    )
    await-Tracked cancelled u m same = (
      u,
      refl,
      (
        pending_entry lb now id msg.msg_id hash,
        same_entry id t u same ∙ at_id,
        refl,
        refl,
        inl refl,
      ),
    )

    send-Tracked :
        (outcome : Outcome) (r : b.Server × Bool)
        → Spares id others
        → Tracked id msg.msg_id hash (send ledger b others outcome id msg (some t) r).0
    send-Tracked outcome (server, true) spares =
        let (u, at_u, m, same) = spares t server l in rw at_u (await-Tracked outcome u m same)
    send-Tracked outcome (server, false) spares = fall_back-Tracked (b.publish server msg)

  -- Whatever the server does, a call of AsyncPublish on a well-formed ledger, at a time that fits an
  -- int64, whose `PutPending` succeeded ends with an entry for the message in the ledger, pending or
  -- acknowledged, that `Get` reads, with the message ID and the hash of the payload. Between its return and
  -- the acknowledgement other goroutines may do anything that keeps the ledger well-formed and leaves
  -- this message's key alone.
  pub async_publish_recorded :
      (others : World ledger b → World ledger b) (outcome : Outcome) (subject body msg_id : Bytes)
      (s : lb.Bucket) (server : b.Server)
      → now < 256 ^ 8
      → IsLedger lb s
      → let id = publish_id_of ledger b sum_hex body msg_id in
        (put_pending lb now id msg_id (sum body) s).1 ≡ none
        → Spares id others
        → Tracked id msg_id
            (sum body)
            (async_publish ledger b sum sum_hex others outcome subject body msg_id
              (with_ledger ledger b sum sum_hex s server)).0.store
  unfolding async_publish call
  async_publish_recorded others outcome subject body msg_id s server t h put spares =
      let id = publish_id_of ledger b sum_hex body msg_id in
      let u = (put_pending lb now id msg_id (sum body) s).0 in
      let (at_id, elsewhere, fresh) = put_pending_reads lb now id msg_id (sum body) s t put in
      let l : IsLedger lb u = call-IsLedger lb (put_call now id msg_id (sum body)) s t h in
      let msg : Msg = record { subject = subject; body = body; msg_id = msg_id } in
      rw put (
        send-Tracked others id msg (sum body) u l at_id outcome (b.publish_async server msg) spares)
