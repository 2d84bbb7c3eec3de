-- ===== src/Dlq/Kept.antt =====
-- What internal/dlq/dlq.go puts into the queue is what it reads out of it.
use meshyants.Base.{
  ℕ, ◌≡◌, refl, sym, ap, ◌∙◌, Bytes, list_eq, nat_eq, list_beq, lookup, insert, ◌&&◌, if◌then◌else◌,
  zero, suc, Bool, true, false, Option, none, some, List, [], ◌∷◌, ◌++◌, map, take, is_empty, arith,
}
use mathlib.Core.List.{append_assoc, append-nil}
use meshyants.Contracts.{Instant}
use meshyants.Undertaker.{DlqEntry}
use meshyants.Dlq.{
  Msg, Fetched, batch, timed_out, failed, Site, enqueue_msg, enqueue, entry_of, read_all, reported,
  entries_of, fetch_entries, publish_failed,
}

-- A record that failed: when, where, what, and why.
pub record Failure : Type 0 where
  pub now : Instant
  pub subject : Bytes
  pub body : Bytes
  pub reason : Bytes

-- What NATS documents of a stream with one consumer that has not read it: a message published
-- without an error is the last one; a pull gets the first messages, and times out where there are none.
pub record IsStream (site : Site) : Type 0 where
  pub stored : site.Server → List Msg
  pub published :
      (s t : site.Server) (m : Msg)
      → site.publish_msg s m ≡ (t, true)
      → stored t ≡ stored s ++ (m ∷ [])
  pub subscribed : (s t : site.Server) → site.subscribe s ≡ (t, true) → stored t ≡ stored s
  pub pulled :
      (s : site.Server) (n : ℕ)
      → (site.fetch s n).1 ≡ (if is_empty (stored s) then timed_out else batch (take n (stored s)))

module _ (site : Site) where
  -- The entry for a failure, with its time as the format keeps it.
  unfoldable pub entry_for : (Instant → Instant) → Failure → DlqEntry
  entry_for second f = record {
    subject = f.subject;
    reason = f.reason;
    enqueued_at = second f.now;
    original_data = f.body;
  }

  abbrev pub msg_for : Failure → Msg
  msg_for f = enqueue_msg site f.now f.subject f.body f.reason

  entry_of-msg_for :
      (second : Instant → Instant) (f : Failure)
      → ((t : Instant) → site.parse_rfc3339 (site.format_rfc3339 t) ≡ some (second t))
      → entry_of site (msg_for f) ≡ entry_for second f
  unfolding enqueue_msg entry_of entry_for lookup insert list_beq
  entry_of-msg_for second f parses = rw (parses f.now) refl

  abbrev pub is_nil_fault : {F : Type 0} → Option F → Bool
  is_nil_fault none = true
  is_nil_fault (some f) = false

  -- Failures enqueued one after another, and whether every call returned no error.
  abbrev pub enqueue_all : List Failure → site.Server → site.Server × Bool
  enqueue_all [] s = (s, true)
  enqueue_all (f ∷ fs) s =
      let (t, fault) = enqueue site f.now f.subject f.body f.reason s in
      let (u, rest) = enqueue_all fs t in (u, is_nil_fault fault && rest)

  reported-stored :
      (law : IsStream site) (m : Msg) (s : site.Server) (r : site.Server × Bool)
      → site.publish_msg s m ≡ r
      → is_nil_fault (reported site publish_failed r).1 ≡ true
      → law.stored (reported site publish_failed r).0 ≡ law.stored s ++ (m ∷ [])
  reported-stored law m s (t, true) e h = law.published s t m e
  reported-stored law m s (t, false) e h = absurd cc

  enqueue_all-stored :
      (law : IsStream site) (fs : List Failure) (s : site.Server)
      → (enqueue_all fs s).1 ≡ true
      → law.stored (enqueue_all fs s).0 ≡ law.stored s ++ map msg_for fs
  unfolding enqueue
  enqueue_all-stored law [] s h = sym (append-nil (law.stored s))
  enqueue_all-stored law (f ∷ fs) s h =
      let (t, fault) = enqueue site f.now f.subject f.body f.reason s in
      let first : is_nil_fault fault ≡ true = ground arith in
      let rest : (enqueue_all fs t).1 ≡ true = ground arith in
      enqueue_all-stored law fs t rest
      ∙ ap (λ m. m ++ map msg_for fs)
          (reported-stored law (msg_for f) s (site.publish_msg s (msg_for f)) refl first)
      ∙ append_assoc (law.stored s) (msg_for f ∷ []) (map msg_for fs)

  entries_for :
      (second : Instant → Instant) (n : ℕ) (fs : List Failure)
      → ((t : Instant) → site.parse_rfc3339 (site.format_rfc3339 t) ≡ some (second t))
      → map (entry_of site) (take n (map msg_for fs)) ≡ take n (map (entry_for second) fs)
  entries_for second zero fs parses = refl
  entries_for second (suc n) [] parses = refl
  entries_for second (suc n) (f ∷ fs) parses =
      cc (entry_of-msg_for second f parses, entries_for second n fs parses)

  entries_of-batch :
      (p : site.Server × Fetched) (msgs : List Msg)
      → p.1 ≡ batch msgs
      → (entries_of site p).1 ≡ (some (map (entry_of site) msgs), none)
  entries_of-batch (server, batch ms) msgs e = cc
  entries_of-batch (server, timed_out) msgs e = absurd cc
  entries_of-batch (server, failed) msgs e = absurd cc

  -- On a stream that was empty, failures that were all enqueued without an error come out of ReadAll in the
  -- order in which they went in, the first hundred of them, with their subjects, reasons and records, and with
  -- their times as RFC 3339 keeps them, if there is one at least and the subscription is made.
  pub read_all-enqueue_all :
      (law : IsStream site) (second : Instant → Instant) (f : Failure) (fs : List Failure)
      (s t : site.Server)
      → ((i : Instant) → site.parse_rfc3339 (site.format_rfc3339 i) ≡ some (second i))
      → law.stored s ≡ []
      → (enqueue_all (f ∷ fs) s).1 ≡ true
      → site.subscribe (enqueue_all (f ∷ fs) s).0 ≡ (t, true)
      → (read_all site (enqueue_all (f ∷ fs) s).0).1
        ≡ (some (take 100 (map (entry_for second) (f ∷ fs))), none)
  unfolding read_all
  read_all-enqueue_all law second f fs s t parses fresh sent bound =
      let u = (enqueue_all (f ∷ fs) s).0 in
      let held : law.stored t ≡ map msg_for (f ∷ fs) =
        law.subscribed u t bound
        ∙ enqueue_all-stored law (f ∷ fs) s sent
        ∙ ap (λ m. m ++ map msg_for (f ∷ fs)) fresh in
      let pulled : (site.fetch t 100).1 ≡ batch (take 100 (map msg_for (f ∷ fs))) =
        law.pulled t 100 ∙ ap (λ m. if is_empty m then timed_out else batch (take 100 m)) held in
      ap (λ r. (fetch_entries site r).1) bound
      ∙ entries_of-batch (site.fetch t 100) (take 100 (map msg_for (f ∷ fs))) pulled
      ∙ ap (λ es. (some es, none)) (entries_for second 100 (f ∷ fs) parses)
