-- ===== src/Dlq.antt =====
-- internal/dlq/dlq.go: records that failed, kept in a JetStream stream of their own. The server is a
-- parameter.
pub mod Kept
pub mod Watched
mod Tests
use meshyants.Base.{
  ℕ, Bytes, list_eq, nat_eq, Map, lookup, insert, Bool, true, false, Option, none, some, List, [],
  ◌∷◌, ◌++◌, map,
}
use meshyants.Text.{codes}
use meshyants.Contracts.{Instant}
use meshyants.Undertaker.{DlqEntry}

pub record Msg : Type 0 where
  pub subject : Bytes
  pub body : Bytes
  pub header : Map Bytes Bytes

-- How a pull of messages ends.
pub data Fetched : Type 0 where
  batch : List Msg → Fetched
  timed_out failed : Fetched

-- `add_stream` and `publish_msg` tell whether they returned no error; `subscribe` is PullSubscribe with the
-- durable dlq-reader. The two functions of the package time are for RFC 3339.
pub record Site : Type 1 where
  pub Server : Type 0
  pub add_stream : Server → Bytes → Bytes → Server × Bool
  pub publish_msg : Server → Msg → Server × Bool
  pub subscribe : Server → Server × Bool
  pub fetch : Server → ℕ → Server × Fetched
  pub format_rfc3339 : Instant → Bytes
  pub parse_rfc3339 : Bytes → Option Instant

pub record Dlq : Type 0 where
  pub stream : Bytes
  pub subject : Bytes

pub data Fault : Type 0 where
  add_stream_failed publish_failed pull_subscribe_failed fetch_timed_out fetch_failed : Fault

-- Header.Get: "" where the key is missing.
abbrev pub or_empty : Option Bytes → Bytes
or_empty none = []
or_empty (some v) = v

abbrev pub header_get : Bytes → Map Bytes Bytes → Bytes
header_get key h = or_empty (lookup key h)

abbrev pub reason_key : Bytes
reason_key = codes "X-DLQ-Reason"

abbrev pub time_key : Bytes
time_key = codes "X-DLQ-Time"

abbrev pub original_subject_key : Bytes
original_subject_key = codes "X-DLQ-Original-Subject"

abbrev pub fetch_limit : ℕ
fetch_limit = 100

-- A time that does not parse stays Go's zero time.
abbrev pub or_zero : Option Instant → Instant
or_zero none = 0
or_zero (some t) = t

module _ (site : Site) where
  open site use {Server}

  abbrev pub reported : Fault → Server × Bool → Server × Option Fault
  reported f (server, true) = (server, none)
  reported f (server, false) = (server, some f)

  -- NewDLQ returns the error of AddStream, and the DLQ in either case.
  unfoldable pub new_dlq : Server → Server × (Dlq × Option Fault)
  new_dlq server =
      let dlq : Dlq = record { stream = codes "MESHYANTS_DLQ"; subject = codes "mesh.dlq.>" } in
      let (later, fault) =
        reported add_stream_failed (site.add_stream server dlq.stream dlq.subject) in
      (later, (dlq, fault))

  -- The message of Enqueue.
  unfoldable pub enqueue_msg : Instant → Bytes → Bytes → Bytes → Msg
  enqueue_msg now subject body reason = record {
    subject = codes "mesh.dlq." ++ subject;
    body = body;
    header =
        insert original_subject_key subject
          (insert time_key (site.format_rfc3339 now) (insert reason_key reason []));
  }

  unfoldable pub enqueue : Instant → Bytes → Bytes → Bytes → Server → Server × Option Fault
  unfolding enqueue_msg
  enqueue now subject body reason server =
      reported publish_failed (site.publish_msg server (enqueue_msg now subject body reason))

  -- The body of the loop of ReadAll.
  unfoldable pub entry_of : Msg → DlqEntry
  entry_of msg = record {
    subject = header_get original_subject_key msg.header;
    reason = header_get reason_key msg.header;
    enqueued_at = or_zero (site.parse_rfc3339 (header_get time_key msg.header));
    original_data = msg.body;
  }

  abbrev pub entries_of : Server × Fetched → Server × (Option (List DlqEntry) × Option Fault)
  entries_of (server, batch msgs) = (server, (some (map entry_of msgs), none))
  entries_of (server, timed_out) = (server, (none, some fetch_timed_out))
  entries_of (server, failed) = (server, (none, some fetch_failed))

  abbrev pub fetch_entries : Server × Bool → Server × (Option (List DlqEntry) × Option Fault)
  fetch_entries (server, true) = entries_of (site.fetch server fetch_limit)
  fetch_entries (server, false) = (server, (none, some pull_subscribe_failed))

  -- ReadAll, without the deferred Unsubscribe.
  unfoldable pub read_all : Server → Server × (Option (List DlqEntry) × Option Fault)
  unfolding entry_of
  read_all server = fetch_entries (site.subscribe server)
