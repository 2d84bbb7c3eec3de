-- ===== src/Undertaker.antt =====
-- internal/undertaker/undertaker.go: patterns in the dead-letter queue, and the notices that answer
-- them. The entries come from `ReadAll` of internal/dlq/dlq.go; a log line is left out.
pub mod Patterns
pub mod Notices
pub mod Quarantine
mod Tests
use meshyants.Base.{
  ℕ, ◌+◌, ◌-◌, ◌*◌, Bytes, list_eq, nat_eq, ◌==◌, not, ◌&&◌, Map, lookup, insert, has, Result, ok,
  err, ltb, leb, Bool, true, false, is_empty, Option, none, some, List, [], ◌∷◌, ◌++◌,
  if◌then◌else◌,
}
use meshyants.Text.{codes}
use meshyants.Text.Decimal.{decimal}
use meshyants.Contracts.{Instant, TaskAtom, PheromoneRecord, kind_danger, QuarantineNotice}
use meshyants.Signing
use meshyants.Signing.{Ed25519, sign}
use meshyants.Signing.Messages.{signable_pheromone, signable_notice}
use meshyants.Fabric.{Broker, transport_publish, stable_msg_id}
use meshyants.Agent.{one_strength}

pub record Config : Type 0 where
  pub pattern_window : ℕ
  pub min_quarantine_count : ℕ
  pub default_quarantine_duration : ℕ

-- 5 minutes, 3 failures, 30 minutes.
unfoldable pub default_config : Config
default_config = record {
  pattern_window = 5 * 60 * 1000000000;
  min_quarantine_count = 3;
  default_quarantine_duration = 30 * 60 * 1000000000;
}

-- A time that could not be parsed is Go's zero time, the instant 0.
pub record DlqEntry : Type 0 where
  pub subject : Bytes
  pub reason : Bytes
  pub enqueued_at : Instant
  pub original_data : Bytes

pub record IssuerCount : Type 0 where
  pub issuer : Bytes
  pub count : ℕ
  pub reasons : List Bytes

abbrev pub or_new : Bytes → Option IssuerCount → IssuerCount
or_new issuer none = record { issuer = issuer; count = 0; reasons = [] }
or_new issuer (some pc) = pc

-- The entry of the pattern map that one more failure makes.
abbrev pub counted : Bytes → IssuerCount → IssuerCount
counted reason pc = record pc { count = pc.count + 1; reasons = pc.reasons ++ (reason ∷ []) }

-- The issuer of an entry that counts: it is in the window, is a task, and its issuer is not empty.
abbrev pub issuer_in : Option TaskAtom → Option Bytes
issuer_in none = none
issuer_in (some task) = if is_empty task.issuer then none else some task.issuer

unfoldable pub blamed : (Bytes → Option TaskAtom) → Instant → DlqEntry → Option Bytes
blamed unmarshal window e =
    if ltb e.enqueued_at window then none else issuer_in (unmarshal e.original_data)

abbrev pub record_failure : Option Bytes → Bytes → Map Bytes IssuerCount → Map Bytes IssuerCount
record_failure none reason m = m
record_failure (some key) reason m = insert key (counted reason (or_new key (lookup key m))) m

-- The loop over the entries.
unfoldable pub patterns :
    (Bytes → Option TaskAtom)
    → Instant
    → List DlqEntry
    → Map Bytes IssuerCount
    → Map Bytes IssuerCount
unfolding blamed
patterns unmarshal window [] m = m
patterns unmarshal window (e ∷ entries) m =
    patterns unmarshal window entries (record_failure (blamed unmarshal window e) e.reason m)

-- The loop of `uniq`.
unfoldable pub uniq_from : List Bytes → Map Bytes Bool → List Bytes → List Bytes
uniq_from [] seen out = out
uniq_from (s ∷ ss) seen out =
    uniq_from ss (if has s seen then seen else insert s true seen)
      (if has s seen then out else out ++ (s ∷ []))

unfoldable pub uniq : List Bytes → List Bytes
unfolding uniq_from
uniq ss = uniq_from ss [] []

-- strings.Join
unfoldable pub join : List Bytes → Bytes → Bytes
join [] sep = []
join (s ∷ []) sep = s
join (s ∷ (t ∷ ss)) sep = s ++ (sep ++ join (t ∷ ss) sep)

pub data Fault : Type 0 where
  read_dlq marshal_notice publish_notice publish_danger : Fault
  sign_notice sign_danger : Signing.Fault → Fault

pub record Undertaker : Type 0 where
  pub private_key : Bytes
  pub issuer : Bytes
  pub trust_domain : Bytes
  pub config : Config

-- protobuf, SHA-256 in hexadecimal digits, Ed25519 and NATS.
pub record Site : Type 1 where
  pub unmarshal_task : Bytes → Option TaskAtom
  pub marshal_notice : QuarantineNotice → Option Bytes
  pub marshal_pheromone : PheromoneRecord → Option Bytes
  pub sum_hex : Bytes → Bytes
  pub ed : Ed25519
  pub broker : Broker

-- The readings of the clock for one quarantine.
pub record Clock : Type 0 where
  pub notice_at : Instant
  pub danger_nano : ℕ
  pub danger_at : Instant

module _ (site : Site) (u : Undertaker) where
  open site use {broker, ed, sum_hex}

  abbrev Step : Type 0
  Step = broker.Server × Option Fault

  abbrev pub reported : Fault → broker.Server × Bool → Step
  reported f (server, true) = (server, none)
  reported f (server, false) = (server, some f)

  -- if err := ...; err != nil { return err }, and the rest.
  abbrev pub then_also : Step → (broker.Server → Step) → Step
  then_also (server, some f) rest = (server, some f)
  then_also (server, none) rest = rest server

  unfoldable pub danger_record : Bytes → List Bytes → Clock → PheromoneRecord
  danger_record subject causal_parents clock = record {
    schema_version = 1;
    record_id = codes "phero-danger-" ++ (decimal clock.danger_nano ++ (codes "-" ++ subject));
    kind = kind_danger;
    subject = subject;
    strength = one_strength;
    decay_policy = none;
    issuer = u.issuer;
    trust_domain = u.trust_domain;
    causal_parents = causal_parents;
    issued_at = some clock.danger_at;
    signature = [];
  }

  -- `pheroPayload, _ := proto.Marshal(phero)`: nil where it fails.
  abbrev pub payload_or_nil : Option Bytes → Bytes
  payload_or_nil none = []
  payload_or_nil (some b) = b

  abbrev pub publish_danger_signed : broker.Server → Result Signing.Fault PheromoneRecord → Step
  publish_danger_signed server (err f) = (server, some (sign_danger f))
  publish_danger_signed server (ok phero) = reported publish_danger (
      transport_publish broker server (codes "mesh.phero." ++ u.trust_domain)
        (payload_or_nil (site.marshal_pheromone phero)) (stable_msg_id sum_hex phero.record_id))

  abbrev pub publish_notice_marshalled : Bytes → broker.Server → Option Bytes → Step
  publish_notice_marshalled subject_device server none = (server, some marshal_notice)
  publish_notice_marshalled subject_device server (some payload) = reported publish_notice (
      transport_publish broker server (codes "mesh.quarantine." ++ u.trust_domain) payload
        (stable_msg_id sum_hex (codes "quarantine-" ++ subject_device)))

  abbrev pub publish_notice_signed :
      Bytes → broker.Server → Result Signing.Fault QuarantineNotice → Step
  publish_notice_signed subject_device server (err f) = (server, some (sign_notice f))
  publish_notice_signed subject_device server (ok notice) =
      publish_notice_marshalled subject_device server (site.marshal_notice notice)

  -- EmitDANGER; the `detail` of the call is not used.
  unfoldable pub emit_danger : Bytes → Bytes → Clock → broker.Server → Step
  unfolding danger_record
  emit_danger subject detail clock server = publish_danger_signed server (
      sign (signable_pheromone site.marshal_pheromone) ed
        (danger_record subject (subject ∷ []) clock) u.private_key)

  unfoldable pub issue_quarantine : Bytes → Bytes → Bytes → ℕ → Clock → broker.Server → Step
  unfolding danger_record
  issue_quarantine subject_device reason scope dur clock server =
      let notice : QuarantineNotice = record {
        schema_version = 1;
        subject_device = subject_device;
        trust_domain = u.trust_domain;
        reason = reason;
        scope = scope;
        duration = dur;
        issuer = u.issuer;
        issued_at = some clock.notice_at;
        signature = [];
      } in
      then_also
        (publish_notice_signed subject_device server
          (sign (signable_notice site.marshal_notice) ed notice u.private_key))
        λ later. publish_danger_signed later (
          sign (signable_pheromone site.marshal_pheromone) ed
            (danger_record subject_device [] clock) u.private_key)

  abbrev pub quarantine_for : Clock → IssuerCount → broker.Server → broker.Server
  quarantine_for clock pc server =
      (issue_quarantine pc.issuer (join (uniq pc.reasons) (codes "; ")) (codes "issuer")
        u.config.default_quarantine_duration clock server).0

  -- The loop over the pattern map, in the order of the list; an error of one issuer does not stop it. The clock of a quarantine
  -- depends on the issuer.
  unfoldable pub issue_all : (Bytes → Clock) → Map Bytes IssuerCount → broker.Server → broker.Server
  unfolding issue_quarantine
  issue_all clock [] server = server
  issue_all clock ((key, pc) ∷ m) server = issue_all clock m (
      if leb u.config.min_quarantine_count pc.count
      then quarantine_for (clock pc.issuer) pc server
      else server)

  -- analyzeDLQ at time `now`; `range` is the order in which the loop ranges over the map, and `read` is what
  -- ReadAll returned.
  unfoldable pub analyze_dlq :
      Instant
      → (Bytes → Clock)
      → (Map Bytes IssuerCount → Map Bytes IssuerCount)
      → Option (List DlqEntry)
      → broker.Server
      → Step
  unfolding issue_all patterns
  analyze_dlq now clock range none server = (server, some read_dlq)
  analyze_dlq now clock range (some entries) server = if is_empty entries then (server, none) else (
    issue_all clock
        (range (patterns site.unmarshal_task (now - u.config.pattern_window) entries [])) server,
    none,
  )
