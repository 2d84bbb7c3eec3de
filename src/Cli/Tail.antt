-- ===== src/Cli/Tail.antt =====
-- cmd/meshyants/pheromones.go: the tail of pheromones. The lines printed are the result; the wire format, JSON
-- and the time format are the fields of `Formats`.
use meshyants.Base.{Bytes, Result, ok, ◌>>◌, refuse_if, not, Bool, Option, none, some, List, ◌++◌}
use meshyants.Text.{codes}
use meshyants.Contracts.{Instant, PheromoneKind, PheromoneRecord}
use meshyants.Adapters.Factory.{env_or}
use meshyants.Cli.{given}

-- The keys of the map that is printed; "issued_at" is there only for a record with a time.
pub record Line : Type 0 where
  pub record_id : Bytes
  pub kind : Bytes
  pub subject : Bytes
  pub issuer : Bytes
  pub trust_domain : Bytes
  pub causal_parents : List Bytes
  pub issued_at : Option Bytes

pub record Formats : Type 0 where
  pub unmarshal_pheromone : Bytes → Option PheromoneRecord
  pub kind_name : PheromoneKind → Bytes
  pub rfc3339_nano : Instant → Bytes
  pub marshal_line : Line → Option Bytes

-- What a message makes the command print: a complaint on the error output, nothing, or a line.
pub data Output : Type 0 where
  skipped unprintable : Output
  printed : Bytes → Output

module _ (formats : Formats) where
  abbrev pub issued : Option Instant → Option Bytes
  issued none = none
  issued (some t) = some (formats.rfc3339_nano t)

  unfoldable pub line_of : PheromoneRecord → Line
  line_of rec = record {
    record_id = rec.record_id;
    kind = formats.kind_name rec.kind;
    subject = rec.subject;
    issuer = rec.issuer;
    trust_domain = rec.trust_domain;
    causal_parents = rec.causal_parents;
    issued_at = issued rec.issued_at;
  }

  abbrev pub output_of : Option Bytes → Output
  output_of none = unprintable
  output_of (some text) = printed text

  abbrev pub shown : Option PheromoneRecord → Output
  shown none = skipped
  shown (some rec) = output_of (formats.marshal_line (line_of rec))

  -- The function that is called for each message.
  unfoldable pub on_message : Bytes → Output
  unfolding line_of
  on_message content = shown (formats.unmarshal_pheromone content)

pub data TailExit : Type 0 where
  not_connected not_subscribed : TailExit

-- pheromonesCmd up to the subscription: its subject. `connects` and `subscribes` tell whether NATS returned no
-- error.
unfoldable pub pheromones_cmd :
    (Bytes → Bytes) → (Bytes → Bool) → (Bytes → Bool) → Option Bytes → Result TailExit Bytes
unfolding env_or
pheromones_cmd getenv connects subscribes trust_domain = do
  let td = given trust_domain (env_or getenv (codes "MESHYANTS_TRUST_DOMAIN") (codes "default"))
  let url = env_or getenv (codes "NATS_URL") (codes "nats://localhost:4222")
  refuse_if (not (connects url)) not_connected
  let subj = codes "mesh.phero." ++ td
  refuse_if (not (subscribes subj)) not_subscribed
  ok subj
