-- ===== src/Fabric/Connect.antt =====
-- internal/fabric/jetstream.go: ConnectJetStream. What each call of NATS returns, and what the clock and
-- the context say by then, are the fields of `Attempt` and `Server`.
pub mod Attempts
mod Tests
use meshyants.Base.{
  ℕ, zero, suc, ◌+◌, Bytes, String, Result, ok, err, not, ◌&&◌, Bool, true, false, Option, none,
  some, List, [], ◌∷◌, if◌then◌else◌,
}
use meshyants.Text.{codes}

pub record JetStreamConfig : Type 0 where
  pub stream_name : Bytes
  pub stream_subjects : List Bytes

unfoldable pub default_jet_stream_config : JetStreamConfig
default_jet_stream_config = record {
  stream_name = codes "MESHYANTS";
  stream_subjects = codes "mesh.>" ∷ [];
}

-- One round of the loop: nats.Connect returned no error; the deadline is past; the context was done before the
-- quarter of a second.
pub record Attempt : Type 0 where
  pub connects : Bool
  pub past_deadline : Bool
  pub cancelled : Bool

-- How the loop ends: in the round of that number, with the last error of Connect, or with that of the
-- context.
pub data Dialled : Type 0 where
  dialled : ℕ → Dialled
  dial_failed dial_cancelled : Dialled

-- The loop, with the rounds left and the number of the round.
unfoldable pub dial : ℕ → ℕ → (ℕ → Attempt) → Dialled
dial zero k env = dial_failed
dial (suc n) k env = elim (env k).connects [
  | true ↦ dialled k
  | false ↦ elim (env k).past_deadline [
    | true ↦ dial_failed
    | false ↦ elim (env k).cancelled [ true ↦ dial_cancelled | false ↦ dial n (k + 1) env ]
  ]
]

-- `jet_stream`, `stream_info` and `add_stream` tell whether nc.JetStream, js.StreamInfo and js.AddStream returned
-- no error.
pub record Server : Type 0 where
  pub jet_stream : Bool
  pub stream_info : Bytes → Bool
  pub add_stream : JetStreamConfig → Bool

pub data ConnectFault : Type 0 where
  connect_failed context_done jet_stream_failed stream_failed : ConnectFault

-- The connections opened and drained, and what is returned.
pub record Connection : Type 0 where
  pub opened : ℕ
  pub drained : ℕ
  pub outcome : Result ConnectFault JetStreamConfig

abbrev pub kept : JetStreamConfig → Connection
kept cfg = record { opened = 1; drained = 0; outcome = ok cfg }

abbrev pub dropped : ConnectFault → Connection
dropped f = record { opened = 1; drained = 1; outcome = err f }

abbrev pub never : ConnectFault → Connection
never f = record { opened = 0; drained = 0; outcome = err f }

-- What follows the loop.
unfoldable pub ensure_stream : Server → JetStreamConfig → Dialled → Connection
ensure_stream server cfg dial_failed = never connect_failed
ensure_stream server cfg dial_cancelled = never context_done
ensure_stream server cfg (dialled k) =
    if not server.jet_stream
    then dropped jet_stream_failed
    else if not (server.stream_info cfg.stream_name) && not (server.add_stream cfg)
    then dropped stream_failed
    else kept cfg

unfoldable pub connect_jet_stream : (ℕ → Attempt) → Server → JetStreamConfig → Connection
unfolding dial ensure_stream
connect_jet_stream env server cfg = ensure_stream server cfg (dial 40 0 env)
