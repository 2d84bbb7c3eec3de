-- ===== src/Adapters/Factory.antt =====
-- Which adapter a service speaks through: oracleAdapterFromEnv of cmd/meshyants/main.go, MockAdapter
-- of internal/oracle/service.go, and the methods of the interface Adapter on each.
use meshyants.Base.{
  ◌*◌, Bytes, Result, ok, err, not, is_empty, Option, none, some, List, [], ◌++◌, length,
  if◌then◌else◌,
}
use meshyants.Text.{codes}
use meshyants.Text.Decimal.{decimal}
use meshyants.Contracts.{PheromoneRecord}
use meshyants.Policy.{TaskIntentHeader}
use meshyants.Adapters.{Fault, Site, or_else}
use meshyants.Adapters.Minimax
use meshyants.Adapters.Minimax.{MinimaxAdapter, new_minimax_adapter}
use meshyants.Adapters.Openai
use meshyants.Adapters.Openai.{OpenaiAdapter, new_openai_adapter}

-- MockAdapter; its error is one of the test's making.
pub record MockAdapter : Type 0 where
  pub header : Option TaskIntentHeader
  pub failure : Option Fault

pub data Adapter : Type 0 where
  minimax : MinimaxAdapter → Adapter
  openai : OpenaiAdapter → Adapter
  mock : MockAdapter → Adapter

abbrev pub given_header : TaskIntentHeader → Option TaskIntentHeader → TaskIntentHeader
given_header fallback none = fallback
given_header fallback (some h) = h

-- The header that the mock makes of a goal, with `deadline` the text of the time a day from now.
unfoldable pub mock_header : Bytes → Bytes → TaskIntentHeader
mock_header deadline goal = record {
  scope = goal;
  prohibited_actions = some [];
  deadline_rfc3339 = deadline;
  transport_class = codes "fast-local";
  required_approvals = [];
  canonical_goal = goal;
}

-- The method Canonicalize of MockAdapter.
unfoldable pub mock_canonicalize : Bytes → MockAdapter → Bytes → Result Fault TaskIntentHeader
unfolding mock_header
mock_canonicalize deadline m goal = elim m.failure [
  | some f ↦ err f
  | none ↦ ok (given_header (mock_header deadline goal) m.header)
]

-- The method Summarize of MockAdapter.
unfoldable pub mock_summarize : List PheromoneRecord → Bytes
mock_summarize records = codes "swarm has " ++ (decimal (length records) ++ codes " records")

abbrev pub canonicalize_by : Site → Bytes → Adapter → Bytes → Result Fault TaskIntentHeader
canonicalize_by site deadline (minimax a) goal = Minimax.canonicalize site a goal
canonicalize_by site deadline (openai a) goal = Openai.canonicalize site a goal
canonicalize_by site deadline (mock m) goal = mock_canonicalize deadline m goal

-- envOr
unfoldable pub env_or : (Bytes → Bytes) → Bytes → Bytes → Bytes
env_or getenv key fallback = or_else (getenv key) fallback

-- oracleAdapterFromEnv; the name of the backend is the constructor's.
unfoldable pub oracle_adapter_from_env : Site → Adapter
unfolding env_or
oracle_adapter_from_env site =
    let minimax_key = site.getenv (codes "MINIMAX_API_KEY") in
    let openai_key = site.getenv (codes "OPENAI_API_KEY") in
    if not (is_empty minimax_key)
    then minimax (
        new_minimax_adapter site (record {
          model = env_or site.getenv (codes "MINIMAX_MODEL") (codes "MiniMax-M2.7");
          request_timeout = 60 * 1000000000;
          max_tokens = 1024;
          api_key = minimax_key;
        }))
    else if not (is_empty openai_key)
    then openai (
        new_openai_adapter site (record {
          model = env_or site.getenv (codes "OPENAI_MODEL") (codes "gpt-4o");
          request_timeout = 30 * 1000000000;
          max_tokens = 512;
          api_key = openai_key;
        }))
    else mock (record { header = none; failure = none })
