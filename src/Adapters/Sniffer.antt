-- ===== src/Adapters/Sniffer.antt =====
-- internal/oracle/sniffer.go: the periodic summary of the swarm. What is logged is the result.
use meshyants.Base.{
  ℕ, ◌*◌, ◌+◌, Bytes, Result, ok, err, eqb, is_empty, Option, none, some, List, [], ◌∷◌,
  if◌then◌else◌,
}
use meshyants.Text.{codes}
use meshyants.Contracts.{PheromoneRecord}
use meshyants.Adapters.{Fault}

-- What one sniff logs.
pub data Logged : Type 0 where
  nothing fetch_failed : Logged
  summarize_failed : Fault → Logged
  summary : Bytes → Logged

-- 60 seconds where the field is 0.
unfoldable pub interval_of : ℕ → ℕ
interval_of interval = if eqb interval 0 then 60 * 1000000000 else interval

abbrev pub logged : Result Fault Bytes → Logged
logged (err f) = summarize_failed f
logged (ok text) = summary text

abbrev pub sniff_records :
    (List PheromoneRecord → Result Fault Bytes) → Option (List PheromoneRecord) → Logged
sniff_records summarize none = fetch_failed
sniff_records summarize (some records) =
    if is_empty records then nothing else logged (summarize records)

-- `recent` is Store.Recent by trust domain and limit, and none for a sniffer without a store;
-- `summarize` is the adapter's Summarize.
unfoldable pub sniff :
    (List PheromoneRecord → Result Fault Bytes)
    → Option (Bytes → ℕ → Option (List PheromoneRecord))
    → Logged
sniff summarize none = nothing
sniff summarize (some recent) = sniff_records summarize (recent (codes "default") 50)

pub data Event : Type 0 where
  tick done : Event

-- The loop over what the channels deliver, each tick with the sniff that it makes.
abbrev pub on_events : (ℕ → Logged) → ℕ → List Event → List Logged
on_events sniff_at k [] = []
on_events sniff_at k (done ∷ events) = []
on_events sniff_at k (tick ∷ events) = sniff_at k ∷ on_events sniff_at (k + 1) events

-- The method Run: one sniff at once, and one for each tick until the context is done.
unfoldable pub run_sniffer : (ℕ → Logged) → List Event → List Logged
run_sniffer sniff_at events = sniff_at 0 ∷ on_events sniff_at 1 events
