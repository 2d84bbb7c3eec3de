-- ===== src/Dlq/Tests.antt =====
-- A dead-letter queue of internal/dlq/dlq.go on a stream in memory.
use meshyants.Base.{
  arith, ℕ, ◌≡◌, refl, Bytes, list_eq, nat_eq, is_empty, true, none, some, List, [], ◌∷◌, ◌++◌, map,
  take, Option, if◌then◌else◌, Map, IsMap, lookup, leb, length, ◌-◌, list_beq,
}
use meshyants.Contracts.{TaskAtom}
use meshyants.Fabric
use meshyants.Fabric.{Broker}
use meshyants.Undertaker
use meshyants.Undertaker.{DlqEntry, IssuerCount, Undertaker, Clock, analyze_dlq, blamed}
use meshyants.Undertaker.Patterns.{reasons_of, tally}
use meshyants.Undertaker.Notices.{AllQuarantined}
use meshyants.Signing.{IsPair}
use meshyants.Dlq.Watched.{analyze_dlq-enqueue_all}
use meshyants.Dlq.{Msg, batch, timed_out, Site, read_all, enqueue}
use meshyants.Dlq.Kept.{Failure, IsStream, entry_for, enqueue_all, read_all-enqueue_all}

-- A time is written as the list of one number.
abbrev first : Bytes → Option ℕ
first [] = none
first (t ∷ ts) = some t

abbrev site : Site
site = record {
  Server = List Msg;
  add_stream = λ s name subject. (s, true);
  publish_msg = λ s m. (s ++ (m ∷ []), true);
  subscribe = λ s. (s, true);
  fetch = λ s n. (s, if is_empty s then timed_out else batch (take n s));
  format_rfc3339 = λ t. t ∷ [];
  parse_rfc3339 = first;
}

site-IsStream : IsStream site
site-IsStream = record {
  stored = λ s. s;
  published = λ s t m e. cc;
  subscribed = λ s t e. cc;
  pulled = λ s n. refl;
}

abbrev early : Failure
early = record { now = 5; subject = 1 ∷ []; body = 2 ∷ []; reason = 3 ∷ [] }

abbrev late : Failure
late = record { now = 6; subject = 1 ∷ []; body = 4 ∷ []; reason = 3 ∷ [] }

read_all-enqueue_all_example :
    (read_all site (enqueue_all site (early ∷ late ∷ []) []).0).1
    ≡ (some (take 100 (map (entry_for site (λ t. t)) (early ∷ late ∷ []))), none)
unfolding enqueue site-IsStream
read_all-enqueue_all_example =
    read_all-enqueue_all site site-IsStream (λ t. t) early (late ∷ []) [] _ (λ i. refl) refl refl
      refl

-- The body of a failed task is the issuer of the task.
abbrev task_of : Bytes → Option TaskAtom
task_of issuer = some (record {
  schema_version = 1;
  task_id = [];
  idempotency_key = [];
  issuer = issuer;
  trust_domain = [];
  causal_parents = [];
  requirements_json = [];
  payload = [];
  expires_at = none;
  content_ref = [];
  signature = [];
})

abbrev mesh : Broker
mesh = record {
  Server = List Fabric.Msg;
  publish = λ s m. (m ∷ s, true);
  publish_async = λ s m. (m ∷ s, true);
}

abbrev watch : Undertaker.Site
watch = record {
  unmarshal_task = task_of;
  marshal_notice = λ m. some [];
  marshal_pheromone = λ p. some [];
  sum_hex = λ s. s;
  ed = record { sign = λ key p. 1 ∷ p; verify = λ key p s. true };
  broker = mesh;
}

abbrev undertaker : Undertaker
undertaker = record {
  private_key = [];
  issuer = [];
  trust_domain = [];
  config = record {
    pattern_window = 5;
    min_quarantine_count = 2;
    default_quarantine_duration = 60;
  };
}

abbrev clock : Bytes → Clock
clock issuer = record { notice_at = 10; danger_nano = 11; danger_at = 12 }

-- A second failure of the issuer of `early`.
abbrev again : Failure
again = record { now = 7; subject = 1 ∷ []; body = 2 ∷ []; reason = 9 ∷ [] }

abbrev entries : List DlqEntry
entries = take 100 (map (entry_for site (λ t. t)) (early ∷ again ∷ []))

two_reasons : reasons_of task_of (10 - 5) (2 ∷ []) entries ≡ (3 ∷ []) ∷ (9 ∷ []) ∷ []
unfolding reasons_of blamed list_beq entry_for
two_reasons = refl

watch-IsPair : IsPair watch.ed [] []
watch-IsPair payload = ((λ e. ground (arith, e)), refl)

-- The map in its own order.
abbrev as_listed : Map Bytes IssuerCount → Map Bytes IssuerCount
as_listed m = m

analyze_dlq-enqueue_all_example :
    let read = (read_all site (enqueue_all site (early ∷ again ∷ []) []).0).1.0 in
    let result = analyze_dlq watch undertaker 10 clock as_listed read [] in
    (pcs : Map Bytes IssuerCount) × IsMap pcs
    × (result.1 ≡ none)
    × AllQuarantined watch undertaker [] pcs [] result.0
    × ((j : Bytes)
        → lookup j pcs ≡ (
            if leb 2 (length (reasons_of task_of (10 - 5) j entries))
            then tally task_of (10 - 5) j (reasons_of task_of (10 - 5) j entries)
            else none))
unfolding enqueue site-IsStream
analyze_dlq-enqueue_all_example =
    analyze_dlq-enqueue_all site watch undertaker [] site-IsStream (λ t. t) early (again ∷ []) [] _
      10 clock as_listed [] (λ i. refl) refl refl refl watch-IsPair (λ m. (_, refl))
      (λ m. (_, refl)) (λ m once. (once, λ j. refl))
