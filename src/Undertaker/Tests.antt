-- ===== src/Undertaker/Tests.antt =====
-- A dead-letter queue for internal/undertaker/undertaker.go.
use meshyants.Base.{
  arith, Map, true, ◌-◌, leb, length, IsMap, if◌then◌else◌, ℕ, ◌≡◌, refl, Bytes, lookup, list_eq,
  nat_eq, list_beq, Option, none, some, List, [], ◌∷◌,
}
use meshyants.Contracts.{TaskAtom}
use meshyants.Fabric.{Broker, Msg}
use meshyants.Undertaker.Quarantine.{analyze_dlq_exact}
use meshyants.Undertaker.Notices.{AllQuarantined}
use meshyants.Signing.{IsPair}
use meshyants.Undertaker.{IssuerCount, Site, Undertaker, Clock, analyze_dlq, DlqEntry, blamed}
use meshyants.Undertaker.Patterns.{reasons_of, tally}

-- The data of an entry is the issuer of its task.
abbrev task_of : Bytes → Option TaskAtom
task_of issuer = some (record {
  schema_version = 1;
  task_id = [];
  idempotency_key = [];
  issuer = issuer;
  trust_domain = [];
  causal_parents = [];
  requirements_json = [];
  payload = [];
  expires_at = none;
  content_ref = [];
  signature = [];
})

abbrev entry : ℕ → Bytes → Bytes → DlqEntry
entry at issuer reason = record {
  subject = [];
  reason = reason;
  enqueued_at = at;
  original_data = issuer;
}

abbrev bad : Bytes
bad = b'x' ∷ []

abbrev queue : List DlqEntry
queue =
    entry 1 bad (b'o' ∷ []) ∷ entry 7 bad (b'p' ∷ []) ∷ entry 8 bad (b'q' ∷ []) ∷ entry 9 [] [] ∷ []

two_in_window : reasons_of task_of 5 bad queue ≡ (b'p' ∷ []) ∷ (b'q' ∷ []) ∷ []
unfolding reasons_of blamed list_beq
two_in_window = refl

abbrev silent : Broker
silent = record {
  Server = List Msg;
  publish = λ s m. (m ∷ s, true);
  publish_async = λ s m. (m ∷ s, true);
}

abbrev site : Site
site = record {
  unmarshal_task = task_of;
  marshal_notice = λ m. some [];
  marshal_pheromone = λ p. some [];
  sum_hex = λ s. s;
  ed = record { sign = λ key p. 1 ∷ p; verify = λ key p s. true };
  broker = silent;
}

abbrev undertaker : Undertaker
undertaker = record {
  private_key = [];
  issuer = [];
  trust_domain = [];
  config = record {
    pattern_window = 5;
    min_quarantine_count = 2;
    default_quarantine_duration = 60;
  };
}

abbrev clock : Bytes → Clock
clock issuer = record { notice_at = 10; danger_nano = 11; danger_at = 12 }

toy-IsPair : IsPair site.ed [] []
toy-IsPair payload = ((λ e. ground (arith, e)), refl)

-- The map in its own order.
abbrev as_listed : Map Bytes IssuerCount → Map Bytes IssuerCount
as_listed m = m

analyze_dlq_exact_example :
    let result = analyze_dlq site undertaker 10 clock as_listed (some queue) [] in
    (pcs : Map Bytes IssuerCount) × IsMap pcs
    × (result.1 ≡ none)
    × AllQuarantined site undertaker [] pcs [] result.0
    × ((j : Bytes)
        → lookup j pcs ≡ (
            if leb 2 (length (reasons_of task_of (10 - 5) j queue))
            then tally task_of (10 - 5) j (reasons_of task_of (10 - 5) j queue)
            else none))
analyze_dlq_exact_example =
    analyze_dlq_exact site undertaker [] 10 clock as_listed (entry 1 bad (b'o' ∷ []))
      (entry 7 bad (b'p' ∷ []) ∷ entry 8 bad (b'q' ∷ []) ∷ entry 9 [] [] ∷ []) [] toy-IsPair
      (λ m. (_, refl)) (λ m. (_, refl)) (λ m once. (once, λ j. refl))
