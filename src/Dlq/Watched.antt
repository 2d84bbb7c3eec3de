-- ===== src/Dlq/Watched.antt =====
-- The undertaker of internal/undertaker/undertaker.go on the queue of internal/dlq/dlq.go: from the failures
-- that are enqueued to the quarantines that they bring.
use meshyants.Base.{
  ◌≡◌, ap, ◌-◌, Bytes, list_eq, nat_eq, Map, IsMap, lookup, leb, length, map, take, true, none,
  some, List, [], ◌∷◌, if◌then◌else◌,
}
use meshyants.Contracts.{Instant}
use meshyants.Undertaker
use meshyants.Undertaker.{IssuerCount, Undertaker, Clock, analyze_dlq}
use meshyants.Undertaker.Patterns.{reasons_of, tally}
use meshyants.Undertaker.Quarantine.{IsRange, analyze_dlq_exact}
use meshyants.Undertaker.Notices.{AllQuarantined}
use meshyants.Agent.Reports.{IsTotal}
use meshyants.Signing.{IsPair}
use meshyants.Dlq
use meshyants.Dlq.{read_all}
use meshyants.Dlq.Kept.{Failure, IsStream, entry_for, enqueue_all, read_all-enqueue_all}

module _ (place : Dlq.Site) (site : Undertaker.Site) (u : Undertaker) (public_key : Bytes) where
  -- Failures, one at least, that were all enqueued without an error on an empty stream, and read by analyzeDLQ: of the
  -- first hundred, those that are in the window by their times as RFC 3339 keeps them are counted by the issuer of the
  -- failed task, and analyzeDLQ quarantines each issuer whose count reaches the threshold, once, and no other:
  -- it hands the server a notice that names the issuer with each of its reasons once, and then, if the server takes
  -- the notice, a DANGER pheromone about it, both of which verify with the undertaker's public key. It reports no
  -- error, if the subscription is made. This is so for every order of the range over the map, if the undertaker's keys are a
  -- pair and every notice and pheromone can be marshalled.
  pub analyze_dlq-enqueue_all :
      (law : IsStream place) (second : Instant → Instant) (f : Failure) (fs : List Failure)
      (s t : place.Server) (now : Instant) (clock : Bytes → Clock)
      (range : Map Bytes IssuerCount → Map Bytes IssuerCount) (server : site.broker.Server)
      → ((i : Instant) → place.parse_rfc3339 (place.format_rfc3339 i) ≡ some (second i))
      → law.stored s ≡ []
      → (enqueue_all place (f ∷ fs) s).1 ≡ true
      → place.subscribe (enqueue_all place (f ∷ fs) s).0 ≡ (t, true)
      → IsPair site.ed public_key u.private_key
      → IsTotal site.marshal_notice
      → IsTotal site.marshal_pheromone
      → IsRange range
      → let entries = take 100 (map (entry_for place second) (f ∷ fs)) in
        let window = now - u.config.pattern_window in
        let read = (read_all place (enqueue_all place (f ∷ fs) s).0).1.0 in
        let result = analyze_dlq site u now clock range read server in
        (pcs : Map Bytes IssuerCount) × IsMap pcs
        × (result.1 ≡ none)
        × AllQuarantined site u public_key pcs server result.0
        × ((j : Bytes)
            → let rs = reasons_of site.unmarshal_task window j entries in
              lookup j pcs ≡ (
                if leb u.config.min_quarantine_count (length rs)
                then tally site.unmarshal_task window j rs
                else none))
  analyze_dlq-enqueue_all law second f fs s t now clock range server parses fresh sent bound pair
        notices alarms ranges =
      let entry = entry_for place second in
      let came : (read_all place (enqueue_all place (f ∷ fs) s).0).1.0
          ≡ some (entry f ∷ take 99 (map entry fs)) =
        ap (λ r. r.0) (read_all-enqueue_all place law second f fs s t parses fresh sent bound) in
      rw came (
        analyze_dlq_exact site u public_key now clock range (entry f) (take 99 (map entry fs))
          server pair notices alarms ranges)
