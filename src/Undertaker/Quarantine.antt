-- ===== src/Undertaker/Quarantine.antt =====
-- Whom analyzeDLQ of internal/undertaker/undertaker.go quarantines.
use meshyants.Base.{
  ℕ, ◌-◌, ◌≡◌, inl, inr, refl, sym, ap, ◌∙◌, Bytes, list_eq, nat_eq, ◌==◌, eq_of_==, Map, lookup,
  insert, IsMap, insert-IsMap, leb, Bool-cases, Option-cases, Option, none, some, List, [], ◌∷◌,
  length, if◌then◌else◌, arith,
}
use meshyants.Contracts.{Instant, TaskAtom}
use meshyants.Signing.{IsPair}
use meshyants.Agent.Reports.{IsTotal}
use meshyants.Undertaker.Notices.{AllQuarantined, quarantine_for-Quarantines}
use meshyants.Undertaker.{
  DlqEntry, IssuerCount, blamed, counted, or_new, patterns, Site, Undertaker, Clock, quarantine_for,
  issue_all, analyze_dlq,
}
use meshyants.Undertaker.Patterns.{reasons_of, tally, patterns_exact}

patterns-IsMap :
    (unmarshal : Bytes → Option TaskAtom) (window : Instant) (es : List DlqEntry)
    (m : Map Bytes IssuerCount)
    → IsMap m
    → IsMap (patterns unmarshal window es m)
unfolding patterns
patterns-IsMap unmarshal window [] m h = h
patterns-IsMap unmarshal window (e ∷ es) m h = elim (Option-cases (blamed unmarshal window e)) [
  | inl nobody ↦ rw nobody (patterns-IsMap unmarshal window es m h)
  | inr (k, at_k) ↦
      let next = insert k (counted e.reason (or_new k (lookup k m))) m in
      rw at_k (
        patterns-IsMap unmarshal window es next
          (insert-IsMap k (counted e.reason (or_new k (lookup k m))) m h))
]

module _ (min : ℕ) where
  -- The entries of the pattern map that reach the threshold.
  unfoldable pub flagged : Map Bytes IssuerCount → Map Bytes IssuerCount
  flagged [] = []
  flagged ((k, pc) ∷ m) = let rest = flagged m in if leb min pc.count then (k, pc) ∷ rest else rest

  abbrev pub over_min : Option IssuerCount → Option IssuerCount
  over_min none = none
  over_min (some pc) = if leb min pc.count then some pc else none

  lookup-flagged :
      (j : Bytes) (m : Map Bytes IssuerCount)
      → IsMap m
      → lookup j (flagged m) ≡ over_min (lookup j m)
  unfolding flagged lookup
  lookup-flagged j [] h = refl
  lookup-flagged j ((k, pc) ∷ m) h = elim (Bool-cases (k == j)) [
    | inl same ↦
        let absent : lookup j m ≡ none = sym (ap (λ x. lookup x m) (eq_of_== k j same)) ∙ h.0 in
        ground (arith, lookup-flagged j m h.1, absent, same)
    | inr other ↦ ground (arith, lookup-flagged j m h.1, other)
  ]

  flagged-IsMap : (m : Map Bytes IssuerCount) → IsMap m → IsMap (flagged m)
  unfolding flagged
  flagged-IsMap [] h = tt
  flagged-IsMap ((k, pc) ∷ m) h = elim (Bool-cases (leb min pc.count)) [
    | inl enough ↦ rw enough (lookup-flagged k m h.1 ∙ ap over_min h.0, flagged-IsMap m h.1)
    | inr few ↦ rw few (flagged-IsMap m h.1)
  ]

  over_min-tally :
      (unmarshal : Bytes → Option TaskAtom) (window : Instant) (j : Bytes) (rs : List Bytes)
      → over_min (tally unmarshal window j rs)
        ≡ (if leb min (length rs) then tally unmarshal window j rs else none)
  over_min-tally unmarshal window j [] = ground arith
  over_min-tally unmarshal window j (r ∷ rs) = refl

-- What Go promises of range: every entry of the map once, in some order.
abbrev pub IsRange : (Map Bytes IssuerCount → Map Bytes IssuerCount) → Type 0
IsRange range =
    (m : Map Bytes IssuerCount)
    → IsMap m
    → IsMap (range m) × ((j : Bytes) → lookup j (range m) ≡ lookup j m)

module _ (site : Site) (u : Undertaker) (public_key : Bytes) where
  issue_all-AllQuarantined :
      (clock : Bytes → Clock) (m : Map Bytes IssuerCount) (server : site.broker.Server)
      → IsPair site.ed public_key u.private_key
      → IsTotal site.marshal_notice
      → IsTotal site.marshal_pheromone
      → AllQuarantined site u public_key
          (flagged u.config.min_quarantine_count m)
          server
          (issue_all site u clock m server)
  unfolding issue_all flagged
  issue_all-AllQuarantined clock [] server pair notices alarms = refl
  issue_all-AllQuarantined clock ((k, pc) ∷ m) server pair notices alarms =
      elim (Bool-cases (leb u.config.min_quarantine_count pc.count)) [
        | inl enough ↦
            let mid = quarantine_for site u (clock pc.issuer) pc server in
            rw enough (
              mid,
              quarantine_for-Quarantines site u public_key (clock pc.issuer) pc server pair notices
                  alarms,
              issue_all-AllQuarantined clock m mid pair notices alarms,
            )
        | inr few ↦ rw few (issue_all-AllQuarantined clock m server pair notices alarms)
      ]

  -- On a queue that is not empty analyzeDLQ reports no error and quarantines the issuers of a map, one after another and
  -- each once: an issuer is in the map exactly if its failures in the window reach the threshold, with their
  -- number and their reasons. For each a notice is handed to the server that names the issuer with each
  -- of its reasons once, for the configured time, and then, if the server takes the notice, a DANGER
  -- pheromone about it; both verify with the undertaker's public key. This is so for every order of the range over the map, if the
  -- undertaker's keys are a pair and every notice and pheromone can be marshalled.
  pub analyze_dlq_exact :
      (now : Instant) (clock : Bytes → Clock)
      (range : Map Bytes IssuerCount → Map Bytes IssuerCount) (e : DlqEntry) (es : List DlqEntry)
      (server : site.broker.Server)
      → IsPair site.ed public_key u.private_key
      → IsTotal site.marshal_notice
      → IsTotal site.marshal_pheromone
      → IsRange range
      → let window = now - u.config.pattern_window in
        let result = analyze_dlq site u now clock range (some (e ∷ es)) server in
        (pcs : Map Bytes IssuerCount) × IsMap pcs
        × (result.1 ≡ none)
        × AllQuarantined site u public_key pcs server result.0
        × ((j : Bytes)
            → let rs = reasons_of site.unmarshal_task window j (e ∷ es) in
              lookup j pcs ≡ (
                if leb u.config.min_quarantine_count (length rs)
                then tally site.unmarshal_task window j rs
                else none))
  unfolding analyze_dlq
  analyze_dlq_exact now clock range e es server pair notices alarms ranges =
      let window = now - u.config.pattern_window in
      let found = patterns site.unmarshal_task window (e ∷ es) [] in
      let min = u.config.min_quarantine_count in
      let (once, same) = ranges found (patterns-IsMap site.unmarshal_task window (e ∷ es) [] tt) in
      (
        flagged min (range found),
        flagged-IsMap min (range found) once,
        refl,
        issue_all-AllQuarantined clock (range found) server pair notices alarms,
        λ j.
            lookup-flagged min j (range found) once
            ∙ ap (over_min min) (same j ∙ patterns_exact site.unmarshal_task window j (e ∷ es))
            ∙ over_min-tally min site.unmarshal_task window j
                (reasons_of site.unmarshal_task window j (e ∷ es)),
      )
