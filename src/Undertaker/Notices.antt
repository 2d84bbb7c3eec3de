-- ===== src/Undertaker/Notices.antt =====
-- What IssueQuarantine of internal/undertaker/undertaker.go publishes.
use meshyants.Base.{
  ◌≡◌, ◌↔◌, refl, sym, ap, ◌∙◌, Bytes, list_eq, nat_eq, Map, ok, Bool, true, false, Option, some,
  List, [], ◌∷◌, ◌++◌, take, if◌then◌else◌,
}
use mathlib.Core.List.{append-nil}
use meshyants.Text.{codes}
use meshyants.Contracts.{PheromoneRecord, kind_danger, QuarantineNotice}
use meshyants.Signing.{IsPair, sign, verify}
use meshyants.Signing.Messages.{signable_pheromone, signable_notice}
use meshyants.Signing.Trust.{sign-verify}
use meshyants.Fabric.{Msg, transport_publish, stable_msg_id}
use meshyants.Agent.Reports.{IsTotal}
use meshyants.Undertaker.{
  IssuerCount, Site, Undertaker, Clock, Fault, uniq, join, danger_record, issue_quarantine,
  quarantine_for, reported, then_also, publish_danger_signed, publish_notice_signed, publish_notice,
  publish_danger,
}
use meshyants.Undertaker.Patterns.{Occurs, NoRepeat, uniq-NoRepeat}

-- Texts with "; " between them.
abbrev pub more : List Bytes → Bytes
more [] = []
more (r ∷ rs) = codes "; " ++ (r ++ more rs)

abbrev pub listed : List Bytes → Bytes
listed [] = []
listed (r ∷ rs) = r ++ more rs

join-eq-listed : (rs : List Bytes) → join rs (codes "; ") ≡ listed rs
unfolding join
join-eq-listed [] = refl
join-eq-listed (r ∷ []) = sym (append-nil r)
join-eq-listed (r ∷ (t ∷ rs)) = ap (λ s. r ++ (codes "; " ++ s)) (join-eq-listed (t ∷ rs))

module _ (site : Site) (u : Undertaker) (public_key : Bytes) where
  open site use {broker}

  -- A notice that names the issuer, with each of the reasons once, for the configured time, in the
  -- undertaker's name and trust domain, that verifies with its public key.
  pub record IsNotice (issuer : Bytes) (reasons : List Bytes) (n : QuarantineNotice) : Type 0 where
    pub device_is : n.subject_device ≡ issuer
    pub reason_is :
        (rs : List Bytes) × NoRepeat rs
        × ((s : Bytes) → Occurs s rs ↔ Occurs s reasons)
        × (n.reason ≡ listed rs)
    pub scope_is : n.scope ≡ codes "issuer"
    pub duration_is : n.duration ≡ u.config.default_quarantine_duration
    pub issuer_is : n.issuer ≡ u.issuer
    pub domain_is : n.trust_domain ≡ u.trust_domain
    pub verifies : verify (signable_notice site.marshal_notice) site.ed n public_key ≡ ok tt

  -- A DANGER pheromone about the issuer, likewise.
  pub record IsAlarm (issuer : Bytes) (p : PheromoneRecord) : Type 0 where
    pub kind_is : p.kind ≡ kind_danger
    pub subject_is : p.subject ≡ issuer
    pub issuer_is : p.issuer ≡ u.issuer
    pub domain_is : p.trust_domain ≡ u.trust_domain
    pub verifies : verify (signable_pheromone site.marshal_pheromone) site.ed p public_key ≡ ok tt

  abbrev pub notice_msg : Bytes → Bytes → Msg
  notice_msg issuer body = record {
    subject = codes "mesh.quarantine." ++ u.trust_domain;
    body = body;
    msg_id = take 32 (site.sum_hex (codes "quarantine-" ++ issuer));
  }

  abbrev pub alarm_msg : PheromoneRecord → Bytes → Msg
  alarm_msg p body = record {
    subject = codes "mesh.phero." ++ u.trust_domain;
    body = body;
    msg_id = take 32 (site.sum_hex p.record_id);
  }

  -- The quarantine of an issuer: a notice is handed to the server, and if the server takes it, an alarm is.
  abbrev pub Quarantines : IssuerCount → broker.Server → broker.Server → Type 0
  Quarantines pc s t =
      (n : QuarantineNotice) × (body : Bytes) × (p : PheromoneRecord) × (alarm : Bytes) × IsNotice
        pc.issuer pc.reasons n
      × (site.marshal_notice n ≡ some body)
      × IsAlarm pc.issuer p
      × (site.marshal_pheromone p ≡ some alarm)
      × (let r = broker.publish s (notice_msg pc.issuer body) in
          t ≡ (if r.1 then (broker.publish r.0 (alarm_msg p alarm)).0 else r.0))

  -- One quarantine after another, for each entry of the map.
  abbrev pub AllQuarantined : Map Bytes IssuerCount → broker.Server → broker.Server → Type 0
  AllQuarantined [] s t = s ≡ t
  AllQuarantined ((k, pc) ∷ m) s t =
      (mid : broker.Server) × Quarantines pc s mid × AllQuarantined m mid t

  reported-server : (f : Fault) (r : broker.Server × Bool) → (reported site u f r).0 ≡ r.0
  reported-server f (server, true) = refl
  reported-server f (server, false) = refl

  reported-then :
      (f : Fault) (r : broker.Server × Bool) (rest : broker.Server → broker.Server × Option Fault)
      → (then_also site u (reported site u f r) rest).0 ≡ (if r.1 then (rest r.0).0 else r.0)
  reported-then f (server, true) rest = refl
  reported-then f (server, false) rest = refl

  notice_published :
      (issuer body : Bytes) (draft n : QuarantineNotice) (server : broker.Server)
      (rest : broker.Server → broker.Server × Option Fault)
      → sign (signable_notice site.marshal_notice) site.ed draft u.private_key ≡ ok n
      → site.marshal_notice n ≡ some body
      → (then_also site u
          (publish_notice_signed site u issuer server
            (sign (signable_notice site.marshal_notice) site.ed draft u.private_key))
          rest).0
        ≡ (let r = broker.publish server (notice_msg issuer body) in
            if r.1 then (rest r.0).0 else r.0)
  unfolding transport_publish stable_msg_id
  notice_published issuer body draft n server rest signed at_n =
      rw signed (
        rw at_n
          (reported-then publish_notice (broker.publish server (notice_msg issuer body)) rest))

  alarm_published :
      (alarm : Bytes) (draft p : PheromoneRecord) (server : broker.Server)
      → sign (signable_pheromone site.marshal_pheromone) site.ed draft u.private_key ≡ ok p
      → site.marshal_pheromone p ≡ some alarm
      → (publish_danger_signed site u server
          (sign (signable_pheromone site.marshal_pheromone) site.ed draft u.private_key)).0
        ≡ (broker.publish server (alarm_msg p alarm)).0
  unfolding transport_publish stable_msg_id
  alarm_published alarm draft p server signed at_p =
      rw signed
        (rw at_p (reported-server publish_danger (broker.publish server (alarm_msg p alarm))))

  pub quarantine_for-Quarantines :
      (clock : Clock) (pc : IssuerCount) (server : broker.Server)
      → IsPair site.ed public_key u.private_key
      → IsTotal site.marshal_notice
      → IsTotal site.marshal_pheromone
      → Quarantines pc server (quarantine_for site u clock pc server)
  unfolding issue_quarantine danger_record
  quarantine_for-Quarantines clock pc server pair total_notice total_pheromone =
      let draft : QuarantineNotice = record {
        schema_version = 1;
        subject_device = pc.issuer;
        trust_domain = u.trust_domain;
        reason = join (uniq pc.reasons) (codes "; ");
        scope = codes "issuer";
        duration = u.config.default_quarantine_duration;
        issuer = u.issuer;
        issued_at = some clock.notice_at;
        signature = [];
      } in
      let danger = danger_record site u pc.issuer [] clock in
      let (payload, e) = total_notice draft in
      let (payload', e') = total_pheromone danger in
      let n = record draft { signature = site.ed.sign u.private_key payload } in
      let p = record danger { signature = site.ed.sign u.private_key payload' } in
      let (body, at_n) = total_notice n in
      let (alarm, at_p) = total_pheromone p in
      let (signed, holds) =
        sign-verify (signable_notice site.marshal_notice) site.ed draft public_key u.private_key
          payload pair refl e in
      let (signed', holds') =
        sign-verify (signable_pheromone site.marshal_pheromone) site.ed danger public_key
          u.private_key payload' pair refl e' in
      let (once, same) = uniq-NoRepeat pc.reasons in
      (
        n,
        body,
        p,
        alarm,
        record {
          device_is = refl;
          reason_is = (uniq pc.reasons, once, same, join-eq-listed (uniq pc.reasons));
          scope_is = refl;
          duration_is = refl;
          issuer_is = refl;
          domain_is = refl;
          verifies = holds;
        },
        at_n,
        record {
          kind_is = refl;
          subject_is = refl;
          issuer_is = refl;
          domain_is = refl;
          verifies = holds';
        },
        at_p,
        notice_published pc.issuer body draft n server _ signed at_n
            ∙ (let r = broker.publish server (notice_msg pc.issuer body) in
                ap (λ t. if r.1 then t else r.0) (alarm_published alarm danger p r.0 signed' at_p)),
      )
