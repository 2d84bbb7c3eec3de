-- ===== src/Oracleview.antt =====
-- internal/oracleview/view.go: records as operators see them, each with its whole protobuf JSON.
use meshyants.Base.{
  ◌≡◌, refl, Bytes, Result, ok, err, ◌>>=◌, >>=-eq-ok, Option, Option-cases, inl, inr, none, some,
  List, [], ◌∷◌, arith,
}
use meshyants.Contracts.{PheromoneRecord, PheromoneKind}

pub record RecordView : Type 0 where
  pub kind : Bytes
  pub trust_domain : Bytes
  pub record_id : Bytes
  pub subject : Bytes
  pub verbatim_json : Bytes

pub data Fault : Type 0 where
  marshal_json : Fault

-- `kind_name` is the generated String method; `json` is protojson with EmitUnpopulated, `none` where it
-- fails.
module _ (kind_name : PheromoneKind → Bytes) (json : PheromoneRecord → Option Bytes) where
  abbrev pub view_of : PheromoneRecord → Bytes → RecordView
  view_of r raw = record {
    kind = kind_name r.kind;
    trust_domain = r.trust_domain;
    record_id = r.record_id;
    subject = r.subject;
    verbatim_json = raw;
  }

  abbrev pub marshalled : Option Bytes → Result Fault Bytes
  marshalled none = err marshal_json
  marshalled (some raw) = ok raw

  unfoldable pub format_pheromones : List PheromoneRecord → Result Fault (List RecordView)
  format_pheromones [] = ok []
  format_pheromones (r ∷ rs) =
      let rest = format_pheromones rs in
      marshalled (json r) >>= λ raw. rest >>= λ views. ok (view_of r raw ∷ views)

  -- One view for each record, in order, with the record's own fields and its whole JSON.
  abbrev pub Shows : List PheromoneRecord → List RecordView → Type 0
  Shows [] [] = Unit {0}
  Shows [] (v ∷ vs) = ⊥
  Shows (r ∷ rs) [] = ⊥
  Shows (r ∷ rs) (v ∷ vs) =
      ((raw : Bytes) × (json r ≡ some raw) × (v ≡ view_of r raw)) × Shows rs vs

  -- FormatPheromones returns one view for each record, in order, with the record's kind, domain, ID and
  -- subject and its whole JSON: no record is left out or softened.
  pub format_pheromones-Shows :
      (rs : List PheromoneRecord) (vs : List RecordView)
      → format_pheromones rs ≡ ok vs
      → Shows rs vs
  unfolding format_pheromones
  format_pheromones-Shows [] [] h = tt
  format_pheromones-Shows [] (v ∷ vs) h = ground arith
  format_pheromones-Shows (r ∷ rs) vs h = elim (Option-cases (json r)) [
    | inl e ↦ ground arith
    | inr (raw, e) ↦
        let (views, found, here) =
          >>=-eq-ok {B = List RecordView} (format_pheromones rs)
            (λ views. ok (view_of r raw ∷ views)) (rw e at h) in
        let same : vs ≡ view_of r raw ∷ views = cc here in
        rw same ((raw, e, refl), format_pheromones-Shows rs views found)
  ]
