-- ===== src/Adapters/Canonical.antt =====
-- What the headers are worth that the adapters of internal/oracle make of a model's answers.
use meshyants.Base.{
  ◌≡◌, ◌≢◌, ◌↔◌, refl, sym, ap, ◌∙◌, Bytes, Result, ok, err, ◌>>=◌, ◌>>◌, >>=-eq-ok, refuse_if, leb,
  Bool, inr, true, false, is_empty, Option, none, some, [], All, length, if◌then◌else◌, arith,
}
use meshyants.Text.{trim_space, trim_end}
use meshyants.Policy
use meshyants.Policy.{
  TaskIntentHeader, validate_required_safety_fields, check_dtn_size, oversize, canonical_json,
}
use meshyants.Policy.Safety.{validate_required_safety_fields_iff}
use meshyants.Adapters.{Site, complete, or_fault, unresolvable, parse_header, no_key, bad_schema}
use meshyants.Adapters.Reply.{normalize_minimax_json_payload}
use meshyants.Adapters.Reply.Fence.{object, fenced, normalize-fenced, normalize-object}
use meshyants.Adapters.Minimax
use meshyants.Adapters.Minimax.{MinimaxAdapter}
use meshyants.Adapters.Openai
use meshyants.Adapters.Openai.{OpenaiAdapter}
use meshyants.Adapters.Factory.{Adapter, minimax, openai, mock, canonicalize_by, mock_header}

module _ (site : Site) where
  open site use {unicode, codecs}

  -- The header's fields are complete.
  abbrev pub IsComplete : TaskIntentHeader → Type 0
  IsComplete h = validate_required_safety_fields unicode codecs (some h) ≡ ok tt

  abbrev fields : TaskIntentHeader → Result Policy.Fault (Unit {0})
  fields h = validate_required_safety_fields unicode codecs (some h)

  complete_iff :
      (g h : TaskIntentHeader) (r : Result Policy.Fault (Unit {0}))
      → fields g ≡ r
      → (complete g r ≡ ok h) ↔ ((g ≡ h) × IsComplete h)
  complete_iff g h (err f) e = (
    λ p. absurd cc,
    λ (same, all). absurd (let at_g : fields g ≡ ok tt = ap fields same ∙ all in cc),
  )
  complete_iff g h (ok tt) e =
      (λ p. let same : g ≡ h = cc in (same, ap fields (sym same) ∙ e), λ (same, all). ap ok same)

  -- The end of both Canonicalize methods.
  read_iff :
      (flag : Bool) (d : Option TaskIntentHeader) (h : TaskIntentHeader)
      → ((do
        refuse_if flag (unresolvable none)
        g ← or_fault parse_header d
        complete g (validate_required_safety_fields unicode codecs (some g)))
          ≡ ok h)
        ↔ ((flag ≡ false) × (d ≡ some h) × IsComplete h)
  read_iff true d h = ground arith
  read_iff false none h = ground arith
  read_iff false (some g) h =
      let (to, fro) = complete_iff g h (fields g) refl in
      (
        λ p. let (same, all) = to p in (refl, ap some same, all),
        λ (clear, same, all). fro (cc same, all),
      )

  -- MiniMax: an answer is turned into a header exactly if its normalised text is not the signal
  -- "unresolvable", is read as that header, and the header's required fields are there.
  pub read_reply_iff :
      (text : Bytes) (h : TaskIntentHeader)
      → (Minimax.read_reply site text ≡ ok h) ↔ (
          (Minimax.both site
              (site.decode_unresolvable (normalize_minimax_json_payload unicode text))
            ≡ false)
          × (site.decode_header (normalize_minimax_json_payload unicode text) ≡ some h)
          × IsComplete h)
  unfolding Minimax.read_reply
  read_reply_iff text h =
      let content = normalize_minimax_json_payload unicode text in
      read_iff (Minimax.both site (site.decode_unresolvable content)) (site.decode_header content) h

  -- MiniMax: an object without "<" is read alike bare and in a Markdown fence that names json.
  pub read_reply-fenced :
      (m : Bytes)
      → All (λ y. y ≢ b'<') m
      → Minimax.read_reply site (fenced m) ≡ Minimax.read_reply site (object m)
  unfolding Minimax.read_reply
  read_reply-fenced m h = rw (normalize-fenced unicode m h, normalize-object unicode m h) refl

  -- OpenAI: likewise on the text as it is, and with the flag alone.
  openai_reply_iff :
      (text : Bytes) (h : TaskIntentHeader)
      → (Openai.read_reply site text ≡ ok h) ↔ (
          ((site.decode_unresolvable text).1 ≡ false)
          × (site.decode_header text ≡ some h)
          × IsComplete h)
  unfolding Openai.read_reply
  openai_reply_iff text h = read_iff (site.decode_unresolvable text).1 (site.decode_header text) h

  minimax-IsComplete :
      (a : MinimaxAdapter) (goal : Bytes) (h : TaskIntentHeader)
      → Minimax.canonicalize site a goal ≡ ok h
      → IsComplete h
  unfolding Minimax.canonicalize
  minimax-IsComplete a goal h d =
      let (_, _, d1) = >>=-eq-ok (refuse_if (is_empty a.api_key) no_key) _ d in
      let (schema, _, d2) = >>=-eq-ok (or_fault bad_schema site.schema) _ d1 in
      let (text, _, d3) =
        >>=-eq-ok (Minimax.exchange site a (Minimax.canonicalize_request site a schema goal)) _
          d2 in
      ((read_reply_iff text h).0 d3).2

  openai-IsComplete :
      (a : OpenaiAdapter) (goal : Bytes) (h : TaskIntentHeader)
      → Openai.canonicalize site a goal ≡ ok h
      → IsComplete h
  unfolding Openai.canonicalize
  openai-IsComplete a goal h d =
      let (_, _, d1) = >>=-eq-ok (refuse_if (is_empty a.api_key) no_key) _ d in
      let (schema, _, d2) = >>=-eq-ok (or_fault bad_schema site.schema) _ d1 in
      let (text, _, d3) =
        >>=-eq-ok (Openai.exchange site a (Openai.canonicalize_request site a schema goal)) _ d2 in
      ((openai_reply_iff text h).0 d3).2

  -- The adapter asks a language model.
  abbrev pub IsModel : Adapter → Type 0
  IsModel (mock m) = ⊥
  IsModel _ = Unit {0}

  canonicalize-IsComplete :
      (deadline : Bytes) (a : Adapter) (goal : Bytes) (h : TaskIntentHeader)
      → IsModel a
      → canonicalize_by site deadline a goal ≡ ok h
      → IsComplete h
  canonicalize-IsComplete deadline (minimax a) goal h model d = minimax-IsComplete a goal h d
  canonicalize-IsComplete deadline (openai a) goal h model d = openai-IsComplete a goal h d
  canonicalize-IsComplete deadline (mock m) goal h model d = absurd model

  -- A header that either model-backed adapter returns has all its required fields, so that CheckDTNSize
  -- in HandleGoal returns its JSON, or refuses it for a size over 2048 bytes and for nothing else.
  pub canonicalize-fits :
      (deadline : Bytes) (a : Adapter) (goal : Bytes) (h : TaskIntentHeader)
      → IsModel a
      → canonicalize_by site deadline a goal ≡ ok h
      → check_dtn_size unicode codecs (some h) false ≡ (
          if leb (length (codecs.marshal h)) 2048
          then ok (codecs.marshal h)
          else err (oversize (length (codecs.marshal h))))
  unfolding check_dtn_size canonical_json
  canonicalize-fits deadline a goal h model d =
      rw (canonicalize-IsComplete deadline a goal h model d) refl

  -- The header that the mock adapter makes of a goal has all its required fields exactly if the goal
  -- is more than white space, given that the deadline is written so that it can be parsed.
  pub mock_header_iff :
      (deadline goal : Bytes)
      → codecs.parses_rfc3339 (trim_space unicode deadline) ≡ true
      → (validate_required_safety_fields unicode codecs (some (mock_header deadline goal)) ≡ ok tt)
        ↔ (trim_space unicode goal ≢ [])
  unfolding mock_header trim_space trim_end
  mock_header_iff deadline goal parses =
      let (to, fro) =
        validate_required_safety_fields_iff unicode codecs (mock_header deadline goal) in
      (
        λ d. (to d).aimed,
        λ says. fro (record {
          scoped = says;
          prohibiting = λ e. cc;
          dated = inr parses;
          carried = λ e. cc;
          aimed = says;
        }),
      )
