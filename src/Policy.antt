-- ===== src/Policy.antt =====
-- internal/oracle/policy/policy.go: what a structured intent must say before it becomes a task. The
-- parsers and printers of Go's libraries are the fields of `Codecs`.
pub mod Depth
pub mod Safety
mod Tests
use meshyants.Base.{
  ℕ, ◌+◌, ℤ, pos, ltb_ℤ, Bytes, Result, ok, err, ◌>>=◌, ◌>>◌, refuse_if, ltb, leb, Bool, true,
  false, not, ◌&&◌, is_empty, Option, none, some, List, [], ◌∷◌, ◌++◌, length, if◌then◌else◌,
}
use meshyants.Text.{Unicode, to_lower, trim_space, contains, codes}

pub data Fault : Type 0 where
  nil_header no_scope no_prohibited_actions no_transport_class no_canonical_goal : Fault
  invalid_deadline : Fault
  oversize : ℕ → Fault
  dangerous_action : Bytes → Fault
  over_max_bytes depth_exceeded : Fault

-- `none` for `prohibited_actions` is a nil slice.
pub record TaskIntentHeader : Type 0 where
  pub scope : Bytes
  pub prohibited_actions : Option (List Bytes)
  pub deadline_rfc3339 : Bytes
  pub transport_class : Bytes
  pub required_approvals : List Bytes
  pub canonical_goal : Bytes

-- A value that json.Unmarshal has put into an `any`; strings, numbers, booleans and null are `scalar`.
mutual
  pub data Json : Type 0 where
    scalar : Json
    object : Entries → Json
    array : Items → Json

  pub data Items : Type 0 where
    no_items : Items
    item : Json → Items → Items

  pub data Entries : Type 0 where
    no_entries : Entries
    entry : Bytes → Json → Entries → Entries

-- `parses_rfc3339`: whether time.Parse(time.RFC3339, s) succeeds. `marshal`: json.Marshal of a header,
-- which has nothing that it refuses. `unmarshal`: json.Unmarshal, `none` where it fails. `sum256_hex`:
-- sha256.Sum256 in hexadecimal digits.
pub record Codecs : Type 0 where
  pub parses_rfc3339 : Bytes → Bool
  pub marshal : TaskIntentHeader → Bytes
  pub unmarshal : Bytes → Option Json
  pub sum256_hex : Bytes → Bytes

abbrev pub is_nil_slice : Option (List Bytes) → Bool
is_nil_slice none = true
is_nil_slice (some _) = false

module _ (u : Unicode) (c : Codecs) where
  abbrev pub blank : Bytes → Bool
  blank s = is_empty (trim_space u s)

  unfoldable pub check_fields : TaskIntentHeader → Result Fault (Unit {0})
  check_fields h =
      refuse_if (blank h.scope) no_scope
      >> refuse_if (is_nil_slice h.prohibited_actions) no_prohibited_actions
      >> (let d = trim_space u h.deadline_rfc3339 in
          refuse_if (not (is_empty d) && not (c.parses_rfc3339 d)) invalid_deadline)
      >> refuse_if (blank h.transport_class) no_transport_class
      >> refuse_if (blank h.canonical_goal) no_canonical_goal

  unfoldable pub validate_required_safety_fields : Option TaskIntentHeader → Result Fault (Unit {0})
  unfolding check_fields
  validate_required_safety_fields none = err nil_header
  validate_required_safety_fields (some h) = check_fields h

  -- json.Marshal(h); a nil header has been refused.
  abbrev marshal_option : Option TaskIntentHeader → Bytes
  marshal_option none = codes "null"
  marshal_option (some h) = c.marshal h

  unfoldable pub canonical_json : Option TaskIntentHeader → Result Fault Bytes
  unfolding validate_required_safety_fields
  canonical_json h = validate_required_safety_fields h >> ok (marshal_option h)

  unfoldable pub derive_idempotency_key : Bytes → Bytes → Bytes
  derive_idempotency_key goal client_request_id =
      c.sum256_hex (trim_space u goal ++ (0 ∷ trim_space u client_request_id))

  abbrev pub dtn_intent_budget : ℕ
  dtn_intent_budget = 2048

  unfoldable pub check_dtn_size : Option TaskIntentHeader → Bool → Result Fault Bytes
  unfolding canonical_json
  check_dtn_size h allow_overflow = canonical_json h >>= λ b.
      if leb (length b) dtn_intent_budget
      then ok b
      else if allow_overflow
      then ok b
      else err (oversize (length b))

abbrev pub blocked_verbs : List Bytes
blocked_verbs =
    codes "format_disk" ∷ codes "rm_rf" ∷ codes "disable_firewall" ∷ codes "curl_pipe_bash" ∷ []

-- The loop over the blocked verbs.
unfoldable pub first_blocked : Bytes → List Bytes → Result Fault (Unit {0})
first_blocked lower [] = ok tt
first_blocked lower (b ∷ bs) =
    let rest = first_blocked lower bs in if contains lower b then err (dangerous_action b) else rest

unfoldable pub verify_task_safety : Unicode → Bytes → Bytes → Result Fault (Unit {0})
unfolding first_blocked
verify_task_safety u requirements_json payload =
    first_blocked (to_lower u (requirements_json ++ (10 ∷ payload))) blocked_verbs

-- `max`, raised to one more than the depth of each value of the loop.
abbrev pub raise : ℕ → ℕ → ℕ
raise max d = if ltb max (1 + d) then 1 + d else max

unfoldable mutual
  pub depth_any : Json → ℕ
  depth_any scalar = 1
  depth_any (object fields) = depth_entries 1 fields
  depth_any (array items) = depth_items 1 items

  pub depth_items : ℕ → Items → ℕ
  depth_items max no_items = max
  depth_items max (item w rest) = depth_items (raise max (depth_any w)) rest

  pub depth_entries : ℕ → Entries → ℕ
  depth_entries max no_entries = max
  depth_entries max (entry _ w rest) = depth_entries (raise max (depth_any w)) rest

abbrev pub too_deep : ℤ → Option Json → Bool
too_deep max_depth none = false
too_deep max_depth (some v) = ltb_ℤ max_depth (pos (depth_any v))

unfoldable pub enforce_delta_caps : Codecs → Bytes → ℤ → ℤ → Result Fault (Unit {0})
unfolding depth_any
enforce_delta_caps c payload max_bytes max_depth =
    if ltb_ℤ max_bytes (pos (length payload))
    then err over_max_bytes
    else if ltb_ℤ (pos 0) max_depth
    then refuse_if (too_deep max_depth (c.unmarshal payload)) depth_exceeded
    else ok tt
