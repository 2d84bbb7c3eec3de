-- ===== src/Policy/Tests.antt =====
-- Intents and payloads for internal/oracle/policy/policy.go.
use meshyants.Base.{
  ℕ, ◌≤◌, ◌≡◌, ◌⊎◌, ◌↔◌, Bytes, ok, err, All, some, true, false, [], ◌∷◌, ◌++◌, length, pos,
}
use meshyants.Text.{ascii_only, to_lower, codes}
use meshyants.Text.Search.{StandsIn}
use meshyants.Policy.{
  TaskIntentHeader, Json, scalar, array, item, no_items, Codecs, check_dtn_size, verify_task_safety,
  dangerous_action, blocked_verbs, enforce_delta_caps,
}
use meshyants.Policy.Depth.{Chain, enforce_delta_caps_iff}
use meshyants.Policy.Safety.{IsIntent, check_dtn_size_iff, verify_task_safety_iff}

-- Every deadline parses, a header prints its goal, every payload is `[0]`, and a text is its own hash.
abbrev codecs : Codecs
codecs = record {
  parses_rfc3339 = λ s. true;
  marshal = λ h. h.canonical_goal;
  unmarshal = λ s. some (array (item scalar no_items));
  sum256_hex = λ s. s;
}

abbrev header : TaskIntentHeader
header = record {
  scope = codes "field";
  prohibited_actions = some [];
  deadline_rfc3339 = [];
  transport_class = codes "fast";
  required_approvals = [];
  canonical_goal = codes "read soil";
}

abbrev payload : Bytes
payload = codes "[0]"

check_dtn_size_iff_example :
    (check_dtn_size ascii_only codecs (some header) false ≡ ok (codecs.marshal header)) ↔ (
      IsIntent ascii_only codecs header
      × ((length (codecs.marshal header) ≤ 2048) ⊎ (false ≡ true)))
check_dtn_size_iff_example = check_dtn_size_iff ascii_only codecs header false

verify_task_safety_iff_example :
    let lower = to_lower ascii_only (codes "RM_RF" ++ (10 ∷ payload)) in
    ((verify_task_safety ascii_only (codes "RM_RF") payload ≡ ok tt)
      ↔ All (λ b. ¬ StandsIn b lower) blocked_verbs)
    × ((b : Bytes)
        → verify_task_safety ascii_only (codes "RM_RF") payload ≡ err (dangerous_action b)
        → StandsIn b lower)
verify_task_safety_iff_example = verify_task_safety_iff ascii_only (codes "RM_RF") payload

abbrev one_level : ℕ
one_level = 1

enforce_delta_caps_iff_example : (enforce_delta_caps codecs payload (pos 10) (pos 1) ≡ ok tt) ↔ (
    (length payload ≤ 10)
    × ((one_level ≡ 0)
        ⊎ ((v : Json) (n : ℕ) → codecs.unmarshal payload ≡ some v → Chain v n → n ≤ 1)))
enforce_delta_caps_iff_example = enforce_delta_caps_iff codecs payload 10 1
