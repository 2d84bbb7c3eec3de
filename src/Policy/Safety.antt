-- ===== src/Policy/Safety.antt =====
-- The admission tests of internal/oracle/policy/policy.go, in both directions.
use meshyants.Base.{
  ◌==◌, eq_of_==, ne_of_==, list_eq, nat_eq, ◌≤◌, ◌≡◌, ◌≢◌, ◌⊎◌, ◌↔◌, refl, inl, inr, Bytes, ok,
  err, Bool, Bool-cases, true, none, some, List, [], ◌∷◌, ◌++◌, All, length, arith,
}
use meshyants.Text.{Unicode, to_lower, trim_space, contains}
use meshyants.Text.Search.{join_injective, StandsIn, contains-StandsIn, StandsIn-contains}
use meshyants.Policy.{
  TaskIntentHeader, Codecs, check_fields, validate_required_safety_fields, canonical_json,
  check_dtn_size, derive_idempotency_key, first_blocked, blocked_verbs, verify_task_safety,
  dangerous_action,
}

-- `s` is more than white space.
abbrev pub Says : Unicode → Bytes → Type 0
Says u s = trim_space u s ≢ []

pub record IsIntent (u : Unicode) (c : Codecs) (h : TaskIntentHeader) : Type 0 where
  pub scoped : Says u h.scope
  pub prohibiting : h.prohibited_actions ≢ none
  pub dated :
      (trim_space u h.deadline_rfc3339 ≡ [])
      ⊎ (c.parses_rfc3339 (trim_space u h.deadline_rfc3339) ≡ true)
  pub carried : Says u h.transport_class
  pub aimed : Says u h.canonical_goal

module _ (u : Unicode) (c : Codecs) where
  -- A header passes exactly if it is there, its scope, transport class and goal are more than white
  -- space, it lists prohibited actions, and its deadline is blank or an RFC 3339 time.
  pub validate_required_safety_fields_iff :
      (h : TaskIntentHeader)
      → (validate_required_safety_fields u c (some h) ≡ ok tt) ↔ IsIntent u c h
  unfolding validate_required_safety_fields check_fields
  validate_required_safety_fields_iff h = ground arith

  -- CheckDTNSize returns the JSON of a header exactly if the header is a valid intent and the JSON fits
  -- 2048 bytes or overflow is allowed.
  pub check_dtn_size_iff :
      (h : TaskIntentHeader) (allow_overflow : Bool)
      → (check_dtn_size u c (some h) allow_overflow ≡ ok (c.marshal h))
        ↔ (IsIntent u c h × ((length (c.marshal h) ≤ 2048) ⊎ (allow_overflow ≡ true)))
  unfolding check_dtn_size canonical_json
  check_dtn_size_iff h allow_overflow = ground (arith, validate_required_safety_fields_iff h)

none_blocked :
    (lower : Bytes) (bs : List Bytes)
    → (first_blocked lower bs ≡ ok tt) ↔ All (λ b. ¬ StandsIn b lower) bs
unfolding first_blocked
none_blocked lower [] = (λ h. tt, λ h. refl)
none_blocked lower (b ∷ bs) =
    let (to, fro) = none_blocked lower bs in
    elim (Bool-cases (contains lower b)) [
      | inl found ↦
          rw found (λ h. ground arith, λ h. absurd (h.0 (StandsIn-contains lower b found)))
      | inr missed ↦
          rw missed (
            λ h. ((λ stands. ground (arith, contains-StandsIn lower b stands)), to h),
            λ h. fro h.1,
          )
    ]

blocked_stands :
    (lower b : Bytes) (bs : List Bytes)
    → first_blocked lower bs ≡ err (dangerous_action b)
    → StandsIn b lower
unfolding first_blocked
blocked_stands lower b [] h = ground arith
blocked_stands lower b (v ∷ bs) h = elim (Bool-cases (contains lower v)) [
  | inl found ↦ let same : v ≡ b = ground arith in rw (← same) (StandsIn-contains lower v found)
  | inr missed ↦ blocked_stands lower b bs (ground arith)
]

-- A task is safe exactly if none of the four blocked verbs stands in its lower-cased requirements and
-- payload, and the verb that a refusal names does stand there.
pub verify_task_safety_iff :
    (u : Unicode) (requirements payload : Bytes)
    → let lower = to_lower u (requirements ++ (10 ∷ payload)) in
      ((verify_task_safety u requirements payload ≡ ok tt)
        ↔ All (λ b. ¬ StandsIn b lower) blocked_verbs)
      × ((b : Bytes)
          → verify_task_safety u requirements payload ≡ err (dangerous_action b)
          → StandsIn b lower)
unfolding verify_task_safety
verify_task_safety_iff u requirements payload =
    let lower = to_lower u (requirements ++ (10 ∷ payload)) in
    (none_blocked lower blocked_verbs, λ b h. blocked_stands lower b blocked_verbs h)

-- Two texts with one hash.
abbrev pub Collision : Codecs → Type 0
Collision c = (x : Bytes) × (y : Bytes) × (x ≢ y) × (c.sum256_hex x ≡ c.sum256_hex y)

-- Two goals with request IDs that hold no NUL byte share an idempotency key only if they agree but for
-- the white space around them, or else SHA-256 has a collision.
pub derive_idempotency_key_injective :
    (u : Unicode) (c : Codecs) (goal other id other_id : Bytes)
    → All (λ x. x ≢ 0) (trim_space u id)
    → All (λ x. x ≢ 0) (trim_space u other_id)
    → derive_idempotency_key u c goal id ≡ derive_idempotency_key u c other other_id
    → ((trim_space u goal ≡ trim_space u other) × (trim_space u id ≡ trim_space u other_id))
      ⊎ Collision c
unfolding derive_idempotency_key
derive_idempotency_key_injective u c goal other id other_id h g same =
    let x = trim_space u goal ++ (0 ∷ trim_space u id) in
    let y = trim_space u other ++ (0 ∷ trim_space u other_id) in
    elim (Bool-cases (x == y)) [
      | inl e ↦ inl (
          join_injective 0 (trim_space u goal) (trim_space u id) (trim_space u other)
            (trim_space u other_id) h g (eq_of_== x y e))
      | inr e ↦ inr (x, y, ne_of_== x y e, same)
    ]
