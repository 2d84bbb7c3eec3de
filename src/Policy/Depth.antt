-- ===== src/Policy/Depth.antt =====
-- `depthAny` of internal/oracle/policy/policy.go against chains of values, each inside the one before.
use meshyants.Base.{
  ℕ, Option-cases, ◌+◌, ◌≤◌, ◌≡◌, ◌⊎◌, ◌↔◌, sym, ◌∙◌, inl, inr, refl, ap, subst, Bytes, ok, pos,
  length, some, arith,
}
use meshyants.Policy.{
  Json, scalar, object, array, Items, no_items, item, Entries, no_entries, entry, depth_any,
  depth_items, depth_entries, raise, Codecs, enforce_delta_caps,
}

-- `Chain v n`: there are `n` values, the first one `v`, each an element or a field of the one before.
mutual
  pub data Chain : Json → ℕ → Type 0 where
    alone : {v : Json} → Chain v 1
    in_array : {items : Items} {n : ℕ} → Among items n → Chain (array items) (1 + n)
    in_object : {fields : Entries} {n : ℕ} → Within fields n → Chain (object fields) (1 + n)

  -- A chain that starts at one of the items.
  pub data Among : Items → ℕ → Type 0 where
    first_item : {w : Json} {rest : Items} {n : ℕ} → Chain w n → Among (item w rest) n
    later_item : {w : Json} {rest : Items} {n : ℕ} → Among rest n → Among (item w rest) n

  -- A chain that starts at the value of one of the fields.
  pub data Within : Entries → ℕ → Type 0 where
    first_field :
        {k : Bytes} {w : Json} {rest : Entries} {n : ℕ} → Chain w n → Within (entry k w rest) n
    later_field :
        {k : Bytes} {w : Json} {rest : Entries} {n : ℕ} → Within rest n → Within (entry k w rest) n

grows_items : (max : ℕ) (items : Items) → max ≤ depth_items max items
unfolding depth_any
grows_items max no_items = omega arith
grows_items max (item w rest) =
    let step = grows_items (raise max (depth_any w)) rest in ground (arith, step)

grows_entries : (max : ℕ) (fields : Entries) → max ≤ depth_entries max fields
unfolding depth_any
grows_entries max no_entries = omega arith
grows_entries max (entry k w rest) =
    let step = grows_entries (raise max (depth_any w)) rest in ground (arith, step)

depth_any-pos : (v : Json) → 1 ≤ depth_any v
unfolding depth_any
depth_any-pos scalar = omega arith
depth_any-pos (array items) = grows_items 1 items
depth_any-pos (object fields) = grows_entries 1 fields

mutual
  unfolding depth_any

  Chain-le : {v : Json} {n : ℕ} → Chain v n → n ≤ depth_any v
  Chain-le {v} alone = depth_any-pos v
  Chain-le (in_array c) = Among-le 1 c
  Chain-le (in_object c) = Within-le 1 c

  Among-le : (max : ℕ) {items : Items} {n : ℕ} → Among items n → 1 + n ≤ depth_items max items
  Among-le max (first_item {w} {rest} c) =
      let here = Chain-le c in
      let later = grows_items (raise max (depth_any w)) rest in ground (arith, here, later)
  Among-le max (later_item {w} c) = Among-le (raise max (depth_any w)) c

  Within-le :
      (max : ℕ) {fields : Entries} {n : ℕ} → Within fields n → 1 + n ≤ depth_entries max fields
  Within-le max (first_field {k} {w} {rest} c) =
      let here = Chain-le c in
      let later = grows_entries (raise max (depth_any w)) rest in ground (arith, here, later)
  Within-le max (later_field {k} {w} c) = Within-le (raise max (depth_any w)) c

raised : (max d : ℕ) → (raise max d ≡ max) ⊎ (raise max d ≡ 1 + d)
raised max d = ground arith

mutual
  unfolding depth_any

  longest : (v : Json) → Chain v (depth_any v)
  longest scalar = alone
  longest (array items) = elim (longest_item 1 items) [
    | inl e ↦ subst (Chain (array items)) (sym e) alone
    | inr (n, c, e) ↦ subst (Chain (array items)) e (in_array c)
  ]
  longest (object fields) = elim (longest_field 1 fields) [
    | inl e ↦ subst (Chain (object fields)) (sym e) alone
    | inr (n, c, e) ↦ subst (Chain (object fields)) e (in_object c)
  ]

  longest_item :
      (max : ℕ) (items : Items)
      → (depth_items max items ≡ max) ⊎ ((n : ℕ) × Among items n × (1 + n ≡ depth_items max items))
  longest_item max no_items = inl refl
  longest_item max (item w rest) = elim (longest_item (raise max (depth_any w)) rest) [
    | inr (n, c, e) ↦ inr (n, later_item c, e)
    | inl e ↦ elim (raised max (depth_any w)) [
      | inl kept ↦ inl (e ∙ kept)
      | inr grown ↦ inr (depth_any w, first_item (longest w), sym (e ∙ grown))
    ]
  ]

  longest_field :
      (max : ℕ) (fields : Entries)
      → (depth_entries max fields ≡ max)
        ⊎ ((n : ℕ) × Within fields n × (1 + n ≡ depth_entries max fields))
  longest_field max no_entries = inl refl
  longest_field max (entry k w rest) = elim (longest_field (raise max (depth_any w)) rest) [
    | inr (n, c, e) ↦ inr (n, later_field c, e)
    | inl e ↦ elim (raised max (depth_any w)) [
      | inl kept ↦ inl (e ∙ kept)
      | inr grown ↦ inr (depth_any w, first_field (longest w), sym (e ∙ grown))
    ]
  ]

-- depthAny is the length of the longest chain of nested values.
pub depth_any-longest : (v : Json) → Chain v (depth_any v) × ((n : ℕ) → Chain v n → n ≤ depth_any v)
depth_any-longest v = (longest v, λ n c. Chain-le c)

bounded :
    (c : Codecs) (payload : Bytes) (v w : Json) (n max_depth : ℕ)
    → c.unmarshal payload ≡ some v
    → c.unmarshal payload ≡ some w
    → Chain w n
    → depth_any v ≤ max_depth
    → n ≤ max_depth
bounded c payload v w n max_depth p q d h =
    let same : w ≡ v = cc in omega (arith, Chain-le d, ap depth_any same)

-- A payload passes the caps exactly if it has at most `max_bytes` bytes and, where a depth cap above 0
-- is set and the payload is JSON, holds no chain of more than `max_depth` nested values.
pub enforce_delta_caps_iff :
    (c : Codecs) (payload : Bytes) (max_bytes max_depth : ℕ)
    → (enforce_delta_caps c payload (pos max_bytes) (pos max_depth) ≡ ok tt) ↔ (
        (length payload ≤ max_bytes)
        × ((max_depth ≡ 0)
            ⊎ ((v : Json) (n : ℕ) → c.unmarshal payload ≡ some v → Chain v n → n ≤ max_depth)))
unfolding enforce_delta_caps
enforce_delta_caps_iff c payload max_bytes max_depth = elim (Option-cases (c.unmarshal payload)) [
  | inl refused ↦ rw refused (ground arith)
  | inr (v, parsed) ↦
      let (chain, above) = depth_any-longest v in
      let fits : (depth_any v ≤ max_depth)
          ↔ ((w : Json) (n : ℕ) → c.unmarshal payload ≡ some w → Chain w n → n ≤ max_depth) =
        (
          λ h w n e d. bounded c payload v w n max_depth parsed e d h,
          λ h. h v (depth_any v) parsed chain,
        ) in
      rw parsed (ground (arith, fits))
]
