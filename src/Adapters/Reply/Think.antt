-- ===== src/Adapters/Reply/Think.antt =====
-- The inner loop of stripThinkTags in internal/oracle/adapter_minimax.go ends, and what it takes away.
use meshyants.Base.{
  ℕ, zero, suc, ◌+◌, ◌≤◌, ◌<◌, ◌≡◌, ◌≢◌, refl, ap, ◌∙◌, Bytes, ltb, inl, inr, false, Option-cases,
  none, some, [], ◌∷◌, ◌++◌, All, All-append, length, length-append, take-length_append,
  drop-length_add, length-drop, take, drop, arith,
}
use meshyants.Text.{Unicode, has_prefix, trim_space}
use meshyants.Text.Index.{index, index-le, index-append, index-here, index_absent}
use meshyants.Adapters.Reply.{
  cut, strip_round, strip_pair, strip_all, think_open, think_close, thinking_open, thinking_close,
  reasoning_open, reasoning_close, strip_think_tags,
}

length-take_le : (n : ℕ) (s : Bytes) → length (take n s) ≤ n
length-take_le zero s = omega arith
length-take_le (suc n) [] = omega arith
length-take_le (suc n) (c ∷ s) = omega (arith, length-take_le n s)

-- A round that does not break leaves a text shorter by the closing tag at least.
strip_round-shorter :
    (opening closing s t : Bytes)
    → strip_round opening closing s ≡ some t
    → length t + length closing ≤ length s
unfolding strip_round
strip_round-shorter opening closing s t h = elim (Option-cases (index s opening)) [
  | inl e ↦ absurd (ground (arith, h, e))
  | inr (start, e) ↦ elim (Option-cases (index s closing)) [
    | inl e' ↦ absurd (ground (arith, h, e, e'))
    | inr (end, e') ↦
        let inside = index-le s closing end e' in
        ground (
          arith,
          h,
          e,
          e',
          inside,
          length-append (take start s) (drop (end + length closing) s),
          length-take_le start s,
          length-drop (end + length closing) s,
        )
  ]
]

strip_pair_done :
    (fuel : ℕ) (opening closing s : Bytes)
    → 0 < length closing
    → length s ≤ fuel
    → strip_round opening closing (strip_pair fuel opening closing s) ≡ none
unfolding strip_pair
strip_pair_done zero opening closing s h f = elim (Option-cases (strip_round opening closing s)) [
  | inl e ↦ e
  | inr (t, e) ↦ absurd (omega (arith, h, f, strip_round-shorter opening closing s t e))
]
strip_pair_done (suc fuel) opening closing s h f =
    elim (Option-cases (strip_round opening closing s)) [
      | inl e ↦ rw (e, strip_pair) e
      | inr (t, e) ↦
          rw (e, strip_pair)
            (strip_pair_done fuel opening closing t h
              (omega (arith, h, f, strip_round-shorter opening closing s t e)))
    ]

strip_pair-le :
    (fuel : ℕ) (opening closing s : Bytes) → length (strip_pair fuel opening closing s) ≤ length s
unfolding strip_pair
strip_pair-le zero opening closing s = omega arith
strip_pair-le (suc fuel) opening closing s = elim (Option-cases (strip_round opening closing s)) [
  | inl e ↦ rw (e, strip_pair) (omega arith)
  | inr (t, e) ↦
      rw (e, strip_pair)
        (omega
          (arith, strip_pair-le fuel opening closing t, strip_round-shorter opening closing s t e))
]

-- For every text and every pair of tags with a closing tag that is not empty, the loop ends by its
-- break: it finds no opening tag, no closing tag, or the first closing tag before the first opening
-- tag. The text never grows.
pub strip_all_done :
    (opening closing s : Bytes)
    → 0 < length closing
    → (strip_round opening closing (strip_all opening closing s) ≡ none)
      × (length (strip_all opening closing s) ≤ length s)
strip_all_done opening closing s h = (
  strip_pair_done (length s) opening closing s h (omega arith),
  strip_pair-le (length s) opening closing s,
)

-- Tags that start with the same byte and differ in the second one, as all three pairs.
module _ (x a b : ℕ) (o c : Bytes) where
  abbrev opening : Bytes
  opening = x ∷ a ∷ o

  abbrev closing : Bytes
  closing = x ∷ b ∷ c

  index-past_opening :
      (s : Bytes) (k : ℕ)
      → a ≢ b
      → index ((a ∷ o) ++ s) closing ≡ some k
      → index (opening ++ s) closing ≡ some (suc k)
  unfolding index has_prefix
  index-past_opening s k differ found = ground (arith, found)

  abbrev text : Bytes → Bytes → Bytes → Bytes
  text before body after = before ++ (opening ++ (body ++ (closing ++ after)))

  drop-text :
      (before body after : Bytes) (n : ℕ)
      → n ≡ length before + (length opening + (length body + (length closing + 0)))
      → drop n (text before body after) ≡ after
  drop-text before body after n e = rw e (
      drop-length_add before _ (opening ++ (body ++ (closing ++ after)))
      ∙ drop-length_add opening _ (body ++ (closing ++ after))
      ∙ drop-length_add body _ (closing ++ after)
      ∙ drop-length_add closing 0 after)

  cut-text :
      (before body after : Bytes) (end start : ℕ)
      → start ≡ length before
      → end ≡ length before + (length opening + (length body + 0))
      → cut closing (text before body after) (some start) (some end) ≡ some (before ++ after)
  cut-text before body after end start e f =
      let in_order : ltb end start ≡ false = ground (arith, e, f) in
      rw (in_order, e)
        (ap some (
          rw (take-length_append before (opening ++ (body ++ (closing ++ after))))
            (ap (λ t. before ++ t) (drop-text before body after _ (omega (arith, f))))))

  strip_round-block :
      (before body after : Bytes)
      → a ≢ b
      → All (λ y. y ≢ x) (a ∷ o)
      → All (λ y. y ≢ x) before
      → All (λ y. y ≢ x) body
      → strip_round opening closing (text before body after) ≡ some (before ++ after)
  unfolding strip_round
  strip_round-block before body after differ tag f g =
      let rest = opening ++ (body ++ (closing ++ after)) in
      let inner = index-append x (b ∷ c) body (closing ++ after) 0 g (index-here x (b ∷ c) after) in
      let past = index-append x (b ∷ c) (a ∷ o) (body ++ (closing ++ after)) _ tag inner in
      let end =
        index-append x (b ∷ c) before rest _ f
          (index-past_opening (body ++ (closing ++ after)) _ differ past) in
      let start =
        index-append x (a ∷ o) before rest 0 f
          (index-here x (a ∷ o) (body ++ (closing ++ after))) in
      rw (start, end) (cut-text before body after _ _ (omega arith) (omega arith))

  -- Without the tags' first byte nothing is taken.
  strip_pair-clean :
      (fuel : ℕ) (s : Bytes) → All (λ y. y ≢ x) s → strip_pair fuel opening closing s ≡ s
  unfolding strip_pair strip_round
  strip_pair-clean zero s h = refl
  strip_pair-clean (suc fuel) s h = rw (index_absent x (a ∷ o) s h, strip_pair) refl

  strip_pair-block :
      (fuel : ℕ) (before body after : Bytes)
      → 0 < fuel
      → a ≢ b
      → All (λ y. y ≢ x) (a ∷ o)
      → All (λ y. y ≢ x) before
      → All (λ y. y ≢ x) body
      → All (λ y. y ≢ x) after
      → strip_pair fuel opening closing (text before body after) ≡ before ++ after
  unfolding strip_pair
  strip_pair-block zero before body after some_fuel differ tag f g h =
      absurd (omega (arith, some_fuel))
  strip_pair-block (suc fuel) before body after some_fuel differ tag f g h =
      rw (strip_round-block before body after differ tag f g, strip_pair)
        (strip_pair-clean fuel (before ++ after) (All-append (λ y. y ≢ x) before after f h))

  strip_all-block :
      (before body after : Bytes)
      → a ≢ b
      → All (λ y. y ≢ x) (a ∷ o)
      → All (λ y. y ≢ x) before
      → All (λ y. y ≢ x) body
      → All (λ y. y ≢ x) after
      → strip_all opening closing (text before body after) ≡ before ++ after
  strip_all-block before body after differ tag f g h =
      strip_pair-block (length (text before body after)) before body after
        (omega (arith, length-append before (opening ++ (body ++ (closing ++ after))))) differ tag f
        g h

-- A text without "<" is only trimmed.
pub strip_think_tags_clean :
    (u : Unicode) (s : Bytes) → All (λ y. y ≢ b'<') s → strip_think_tags u s ≡ trim_space u s
unfolding strip_think_tags
strip_think_tags_clean u s h =
    rw (strip_pair-clean b'<' b't' b'/' (drop 2 think_open) (drop 2 think_close) (length s) s h) (
      rw
        (strip_pair-clean b'<' b't' b'/' (drop 2 thinking_open) (drop 2 thinking_close) (length s) s
          h)
        (rw
          (strip_pair-clean b'<' b'r' b'/' (drop 2 reasoning_open) (drop 2 reasoning_close)
            (length s) s h)
          refl))

-- A text with one block between <think> and </think>, and no other "<" in it or around it, is stripped
-- to what stands before and after the block, trimmed.
pub strip_think_tags_block :
    (u : Unicode) (before body after : Bytes)
    → All (λ y. y ≢ b'<') before
    → All (λ y. y ≢ b'<') body
    → All (λ y. y ≢ b'<') after
    → strip_think_tags u (before ++ (think_open ++ (body ++ (think_close ++ after))))
      ≡ trim_space u (before ++ after)
unfolding strip_think_tags
strip_think_tags_block u before body after f g h =
    let clean = All-append (λ y. y ≢ b'<') before after f h in
    let first =
      strip_all-block b'<' b't' b'/' (drop 2 think_open) (drop 2 think_close) before body after
        (λ e. ground (arith, e)) (ground arith) f g h in
    ap
      (λ t.
        trim_space u
          (strip_all reasoning_open reasoning_close (strip_all thinking_open thinking_close t)))
      first
    ∙ ap (λ t. trim_space u (strip_all reasoning_open reasoning_close t))
        (strip_pair-clean b'<' b't' b'/' (drop 2 thinking_open) (drop 2 thinking_close) _ _ clean)
    ∙ ap (λ t. trim_space u t)
        (strip_pair-clean b'<' b'r' b'/' (drop 2 reasoning_open) (drop 2 reasoning_close) _ _ clean)
