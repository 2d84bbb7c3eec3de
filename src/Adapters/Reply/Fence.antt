-- ===== src/Adapters/Reply/Fence.antt =====
-- normalizeMiniMaxJSONPayload of internal/oracle/adapter_minimax.go on the answer that a model gives
-- most often where it is asked for JSON alone: an object in a Markdown fence.
use mathlib.Core.List.{append_assoc}
use meshyants.Base.{
  ℕ, ◌≡◌, ◌≢◌, refl, sym, ap, ◌∙◌, Bytes, some, [], ◌∷◌, ◌++◌, All, All-append, if◌then◌else◌, not,
  length, take-length_append, arith,
}
use meshyants.Text.{Unicode, codes, has_prefix, trim_space, trim_end}
use meshyants.Text.Index.{index, last_index, trim_prefix, trim_left}
use meshyants.Text.Trim.{IsSolid, trim_space-solid, trim_space-space}
use meshyants.Adapters.Reply.{
  or_whole, strip_think_tags, extract_json_object, fence, before_fence, inside_fence,
  strip_markdown_code_fence, normalize_minimax_json_payload,
}
use meshyants.Adapters.Reply.Think.{strip_think_tags_clean}

-- The text of an object, and that text in its fence.
abbrev pub object : Bytes → Bytes
object m = (b'{' ∷ m) ++ (b'}' ∷ [])

abbrev pub fenced : Bytes → Bytes
fenced m = codes "```json" ++ (10 ∷ (object m ++ (10 ∷ fence)))

last_index-fence : (s : Bytes) → last_index (s ++ fence) fence ≡ some (length s)
unfolding last_index has_prefix
last_index-fence [] = refl
last_index-fence (c ∷ s) = rw (last_index-fence s) refl

trim-object : (u : Unicode) (m : Bytes) → trim_space u (object m) ≡ object m
trim-object u m = trim_space-solid u b'{' m b'}' (refl, refl) (refl, refl)

trim_tight :
    (u : Unicode) (w : Bytes) (c : ℕ) (m : Bytes) (d : ℕ)
    → w ≡ (c ∷ m) ++ (d ∷ [])
    → IsSolid c
    → IsSolid d
    → trim_space u w ≡ w
trim_tight u w c m d e h k = ap (trim_space u) e ∙ trim_space-solid u c m d h k ∙ sym e

trim-fenced : (u : Unicode) (m : Bytes) → trim_space u (fenced m) ≡ fenced m
trim-fenced u m =
    trim_tight u (fenced m) 96 (codes "``json" ++ (10 ∷ (object m ++ (10 ∷ 96 ∷ 96 ∷ [])))) 96
      (ap (λ x. codes "```json" ++ (10 ∷ x))
        (sym (append_assoc (object m) (10 ∷ 96 ∷ 96 ∷ []) (96 ∷ []))))
      (refl, refl) (refl, refl)

-- What follows the line of the opening fence.
abbrev after_language : Bytes → Bytes
after_language m = object m ++ (10 ∷ fence)

trim-after_language : (u : Unicode) (m : Bytes) → trim_space u (after_language m) ≡ after_language m
trim-after_language u m =
    trim_tight u (after_language m) b'{' (m ++ (b'}' ∷ 10 ∷ 96 ∷ 96 ∷ [])) 96
      (ap (λ x. b'{' ∷ x)
        (append_assoc m (b'}' ∷ []) (10 ∷ fence)
          ∙ sym (append_assoc m (b'}' ∷ 10 ∷ 96 ∷ 96 ∷ []) (96 ∷ []))))
      (refl, refl) (refl, refl)

before-fence :
    (m : Bytes)
    → before_fence (after_language m) (last_index (after_language m) fence) ≡ object m ++ (10 ∷ [])
before-fence m =
    let e : after_language m ≡ (object m ++ (10 ∷ [])) ++ fence =
      sym (append_assoc (object m) (10 ∷ []) fence) in
    ap (λ s. before_fence s (last_index s fence)) e
    ∙ ap (before_fence ((object m ++ (10 ∷ [])) ++ fence))
        (last_index-fence (object m ++ (10 ∷ [])))
    ∙ take-length_append (object m ++ (10 ∷ [])) fence

inside-object :
    (u : Unicode) (m : Bytes)
    → inside_fence u (codes "json" ++ (10 ∷ (object m ++ (10 ∷ fence)))) ≡ object m
unfolding trim_left index has_prefix trim_space trim_end
inside-object u m =
    ap (λ s. trim_space u (before_fence s (last_index s fence))) (trim-after_language u m)
    ∙ ap (trim_space u) (before-fence m)
    ∙ trim_space-space u b'{' m b'}' 10 (refl, refl) (refl, refl) refl refl

strip-fenced : (u : Unicode) (m : Bytes) → strip_markdown_code_fence u (fenced m) ≡ object m
unfolding strip_markdown_code_fence has_prefix
strip-fenced u m =
    ap (λ t. if not (has_prefix fence t) then t else inside_fence u (trim_prefix t fence))
      (trim-fenced u m)
    ∙ inside-object u m

object-clean : (m : Bytes) → All (λ y. y ≢ b'<') m → All (λ y. y ≢ b'<') (object m)
object-clean m h = (
  (λ e. ground (arith, e)),
  All-append (λ y. y ≢ b'<') m (b'}' ∷ []) h ((λ e. ground (arith, e)), tt),
)

-- What normalizeMiniMaxJSONPayload makes of a text whose fence is off.
normalize-stripped :
    (u : Unicode) (m s : Bytes)
    → All (λ y. y ≢ b'<') m
    → strip_markdown_code_fence u (trim_space u s) ≡ object m
    → normalize_minimax_json_payload u s ≡ object m
unfolding normalize_minimax_json_payload has_prefix
normalize-stripped u m s h s2 =
    let whole = trim-object u m in
    let s3 = ap (trim_space u) s2 ∙ whole in
    let s4 =
      ap (strip_think_tags u) s3 ∙ strip_think_tags_clean u (object m) (object-clean m h) ∙ whole in
    ap (λ t. if has_prefix (codes "{") t then t else or_whole t (extract_json_object t))
      (ap (trim_space u) s4 ∙ whole)

-- An object without "<" inside a fence that names the language json comes out of
-- normalizeMiniMaxJSONPayload as it went in, whatever else is in it.
pub normalize-fenced :
    (u : Unicode) (m : Bytes)
    → All (λ y. y ≢ b'<') m
    → normalize_minimax_json_payload u (fenced m) ≡ object m
normalize-fenced u m h =
    normalize-stripped u m (fenced m) h
      (ap (strip_markdown_code_fence u) (trim-fenced u m) ∙ strip-fenced u m)

strip-object : (u : Unicode) (m : Bytes) → strip_markdown_code_fence u (object m) ≡ object m
unfolding strip_markdown_code_fence has_prefix
strip-object u m =
    ap (λ t. if not (has_prefix fence t) then t else inside_fence u (trim_prefix t fence))
      (trim-object u m)

pub normalize-object :
    (u : Unicode) (m : Bytes)
    → All (λ y. y ≢ b'<') m
    → normalize_minimax_json_payload u (object m) ≡ object m
normalize-object u m h =
    normalize-stripped u m (object m) h
      (ap (strip_markdown_code_fence u) (trim-object u m) ∙ strip-object u m)
