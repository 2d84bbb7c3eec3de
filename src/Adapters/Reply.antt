-- ===== src/Adapters/Reply.antt =====
-- The end of internal/oracle/adapter_minimax.go: what is made of the text that the language model
-- answers with, before it is read as JSON or shown.
pub mod Think
pub mod Object
pub mod Fence
mod Tests
use meshyants.Base.{
  ℕ, zero, suc, ◌+◌, ◌-◌, Bytes, ltb, leb, eqb, not, ◌&&◌, Bool, true, false, is_empty, Option,
  none, some, List, [], ◌∷◌, ◌++◌, length, take, drop, if◌then◌else◌,
}
use meshyants.Text.{Unicode, codes, has_prefix, trim_space}
use meshyants.Text.Index.{index, last_index, trim_prefix, trim_left}

unfoldable pub truncate_for_err : Bytes → ℕ → Bytes
truncate_for_err b max = if leb (length b) max then b else take max b ++ codes "..."

abbrev pub think_open : Bytes
think_open = codes "<think>"

abbrev pub think_close : Bytes
think_close = codes "</think>"

abbrev pub thinking_open : Bytes
thinking_open = codes "<thinking>"

abbrev pub thinking_close : Bytes
thinking_close = codes "</thinking>"

abbrev pub reasoning_open : Bytes
reasoning_open = codes "<reasoning>"

abbrev pub reasoning_close : Bytes
reasoning_close = codes "</reasoning>"

abbrev pub cut : Bytes → Bytes → Option ℕ → Option ℕ → Option Bytes
cut closing s none end = none
cut closing s (some start) none = none
cut closing s (some start) (some end) =
    if ltb end start then none else some (take start s ++ drop (end + length closing) s)

-- One round of the inner loop of stripThinkTags; `none` is a break.
unfoldable pub strip_round : Bytes → Bytes → Bytes → Option Bytes
strip_round opening closing s = cut closing s (index s opening) (index s closing)

-- The inner loop, on fuel.
unfoldable pub strip_pair : ℕ → Bytes → Bytes → Bytes → Bytes
strip_pair zero opening closing s = s
strip_pair (suc fuel) opening closing s = elim (strip_round opening closing s) [
  | none ↦ s
  | some t ↦ strip_pair fuel opening closing t
]

-- A round takes at least the closing tag away, so that the length of the text is fuel enough.
abbrev pub strip_all : Bytes → Bytes → Bytes → Bytes
strip_all opening closing s = strip_pair (length s) opening closing s

unfoldable pub strip_think_tags : Unicode → Bytes → Bytes
unfolding strip_pair strip_round
strip_think_tags u s =
    let s1 = strip_all think_open think_close s in
    let s2 = strip_all thinking_open thinking_close s1 in
    let s3 = strip_all reasoning_open reasoning_close s2 in trim_space u s3

-- The loop of extractJSONObject, from the first brace on: the bytes up to the brace that brings the
-- depth back to 0, and "" where none does.
abbrev pub before_rest : ℕ → Option Bytes → Option Bytes
before_rest c none = none
before_rest c (some r) = some (c ∷ r)

unfoldable pub scan_object : ℕ → Bytes → Option Bytes
scan_object depth [] = none
scan_object depth (c ∷ s) = elim (eqb c b'{') [
  | true ↦ before_rest c (scan_object (depth + 1) s)
  | false ↦ elim (eqb c b'}') [
    | true ↦ elim (eqb depth 1) [
      | true ↦ some (c ∷ [])
      | false ↦ before_rest c (scan_object (depth - 1) s)
    ]
    | false ↦ before_rest c (scan_object depth s)
  ]
]

abbrev pub from_start : Bytes → Option ℕ → Option Bytes
from_start s none = none
from_start s (some start) = scan_object 0 (drop start s)

-- extractJSONObject; `none` stands for "".
unfoldable pub extract_json_object : Bytes → Option Bytes
unfolding scan_object
extract_json_object s = from_start s (index s (b'{' ∷ []))

-- Without the rest of the first line, if that is neither empty nor the start of a value.
abbrev pub drop_language : Unicode → Bytes → Option ℕ → Bytes
drop_language u s none = s
drop_language u s (some nl) =
    let first = trim_space u (take nl s) in
    if not (is_empty first)
      && (not (has_prefix (codes "{") first) && not (has_prefix (codes "[") first))
    then drop (nl + 1) s
    else s

abbrev pub before_fence : Bytes → Option ℕ → Bytes
before_fence s none = s
before_fence s (some i) = take i s

abbrev pub fence : Bytes
fence = codes "```"

-- stripMarkdownCodeFence once the opening fence is known and taken off.
abbrev pub inside_fence : Unicode → Bytes → Bytes
inside_fence u s =
    let s1 = trim_left s (13 ∷ 10 ∷ 9 ∷ 32 ∷ []) in
    let s2 = drop_language u s1 (index s1 (10 ∷ [])) in
    let s3 = trim_space u s2 in trim_space u (before_fence s3 (last_index s3 fence))

unfoldable pub strip_markdown_code_fence : Unicode → Bytes → Bytes
strip_markdown_code_fence u s =
    let t = trim_space u s in
    if not (has_prefix fence t) then t else inside_fence u (trim_prefix t fence)

unfoldable pub normalize_minimax_plain_text : Unicode → Bytes → Bytes
unfolding strip_markdown_code_fence strip_think_tags
normalize_minimax_plain_text u s =
    let s1 = trim_space u s in
    let s2 = strip_markdown_code_fence u s1 in
    let s3 = trim_space u s2 in let s4 = strip_think_tags u s3 in trim_space u s4

abbrev pub or_whole : Bytes → Option Bytes → Bytes
or_whole s none = s
or_whole s (some obj) = obj

unfoldable pub normalize_minimax_json_payload : Unicode → Bytes → Bytes
unfolding strip_markdown_code_fence strip_think_tags extract_json_object
normalize_minimax_json_payload u s =
    let s1 = trim_space u s in
    let s2 = strip_markdown_code_fence u s1 in
    let s3 = trim_space u s2 in
    let s4 = strip_think_tags u s3 in
    let s5 = trim_space u s4 in
    if has_prefix (codes "{") s5 then s5 else or_whole s5 (extract_json_object s5)
