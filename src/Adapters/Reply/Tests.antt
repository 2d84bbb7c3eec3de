-- ===== src/Adapters/Reply/Tests.antt =====
-- Answers of a language model for internal/oracle/adapter_minimax.go.
use meshyants.Base.{◌≤◌, ◌≡◌, ◌↔◌, refl, Bytes, none, some, length, arith}
use meshyants.Text.{codes, has_prefix}
use meshyants.Text.Index.{index}
use meshyants.Adapters.Reply.{
  think_open, think_close, strip_round, strip_pair, strip_all, scan_object, extract_json_object,
}
use meshyants.Adapters.Reply.Think.{strip_all_done}
use meshyants.Adapters.Reply.Object.{FirstObject, extract_json_object_iff}

-- Two thoughts around a word.
abbrev thoughts : Bytes
thoughts = codes "<think>a</think>b<think>c</think>"

strip_all_done_example :
    (strip_round think_open think_close (strip_all think_open think_close thoughts) ≡ none)
    × (length (strip_all think_open think_close thoughts) ≤ length thoughts)
strip_all_done_example = strip_all_done think_open think_close thoughts (omega arith)

thoughts_stripped : strip_all think_open think_close thoughts ≡ codes "b"
unfolding strip_pair strip_round index has_prefix
thoughts_stripped = refl

-- A closing tag before the thought keeps the thought in the text.
stray_kept :
    strip_all think_open think_close (codes "</think><think>c</think>")
    ≡ codes "</think><think>c</think>"
unfolding strip_pair strip_round index has_prefix
stray_kept = refl

extract_json_object_iff_example :
    (extract_json_object (codes "say {a{b}c} now") ≡ some (codes "{a{b}c}"))
    ↔ FirstObject (codes "say {a{b}c} now") (codes "{a{b}c}")
extract_json_object_iff_example =
    extract_json_object_iff (codes "say {a{b}c} now") (codes "{a{b}c}")

nested_extracted : extract_json_object (codes "say {a{b}c} now") ≡ some (codes "{a{b}c}")
unfolding extract_json_object scan_object index has_prefix
nested_extracted = refl

-- A brace in a JSON string counts like any other.
string_brace_cut : extract_json_object (codes "x {\"a\":\"}\"}") ≡ some (codes "{\"a\":\"}")
unfolding extract_json_object scan_object index has_prefix
string_brace_cut = refl
