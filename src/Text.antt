-- ===== src/Text.antt =====
-- The functions of Go's package strings that the program calls, on the bytes of a text. On ASCII they
-- are written out; where a byte of 128 or more stands, Go goes by the tables of Unicode, which are a
-- parameter.
pub mod Search
pub mod Decimal
pub mod Index
pub mod Trim
use mathlib.Core.List.{reverse}
use meshyants.Base.{
  ℕ, ◌+◌, Bytes, String, list_eq, nat_eq, ◌==◌, ltb, leb, eqb, Bool, true, false, ◌&&◌, ◌||◌, List,
  [], ◌∷◌, map, if◌then◌else◌,
}
use Prim.Native.Char.{code}
use Prim.Native.String

-- The bytes of an ASCII literal.
abbrev pub codes : String → Bytes
codes String.[] = []
codes (String.◌∷◌ c s) = code c ∷ codes s

-- `lower`, `trim` and `trim_right` are ToLower, TrimFunc and TrimRightFunc by unicode.IsSpace on texts
-- that are not ASCII; `fold_eq` is EqualFold where a text is not ASCII.
pub record Unicode : Type 0 where
  pub lower : Bytes → Bytes
  pub trim : Bytes → Bytes
  pub trim_right : Bytes → Bytes
  pub fold_eq : Bytes → Bytes → Bool

unfoldable pub is_ascii : Bytes → Bool
is_ascii [] = true
is_ascii (c ∷ s) = let rest = is_ascii s in ltb c 128 && rest

unfoldable pub lower_byte : ℕ → ℕ
lower_byte c = if leb b'A' c && leb c b'Z' then c + 32 else c

unfoldable pub to_lower : Unicode → Bytes → Bytes
unfolding is_ascii
to_lower u s = if is_ascii s then map lower_byte s else u.lower s

abbrev pub is_space : ℕ → Bool
is_space c = leb 9 c && leb c 13 || eqb c 32

-- The second loop of TrimSpace, on the reversed text.
unfoldable pub trim_end : Unicode → Bytes → Bytes
trim_end u [] = []
trim_end u (c ∷ s) =
    let rest = trim_end u s in
    if leb 128 c
    then u.trim_right (reverse (c ∷ s))
    else if is_space c
    then rest
    else reverse (c ∷ s)

-- strings.TrimSpace
unfoldable pub trim_space : Unicode → Bytes → Bytes
unfolding trim_end
trim_space u [] = []
trim_space u (c ∷ s) =
    let rest = trim_space u s in
    if leb 128 c then u.trim (c ∷ s) else if is_space c then rest else trim_end u (reverse (c ∷ s))

unfoldable pub has_prefix : Bytes → Bytes → Bool
has_prefix [] s = true
has_prefix (p ∷ ps) [] = false
has_prefix (p ∷ ps) (c ∷ s) = let rest = has_prefix ps s in eqb p c && rest

-- strings.Contains(s, sub)
unfoldable pub contains : Bytes → Bytes → Bool
unfolding has_prefix
contains [] sub = has_prefix sub []
contains (c ∷ s) sub = let rest = contains s sub in has_prefix sub (c ∷ s) || rest

-- strings.EqualFold
unfoldable pub equal_fold : Unicode → Bytes → Bytes → Bool
unfolding is_ascii
equal_fold u s t =
    if is_ascii s && is_ascii t then map lower_byte s == map lower_byte t else u.fold_eq s t

-- Tables that know no letter and no space beyond ASCII.
abbrev pub ascii_only : Unicode
ascii_only = record {
  lower = λ s. map lower_byte s;
  trim = λ s. s;
  trim_right = λ s. s;
  fold_eq = λ s t. s == t;
}
