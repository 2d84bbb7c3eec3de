-- ===== src/Text/Trim.antt =====
-- TrimSpace on texts whose ends are in ASCII and not spaces.
use mathlib.Core.List.{reverse, reverse-append, reverse-reverse}
use meshyants.Base.{ℕ, ◌≡◌, refl, sym, ap, ◌∙◌, Bytes, leb, true, false, [], ◌∷◌, ◌++◌}
use meshyants.Text.{Unicode, is_space, trim_end, trim_space}

-- A byte at which no trimming goes on.
abbrev pub IsSolid : ℕ → Type 0
IsSolid c = (leb 128 c ≡ false) × (is_space c ≡ false)

trim_end-solid :
    (u : Unicode) (d : ℕ) (s : Bytes) → IsSolid d → trim_end u (d ∷ s) ≡ reverse (d ∷ s)
unfolding trim_end
trim_end-solid u d s (low, solid) = rw (low) (rw solid refl)

trim_space-start :
    (u : Unicode) (c : ℕ) (s : Bytes)
    → IsSolid c
    → trim_space u (c ∷ s) ≡ trim_end u (reverse (c ∷ s))
unfolding trim_space
trim_space-start u c s (low, solid) = rw low (rw solid refl)

-- A text that starts and ends solid is left alone.
pub trim_space-solid :
    (u : Unicode) (c : ℕ) (m : Bytes) (d : ℕ)
    → IsSolid c
    → IsSolid d
    → trim_space u ((c ∷ m) ++ (d ∷ [])) ≡ (c ∷ m) ++ (d ∷ [])
trim_space-solid u c m d h k =
    trim_space-start u c (m ++ (d ∷ [])) h
    ∙ ap (trim_end u) (reverse-append (c ∷ m) (d ∷ []))
    ∙ trim_end-solid u d (reverse (c ∷ m)) k
    ∙ ap reverse (sym (reverse-append (c ∷ m) (d ∷ [])))
    ∙ reverse-reverse ((c ∷ m) ++ (d ∷ []))

trim_end_space :
    (u : Unicode) (x : ℕ) (s : Bytes)
    → leb 128 x ≡ false
    → is_space x ≡ true
    → trim_end u (x ∷ s) ≡ trim_end u s
unfolding trim_end
trim_end_space u x s low space = rw low (rw space refl)

-- A space behind such a text is trimmed.
pub trim_space-space :
    (u : Unicode) (c : ℕ) (m : Bytes) (d x : ℕ)
    → IsSolid c
    → IsSolid d
    → leb 128 x ≡ false
    → is_space x ≡ true
    → trim_space u (((c ∷ m) ++ (d ∷ [])) ++ (x ∷ [])) ≡ (c ∷ m) ++ (d ∷ [])
trim_space-space u c m d x h k low space =
    let w = (c ∷ m) ++ (d ∷ []) in
    trim_space-start u c ((m ++ (d ∷ [])) ++ (x ∷ [])) h
    ∙ ap (trim_end u) (reverse-append w (x ∷ []))
    ∙ trim_end_space u x (reverse w) low space
    ∙ sym (trim_space-start u c (m ++ (d ∷ [])) h)
    ∙ trim_space-solid u c m d h k
