-- ===== src/Edit/Lines.antt =====
-- Lines of a text: `split_inclusive('\n')`, `str::lines` and `strip_final_newline`.
use ferrite_mcp.Prelude.{
  ℕ, ◌≡◌, refl, ap, ◌∙◌, Bool, true, not, ◌&&◌, List, [], ◌∷◌, ◌++◌, map, append_assoc, ◌==◌,
  if◌then◌else◌, arith, Bool-cases, inl, inr, Text,
}

-- a first char in front of the lines of the rest
unfoldable pub join_first : ℕ → List Text → List Text
join_first c [] = (c ∷ []) ∷ []
join_first c (l ∷ ls) = (c ∷ l) ∷ ls

unfoldable pub split_inclusive : Text → List Text
unfolding join_first
split_inclusive [] = []
split_inclusive (c ∷ s) =
    let rest = split_inclusive s in if c == b'\n' then (c ∷ []) ∷ rest else join_first c rest

-- `strip_suffix('\n')` and, behind it, an optional `strip_suffix('\r')`
unfoldable pub strip_final_newline : Text → Text
strip_final_newline [] = []
strip_final_newline (c ∷ []) = if c == b'\n' then [] else c ∷ []
strip_final_newline (c ∷ d ∷ []) =
    if c == b'\r' && d == b'\n' then [] else if d == b'\n' then c ∷ [] else c ∷ d ∷ []
strip_final_newline (c ∷ d ∷ e ∷ s) = c ∷ strip_final_newline (d ∷ e ∷ s)

unfoldable pub lines : Text → List Text
unfolding split_inclusive strip_final_newline
lines t = map strip_final_newline (split_inclusive t)

unfoldable pub concat : List Text → Text
concat [] = []
concat (l ∷ ls) = l ++ concat ls

concat-join_first : (c : ℕ) (ls : List Text) → concat (join_first c ls) ≡ c ∷ concat ls
unfolding concat join_first
concat-join_first c [] = refl
concat-join_first c (l ∷ ls) = refl

-- The lines of a text are the text.
pub concat-split_inclusive : (t : Text) → concat (split_inclusive t) ≡ t
unfolding concat split_inclusive
concat-split_inclusive [] = refl
concat-split_inclusive (c ∷ t) = elim (Bool-cases (c == b'\n')) [
  | inl ends ↦ rw ends (ap (◌∷◌ c) (concat-split_inclusive t))
  | inr inside ↦
      rw inside (concat-join_first c (split_inclusive t) ∙ ap (◌∷◌ c) (concat-split_inclusive t))
]

-- neither `\n` nor `\r` in it
abbrev pub is_plain : Text → Bool
is_plain [] = true
is_plain (c ∷ s) = not (c == b'\n') && not (c == b'\r') && is_plain s

abbrev pub with_newline : Text → Text
with_newline l = l ++ b'\n' ∷ []

pub split_inclusive-line :
    (l t : Text)
    → is_plain l ≡ true
    → split_inclusive (l ++ b'\n' ∷ t) ≡ with_newline l ∷ split_inclusive t
unfolding split_inclusive join_first
split_inclusive-line [] t h = refl
split_inclusive-line (c ∷ l) t h = ground (arith, split_inclusive-line l t)

pub strip_final_newline-line :
    (l : Text) → is_plain l ≡ true → strip_final_newline (with_newline l) ≡ l
unfolding strip_final_newline
strip_final_newline-line [] h = refl
strip_final_newline-line (c ∷ []) h = ground arith
strip_final_newline-line (c ∷ d ∷ []) h = ground (arith, strip_final_newline-line (d ∷ []))
strip_final_newline-line (c ∷ d ∷ e ∷ l) h =
    ap (◌∷◌ c) (strip_final_newline-line (d ∷ e ∷ l) (ground arith))

abbrev pub all_plain : List Text → Bool
all_plain [] = true
all_plain (l ∷ ls) = is_plain l && all_plain ls

pub split_inclusive-concat :
    (ls : List Text)
    → all_plain ls ≡ true
    → split_inclusive (concat (map with_newline ls)) ≡ map with_newline ls
unfolding concat split_inclusive
split_inclusive-concat [] h = refl
split_inclusive-concat (l ∷ ls) h =
    ap split_inclusive (append_assoc l (b'\n' ∷ []) (concat (map with_newline ls)))
    ∙ (split_inclusive-line l (concat (map with_newline ls)) (ground arith)
        ∙ ap (◌∷◌ (with_newline l)) (split_inclusive-concat ls (ground arith)))

strip-lines :
    (ls : List Text) → all_plain ls ≡ true → map strip_final_newline (map with_newline ls) ≡ ls
strip-lines [] h = refl
strip-lines (l ∷ ls) h =
    ap (λ k. k ∷ map strip_final_newline (map with_newline ls))
      (strip_final_newline-line l (ground arith))
    ∙ ap (◌∷◌ l) (strip-lines ls (ground arith))

pub lines-concat :
    (ls : List Text) → all_plain ls ≡ true → lines (concat (map with_newline ls)) ≡ ls
unfolding lines
lines-concat ls h = ap (map strip_final_newline) (split_inclusive-concat ls h) ∙ strip-lines ls h
