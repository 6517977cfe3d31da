-- ===== src/Edit/Patch.antt =====
-- `apply_diff_to_string`: the unified diff applier.
use ferrite_mcp.Prelude.{
  ℕ, zero, suc, ◌+◌, ◌-◌, ◌*◌, ◌^◌, Bool, true, false, not, ◌||◌, Option, none, some, List, [], ◌∷◌,
  ◌++◌, ltb, leb, ◌==◌, if◌then◌else◌, Text, codes, text_eq, starts_with, len_utf8, Result, ok, err,
  ◌>>=◌,
}
use ferrite_mcp.Edit.Lines.{split_inclusive, strip_final_newline, lines, concat}

-- The reasons of `PatchRejected`, without their wording. `panics` is a panic of the thread.
pub data PatchError : Type 0 where
  malformed_header : (header : Text) → PatchError
  starts_behind : (header : Text) (old_start cursor : ℕ) → PatchError
  past_end : (line : Text) → PatchError
  mismatch : (line_number : ℕ) (expected found : Text) → PatchError
  unknown_prefix : (line : Text) → PatchError
  panics : PatchError

-- The lines of the original from `cursor` on, and the lines put out, the newest first.
pub record Applied : Type 0 where
  pub cursor : ℕ
  pub todo : List Text
  pub out : List Text

-- `find(sign)`, and what stands behind it
unfoldable pub behind : ℕ → Text → Option Text
behind sign [] = none
behind sign (c ∷ s) = if c == sign then some s else behind sign s

-- the text in front of the first of two chars, if there is one
unfoldable pub before : (a b : ℕ) → Text → Option Text
before a b [] = none
before a b (c ∷ s) =
    let rest = elim (before a b s) as (λ _. Option Text) [ none ↦ none | some t ↦ some (c ∷ t) ] in
    if c == a || c == b then some [] else rest

-- `split_once(',')`
unfoldable pub split_once : ℕ → Text → Option (Text × Text)
split_once sep [] = none
split_once sep (c ∷ s) =
    let rest = elim (split_once sep s) as (λ _. Option (Text × Text)) [
      | none ↦ none
      | some (a, b) ↦ some (c ∷ a, b)
    ] in
    if c == sep then some ([], s) else rest

-- the digits of `usize::from_str`, which fails where the number does not fit 64 bits
unfoldable pub parse_digits : ℕ → Text → Option ℕ
parse_digits n [] = some n
parse_digits n (c ∷ s) =
    let m = n * 10 + (c - b'0') in
    if ltb c b'0' || ltb b'9' c || leb (2 ^ 64) m then none else parse_digits m s

unfoldable pub parse_usize : Text → Option ℕ
unfolding parse_digits
parse_usize [] = none
parse_usize (c ∷ []) = parse_digits 0 (c ∷ [])
parse_usize (c ∷ d ∷ s) = parse_digits 0 (if c == b'+' then d ∷ s else c ∷ d ∷ s)

unfoldable pub both_numbers : Text → Text → Option (ℕ × ℕ)
unfolding parse_usize
both_numbers a b = elim (parse_usize a) [
  | none ↦ none
  | some m ↦ elim (parse_usize b) [ none ↦ none | some n ↦ some (m, n) ]
]

unfoldable pub range_of : Text → Option (ℕ × ℕ)
unfolding both_numbers split_once
range_of spec = elim (split_once b',' spec) [
  | some (a, b) ↦ both_numbers a b
  | none ↦ elim (parse_usize spec) [ none ↦ none | some m ↦ some (m, 1) ]
]

unfoldable pub parse_hunk_range : Text → ℕ → Option (ℕ × ℕ)
unfolding behind before range_of
parse_hunk_range header sign = elim (behind sign header) [
  | none ↦ none
  | some rest ↦ elim (before b' ' b'@' rest) [ none ↦ none | some spec ↦ range_of spec ]
]

-- the line of the original that a hunk starts at, from 0
unfoldable pub hunk_index : ℕ → ℕ
hunk_index old_start = if old_start == 0 then 0 else old_start - 1

-- `while cursor < hunk_orig_idx`: `n` lines are copied
unfoldable pub copy_lines : Text → ℕ → Applied → Result PatchError Applied
copy_lines header zero a = ok a
copy_lines header (suc n) a = elim a.todo [
  | [] ↦ err (past_end header)
  | l ∷ ls ↦ copy_lines header n (record { cursor = a.cursor + 1; todo = ls; out = l ∷ a.out })
]

unfoldable pub apply_header : Text → Applied → Result PatchError Applied
unfolding copy_lines hunk_index
apply_header header a = elim (parse_hunk_range header b'-') [
  | none ↦ err (malformed_header header)
  | some (old_start, old_count) ↦
      let index = hunk_index old_start in
      if ltb index a.cursor
      then err (starts_behind header old_start (a.cursor + 1))
      else copy_lines header (index - a.cursor) a
]

-- a blank line of the diff: the next line of the original, whatever it is
unfoldable pub copy_next : Text → Applied → Result PatchError Applied
copy_next body a = elim a.todo [
  | [] ↦ err (past_end body)
  | l ∷ ls ↦ ok (record { cursor = a.cursor + 1; todo = ls; out = l ∷ a.out })
]

-- a context line (`keep`) or a deletion, which has to be the next line of the original
unfoldable pub match_next : Bool → Text → Applied → Result PatchError Applied
match_next keep rest a = elim a.todo [
  | [] ↦ err (past_end rest)
  | l ∷ ls ↦
      if not (text_eq (strip_final_newline l) rest)
      then err (mismatch (a.cursor + 1) rest (strip_final_newline l))
      else ok
          (record { cursor = a.cursor + 1; todo = ls; out = (if keep then l ∷ a.out else a.out) })
]

-- `String::pop` on a line that ends with `\n`
unfoldable pub pop_newline : Text → Text
pop_newline [] = []
pop_newline (c ∷ []) = if c == b'\n' then [] else c ∷ []
pop_newline (c ∷ d ∷ s) = c ∷ pop_newline (d ∷ s)

unfoldable pub pop_last : List Text → List Text
pop_last [] = []
pop_last (l ∷ ls) = pop_newline l ∷ ls

-- One line of a hunk's body; `split_at(1)` panics inside a char.
unfoldable pub apply_body : Text → Applied → Result PatchError Applied
unfolding copy_next match_next pop_last
apply_body [] a = copy_next [] a
apply_body (sign ∷ rest) a =
    if not (len_utf8 sign == 1)
    then err panics
    else if sign == b' '
    then match_next true rest a
    else if sign == b'-'
    then match_next false rest a
    else if sign == b'+'
    then ok (record { cursor = a.cursor; todo = a.todo; out = (rest ++ b'\n' ∷ []) ∷ a.out })
    else if sign == b'\\'
    then ok (record { cursor = a.cursor; todo = a.todo; out = pop_last a.out })
    else err (unknown_prefix (sign ∷ rest))

-- The two loops over the lines of the diff. A `@@` line begins a hunk wherever it stands; before the first
-- hunk all other lines, the file headers among them, are skipped.
unfoldable pub apply_lines : Bool → List Text → Applied → Result PatchError Applied
unfolding apply_header apply_body
apply_lines in_hunk [] a = ok a
apply_lines in_hunk (l ∷ ls) a =
    if starts_with (codes "@@") l
    then (do b ← apply_header l a; apply_lines true ls b)
    else if in_hunk
    then (do b ← apply_body l a; apply_lines true ls b)
    else apply_lines false ls a

-- the lines of `out` in order, in front of a text
unfoldable pub flush : List Text → Text → Text
flush [] t = t
flush (l ∷ ls) t = flush ls (l ++ t)

unfoldable pub apply_diff_to_string : Text → Text → Result PatchError Text
unfolding apply_lines split_inclusive lines concat flush
apply_diff_to_string original diff = do
  a ←
      apply_lines false (lines diff)
        (record { cursor = 0; todo = split_inclusive original; out = [] })
  ok (flush a.out (concat a.todo))
