-- ===== src/Permissions/Words.antt =====
-- Words of a command: `split_whitespace`, `trim`, and the segments of `split_pipeline`.
use ferrite_mcp.Prelude.{
  ℕ, zero, suc, Bool, true, false, not, ◌&&◌, ◌||◌, List, [], ◌∷◌, ◌++◌, ◌==◌, if◌then◌else◌,
  length, drop, Text, codes, starts_with,
}
use ferrite_mcp.Edit.Lines.{join_first}

abbrev pub is_empty : Text → Bool
is_empty [] = true
is_empty (c ∷ s) = false

-- `[String]::join(" ")`
unfoldable pub join : List Text → Text
join [] = []
join (w ∷ []) = w
join (w ∷ v ∷ ws) = w ++ b' ' ∷ join (v ∷ ws)

-- what `split_pipeline` does at a char, by the char behind it
pub data Cut : Type 0 where
  two_chars one_char inside : Cut

unfoldable pub cut : ℕ → ℕ → Cut
cut c d =
    if (c == b'&' && d == b'&') || (c == b'|' && d == b'|')
    then two_chars
    else if c == b'|' || c == b';'
    then one_char
    else inside

module _ (is_whitespace : ℕ → Bool) where
  unfoldable pub begins_word : Text → Bool
  begins_word [] = false
  begins_word (c ∷ s) = not (is_whitespace c)

  -- `split_whitespace`
  unfoldable pub tokenize : Text → List Text
  unfolding begins_word join_first
  tokenize [] = []
  tokenize (c ∷ s) =
      let rest = tokenize s in
      if is_whitespace c then rest else if begins_word s then join_first c rest else (c ∷ []) ∷ rest

  unfoldable pub first_token : Text → Text
  unfolding tokenize
  first_token s = elim (tokenize s) [ [] ↦ [] | w ∷ ws ↦ w ]

  unfoldable pub trim_start : Text → Text
  trim_start [] = []
  trim_start (c ∷ s) = let rest = trim_start s in if is_whitespace c then rest else c ∷ s

  unfoldable pub trim_end : Text → Text
  trim_end [] = []
  trim_end (c ∷ s) =
      let rest = trim_end s in if is_whitespace c && is_empty rest then [] else c ∷ rest

  unfoldable pub trim : Text → Text
  unfolding trim_start trim_end
  trim s = trim_end (trim_start s)

  -- a text without its first word
  unfoldable pub drop_word : Text → Text
  drop_word [] = []
  drop_word (c ∷ s) = let rest = drop_word s in if is_whitespace c then c ∷ s else rest

  -- the segment that is left at the end
  unfoldable pub last_segment : Text → List (Text × Text)
  unfolding trim
  last_segment current = if is_empty (trim current) then [] else (trim current, []) ∷ []

  -- The loop of `split_pipeline`, which does not look at quotes.
  unfoldable pub split_from : (current : Text) → Text → List (Text × Text)
  unfolding cut trim last_segment
  split_from current [] = last_segment current
  split_from current (c ∷ []) = elim (cut c 0) [
    | two_chars ↦ []
    | one_char ↦ (trim current, c ∷ []) ∷ []
    | inside ↦ last_segment (current ++ c ∷ [])
  ]
  split_from current (c ∷ d ∷ s) = elim (cut c d) [
    | two_chars ↦ (trim current, c ∷ d ∷ []) ∷ split_from [] s
    | one_char ↦ (trim current, c ∷ []) ∷ split_from [] (d ∷ s)
    | inside ↦ split_from (current ++ c ∷ []) (d ∷ s)
  ]

  unfoldable pub split_pipeline : Text → List (Text × Text)
  unfolding split_from
  split_pipeline s = split_from [] s

  unfoldable pub is_flag : Text → Bool
  is_flag t =
      starts_with (codes "-n") t
      || starts_with (codes "-E") t
      || starts_with (codes "-i") t
      || starts_with (codes "-s") t

  -- The loop of `skip_sudo_flags`: a round that goes on takes two chars at least, so that the length of the
  -- text is fuel enough.
  unfoldable pub skip_flags : ℕ → Text → Text
  unfolding is_flag trim_start drop_word
  skip_flags zero pos = pos
  skip_flags (suc n) pos =
      let t = trim_start pos in
      let behind_flag = skip_flags n (drop 2 t) in
      let behind_user = skip_flags n (drop_word (trim_start (drop 3 t))) in
      if is_flag t
      then behind_flag
      else if starts_with (codes "-u ") t || starts_with (codes "-u\t") t
      then behind_user
      else pos

  unfoldable pub skip_sudo_flags : Text → Text
  unfolding skip_flags
  skip_sudo_flags s = skip_flags (length s) s

  unfoldable pub behind_sudo : Text → Text → Bool × Text
  unfolding skip_sudo_flags
  behind_sudo trimmed after =
      if is_empty after || starts_with (codes " ") after || starts_with (codes "\t") after
      then (true, trim_start (skip_sudo_flags (trim_start after)))
      else (false, trimmed)

  unfoldable pub strip_sudo_prefix : Text → Bool × Text
  unfolding behind_sudo
  strip_sudo_prefix cmd =
      let trimmed = trim_start cmd in
      if not (starts_with (codes "sudo") trimmed)
      then (false, trimmed)
      else behind_sudo trimmed (drop 4 trimmed)
