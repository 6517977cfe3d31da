-- ===== src/Edit/Changes.antt =====
-- The changes that a diff stands for, the diff as lines, and the texts before and after.
use ferrite_mcp.Prelude.{
  ℕ, suc, ◌⊎◌, ◌+◌, ◌≡◌, true, some, List, [], ◌∷◌, ◌++◌, map, length, Text, codes, starts_with,
}
use ferrite_mcp.Edit.Lines.{all_plain}
use ferrite_mcp.Edit.Patch.{parse_hunk_range}

-- A line that stays, goes or comes, without its `\n`.
pub data Change : Type 0 where
  kept removed added : Text → Change

-- The header of a hunk, the lines between the hunk before and this one, and its changes.
pub record Hunk : Type 0 where
  pub header : Text
  pub between : List Text
  pub changes : List Change

unfoldable pub show_change : Change → Text
show_change (kept l) = b' ' ∷ l
show_change (removed l) = b'-' ∷ l
show_change (added l) = b'+' ∷ l

unfoldable pub old_of : List Change → List Text
old_of [] = []
old_of (kept l ∷ cs) = l ∷ old_of cs
old_of (removed l ∷ cs) = l ∷ old_of cs
old_of (added l ∷ cs) = old_of cs

unfoldable pub new_of : List Change → List Text
new_of [] = []
new_of (kept l ∷ cs) = l ∷ new_of cs
new_of (removed l ∷ cs) = new_of cs
new_of (added l ∷ cs) = l ∷ new_of cs

-- The lines before and after, with `rest` behind the last hunk, and the lines of the diff.
unfoldable pub old_lines : List Hunk → List Text → List Text
unfolding old_of
old_lines [] rest = rest
old_lines (h ∷ hs) rest = h.between ++ (old_of h.changes ++ old_lines hs rest)

unfoldable pub new_lines : List Hunk → List Text → List Text
unfolding new_of
new_lines [] rest = rest
new_lines (h ∷ hs) rest = h.between ++ (new_of h.changes ++ new_lines hs rest)

unfoldable pub diff_lines : List Hunk → List Text
unfolding show_change
diff_lines [] = []
diff_lines (h ∷ hs) = h.header ∷ (map show_change h.changes ++ diff_lines hs)

-- The line number of a header, from 1, for a line with this index. An original without lines has number 0.
abbrev pub StartsAt : ℕ → ℕ → Type 0
StartsAt start index = (start ≡ suc index) ⊎ ((start ≡ 0) × (index ≡ 0))

-- Every header says at which line of the original its hunk starts, and the lines are plain.
abbrev pub Fits : ℕ → List Hunk → Type 0
Fits cursor [] = Unit
Fits cursor (h ∷ hs) =
    (starts_with (codes "@@") h.header ≡ true)
    × ((start : ℕ) × (count : ℕ) × (parse_hunk_range h.header b'-' ≡ some (start, count))
        × StartsAt start (cursor + length h.between))
    × (all_plain (old_of h.changes) ≡ true)
    × Fits (cursor + length h.between + length (old_of h.changes)) hs
