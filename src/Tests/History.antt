-- ===== src/Tests/History.antt =====
-- The command history on concrete lines.
use ferrite_mcp.Prelude.{ℕ, ◌≡◌, ◌≢◌, refl, Bool, some, [], ◌∷◌, arith, ◌==◌, codes, get_elem?}
use ferrite_mcp.History.{History, out_of_bounds, show, prev, next, IsValid}
use ferrite_mcp.History.Moves.{apply, pushes, apply-IsValid, next-prev}

abbrev blank_space : ℕ → Bool
blank_space c = c == b' '

-- three lines, with the cursor on the last of them
abbrev lines : History
lines = record {
  entries = codes "cd" ∷ codes "ls" ∷ codes "ps" ∷ [];
  cursor = some 2;
  capacity = 3;
  saved = [];
}

abbrev lines-IsValid : IsValid lines
lines-IsValid = record { room = omega arith; fits = omega arith; on_entry = omega arith }

apply-IsValid_example :
    IsValid (apply blank_space (pushes (codes "vi")) lines).0
    × ((apply blank_space (pushes (codes "vi")) lines).1 ≢ out_of_bounds)
apply-IsValid_example = apply-IsValid blank_space (pushes (codes "vi")) lines lines-IsValid

next-prev_example : next (prev lines).0 ≡ (lines, show (get_elem? lines.entries 2))
next-prev_example = next-prev lines 1 lines-IsValid refl
