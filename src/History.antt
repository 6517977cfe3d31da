-- ===== src/History.antt =====
-- crates/shell-tui/src/history.rs: the command history and its cursor. The file is the list of the lines
-- appended to it, for a path that can be written.
pub mod Moves
use ferrite_mcp.Prelude.{
  ℕ, zero, suc, ◌+◌, ◌-◌, ◌≤◌, ◌<◌, ◌≡◌, ◌≢◌, refl, ap, sym, ◌∙◌, Bool, true, false, ◌&&◌, ◌⊎◌, inl,
  inr, Bool-cases, Option, none, some, List, [], ◌∷◌, ◌++◌, length, length-append, length-drop,
  get_elem?, drop, ltb, leb, if◌then◌else◌, arith, Text, text_eq,
}

pub record History : Type 0 where
  pub entries : List Text
  pub cursor : Option ℕ
  pub capacity : ℕ
  pub saved : List Text

-- what a call shows: no entry, an entry, or an index out of bounds
pub data Shown : Type 0 where
  nothing : Shown
  line : Text → Shown
  out_of_bounds : Shown

unfoldable pub show : Option Text → Shown
show none = out_of_bounds
show (some t) = line t

unfoldable pub last_is : List Text → Text → Bool
last_is [] t = false
last_is (e ∷ []) t = text_eq e t
last_is (e ∷ f ∷ es) t = last_is (f ∷ es) t

abbrev pub new : History
new = record { entries = []; cursor = none; capacity = 10000; saved = [] }

unfoldable pub push_no_save : Text → History → History
push_no_save t h = record {
  entries = (if leb h.capacity (length h.entries) then drop 1 h.entries else h.entries) ++ t ∷ [];
  cursor = h.cursor;
  capacity = h.capacity;
  saved = h.saved;
}

-- `load`: the lines of the file, if it could be read. The empty ones are left out; the cursor stays.
unfoldable pub load_lines : List Text → History → History
unfolding push_no_save
load_lines [] h = h
load_lines ([] ∷ ls) h = load_lines ls h
load_lines ((c ∷ cs) ∷ ls) h = load_lines ls (push_no_save (c ∷ cs) h)

unfoldable pub load : Option (List Text) → History → History
unfolding load_lines
load none h = h
load (some ls) h = load_lines ls h

-- `char::is_whitespace` is a table of Unicode, and a parameter.
module _ (whitespace : ℕ → Bool) where
  -- `line.trim().is_empty()`
  unfoldable pub blank : Text → Bool
  blank [] = true
  blank (c ∷ cs) = whitespace c && blank cs

  unfoldable pub push : Text → History → History
  unfolding push_no_save last_is
  push t h =
      if blank t
      then h
      else if last_is h.entries t
      then h
      else (let h' = push_no_save t h in
          record {
            entries = h'.entries;
            cursor = none;
            capacity = h'.capacity;
            saved = h'.saved ++ t ∷ [];
          })

abbrev pub at_cursor : History → Option ℕ → History
at_cursor h c = record { entries = h.entries; cursor = c; capacity = h.capacity; saved = h.saved }

unfoldable pub prev_index : Option ℕ → ℕ → ℕ
prev_index none n = n - 1
prev_index (some zero) n = 0
prev_index (some (suc i)) n = i

unfoldable pub prev : History → History × Shown
unfolding prev_index show
prev h = elim h.entries as (λ _. History × Shown) [
  | [] ↦ (h, nothing)
  | e ∷ es ↦
      let i = prev_index h.cursor (length h.entries) in
      (at_cursor h (some i), show (get_elem? h.entries i))
]

unfoldable pub next : History → History × Shown
unfolding show
next h = elim h.cursor [
  | none ↦ (h, nothing)
  | some i ↦
      if leb (length h.entries) (i + 1)
      then (at_cursor h none, line [])
      else (at_cursor h (some (i + 1)), show (get_elem? h.entries (i + 1)))
]

unfoldable pub reset_cursor : History → History
reset_cursor h = at_cursor h none

-- The entries fit the capacity, and the cursor stands on an entry.
abbrev CursorOk : Option ℕ → ℕ → Type 0
CursorOk none n = Unit
CursorOk (some i) n = i < n

pub record IsValid (h : History) : Type 0 where
  pub room : 0 < h.capacity
  pub fits : length h.entries ≤ h.capacity
  pub on_entry : CursorOk h.cursor (length h.entries)
