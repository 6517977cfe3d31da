-- ===== src/History/Moves.antt =====
-- Each operation of the history keeps it valid and stays in bounds; going up and down again comes back.
use ferrite_mcp.Prelude.{
  ℕ, zero, suc, ◌+◌, ◌≤◌, ◌<◌, ◌≡◌, ◌≢◌, refl, ap, sym, subst, Bool, false, inl, inr, Bool-cases,
  Option, none, some, List, [], ◌∷◌, length, length-append, length-drop, get_elem?, drop, leb,
  arith, Text,
}
use ferrite_mcp.History.{
  History, Shown, nothing, out_of_bounds, show, last_is, push_no_save, load_lines, load, blank,
  push, at_cursor, prev_index, prev, next, reset_cursor, CursorOk, IsValid,
}

show_elem : (ts : List Text) (i : ℕ) → i < length ts → show (get_elem? ts i) ≢ out_of_bounds
unfolding show
show_elem [] i h e = absurd (omega arith)
show_elem (t ∷ ts) zero h e = cc
show_elem (t ∷ ts) (suc i) h e = show_elem ts i (omega arith) e

pub data Op : Type 0 where
  pushes : Text → Op
  up : Op
  down : Op
  resets : Op
  loads : Option (List Text) → Op

unfoldable pub apply : (ℕ → Bool) → Op → History → History × Shown
unfolding push prev next reset_cursor load
apply whitespace (pushes t) h = (push whitespace t h, nothing)
apply whitespace up h = prev h
apply whitespace down h = next h
apply whitespace resets h = (reset_cursor h, nothing)
apply whitespace (loads lines) h = (load lines h, nothing)

abbrev Moved : History × Shown → Type 0
Moved r = IsValid r.0 × (r.1 ≢ out_of_bounds)

push_no_save-fits :
    (t : Text) (h : History) → IsValid h → length (push_no_save t h).entries ≤ h.capacity
unfolding push_no_save
push_no_save-fits t h v = elim (Bool-cases (leb h.capacity (length h.entries))) [
  | inl full ↦ rw full (
      omega
        (arith, length-append (drop 1 h.entries) (t ∷ []), length-drop 1 h.entries, v.room, v.fits))
  | inr room ↦ rw room (omega (arith, length-append h.entries (t ∷ []), less room))
]
  where
    less : leb h.capacity (length h.entries) ≡ false → length h.entries < h.capacity
    less e = ground arith

push_no_save-longer :
    (t : Text) (h : History) → IsValid h → length h.entries ≤ length (push_no_save t h).entries
unfolding push_no_save
push_no_save-longer t h v = elim (Bool-cases (leb h.capacity (length h.entries))) [
  | inl full ↦
      rw full
        (omega (arith, length-append (drop 1 h.entries) (t ∷ []), length-drop 1 h.entries, v.room))
  | inr room ↦ rw room (omega (arith, length-append h.entries (t ∷ [])))
]

CursorOk-longer : (c : Option ℕ) (n m : ℕ) → n ≤ m → CursorOk c n → CursorOk c m
CursorOk-longer none n m h ok = tt
CursorOk-longer (some i) n m h ok = omega arith

push_no_save-IsValid : (t : Text) (h : History) → IsValid h → IsValid (push_no_save t h)
push_no_save-IsValid t h v = record {
  room = unfold push_no_save in v.room;
  fits = unfold push_no_save in push_no_save-fits t h v;
  on_entry =
      unfold push_no_save in CursorOk-longer h.cursor _ _ (push_no_save-longer t h v) v.on_entry;
}

load_lines-IsValid : (ls : List Text) (h : History) → IsValid h → IsValid (load_lines ls h)
unfolding load_lines
load_lines-IsValid [] h v = v
load_lines-IsValid ([] ∷ ls) h v = load_lines-IsValid ls h v
load_lines-IsValid ((c ∷ cs) ∷ ls) h v =
    load_lines-IsValid ls (push_no_save (c ∷ cs) h) (push_no_save-IsValid (c ∷ cs) h v)

load-IsValid : (ls : Option (List Text)) (h : History) → IsValid h → IsValid (load ls h)
unfolding load
load-IsValid none h v = v
load-IsValid (some ls) h v = load_lines-IsValid ls h v

push-IsValid :
    (whitespace : ℕ → Bool) (t : Text) (h : History) → IsValid h → IsValid (push whitespace t h)
unfolding push push_no_save
push-IsValid whitespace t h v = elim (Bool-cases (blank whitespace t)) [
  | inl is_blank ↦ rw is_blank v
  | inr text ↦ rw text (elim (Bool-cases (last_is h.entries t)) [
    | inl same ↦ rw same v
    | inr other ↦ rw other (record { room = v.room; fits = push_no_save-fits t h v; on_entry = tt })
  ])
]

at_cursor-IsValid :
    (h : History) (c : Option ℕ)
    → IsValid h
    → CursorOk c (length h.entries)
    → IsValid (at_cursor h c)
at_cursor-IsValid h c v ok = record { room = v.room; fits = v.fits; on_entry = ok }

prev_index-below : (c : Option ℕ) (n : ℕ) → 0 < n → CursorOk c n → prev_index c n < n
unfolding prev_index
prev_index-below none n h ok = omega arith
prev_index-below (some zero) n h ok = h
prev_index-below (some (suc i)) n h ok = omega arith

abbrev history : List Text → Option ℕ → ℕ → List Text → History
history ts c n saved = record { entries = ts; cursor = c; capacity = n; saved = saved }

prev-Moved :
    (ts : List Text) (c : Option ℕ) (n : ℕ) (saved : List Text)
    → IsValid (history ts c n saved)
    → Moved (prev (history ts c n saved))
unfolding prev
prev-Moved [] c n saved v = (v, (λ q. cc))
prev-Moved (t ∷ ts) c n saved v =
    let below = prev_index-below c (length (t ∷ ts)) (omega arith) v.on_entry in
    (
      at_cursor-IsValid _ (some (prev_index c (length (t ∷ ts)))) v below,
      show_elem (t ∷ ts) _ below,
    )

next-Moved :
    (ts : List Text) (c : Option ℕ) (n : ℕ) (saved : List Text)
    → IsValid (history ts c n saved)
    → Moved (next (history ts c n saved))
unfolding next
next-Moved ts none n saved v = (v, (λ q. cc))
next-Moved ts (some i) n saved v = elim (Bool-cases (leb (length ts) (i + 1))) [
  | inl at_end ↦ rw at_end (at_cursor-IsValid (history ts (some i) n saved) none v tt, (λ q. cc))
  | inr before ↦ rw before (
    at_cursor-IsValid (history ts (some i) n saved) (some (i + 1)) v (below before),
    show_elem ts (i + 1) (below before),
  )
]
  where
    below : leb (length ts) (i + 1) ≡ false → i + 1 < length ts
    below e = ground arith

-- Each of push, prev, next, reset_cursor and load on a valid history leaves it valid and indexes no entry out of bounds: the entries fit the
-- capacity, which is not zero, and the cursor, where there is one, stands on an entry.
pub apply-IsValid :
    (whitespace : ℕ → Bool) (o : Op) (h : History)
    → IsValid h
    → IsValid (apply whitespace o h).0 × ((apply whitespace o h).1 ≢ out_of_bounds)
unfolding apply reset_cursor
apply-IsValid whitespace (pushes t) h v = (push-IsValid whitespace t h v, (λ q. cc))
apply-IsValid whitespace up h v = prev-Moved h.entries h.cursor h.capacity h.saved v
apply-IsValid whitespace down h v = next-Moved h.entries h.cursor h.capacity h.saved v
apply-IsValid whitespace resets h v = (at_cursor-IsValid h none v tt, (λ q. cc))
apply-IsValid whitespace (loads lines) h v = (load-IsValid lines h v, (λ q. cc))

next-prev_fields :
    (ts : List Text) (i n : ℕ) (saved : List Text)
    → suc i < length ts
    → next (prev (history ts (some (suc i)) n saved)).0
      ≡ (history ts (some (suc i)) n saved, show (get_elem? ts (suc i)))
unfolding next prev prev_index
next-prev_fields [] i n saved h = absurd (omega arith)
next-prev_fields (t ∷ ts) i n saved h = rw (within (length (t ∷ ts)) h) (rw (one_more i) refl)
  where
    within : (m : ℕ) → suc i < m → leb m (i + 1) ≡ false
    within m k = ground arith

    one_more : (k : ℕ) → k + 1 ≡ suc k
    one_more k = omega arith

-- Behind the first entry, going up and then down again comes back to the same history and shows the entry
-- that the cursor was on.
pub next-prev :
    (h : History) (i : ℕ)
    → IsValid h
    → h.cursor ≡ some (suc i)
    → next (prev h).0 ≡ (h, show (get_elem? h.entries (suc i)))
next-prev h i v e =
    subst (λ k. next (prev k).0 ≡ (k, show (get_elem? h.entries (suc i))))
      (ap (at_cursor h) (sym e))
      (next-prev_fields h.entries i h.capacity h.saved
        (subst (λ c. CursorOk c (length h.entries)) e v.on_entry))
