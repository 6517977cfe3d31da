-- ===== src/Edit/Hunks.antt =====
-- A diff written from the changes that it stands for, and what applying it gives.
use ferrite_mcp.Prelude.{
  ℕ, inl, inr, ◌+◌, ◌-◌, ◌≡◌, refl, sym, ap, ◌∙◌, Bool, true, false, some, List, [], ◌∷◌, ◌++◌, map,
  append_assoc, ltb, if◌then◌else◌, length, arith, Text, codes, text_eq_refl, starts_with, len_utf8,
  ok,
}
use mathlib.Core.List.{map-append}
use ferrite_mcp.Edit.Lines.{
  concat, is_plain, with_newline, all_plain, strip_final_newline-line, split_inclusive-concat,
  lines-concat,
}
use ferrite_mcp.Edit.Patch.{
  Applied, parse_hunk_range, hunk_index, copy_lines, apply_header, match_next, apply_body,
  apply_lines, flush, apply_diff_to_string,
}
use ferrite_mcp.Edit.Changes.{
  Change, Hunk, show_change, old_of, new_of, old_lines, new_lines, diff_lines, StartsAt, Fits, kept,
  removed, added,
}

-- the lines put out, newest first
push_all : List Text → List Text → List Text
push_all [] out = out
push_all (l ∷ ls) out = push_all ls (with_newline l ∷ out)

abbrev at : ℕ → List Text → List Text → Applied
at cursor todo out = record { cursor = cursor; todo = todo; out = out }

flush-push_all :
    (ls out : List Text) (t : Text)
    → flush (push_all ls out) t ≡ flush out (concat (map with_newline ls) ++ t)
unfolding push_all flush concat
flush-push_all [] out t = refl
flush-push_all (l ∷ ls) out t =
    flush-push_all ls (with_newline l ∷ out) t
    ∙ ap (flush out) (sym (append_assoc (with_newline l) (concat (map with_newline ls)) t))

copy_lines_lem :
    (header : Text) (ls : List Text) (cursor : ℕ) (rest out : List Text)
    → copy_lines header (length ls) (at cursor (map with_newline ls ++ rest) out)
      ≡ ok (at (cursor + length ls) rest (push_all ls out))
unfolding copy_lines push_all
copy_lines_lem header [] cursor rest out = ap (λ n. ok (at n rest out)) (omega arith)
copy_lines_lem header (l ∷ ls) cursor rest out =
    copy_lines_lem header ls (cursor + 1) rest (with_newline l ∷ out)
    ∙ ap (λ n. ok (at n rest (push_all ls (with_newline l ∷ out)))) (omega arith)

apply_header_lem :
    (header : Text) (ls : List Text) (cursor start count : ℕ) (rest out : List Text)
    → parse_hunk_range header b'-' ≡ some (start, count)
    → hunk_index start ≡ cursor + length ls
    → apply_header header (at cursor (map with_newline ls ++ rest) out)
      ≡ ok (at (cursor + length ls) rest (push_all ls out))
unfolding apply_header
apply_header_lem header ls cursor start count rest out parsed index =
    rw (parsed, index, not_behind, exact, apply_header) (copy_lines_lem header ls cursor rest out)
  where
    not_behind : ltb (cursor + length ls) cursor ≡ false
    not_behind = ground arith

    exact : cursor + length ls - cursor ≡ length ls
    exact = omega arith

match_next_lem :
    (keep : Bool) (l : Text) (cursor : ℕ) (rest out : List Text)
    → is_plain l ≡ true
    → match_next keep l (at cursor (with_newline l ∷ rest) out)
      ≡ ok (at (cursor + 1) rest (if keep then with_newline l ∷ out else out))
unfolding match_next
match_next_lem keep l cursor rest out plain =
    rw (strip_final_newline-line l plain, text_eq_refl l) refl

apply_changes :
    (cs : List Change) (ls : List Text) (cursor : ℕ) (rest out : List Text)
    → all_plain (old_of cs) ≡ true
    → apply_lines true
        (map show_change cs ++ ls)
        (at cursor (map with_newline (old_of cs) ++ rest) out)
      ≡ apply_lines true ls (at (cursor + length (old_of cs)) rest (push_all (new_of cs) out))
unfolding apply_lines show_change old_of new_of push_all apply_body starts_with len_utf8
apply_changes [] ls cursor rest out plain =
    ap (λ n. apply_lines true ls (at n rest out)) (omega arith)
apply_changes (kept l ∷ cs) ls cursor rest out plain =
    rw (strip_final_newline-line l (ground arith), text_eq_refl l)
      (apply_changes cs ls (cursor + 1) rest (with_newline l ∷ out) (ground arith)
        ∙ ap (λ n. apply_lines true ls (at n rest (push_all (new_of cs) (with_newline l ∷ out))))
            (omega arith))
apply_changes (removed l ∷ cs) ls cursor rest out plain =
    rw (strip_final_newline-line l (ground arith), text_eq_refl l)
      (apply_changes cs ls (cursor + 1) rest out (ground arith)
        ∙ ap (λ n. apply_lines true ls (at n rest (push_all (new_of cs) out))) (omega arith))
apply_changes (added l ∷ cs) ls cursor rest out plain =
    apply_changes cs ls cursor rest (with_newline l ∷ out) plain

push_all-append : (ls ks out : List Text) → push_all (ls ++ ks) out ≡ push_all ks (push_all ls out)
unfolding push_all
push_all-append [] ks out = refl
push_all-append (l ∷ ls) ks out = push_all-append ls ks (with_newline l ∷ out)

-- the same, with the lines of the next hunk behind them
apply_changes_append :
    (cs : List Change) (ls : List Text) (cursor : ℕ) (rest out : List Text)
    → all_plain (old_of cs) ≡ true
    → apply_lines true
        (map show_change cs ++ ls)
        (at cursor (map with_newline (old_of cs ++ rest)) out)
      ≡ apply_lines true ls
          (at (cursor + length (old_of cs)) (map with_newline rest) (push_all (new_of cs) out))
apply_changes_append cs ls cursor rest out plain =
    rw (map-append with_newline (old_of cs) rest)
      (apply_changes cs ls cursor (map with_newline rest) out plain)

hunk_index_lem : (start index : ℕ) → StartsAt start index → hunk_index start ≡ index
unfolding hunk_index
hunk_index_lem start index (inl line) = ground arith
hunk_index_lem start index (inr (none_before, first)) = ground arith

header_lem :
    (h : Hunk) (ls : List Text) (b : Bool) (cursor : ℕ) (rest out : List Text)
    → starts_with (codes "@@") h.header ≡ true
    → (start : ℕ) × (count : ℕ) × (parse_hunk_range h.header b'-' ≡ some (start, count))
      × StartsAt start (cursor + length h.between)
    → apply_lines b (h.header ∷ ls) (at cursor (map with_newline (h.between ++ rest)) out)
      ≡ apply_lines true ls
          (at (cursor + length h.between) (map with_newline rest) (push_all h.between out))
unfolding apply_lines
header_lem h ls b cursor rest out begins (start, count, parsed, index) =
    rw
      (
        begins,
        map-append with_newline h.between rest,
        apply_header_lem h.header h.between cursor start count (map with_newline rest) out parsed
            (hunk_index_lem start (cursor + length h.between) index),
      )
      refl

module _ (tail : List Text) where
  -- the loops on the whole diff
  apply_hunks :
      (hs : List Hunk) (b : Bool) (cursor : ℕ) (out : List Text)
      → Fits cursor hs
      → (n : ℕ) × (apply_lines b
            (diff_lines hs)
            (at cursor (map with_newline (old_lines hs tail)) out)
          ≡ ok (at n (map with_newline tail) (push_all (new_lines hs []) out)))
  unfolding apply_lines diff_lines old_lines new_lines push_all
  apply_hunks [] b cursor out fits = (cursor, refl)
  apply_hunks (h ∷ hs) b cursor out (begins, starts, plain, fits) =
      let rest =
        apply_hunks hs true (cursor + length h.between + length (old_of h.changes))
          (push_all (new_of h.changes) (push_all h.between out)) fits in
      (
        rest.0,
        header_lem h (map show_change h.changes ++ diff_lines hs) b cursor
              (old_of h.changes ++ old_lines hs tail) out begins starts
            ∙ (apply_changes_append h.changes (diff_lines hs) (cursor + length h.between)
                  (old_lines hs tail) (push_all h.between out) plain
                ∙ (rest.1
                    ∙ ap (λ o. ok (at rest.0 (map with_newline tail) o))
                        (sym (
                          push_all-append h.between (new_of h.changes ++ new_lines hs []) out
                          ∙ push_all-append (new_of h.changes) (new_lines hs [])
                              (push_all h.between out))))),
      )

  new_lines-append : (hs : List Hunk) → new_lines hs tail ≡ new_lines hs [] ++ tail
  unfolding new_lines
  new_lines-append [] = refl
  new_lines-append (h ∷ hs) =
      rw
        (
          new_lines-append hs,
          append_assoc h.between (new_of h.changes ++ new_lines hs []) tail,
          append_assoc (new_of h.changes) (new_lines hs []) tail,
        )
        refl

concat-map-append :
    (ls ks : List Text)
    → concat (map with_newline (ls ++ ks))
      ≡ concat (map with_newline ls) ++ concat (map with_newline ks)
unfolding concat
concat-map-append [] ks = refl
concat-map-append (l ∷ ls) ks =
    ap (λ t. with_newline l ++ t) (concat-map-append ls ks)
    ∙ sym (
        append_assoc (with_newline l) (concat (map with_newline ls)) (concat (map with_newline ks)))

-- the text of some lines
unfoldable pub unlines : List Text → Text
unfolding concat
unlines ls = concat (map with_newline ls)

-- For hunks whose headers state where they start and whose lines, before the change and in the diff, hold
-- neither `\n` nor `\r`, applying the diff's text to the text before gives the text after: every kept,
-- removed and added line, the lines between the hunks and those behind the last one are as the diff says.
pub apply_diff_to_string-unlines :
    (hs : List Hunk) (tail : List Text)
    → Fits 0 hs
    → all_plain (old_lines hs tail) ≡ true
    → all_plain (diff_lines hs) ≡ true
    → apply_diff_to_string (unlines (old_lines hs tail)) (unlines (diff_lines hs))
      ≡ ok (unlines (new_lines hs tail))
unfolding apply_diff_to_string unlines flush
apply_diff_to_string-unlines hs tail fits plain plain_diff =
    let (n, applied) = apply_hunks tail hs false 0 [] fits in
    rw
      (
        lines-concat (diff_lines hs) plain_diff,
        split_inclusive-concat (old_lines hs tail) plain,
        applied,
      )
      (ap ok (
        flush-push_all (new_lines hs []) [] (concat (map with_newline tail))
        ∙ (sym (concat-map-append (new_lines hs []) tail)
            ∙ ap (λ ls. concat (map with_newline ls)) (sym (new_lines-append tail hs)))))
