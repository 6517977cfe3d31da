-- ===== src/Tests/Edit.antt =====
-- Changes of files on concrete inputs.
use ferrite_mcp.Prelude.{
  ℕ, ◌≡◌, refl, true, false, none, some, List, [], ◌∷◌, ◌++◌, Text, codes, text_eq, starts_with,
  len_utf8, text_eq_iff, subst, arith, ok, err, inl,
}
use ferrite_mcp.Edit.Lines.{concat}
use ferrite_mcp.Edit.Patch.{
  panics, behind, before, split_once, parse_digits, parse_usize, both_numbers, range_of,
  parse_hunk_range, hunk_index, pop_newline, apply_diff_to_string,
}
use ferrite_mcp.Edit.Hunks.{unlines, apply_diff_to_string-unlines}
use ferrite_mcp.Edit.Changes.{
  Hunk, kept, removed, added, old_of, new_of, old_lines, new_lines, diff_lines, show_change,
}
use ferrite_mcp.Edit.Disk.{
  stale, absent, file, other, Disk, World, System, not_exists, exists, unconditional, WriteOptions,
  put, mode_of, write_bytes,
}
use ferrite_mcp.Edit.Writes.{write_bytes-Sets}
use ferrite_mcp.Edit.Effects.{view, is_ok, at}
use ferrite_mcp.Edit.Answers.{is_free, calm, Answer, write_bytes-Answer}
use ferrite_mcp.Edit.Replace.{Texts, replace_unique}
use ferrite_mcp.Edit.Transaction.{EditOp, StagedEntry, stage_all, roll_back, execute_transaction}
use ferrite_mcp.Edit.Committed.{all_written}
use ferrite_mcp.Edit.Whole.{execute_transaction-Leaves, execute_transaction-all_written}
use ferrite_mcp.Edit.Rollback.{bytes_of, touched, roll_back-bytes_of}

-- a hash that tells all contents apart, and temporary files with a dot in front
abbrev tiny : System
tiny = record {
  hash = λ b. b;
  parent = λ p. none;
  create_dir_all = λ p d. d;
  tmp = λ n p. b'.' ∷ p;
  masked = λ m. m;
}

abbrev ascii : Texts
ascii = record {
  codec = record {
    from_utf8 = some;
    from_utf8_lossy = λ b. b;
    utf_16le = λ b. (b, true);
    utf_16be = λ b. (b, true);
    into_bytes = λ t. t;
  };
  regex = λ p. none;
}

abbrev path_a : Text
path_a = codes "a"

abbrev path_b : Text
path_b = codes "b"

-- a disk with one file
abbrev one_file : Disk
one_file = put (λ p. absent) path_a (file (codes "one") 0o755)

abbrev quiet : World
quiet = calm one_file 0

abbrev new_file : WriteOptions
new_file = record { precondition = exists; create_dirs = false; dry_run = false; mode = none }

-- The permissions of the file that is replaced are lost.
write_bytes-Sets_example :
    at path_a (write_bytes tiny path_a (codes "two") new_file quiet).1 ≡ some (codes "two", 0o644)
unfolding write_bytes view is_ok mode_of text_eq
write_bytes-Sets_example =
    write_bytes-Sets tiny path_a (codes "two") new_file path_a ((λ n p. refl), λ p d. refl) quiet

write_bytes-Answer_example :
    Answer tiny path_a
      (codes "two")
      new_file
      (one_file path_a)
      (write_bytes tiny path_a (codes "two") new_file quiet).0
unfolding is_free text_eq
write_bytes-Answer_example =
    write_bytes-Answer tiny path_a (codes "two") new_file one_file 0 refl refl refl refl

abbrev hunk : Hunk
hunk = record {
  header = codes "@@ -2,2 +2,2 @@";
  between = codes "first" ∷ [];
  changes = kept (codes "second") ∷ removed (codes "third") ∷ added (codes "3") ∷ [];
}

apply_diff_to_string-unlines_example :
    apply_diff_to_string
      (codes "first\nsecond\nthird\nlast\n")
      (codes "@@ -2,2 +2,2 @@\n second\n-third\n+3\n")
    ≡ ok (codes "first\nsecond\n3\nlast\n")
unfolding unlines old_lines new_lines diff_lines old_of new_of show_change concat parse_hunk_range
    behind before split_once parse_digits parse_usize both_numbers range_of hunk_index starts_with
apply_diff_to_string-unlines_example =
    apply_diff_to_string-unlines (hunk ∷ []) (codes "last" ∷ [])
      (refl, (2, 2, refl, inl refl), refl, tt) refl refl

abbrev write_op : Text → Text → EditOp
write_op path text = EditOp.write path text unconditional

-- The second operation fails its precondition.
execute_transaction-Leaves_example :
    at path_a
      (execute_transaction tiny ascii
        (write_op path_a (codes "two") ∷ EditOp.write path_b [] exists ∷ [])
        false
        false
        quiet).1
    ≡ some (codes "one", 0o755)
unfolding stage_all is_ok view text_eq
execute_transaction-Leaves_example =
    execute_transaction-Leaves tiny ascii
      (write_op path_a (codes "two") ∷ EditOp.write path_b [] exists ∷ []) false path_a false quiet
      refl

execute_transaction-all_written_example :
    (staged : List StagedEntry) × ((stage_all tiny ascii
        (write_op path_a (codes "two") ∷ [])
        quiet).0
      ≡ ok staged)
    × (at path_a
          (execute_transaction tiny ascii (write_op path_a (codes "two") ∷ []) false false quiet).1
        ≡ all_written tiny staged path_a (some (codes "one", 0o755)))
unfolding execute_transaction view is_ok text_eq write_bytes
execute_transaction-all_written_example =
    execute_transaction-all_written tiny ascii (write_op path_a (codes "two") ∷ []) false path_a
      quiet ((λ n p. refl), λ p d. refl) refl

abbrev done_entry : StagedEntry
done_entry = record {
  path = path_a;
  pre_bytes = codes "zero";
  pre_hash = some (codes "zero");
  pre_existed = true;
  new_bytes = codes "one";
  post_hash = codes "one";
}

named_a : (p : Text) → touched (done_entry ∷ []) p ≡ true → path_a ≡ p
unfolding touched
named_a p t = (text_eq_iff path_a p).0 (ground arith)

-- `a` holds "one" since the transaction wrote it.
roll_back-bytes_of_example :
    bytes_of ((roll_back tiny (done_entry ∷ []) quiet).disk path_a) ≡ some (codes "zero")
unfolding touched is_free text_eq
roll_back-bytes_of_example =
    roll_back-bytes_of tiny path_a (some (codes "zero")) (done_entry ∷ []) one_file 0 (λ n p. refl)
      (
        (λ n p le. refl),
        λ p t.
            subst
              (λ p.
                (is_free (one_file p) ≡ true) × ((m : ℕ) (r : Text) → text_eq (b'.' ∷ r) p ≡ false))
              (named_a p t) (refl, λ m r. refl),
      )
      ((λ h. refl), tt) (inl refl)

-- Two operations on one path: the first is written and stays when the second is found stale.
stale_example :
    (execute_transaction tiny ascii
      (write_op path_a (codes "two") ∷ write_op path_a (codes "three") ∷ [])
      false
      false
      quiet).0
    ≡ err (stale path_a)
unfolding execute_transaction text_eq write_bytes
stale_example = refl

stale_left_example :
    at path_a
      (execute_transaction tiny ascii
        (write_op path_a (codes "two") ∷ write_op path_a (codes "three") ∷ [])
        false
        false
        quiet).1
    ≡ some (codes "two", 0o644)
unfolding execute_transaction view text_eq write_bytes mode_of
stale_left_example = refl

-- `create_dirs` makes directories in a dry run.
abbrev making : System
making = record {
  hash = λ b. b;
  parent = λ p. some (codes "d");
  create_dir_all = λ p d. put d p other;
  tmp = λ n p. b'.' ∷ p;
  masked = λ m. m;
}

dry_run_example :
    (write_bytes making path_b []
        (record { precondition = not_exists; create_dirs = true; dry_run = true; mode = none })
        quiet).1.disk
      (codes "d")
    ≡ other
unfolding write_bytes text_eq
dry_run_example = refl

-- A blank line of a diff copies any line of the original.
blank_line_example :
    apply_diff_to_string (codes "one\ntwo\n") (codes "@@ -1,2 +1,1 @@\n\n-two\n")
    ≡ ok (codes "one\n")
unfolding apply_diff_to_string text_eq starts_with parse_hunk_range len_utf8 pop_newline
blank_line_example = refl

-- A hunk of additions alone, which counts no line before: git puts it after line 1.
no_context_example :
    apply_diff_to_string (codes "one\ntwo\n") (codes "@@ -1,0 +2,1 @@\n+new\n")
    ≡ ok (codes "new\none\ntwo\n")
unfolding apply_diff_to_string text_eq starts_with parse_hunk_range len_utf8 pop_newline
no_context_example = refl

-- The marker behind a deletion takes the newline of the kept line before it.
marker_example :
    apply_diff_to_string
      (codes "one\ntwo")
      (codes "@@ -1,2 +1,2 @@\n one\n-two\n\\ No newline at end of file\n+two\n")
    ≡ ok (codes "onetwo\n")
unfolding apply_diff_to_string text_eq starts_with parse_hunk_range len_utf8 pop_newline
marker_example = refl

-- A line of the diff that begins with a char of two bytes.
split_at_example :
    apply_diff_to_string (codes "one\n") (codes "@@ -1 +1 @@\n" ++ 0xE9 ∷ []) ≡ err panics
unfolding apply_diff_to_string text_eq starts_with parse_hunk_range len_utf8 pop_newline
split_at_example = refl

-- A match that overlaps another is the only one.
overlap_example : replace_unique path_a (codes "aa") (codes "b") (codes "aaa") ≡ ok (codes "ba")
unfolding replace_unique starts_with
overlap_example = refl
