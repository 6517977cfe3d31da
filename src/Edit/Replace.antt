-- ===== src/Edit/Replace.antt =====
-- crates/shell-mcp/src/tools/edit.rs: reading a file and changing its text, by a unique match, by a regular
-- expression or by a diff.
use ferrite_mcp.Prelude.{
  ℕ, zero, suc, ◌-◌, Option, none, some, [], ◌∷◌, ◌++◌, length, drop, ltb, ◌==◌, if◌then◌else◌,
  Text, starts_with, Result, ok, err,
}
use ferrite_mcp.Edit.Content.{
  Codec, TextError, too_large, TextOptions, TextReport, default_options, load,
}
use ferrite_mcp.Edit.Patch.{apply_diff_to_string}
use ferrite_mcp.Edit.Disk.{
  Entry, absent, file, other, System, EditError, text_error, pattern_not_found, pattern_not_unique,
  patch_rejected, invalid_regex, WriteOptions, WriteReceipt, Io, ◌>>=◌, pure, throw, call, look,
  write_bytes,
}

-- what reading a path needs: the codec, and the regular expressions, compiled to the number of matches in a
-- text and the text with all of them replaced
pub record Texts : Type 0 where
  pub codec : Codec
  pub regex : Text → Option (Text → Text → ℕ × Text)

-- `str::matches(needle).count()`; `skip` chars belong to the match before.
unfoldable pub count_matches : Text → (skip : ℕ) → Text → ℕ
count_matches needle (suc skip) [] = 0
count_matches needle zero [] = if starts_with needle [] then 1 else 0
count_matches needle (suc skip) (c ∷ s) = count_matches needle skip s
count_matches needle zero (c ∷ s) =
    let hit = suc (count_matches needle (length needle - 1) s) in
    let miss = count_matches needle 0 s in if starts_with needle (c ∷ s) then hit else miss

-- `replacen(needle, replacement, 1)`
unfoldable pub replace_first : Text → Text → Text → Text
replace_first needle replacement [] = if starts_with needle [] then replacement else []
replace_first needle replacement (c ∷ s) =
    let rest = replace_first needle replacement s in
    if starts_with needle (c ∷ s) then replacement ++ drop (length needle) (c ∷ s) else c ∷ rest

abbrev pub answer : {A : Type 0} → Result TextError A → Result EditError A
answer (ok a) = ok a
answer (err e) = err (text_error e)

abbrev pub return : {A : Type 0} → Result EditError A → Io A
return r w = (r, w)

unfoldable pub read_entry : Texts → Text → TextOptions → Entry → Io (Text × TextReport)
read_entry txt path opts absent = throw (text_error (TextError.io path))
read_entry txt path opts (file content mode) =
    if ltb opts.max_bytes (length content)
    then throw (text_error (too_large path (length content) opts.max_bytes))
    else (do u ← call path (λ d. d); return (answer (load txt.codec path content opts)))
read_entry txt path opts other = throw (text_error (TextError.io path))

unfoldable pub read_all : Texts → Text → TextOptions → Io (Text × TextReport)
unfolding read_entry
read_all txt path opts = do u ← call path (λ d. d); e ← look path; read_entry txt path opts e

-- the match has to be the only one
unfoldable pub replace_unique : Text → Text → Text → Text → Result EditError Text
unfolding count_matches replace_first
replace_unique path needle replacement text =
    let count = count_matches needle 0 text in
    if count == 0
    then err (pattern_not_found path needle)
    else if ltb 1 count
    then err (pattern_not_unique path needle count)
    else ok (replace_first needle replacement text)

unfoldable pub write_str : System → Texts → Text → Text → WriteOptions → Io WriteReceipt
unfolding write_bytes
write_str sys txt path text opts = write_bytes sys path (txt.codec.into_bytes text) opts

unfoldable pub unique_replace : System → Texts → Text → Text → Text → WriteOptions → Io WriteReceipt
unfolding read_all replace_unique write_str
unique_replace sys txt path needle replacement opts = do
  (text, report) ← read_all txt path default_options
  new ← return (replace_unique path needle replacement text)
  write_str sys txt path new opts

unfoldable pub compile : Texts → Text → Result EditError (Text → Text → ℕ × Text)
compile txt pattern = elim (txt.regex pattern) [
  | none ↦ err (invalid_regex pattern)
  | some re ↦ ok re
]

unfoldable pub regex_substitute :
    System → Texts → Text → Text → Text → WriteOptions → Io (WriteReceipt × ℕ)
unfolding compile read_all write_str
regex_substitute sys txt path pattern replacement opts = do
  re ← return (compile txt pattern)
  (text, report) ← read_all txt path default_options
  let (count, new) = re text replacement
  receipt ← write_str sys txt path new opts
  pure (receipt, count)

unfoldable pub patched : Text → Text → Text → Result EditError Text
unfolding apply_diff_to_string
patched path original diff = elim (apply_diff_to_string original diff) [
  | ok t ↦ ok t
  | err reason ↦ err (patch_rejected path reason)
]

unfoldable pub apply_unified_diff : System → Texts → Text → Text → WriteOptions → Io WriteReceipt
unfolding read_all patched write_str
apply_unified_diff sys txt path diff opts = do
  (original, report) ← read_all txt path default_options
  new ← return (patched path original diff)
  write_str sys txt path new opts
