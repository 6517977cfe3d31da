-- ===== src/Edit/Transaction.antt =====
-- crates/shell-mcp/src/tools/edit.rs: transactions, which validate all operations before they commit them in
-- order, and take back what was committed when a write fails.
use ferrite_mcp.Prelude.{
  ℕ, suc, Bool, true, false, not, ◌||◌, Option, none, some, List, [], ◌∷◌, length, take, map,
  if◌then◌else◌, Text, text_eq, Result, ok, err,
}
use ferrite_mcp.Edit.Content.{Bytes, utf8, is_binary, invalid_encoding, has_zero, sniff_len}
use ferrite_mcp.Edit.Disk.{
  Entry, absent, file, other, World, System, Precondition, unconditional, EditError, text_error,
  stale, op_failed, WriteOptions, WriteReceipt, Io, Outcome, Done, ◌>>=◌, pure, throw, put, call,
  look, probe, check_precondition, atomic_write, write_bytes,
}
use ferrite_mcp.Edit.Replace.{Texts, replace_unique, compile, patched, return}

pub data EditOp : Type 0 where
  write : (path content : Text) (precondition : Precondition) → EditOp
  replace : (path find replacement : Text) (precondition : Precondition) → EditOp
  regex_substitute : (path pattern replacement : Text) (precondition : Precondition) → EditOp
  patch : (path diff : Text) (precondition : Precondition) → EditOp

unfoldable pub path_of : EditOp → Text
path_of (write path content pre) = path
path_of (replace path find replacement pre) = path
path_of (regex_substitute path pattern replacement pre) = path
path_of (patch path diff pre) = path

unfoldable pub precondition_of : EditOp → Precondition
precondition_of (write path content pre) = pre
precondition_of (replace path find replacement pre) = pre
precondition_of (regex_substitute path pattern replacement pre) = pre
precondition_of (patch path diff pre) = pre

pub record StagedEntry : Type 0 where
  pub path : Text
  pub pre_bytes : Bytes
  pub pre_hash : Option Text
  pub pre_existed : Bool
  pub new_bytes : Bytes
  pub post_hash : Text

pub record TransactionReceipt : Type 0 where
  pub receipts : List WriteReceipt
  pub dry_run : Bool
  pub rolled_back : Bool
  pub failed_op : Option ℕ

-- `fs::read`
unfoldable pub read_bytes : Text → Entry → Io Bytes
read_bytes path absent = throw (EditError.io path)
read_bytes path (file content mode) = do u ← call path (λ d. d); pure content
read_bytes path other = throw (EditError.io path)

unfoldable pub require_text : Text → Bytes → Bool → Result EditError Done
unfolding has_zero
require_text path bytes found =
    if not found
    then err (EditError.io path)
    else if has_zero (take sniff_len bytes)
    then err (text_error (is_binary path))
    else ok tt

abbrev then_ : {A B : Type 0} → Result EditError A → (A → Result EditError B) → Result EditError B
then_ (ok a) f = f a
then_ (err e) f = err e

unfoldable pub decoded : Texts → Text → Bytes → Bool → Result EditError Text
unfolding require_text
decoded txt path bytes found = then_ (require_text path bytes found) (λ u.
    elim (txt.codec.from_utf8 bytes) [
      | none ↦ err (text_error (invalid_encoding path utf8))
      | some text ↦ ok text
    ])

unfoldable pub compute_new_content : Texts → EditOp → Bytes → Bool → Result EditError Text
unfolding decoded replace_unique compile patched
compute_new_content txt (write path content pre) bytes found = ok content
compute_new_content txt (replace path find replacement pre) bytes found =
    then_ (decoded txt path bytes found) (replace_unique path find replacement)
compute_new_content txt (regex_substitute path pattern replacement pre) bytes found =
    then_ (decoded txt path bytes found)
      (λ text. then_ (compile txt pattern) (λ re. ok (re text replacement).1))
compute_new_content txt (patch path diff pre) bytes found =
    then_ (decoded txt path bytes found) (λ text. patched path text diff)

-- the first phase, for one operation
unfoldable pub stage : System → Texts → EditOp → Io StagedEntry
unfolding path_of precondition_of probe check_precondition read_bytes compute_new_content
stage sys txt op = do
  (pre_hash, (size, found)) ← probe sys (path_of op)
  u ← check_precondition (path_of op) (precondition_of op) pre_hash found
  e ← look (path_of op)
  bytes ← (if found then read_bytes (path_of op) e else pure [])
  text ← return (compute_new_content txt op bytes found)
  pure (record {
    path = path_of op;
    pre_bytes = bytes;
    pre_hash = pre_hash;
    pre_existed = found;
    new_bytes = txt.codec.into_bytes text;
    post_hash = sys.hash (txt.codec.into_bytes text);
  })

unfoldable pub stage_all : System → Texts → List EditOp → Io (List StagedEntry)
unfolding stage
stage_all sys txt [] = pure []
stage_all sys txt (op ∷ ops) = do e ← stage sys txt op; es ← stage_all sys txt ops; pure (e ∷ es)

unfoldable pub make_receipt : Bool → StagedEntry → WriteReceipt
make_receipt dry e = record {
  path = e.path;
  pre_hash = e.pre_hash;
  post_hash = e.post_hash;
  pre_bytes = length e.pre_bytes;
  post_bytes = length e.new_bytes;
  dry_run = dry;
  created = not e.pre_existed;
}

unfoldable pub same_hash : Option Text → Option Text → Bool
same_hash none none = true
same_hash (some a) (some b) = text_eq a b
same_hash _ _ = false

abbrev pub same_bool : Bool → Bool → Bool
same_bool a b = if a then b else not b

unfoldable pub verify_staged_entry_still_current : System → StagedEntry → Io Done
unfolding probe same_hash
verify_staged_entry_still_current sys e = do
  (hash, (size, found)) ← probe sys e.path
  if not (same_bool found e.pre_existed) || not (same_hash hash e.pre_hash)
      then throw (stale e.path)
      else pure tt

abbrev pub commit_options : Bool → WriteOptions
commit_options create_dirs = record {
  precondition = unconditional;
  create_dirs = create_dirs;
  dry_run = false;
  mode = none;
}

-- `fs::remove_file`, which does not remove directories
unfoldable pub remove_at : Text → Entry → Io Done
remove_at path absent = throw (EditError.io path)
remove_at path (file content mode) = call path (λ d. put d path absent)
remove_at path other = throw (EditError.io path)

unfoldable pub restore : System → StagedEntry → World → World
unfolding remove_at atomic_write
restore sys e w =
    if e.pre_existed
    then (atomic_write sys e.path e.pre_bytes none w).1
    else (remove_at e.path (w.disk e.path) w).1

-- The entries committed, the last one first, are restored as far as that succeeds.
unfoldable pub roll_back : System → List StagedEntry → World → World
unfolding restore
roll_back sys [] w = w
roll_back sys (e ∷ es) w = roll_back sys es (restore sys e w)

unfoldable pub annotate_op_failure : ℕ → EditError → EditError
annotate_op_failure index (EditError.io path) = op_failed path index
annotate_op_failure index e = e

-- the second phase; `index` and `committed` are the operations done
unfoldable pub commit :
    System → Bool → (index : ℕ) (committed : List StagedEntry) → List StagedEntry → Io Done
unfolding verify_staged_entry_still_current roll_back annotate_op_failure
commit sys dirs index committed [] = pure tt
commit sys dirs index committed (e ∷ es) = do
  u ← verify_staged_entry_still_current sys e
  λ w.
      (let (r, v) = write_bytes sys e.path e.new_bytes (commit_options dirs) w in
        elim r as (λ _. Outcome Done) [
          | ok receipt ↦ commit sys dirs (suc index) (e ∷ committed) es v
          | err failure ↦ (err (annotate_op_failure index failure), roll_back sys committed v)
        ])

unfoldable pub finished : Bool → List StagedEntry → TransactionReceipt
unfolding make_receipt
finished dry staged = record {
  receipts = map (make_receipt dry) staged;
  dry_run = dry;
  rolled_back = false;
  failed_op = none;
}

unfoldable pub execute_transaction :
    System → Texts → List EditOp → (dry_run create_dirs : Bool) → Io TransactionReceipt
unfolding stage_all commit finished
execute_transaction sys txt ops dry_run create_dirs = do
  staged ← stage_all sys txt ops
  u ← (if dry_run then pure tt else commit sys create_dirs 0 [] staged)
  pure (finished dry_run staged)
