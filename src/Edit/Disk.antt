-- ===== src/Edit/Disk.antt =====
-- crates/shell-mcp/src/tools/edit.rs: `write_bytes` and what it stands on, over a disk whose calls may fail.
use ferrite_mcp.Prelude.{
  ℕ, ◌+◌, Bool, true, false, not, Option, none, some, List, [], ◌∷◌, length, if◌then◌else◌, Text,
  text_eq, Result, ok, err,
}
use ferrite_mcp.Edit.Content.{Bytes, TextError}
use ferrite_mcp.Edit.Patch.{PatchError}

-- What a path holds: nothing, a regular file with its permissions, or something else.
pub data Entry : Type 0 where
  absent : Entry
  file : (content : Bytes) (mode : ℕ) → Entry
  other : Entry

abbrev pub Disk : Type 0
Disk = Text → Entry

-- `faults` says of each call of the system to come whether it fails; behind its end they succeed. `writes`
-- counts the temporary files.
pub record World : Type 0 where
  pub disk : Disk
  pub faults : List Bool
  pub writes : ℕ

-- The hash of `hash.rs`, `Path::parent`, `create_dir_all`, the name of the temporary file beside a path, and
-- the permissions that the umask leaves.
pub record System : Type 0 where
  pub hash : Bytes → Text
  pub parent : Text → Option Text
  pub create_dir_all : Text → Disk → Disk
  pub tmp : ℕ → Text → Text
  pub masked : ℕ → ℕ

pub data Precondition : Type 0 where
  not_exists exists unconditional : Precondition
  expect_hash : Text → Precondition

pub data Violation : Type 0 where
  file_exists file_not_found : Violation
  hash_differs : (want have : Text) → Violation

pub data EditError : Type 0 where
  io : (path : Text) → EditError
  text_error : TextError → EditError
  precondition_failed : (path : Text) → Violation → EditError
  stale : (path : Text) → EditError
  pattern_not_found : (path pattern : Text) → EditError
  pattern_not_unique : (path pattern : Text) (count : ℕ) → EditError
  patch_rejected : (path : Text) → PatchError → EditError
  op_failed : (path : Text) (index : ℕ) → EditError
  invalid_regex : (pattern : Text) → EditError

pub record WriteOptions : Type 0 where
  pub precondition : Precondition
  pub create_dirs : Bool
  pub dry_run : Bool
  pub mode : Option ℕ

pub record WriteReceipt : Type 0 where
  pub path : Text
  pub pre_hash : Option Text
  pub post_hash : Text
  pub pre_bytes : ℕ
  pub post_bytes : ℕ
  pub dry_run : Bool
  pub created : Bool

-- code that reads and changes the world, and may fail
abbrev pub Outcome : Type 0 → Type 0
Outcome A = Result {0, 0} EditError A × World

abbrev pub Io : Type 0 → Type 0
Io A = World → Outcome A

-- the result of a call that only has an effect
abbrev pub Done : Type 0
Done = Unit {0}

module _ {A B : Type 0} where
  abbrev pub after : Outcome A → (A → Io B) → Outcome B
  after (ok a, w) f = f a w
  after (err e, w) f = (err e, w)

  infixl 5 ◌>>=◌
  abbrev pub ◌>>=◌ : Io A → (A → Io B) → Io B
  ◌>>=◌ m f w = after (m w) f

abbrev pub pure : {A : Type 0} → A → Io A
pure a w = (ok a, w)

abbrev pub throw : {A : Type 0} → EditError → Io A
throw e w = (err e, w)

abbrev pub put : Disk → Text → Entry → Disk
put d p e q = if text_eq p q then e else d q

-- the world after the call that comes next
abbrev pub spent : World → World
spent w = record {
  disk = w.disk;
  faults = elim w.faults [ [] ↦ [] | b ∷ bs ↦ bs ];
  writes = w.writes;
}

abbrev pub fails : World → Bool
fails w = elim w.faults [ [] ↦ false | b ∷ bs ↦ b ]

-- A call that fails leaves the disk as it is; `change` is what it does otherwise.
abbrev pub call : Text → (Disk → Disk) → Io Done
call path change w =
    if fails w
    then (err (io path), spent w)
    else (ok tt, record { disk = change w.disk; faults = (spent w).faults; writes = w.writes })

abbrev pub look : Text → Io Entry
look path w = (ok (w.disk path), w)

-- the hash, the size, and whether there is something
abbrev pub Probe : Type 0
Probe = Option Text × (ℕ × Bool)

unfoldable pub probe_entry : System → Text → Entry → Io Probe
probe_entry sys path absent = pure (none, (0, false))
probe_entry sys path (file content mode) = do
  u ← call path (λ d. d)
  pure (some (sys.hash content), (length content, true))
probe_entry sys path other = pure (none, (0, true))

unfoldable pub probe : System → Text → Io Probe
unfolding probe_entry
probe sys path = do u ← call path (λ d. d); e ← look path; probe_entry sys path e

unfoldable pub violation : Precondition → Option Text → Bool → Option Violation
violation unconditional h found = none
violation not_exists h found = if found then some file_exists else none
violation exists h found = if found then none else some file_not_found
violation (expect_hash want) none found = some file_not_found
violation (expect_hash want) (some have) found =
    if text_eq have want then none else some (hash_differs want have)

unfoldable pub refuse : Text → Option Violation → Io Done
refuse path none = pure tt
refuse path (some v) = throw (precondition_failed path v)

unfoldable pub check_precondition : Text → Precondition → Option Text → Bool → Io Done
unfolding violation refuse
check_precondition path pre h found = refuse path (violation pre h found)

unfoldable pub mode_of : System → Option ℕ → ℕ
mode_of sys none = sys.masked 0o644
mode_of sys (some m) = sys.masked m

-- what is done with a failure: the temporary file is taken away, if it can be
unfoldable pub remove_failed : Text → Outcome Done → Outcome Done
remove_failed tmp (ok u, w) = (ok u, w)
remove_failed tmp (err e, w) = (err e, (call tmp (λ d. put d tmp absent) w).1)

abbrev pub or_remove : Text → Io Done → Io Done
or_remove tmp m w = remove_failed tmp (m w)

-- `create_new` fails on a name that is taken.
unfoldable pub open_at : Text → ℕ → Entry → Io Done
open_at tmp mode absent = call tmp (λ d. put d tmp (file [] mode))
open_at tmp mode (file content m) = throw (io tmp)
open_at tmp mode other = throw (io tmp)

unfoldable pub open_new : Text → ℕ → Io Done
unfolding open_at
open_new tmp mode = do e ← look tmp; open_at tmp mode e

-- `rename` puts the file in the place of another file, not of a directory.
unfoldable pub rename_at : Text → Text → Entry → Entry → Io Done
rename_at tmp path e absent = call path (λ d. put (put d tmp absent) path e)
rename_at tmp path e (file content m) = call path (λ d. put (put d tmp absent) path e)
rename_at tmp path e other = throw (io path)

unfoldable pub rename : Text → Text → Entry → Io Done
unfolding rename_at
rename tmp path e = do old ← look path; rename_at tmp path e old

abbrev pub next_tmp : System → Text → Io Text
next_tmp sys path w =
    (ok (sys.tmp w.writes path), record { disk = w.disk; faults = w.faults; writes = w.writes + 1 })

unfoldable pub atomic_write : System → Text → Bytes → Option ℕ → Io Done
unfolding open_new remove_failed rename mode_of
atomic_write sys path content mode = do
  tmp ← next_tmp sys path
  u ← open_new tmp (mode_of sys mode)
  u ← or_remove tmp (call tmp (λ d. put d tmp (file content (mode_of sys mode))))
  u ← or_remove tmp (call tmp (λ d. d))
  or_remove tmp (rename tmp path (file content (mode_of sys mode)))

unfoldable pub make_dir : System → Option Text → Io Done
make_dir sys none = pure tt
make_dir sys (some []) = pure tt
make_dir sys (some (c ∷ p)) = call (c ∷ p) (sys.create_dir_all (c ∷ p))

unfoldable pub make_parent : System → Text → Bool → Io Done
unfolding make_dir
make_parent sys path create = if create then make_dir sys (sys.parent path) else pure tt

abbrev pub receipt_of : System → Text → Probe → Bytes → Bool → WriteReceipt
receipt_of sys path (pre_hash, (pre_bytes, found)) content dry_run = record {
  path = path;
  pre_hash = pre_hash;
  post_hash = sys.hash content;
  pre_bytes = pre_bytes;
  post_bytes = length content;
  dry_run = dry_run;
  created = not found;
}

unfoldable pub write_bytes : System → Text → Bytes → WriteOptions → Io WriteReceipt
unfolding probe check_precondition make_parent atomic_write
write_bytes sys path content opts = do
  p ← probe sys path
  u ← check_precondition path opts.precondition p.0 p.1.1
  u ← make_parent sys path opts.create_dirs
  u ← (if opts.dry_run then pure tt else atomic_write sys path content opts.mode)
  pure (receipt_of sys path p content opts.dry_run)
