-- ===== src/Edit/Writes.antt =====
-- What `write_bytes` does to the regular files of the disk, whichever of its calls fail.
use ferrite_mcp.Prelude.{
  ℕ, ◌+◌, ◌≡◌, refl, sym, ap, ◌∙◌, Bool, true, false, Option, none, some, [], ◌∷◌, if◌then◌else◌,
  length, Text, text_eq, Bool-cases, inl, inr, ok, err,
}
use ferrite_mcp.Edit.Content.{Bytes}
use ferrite_mcp.Edit.Disk.{
  Entry, absent, file, other, Disk, System, Precondition, WriteOptions, WriteReceipt, Io, Outcome,
  Done, rename_at, after, ◌>>=◌, pure, put, call, look, Probe, probe_entry, probe, violation,
  Violation, refuse, check_precondition, mode_of, or_remove, open_new, rename, atomic_write,
  make_dir, make_parent, write_bytes, receipt_of,
}
use ferrite_mcp.Edit.Effects.{
  view, is_ok, at, Leaves, Change, Sets, bind-Leaves, bind-Sets, call-Leaves, put-Leaves,
  remove_failed-Leaves, remove_failed-is_ok, open_at-Leaves, call-Sets,
}

-- `p` keeps its file whatever directories are made, and no temporary file has its name.
abbrev pub Kept : System → Text → Type 0
Kept sys q =
    ((n : ℕ) (p : Text) → text_eq (sys.tmp n p) q ≡ false)
    × ((p : Text) (d : Disk) → view (sys.create_dir_all p d q) ≡ view (d q))

-- what `q` holds after a write to `path`
abbrev pub written : System → Text → Bytes → Option ℕ → Text → Change
written sys path content mode q old =
    if text_eq path q then some (content, mode_of sys mode) else old

module _ (sys : System) (path : Text) (content : Bytes) (mode : Option ℕ) (q : Text)
    (kept : Kept sys q) where
  abbrev entry : Entry
  entry = file content (mode_of sys mode)

  abbrev moved : Text → Disk → Disk
  moved tmp d = put (put d tmp absent) path entry

  moved-written :
      (tmp : Text)
      → text_eq tmp q ≡ false
      → (d : Disk) → view (moved tmp d q) ≡ written sys path content mode q (view (d q))
  unfolding view
  moved-written tmp h d = elim (Bool-cases (text_eq path q)) [
    | inl this ↦ rw this refl
    | inr that ↦ rw (that, h) refl
  ]

  rename_at-Sets :
      (tmp : Text) (e : Entry)
      → text_eq tmp q ≡ false
      → Sets q (written sys path content mode q) (rename_at tmp path entry e)
  unfolding rename_at is_ok
  rename_at-Sets tmp absent h =
      call-Sets q path (moved tmp) (written sys path content mode q) (moved-written tmp h)
  rename_at-Sets tmp (file c m) h =
      call-Sets q path (moved tmp) (written sys path content mode q) (moved-written tmp h)
  rename_at-Sets tmp other h = λ w. refl

  rename-Sets :
      (tmp : Text)
      → text_eq tmp q ≡ false
      → Sets q (written sys path content mode q) (or_remove tmp (rename tmp path entry))
  unfolding rename
  rename-Sets tmp h w =
      remove_failed-Leaves q tmp (rename tmp path entry w) h
      ∙ (rename_at-Sets tmp (w.disk path) h w
          ∙ ap (λ b. if b then written sys path content mode q (at q w) else at q w)
              (sym (remove_failed-is_ok q tmp (rename tmp path entry w))))

  step-Leaves :
      (tmp : Text) (change : Disk → Disk)
      → text_eq tmp q ≡ false
      → ((d : Disk) → view (change d q) ≡ view (d q))
      → Leaves q (or_remove tmp (call tmp change))
  step-Leaves tmp change h keeps w =
      remove_failed-Leaves q tmp (call tmp change w) h ∙ call-Leaves q tmp change keeps w

  abbrev fill : Text → Io Done
  fill tmp = or_remove tmp (call tmp (λ d. put d tmp entry))

  abbrev sync : Text → Io Done
  sync tmp = or_remove tmp (call tmp (λ d. d))

  abbrev place : Text → Io Done
  place tmp = or_remove tmp (rename tmp path entry)

  pub atomic_write-Sets :
      Sets q (written sys path content mode q) (atomic_write sys path content mode)
  unfolding atomic_write open_new
  atomic_write-Sets w =
      let tmp = sys.tmp w.writes path in
      let apart = kept.0 w.writes path in
      let v = written sys path content mode q in
      bind-Sets q (λ u. fill tmp >>= (λ u. sync tmp >>= (λ u. place tmp))) v
        (open_new tmp (mode_of sys mode))
        (λ x. open_at-Leaves q tmp (mode_of sys mode) (x.disk tmp) apart x)
        (λ u.
          bind-Sets q (λ u. sync tmp >>= (λ u. place tmp)) v (fill tmp)
            (step-Leaves tmp (λ d. put d tmp entry) apart (λ d. put-Leaves q d tmp entry apart))
            (λ u.
              bind-Sets q (λ u. place tmp) v (sync tmp) (step-Leaves tmp (λ d. d) apart (λ d. refl))
                (λ u. rename-Sets tmp apart)))
        (record { disk = w.disk; faults = w.faults; writes = w.writes + 1 })

module _ (q : Text) where
  pub probe-Leaves : (sys : System) (path : Text) → Leaves q (probe sys path)
  unfolding probe probe_entry
  probe-Leaves sys path =
      bind-Leaves q (λ u. look path >>= probe_entry sys path) (call path (λ d. d))
        (call-Leaves q path (λ d. d) (λ d. refl))
        (λ u. bind-Leaves q (probe_entry sys path) (look path) (λ w. refl) entry)
    where
      entry : (e : Entry) → Leaves q (probe_entry sys path e)
      entry absent = λ w. refl
      entry (file content mode) =
          bind-Leaves q (λ u. pure (some (sys.hash content), (length content, true)))
            (call path (λ d. d)) (call-Leaves q path (λ d. d) (λ d. refl)) (λ u w. refl)
      entry other = λ w. refl

  refuse-Leaves : (path : Text) (v : Option Violation) → Leaves q (refuse path v)
  unfolding refuse
  refuse-Leaves path none = λ w. refl
  refuse-Leaves path (some v) = λ w. refl

  pub check_precondition-Leaves :
      (path : Text) (pre : Precondition) (h : Option Text) (found : Bool)
      → Leaves q (check_precondition path pre h found)
  unfolding check_precondition
  check_precondition-Leaves path pre h found = refuse-Leaves path (violation pre h found)

  make_dir-Leaves : (sys : System) (dir : Option Text) → Kept sys q → Leaves q (make_dir sys dir)
  unfolding make_dir
  make_dir-Leaves sys none kept = λ w. refl
  make_dir-Leaves sys (some []) kept = λ w. refl
  make_dir-Leaves sys (some (c ∷ p)) kept =
      call-Leaves q (c ∷ p) (sys.create_dir_all (c ∷ p)) (kept.1 (c ∷ p))

  make_parent-Leaves :
      (sys : System) (path : Text) (create : Bool)
      → Kept sys q
      → Leaves q (make_parent sys path create)
  unfolding make_parent
  make_parent-Leaves sys path create kept w = elim (Bool-cases create) [
    | inl made ↦ rw made (make_dir-Leaves sys (sys.parent path) kept w)
    | inr left ↦ rw left refl
  ]

-- what a write with these options does to `q`, when it succeeds
abbrev pub target : System → Text → Bytes → WriteOptions → Text → Change
target sys path content opts q old =
    if opts.dry_run then old else written sys path content opts.mode q old

module _ (sys : System) (path : Text) (content : Bytes) (opts : WriteOptions) (q : Text)
    (kept : Kept sys q) where
  after-pure :
      {A : Type 0} (r : Outcome Done) (x y : Option (Bytes × ℕ)) (a : A)
      → at q r.1 ≡ (if is_ok r.0 then x else y)
      → at q (after r (λ u. pure a)).1 ≡ (if is_ok (after r (λ u. pure a)).0 then x else y)
  unfolding is_ok
  after-pure (ok u, w) x y a h = h
  after-pure (err e, w) x y a h = h

  Sets-pure :
      {A : Type 0} (m : Io Done) (v : Change) (a : A) → Sets q v m → Sets q v (m >>= (λ u. pure a))
  Sets-pure m v a h w = after-pure (m w) (v (at q w)) (at q w) a (h w)

  abbrev write : Io Done
  write = if opts.dry_run then pure tt else atomic_write sys path content opts.mode

  write-Sets : Sets q (target sys path content opts q) write
  unfolding is_ok view
  write-Sets w = elim (Bool-cases opts.dry_run) [
    | inl dry ↦ rw dry refl
    | inr wet ↦ rw wet (atomic_write-Sets sys path content opts.mode q kept w)
  ]

  -- what follows the preparation, the check and the probe
  abbrev finish : Probe → Io WriteReceipt
  finish p = write >>= (λ u. pure (receipt_of sys path p content opts.dry_run))

  abbrev prepare : Probe → Io WriteReceipt
  prepare p = make_parent sys path opts.create_dirs >>= (λ u. finish p)

  abbrev check : Probe → Io Done
  check p = check_precondition path opts.precondition p.0 p.1.1

  -- Whichever calls of the system fail: a path that no temporary file is named like, and whose file
  -- `create_dir_all` does not change, holds after `write_bytes` what it held before, unless the call
  -- succeeds, is no dry run and writes that path, which then holds the new content with the asked
  -- permissions.
  pub write_bytes-Sets : Sets q (target sys path content opts q) (write_bytes sys path content opts)
  unfolding write_bytes
  write_bytes-Sets =
      bind-Sets q (λ p. check p >>= (λ u. prepare p)) (target sys path content opts q)
        (probe sys path) (probe-Leaves q sys path)
        (λ p.
          bind-Sets q (λ u. prepare p) (target sys path content opts q) (check p)
            (check_precondition-Leaves q path opts.precondition p.0 p.1.1)
            (λ u.
              bind-Sets q (λ u. finish p) (target sys path content opts q)
                (make_parent sys path opts.create_dirs)
                (make_parent-Leaves q sys path opts.create_dirs kept)
                (λ u.
                  Sets-pure write (target sys path content opts q)
                    (receipt_of sys path p content opts.dry_run) write-Sets)))
