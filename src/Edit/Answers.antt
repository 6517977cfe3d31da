-- ===== src/Edit/Answers.antt =====
-- What `write_bytes` answers when the calls of the system succeed.
use ferrite_mcp.Prelude.{
  ℕ, ◌+◌, ◌≡◌, refl, Bool, true, false, Option, none, some, [], if◌then◌else◌, length, arith, Text,
  text_eq, Bool-cases, inl, inr, ◌⊎◌, sym, ◌∙◌, ◌≢◌, subst, text_eq_iff, Result, ok, err,
}
use ferrite_mcp.Edit.Content.{Bytes}
use ferrite_mcp.Edit.Disk.{
  Entry, absent, file, other, Disk, World, System, EditError, precondition_failed, WriteOptions,
  WriteReceipt, open_at, rename_at, ◌>>=◌, pure, put, Probe, probe_entry, probe, violation,
  Precondition, not_exists, exists, unconditional, expect_hash, Violation, file_exists,
  file_not_found, hash_differs, refuse, check_precondition, mode_of, remove_failed, open_new,
  rename, atomic_write, make_parent, write_bytes, receipt_of,
}

-- not a directory, which `rename` does not replace
unfoldable pub is_free : Entry → Bool
is_free absent = true
is_free (file content mode) = true
is_free other = false

-- all calls to come succeed
abbrev pub calm : Disk → ℕ → World
calm d n = record { disk = d; faults = []; writes = n }

module _ (sys : System) (path : Text) (content : Bytes) (mode : Option ℕ) where
  rename_at-calm :
      (tmp : Text) (e old : Entry) (d : Disk) (n : ℕ)
      → is_free old ≡ true
      → rename_at tmp path e old (calm d n) ≡ (ok tt, calm (put (put d tmp absent) path e) n)
  unfolding rename_at is_free
  rename_at-calm tmp e absent d n h = refl
  rename_at-calm tmp e (file content m) d n h = refl
  rename_at-calm tmp e other d n h = absurd (ground arith)

  abbrev entry : Entry
  entry = file content (mode_of sys mode)

  -- the disk after a write, the temporary file's name included
  abbrev pub replaced : Disk → ℕ → Disk
  replaced d n =
      let tmp = sys.tmp n path in
      put (put (put (put d tmp (file [] (mode_of sys mode))) tmp entry) tmp absent) path entry

  pub atomic_write-calm :
      (d : Disk) (n : ℕ)
      → d (sys.tmp n path) ≡ absent
      → text_eq (sys.tmp n path) path ≡ false
      → is_free (d path) ≡ true
      → atomic_write sys path content mode (calm d n) ≡ (ok tt, calm (replaced d n) (n + 1))
  unfolding atomic_write open_new open_at remove_failed rename
  atomic_write-calm d n free apart fits =
      let tmp = sys.tmp n path in
      let filled = put (put d tmp (file [] (mode_of sys mode))) tmp entry in
      rw (free, apart, rename_at-calm tmp entry (d path) filled (n + 1) fits) refl

-- A precondition holds of what a path holds: nothing or a file.
pub data Meets (sys : System) : Precondition → Entry → Type 0 where
  always : {e : Entry} → Meets sys unconditional e
  nothing_there : Meets sys not_exists absent
  file_there : {c : Bytes} {m : ℕ} → Meets sys exists (file c m)
  same_hash :
      {want : Text} {c : Bytes} {m : ℕ}
      → sys.hash c ≡ want
      → Meets sys (expect_hash want) (file c m)

-- A precondition does not hold of it, and what is reported.
pub data Breaks (sys : System) : Precondition → Entry → Violation → Type 0 where
  taken : {c : Bytes} {m : ℕ} → Breaks sys not_exists (file c m) file_exists
  missing : Breaks sys exists absent file_not_found
  no_content : {want : Text} → Breaks sys (expect_hash want) absent file_not_found
  other_hash :
      {want : Text} {c : Bytes} {m : ℕ}
      → sys.hash c ≢ want
      → Breaks sys (expect_hash want) (file c m) (hash_differs want (sys.hash c))

-- What the receipt of a write says, from what the path held.
pub record Reports (sys : System) (path : Text) (content : Bytes) (opts : WriteOptions) (e : Entry)
    (r : WriteReceipt) : Type 0 where
  pub of_path : r.path ≡ path
  pub new_content : (r.post_hash ≡ sys.hash content) × (r.post_bytes ≡ length content)
  pub tried : r.dry_run ≡ opts.dry_run
  pub from_nothing : e ≡ absent → (r.created ≡ true) × (r.pre_hash ≡ none) × (r.pre_bytes ≡ 0)
  pub from_file :
      (c : Bytes) (m : ℕ)
      → e ≡ file c m
      → (r.created ≡ false) × (r.pre_hash ≡ some (sys.hash c)) × (r.pre_bytes ≡ length c)

module _ (sys : System) (path : Text) (content : Bytes) (opts : WriteOptions) where
  answer :
      (p : Probe) (v : Option Violation) (d : Disk) (n : ℕ)
      → opts.create_dirs ≡ false
      → d (sys.tmp n path) ≡ absent
      → text_eq (sys.tmp n path) path ≡ false
      → is_free (d path) ≡ true
      → ((refuse path v >>= (λ u. make_parent sys path opts.create_dirs >>= (λ u.
            (if opts.dry_run then pure tt else atomic_write sys path content opts.mode)
            >>= (λ u. pure (receipt_of sys path p content opts.dry_run)))))
          (calm d n)).0
        ≡ elim v [
          | none ↦ ok (receipt_of sys path p content opts.dry_run)
          | some w ↦ err (precondition_failed path w)
        ]
  unfolding refuse make_parent
  answer p (some v) d n nodirs free apart fits = refl
  answer p none d n nodirs free apart fits = elim (Bool-cases opts.dry_run) [
    | inl dry ↦ rw (nodirs, dry) refl
    | inr wet ↦
        rw (nodirs, wet, atomic_write-calm sys path content opts.mode d n free apart fits) refl
  ]

  -- The answers that fit a path that holds `e`.
  pub data Answer (e : Entry) : Result EditError WriteReceipt → Type 0 where
    accepted :
        (r : WriteReceipt)
        → Meets sys opts.precondition e
        → Reports sys path content opts e r
        → Answer e (ok r)
    rejected :
        (v : Violation)
        → Breaks sys opts.precondition e v
        → Answer e (err (precondition_failed path v))

  -- what the probe finds
  abbrev found : Entry → Probe
  found absent = (none, (0, false))
  found (file c m) = (some (sys.hash c), (length c, true))
  found other = (none, (0, true))

  found-Reports :
      (e : Entry)
      → is_free e ≡ true
      → Reports sys path content opts e (receipt_of sys path (found e) content opts.dry_run)
  unfolding is_free
  found-Reports absent h = record {
    of_path = refl;
    new_content = (refl, refl);
    tried = refl;
    from_nothing = λ e. (refl, refl, refl);
    from_file = λ c m e. absurd cc;
  }
  found-Reports (file c m) h = record {
    of_path = refl;
    new_content = (refl, refl);
    tried = refl;
    from_nothing = λ e. absurd cc;
    from_file = λ c' m' e. (refl, (cc), (cc));
  }
  found-Reports other h = absurd (ground arith)

  judged :
      (pre : Precondition) (e : Entry)
      → is_free e ≡ true
      → ((violation pre (found e).0 (found e).1.1 ≡ none) × Meets sys pre e)
        ⊎ ((v : Violation) × (violation pre (found e).0 (found e).1.1 ≡ some v)
            × Breaks sys pre e v)
  unfolding violation is_free
  judged unconditional e h = inl (refl, always)
  judged not_exists absent h = inl (refl, nothing_there)
  judged not_exists (file c m) h = inr (file_exists, refl, taken)
  judged exists absent h = inr (file_not_found, refl, missing)
  judged exists (file c m) h = inl (refl, file_there)
  judged (expect_hash want) absent h = inr (file_not_found, refl, no_content)
  judged (expect_hash want) (file c m) h = elim (Bool-cases (text_eq (sys.hash c) want)) [
    | inl same ↦ inl (rw same refl, same_hash ((text_eq_iff (sys.hash c) want).0 same))
    | inr differs ↦ inr (
      hash_differs want (sys.hash c),
      rw differs refl,
      other_hash
          (λ same. absurd (true_false (sym ((text_eq_iff (sys.hash c) want).1 same) ∙ differs))),
    )
  ]
    where
      true_false : {A : Type 0} → true ≡ false → A
      true_false h = absurd (ground arith)
  judged not_exists other h = absurd (ground arith)
  judged exists other h = absurd (ground arith)
  judged (expect_hash want) other h = absurd (ground arith)

  answered :
      (e : Entry) (v : Option Violation)
      → is_free e ≡ true
      → ((v ≡ none) × Meets sys opts.precondition e)
        ⊎ ((w : Violation) × (v ≡ some w) × Breaks sys opts.precondition e w)
      → Answer e (elim v as (λ _. Result EditError WriteReceipt) [
        | none ↦ ok (receipt_of sys path (found e) content opts.dry_run)
        | some w ↦ err (precondition_failed path w)
      ])
  answered e v h (inl (is, meets)) = rw is (accepted _ meets (found-Reports e h))
  answered e v h (inr (w, is, breaks)) = rw is (rejected w breaks)

  -- When no call of the system fails, no directories are to be made, the name of the temporary file is free
  -- and the path holds nothing or a file, `write_bytes` succeeds exactly when its precondition holds of what
  -- the path holds, with a receipt of what was there and of the new content; else its error names the
  -- condition that is violated.
  pub write_bytes-Answer :
      (d : Disk) (n : ℕ)
      → opts.create_dirs ≡ false
      → d (sys.tmp n path) ≡ absent
      → text_eq (sys.tmp n path) path ≡ false
      → is_free (d path) ≡ true
      → Answer
          (d path)
          (write_bytes sys path content opts (record { disk = d; faults = []; writes = n })).0
  unfolding write_bytes probe probe_entry check_precondition is_free
  write_bytes-Answer d n nodirs free apart fits = by_entry (d path) refl fits
    where
      answered_as :
          (e : Entry)
          → is_free e ≡ true
          → (write_bytes sys path content opts (calm d n)).0
            ≡ elim (violation opts.precondition (found e).0 (found e).1.1) [
              | none ↦ ok (receipt_of sys path (found e) content opts.dry_run)
              | some w ↦ err (precondition_failed path w)
            ]
          → Answer e (write_bytes sys path content opts (calm d n)).0
      answered_as e free_e is =
          subst (Answer e) (sym is) (answered e _ free_e (judged opts.precondition e free_e))

      by_entry :
          (e : Entry)
          → d path ≡ e
          → is_free e ≡ true
          → Answer e (write_bytes sys path content opts (calm d n)).0
      by_entry absent this free_e =
          answered_as absent free_e (rw this (answer (found absent) _ d n nodirs free apart fits))
      by_entry (file c m) this free_e =
          answered_as (file c m) free_e
            (rw this (answer (found (file c m)) _ d n nodirs free apart fits))
      by_entry other this free_e = absurd (ground arith)
