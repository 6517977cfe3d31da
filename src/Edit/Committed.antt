-- ===== src/Edit/Committed.antt =====
-- What a transaction does to the regular files of the disk.
use ferrite_mcp.Prelude.{
  ℕ, suc, ◌≡◌, refl, ap, ◌∙◌, Bool, true, not, Option, none, List, [], ◌∷◌, if◌then◌else◌, arith,
  Text, Bool-cases, inl, inr, Result, ok, err, ◌||◌,
}
use ferrite_mcp.Edit.Content.{Bytes}
use ferrite_mcp.Edit.Disk.{
  Entry, absent, file, other, World, System, EditError, WriteReceipt, Io, Outcome, Done, after,
  ◌>>=◌, pure, throw, stale, call, look, Probe, probe, check_precondition, write_bytes,
}
use ferrite_mcp.Edit.Writes.{
  Kept, written, probe-Leaves, check_precondition-Leaves, write_bytes-Sets,
}
use ferrite_mcp.Edit.Effects.{is_ok, at, Change, Leaves, bind-Leaves, call-Leaves}
use ferrite_mcp.Edit.Replace.{Texts, return}
use ferrite_mcp.Edit.Transaction.{
  EditOp, path_of, precondition_of, StagedEntry, read_bytes, compute_new_content, stage, stage_all,
  same_hash, same_bool, verify_staged_entry_still_current, commit_options, roll_back,
  annotate_op_failure, commit,
}

-- what a path holds after the staged entries are written in order
unfoldable pub all_written : System → List StagedEntry → Text → Change
all_written sys [] q old = old
all_written sys (e ∷ es) q old = all_written sys es q (written sys e.path e.new_bytes none q old)

module _ (sys : System) (txt : Texts) (q : Text) where
  return-Leaves : {A : Type 0} (r : Result EditError A) → Leaves q (return r)
  return-Leaves r = λ w. refl

  read_bytes-Leaves : (path : Text) (e : Entry) → Leaves q (read_bytes path e)
  unfolding read_bytes
  read_bytes-Leaves path absent = λ w. refl
  read_bytes-Leaves path (file content mode) =
      bind-Leaves q (λ u. pure content) (call path (λ d. d))
        (call-Leaves q path (λ d. d) (λ d. refl)) (λ u w. refl)
  read_bytes-Leaves path other = λ w. refl

  abbrev load_pre : EditOp → Bool → Entry → Io Bytes
  load_pre op found e = if found then read_bytes (path_of op) e else pure []

  load_pre-Leaves : (op : EditOp) (found : Bool) (e : Entry) → Leaves q (load_pre op found e)
  load_pre-Leaves op found e w = elim (Bool-cases found) [
    | inl there ↦ rw there (read_bytes-Leaves (path_of op) e w)
    | inr missing ↦ rw missing refl
  ]

  -- the steps of `stage`, from the last one on
  abbrev made : EditOp → Probe → Bytes → Text → Io StagedEntry
  made op p bytes text = pure (record {
    path = path_of op;
    pre_bytes = bytes;
    pre_hash = p.0;
    pre_existed = p.1.1;
    new_bytes = txt.codec.into_bytes text;
    post_hash = sys.hash (txt.codec.into_bytes text);
  })

  abbrev with_text : EditOp → Probe → Bytes → Io StagedEntry
  with_text op p bytes = return (compute_new_content txt op bytes p.1.1) >>= made op p bytes

  abbrev with_entry : EditOp → Probe → Entry → Io StagedEntry
  with_entry op p e = load_pre op p.1.1 e >>= with_text op p

  abbrev checked : EditOp → Probe → Io StagedEntry
  checked op p =
      check_precondition (path_of op) (precondition_of op) p.0 p.1.1
      >>= (λ u. look (path_of op) >>= with_entry op p)

  stage-Leaves : (op : EditOp) → Leaves q (stage sys txt op)
  unfolding stage
  stage-Leaves op =
      bind-Leaves q (checked op) (probe sys (path_of op)) (probe-Leaves q sys (path_of op)) (λ p.
        bind-Leaves q (λ u. look (path_of op) >>= with_entry op p)
          (check_precondition (path_of op) (precondition_of op) p.0 p.1.1)
          (check_precondition-Leaves q (path_of op) (precondition_of op) p.0 p.1.1)
          (λ u.
            bind-Leaves q (with_entry op p) (look (path_of op)) (λ w. refl)
              (λ e.
                bind-Leaves q (with_text op p) (load_pre op p.1.1 e) (load_pre-Leaves op p.1.1 e)
                  (λ bytes.
                    bind-Leaves q (made op p bytes)
                      (return (compute_new_content txt op bytes p.1.1)) (λ w. refl)
                      (λ text w. refl)))))

  pub stage_all-Leaves : (ops : List EditOp) → Leaves q (stage_all sys txt ops)
  unfolding stage_all
  stage_all-Leaves [] = λ w. refl
  stage_all-Leaves (op ∷ ops) =
      bind-Leaves q (λ e. stage_all sys txt ops >>= (λ es. pure (e ∷ es))) (stage sys txt op)
        (stage-Leaves op)
        (λ e.
          bind-Leaves q (λ es. pure (e ∷ es)) (stage_all sys txt ops) (stage_all-Leaves ops)
            (λ es w. refl))

  verify-Leaves : (e : StagedEntry) → Leaves q (verify_staged_entry_still_current sys e)
  unfolding verify_staged_entry_still_current
  verify-Leaves e =
      bind-Leaves q (λ p. if differs p then throw (stale e.path) else pure tt) (probe sys e.path)
        (probe-Leaves q sys e.path) decide
    where
      differs : Probe → Bool
      differs p = not (same_bool p.1.1 e.pre_existed) || not (same_hash p.0 e.pre_hash)

      decide : (p : Probe) → Leaves q (if differs p then throw (stale e.path) else pure tt)
      decide p w = elim (Bool-cases (differs p)) [
        | inl changed ↦ rw changed refl
        | inr same ↦ rw same refl
      ]

  module _ (dirs : Bool) (kept : Kept sys q) where
    -- what follows a write in the loop
    abbrev settle :
        ℕ → List StagedEntry → StagedEntry → List StagedEntry → Outcome WriteReceipt → Outcome Done
    settle index committed e es r = elim r.0 as (λ _. Outcome Done) [
      | ok receipt ↦ commit sys dirs (suc index) (e ∷ committed) es r.1
      | err failure ↦ (err (annotate_op_failure index failure), roll_back sys committed r.1)
    ]

    abbrev Written : ℕ → List StagedEntry → List StagedEntry → Type 0
    Written index committed es =
        (w : World)
        → is_ok (commit sys dirs index committed es w).0 ≡ true
        → at q (commit sys dirs index committed es w).1 ≡ all_written sys es q (at q w)

    settle-Written :
        (index : ℕ) (committed : List StagedEntry) (e : StagedEntry) (es : List StagedEntry)
        → Written (suc index) (e ∷ committed) es
        → (r : Outcome WriteReceipt) (old new : Option (Bytes × ℕ))
        → at q r.1 ≡ (if is_ok r.0 then new else old)
        → is_ok (settle index committed e es r).0 ≡ true
        → at q (settle index committed e es r).1 ≡ all_written sys es q new
    unfolding is_ok
    settle-Written index committed e es rest (ok receipt, v) old new h done =
        rest v done ∙ ap (all_written sys es q) h
    settle-Written index committed e es rest (err failure, v) old new h done = absurd (ground arith)

    verified-Written :
        (index : ℕ) (committed : List StagedEntry) (e : StagedEntry) (es : List StagedEntry)
        → Written (suc index) (e ∷ committed) es
        → (r : Outcome Done) (old : Option (Bytes × ℕ)) → at q r.1 ≡ old
        → is_ok
            (after r (λ u w.
              settle index committed e es
                (write_bytes sys e.path e.new_bytes (commit_options dirs) w))).0
          ≡ true
        → at q
            (after r (λ u w.
              settle index committed e es
                (write_bytes sys e.path e.new_bytes (commit_options dirs) w))).1
          ≡ all_written sys es q (written sys e.path e.new_bytes none q old)
    unfolding is_ok
    verified-Written index committed e es rest (ok u, v) old h done =
        settle-Written index committed e es rest
          (write_bytes sys e.path e.new_bytes (commit_options dirs) v) (at q v)
          (written sys e.path e.new_bytes none q old)
          (write_bytes-Sets sys e.path e.new_bytes (commit_options dirs) q kept v
            ∙ ap
                (λ x.
                  if is_ok (write_bytes sys e.path e.new_bytes (commit_options dirs) v).0
                  then written sys e.path e.new_bytes none q x
                  else at q v)
                h)
          done
    verified-Written index committed e es rest (err failure, v) old h done = absurd (ground arith)

    pub commit-Written : (index : ℕ) (committed es : List StagedEntry) → Written index committed es
    unfolding commit all_written is_ok
    commit-Written index committed [] w done = refl
    commit-Written index committed (e ∷ es) w done =
        verified-Written index committed e es (commit-Written (suc index) (e ∷ committed) es)
          (verify_staged_entry_still_current sys e w) (at q w) (verify-Leaves e w) done
