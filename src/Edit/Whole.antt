-- ===== src/Edit/Whole.antt =====
-- A transaction as a whole: nothing, all of it, or what a roll back leaves.
use ferrite_mcp.Prelude.{
  ℕ, ◌≡◌, refl, ap, ◌∙◌, Bool, true, false, not, Option, List, [], if◌then◌else◌, arith, Text, ok,
  err, ◌||◌,
}
use ferrite_mcp.Edit.Content.{Bytes}
use ferrite_mcp.Edit.Disk.{World, System, Outcome, Done, after, ◌>>=◌, pure}
use ferrite_mcp.Edit.Writes.{Kept}
use ferrite_mcp.Edit.Effects.{is_ok, at}
use ferrite_mcp.Edit.Replace.{Texts}
use ferrite_mcp.Edit.Transaction.{
  EditOp, StagedEntry, stage_all, commit, finished, execute_transaction,
}
use ferrite_mcp.Edit.Committed.{all_written, stage_all-Leaves, commit-Written}

module _ (sys : System) (txt : Texts) (ops : List EditOp) (dirs : Bool) (q : Text) where
  untouched :
      (dry : Bool) (r : Outcome (List StagedEntry))
      → dry || not (is_ok r.0) ≡ true
      → at q
          (after r (λ staged.
            (if dry then pure tt else commit sys dirs 0 [] staged)
            >>= (λ u. pure (finished dry staged)))).1
        ≡ at q r.1
  unfolding is_ok
  untouched true (ok staged, v) h = refl
  untouched false (ok staged, v) h = absurd (ground arith)
  untouched dry (err e, v) h = refl

  -- A transaction that is a dry run, or whose validation of any operation fails, leaves every regular file as
  -- it was, whichever calls of the system fail.
  pub execute_transaction-Leaves :
      (dry : Bool) (w : World)
      → dry || not (is_ok (stage_all sys txt ops w).0) ≡ true
      → at q (execute_transaction sys txt ops dry dirs w).1 ≡ at q w
  unfolding execute_transaction
  execute_transaction-Leaves dry w h =
      untouched dry (stage_all sys txt ops w) h ∙ stage_all-Leaves sys txt q ops w

  finish-Written :
      (staged : List StagedEntry) (r : Outcome Done) (new : Option (Bytes × ℕ))
      → (is_ok r.0 ≡ true → at q r.1 ≡ new)
      → is_ok (after r (λ u. pure (finished false staged))).0 ≡ true
      → at q (after r (λ u. pure (finished false staged))).1 ≡ new
  unfolding is_ok
  finish-Written staged (ok u, v) new h done = h refl
  finish-Written staged (err e, v) new h done = absurd (ground arith)

  all_staged :
      (r : Outcome (List StagedEntry)) (old : Option (Bytes × ℕ))
      → Kept sys q
      → at q r.1 ≡ old
      → is_ok
          (after r
            (λ staged. commit sys dirs 0 [] staged >>= (λ u. pure (finished false staged)))).0
        ≡ true
      → (staged : List StagedEntry) × (r.0 ≡ ok staged)
        × (at q
              (after r
                (λ staged. commit sys dirs 0 [] staged >>= (λ u. pure (finished false staged)))).1
            ≡ all_written sys staged q old)
  unfolding is_ok
  all_staged (ok staged, v) old kept h done = (
    staged,
    refl,
    finish-Written staged (commit sys dirs 0 [] staged v) (all_written sys staged q old)
        (λ went.
          commit-Written sys txt q dirs kept 0 [] staged v went ∙ ap (all_written sys staged q) h)
        done,
  )
  all_staged (err e, v) old kept h done = absurd (ground arith)

  -- A transaction that succeeds and is no dry run leaves what a path holds as a regular file with what writing
  -- the staged entries in order makes of it, for every path that no temporary file is named like and whose
  -- file `create_dir_all` does not change.
  pub execute_transaction-all_written :
      (w : World)
      → Kept sys q
      → is_ok (execute_transaction sys txt ops false dirs w).0 ≡ true
      → (staged : List StagedEntry) × ((stage_all sys txt ops w).0 ≡ ok staged)
        × (at q (execute_transaction sys txt ops false dirs w).1
            ≡ all_written sys staged q (at q w))
  unfolding execute_transaction
  execute_transaction-all_written w kept done =
      all_staged (stage_all sys txt ops w) (at q w) kept (stage_all-Leaves sys txt q ops w) done
