-- ===== src/GitGuard/Strict.antt =====
-- What the guard lets through.
use ferrite_mcp.Prelude.{
  ◌≡◌, refl, sym, ap, ◌∙◌, Bool, true, false, Option, none, some, if◌then◌else◌, Text, codes,
  text_eq, elem, Bool-cases, inl, inr, arith, Result, ok, err, ◌↔◌,
}
use ferrite_mcp.Server.Policy.{expand_tilde}
use ferrite_mcp.Permissions.Recovery.{contains}
use ferrite_mcp.GitGuard.{
  Class, GitConfig, GuardArgs, classify, class_enabled, skip_by_tool, guarded, Checkpoint,
  AuditStatus, verdict, checkpoint_of, maybe_auto_checkpoint,
}

-- A checkpoint of a class is due before a tool: the tool is none that makes checkpoints itself, the call does
-- not decline it, and the configuration asks for one of the class.
pub record Due (cfg : GitConfig) (tool : Text) (args : GuardArgs) (class : Class) : Type 0 where
  pub no_checkpoint_tool : text_eq tool (codes "git_checkpoint") ≡ false
  pub no_commit_tool : text_eq tool (codes "git_commit") ≡ false
  pub not_declined : args.no_checkpoint ≡ false
  pub of_class : classify tool args ≡ some class
  pub is_on : cfg.auto_checkpoint ≡ true
  pub for_class : class_enabled cfg class ≡ true

-- the directory of the checkpoint
abbrev repository : (home cwd : Text) → Option Text → Text
repository home cwd none = cwd
repository home cwd (some p) = expand_tilde home p

module _ (home cwd : Text) (cfg : GitConfig) (tool : Text) (args : GuardArgs) where
  -- The checkpoint that is asked for stands in the directory of the call, and adds all files where the
  -- configuration says `all`, else the tracked ones.
  pub record Asks (class : Class) (cp : Checkpoint) : Type 0 where
    pub there : cp.path ≡ repository home cwd args.path
    pub all_files : text_eq cfg.add_mode (codes "all") ≡ true → cp.add ≡ codes "all"
    pub tracked_files : text_eq cfg.add_mode (codes "all") ≡ false → cp.add ≡ codes "tracked"
    pub for_tool : cp.tool ≡ tool
    pub of_class : cp.class ≡ class

guarded-Due :
    (cfg : GitConfig) (tool : Text) (args : GuardArgs) (class : Class)
    → guarded cfg tool args ≡ some class
    → Due cfg tool args class
unfolding guarded skip_by_tool elem
guarded-Due cfg tool args class h = by_class (classify tool args) refl
  where
    by_class : (k : Option Class) → classify tool args ≡ k → Due cfg tool args class
    by_class none is = absurd (ground arith)
    by_class (some k) is = record {
      no_checkpoint_tool = ground arith;
      no_commit_tool = ground arith;
      not_declined = ground arith;
      of_class = ground arith;
      is_on = ground arith;
      for_class = ground arith;
    }

Due-guarded :
    (cfg : GitConfig) (tool : Text) (args : GuardArgs) (class : Class)
    → Due cfg tool args class
    → guarded cfg tool args ≡ some class
unfolding guarded skip_by_tool elem
Due-guarded cfg tool args class d = ground (
  arith, d.no_checkpoint_tool, d.no_commit_tool, d.not_declined, d.of_class, d.is_on, d.for_class,
)

verdict_refuses :
    (strict : Bool) (r : Result Text (Unit {0})) (e : Text)
    → (verdict strict r).0 ≡ some e
    → (strict ≡ true) × (r ≡ err e) × (contains (codes "not a git repo") e ≡ false)
unfolding verdict
verdict_refuses strict (ok u) e h = absurd (ground arith)
verdict_refuses strict (err m) e h =
    let (on, same, no_repo) = by_repository (contains (codes "not a git repo") m) strict h in
    (on, ap err same, rw (← same) no_repo)
  where
    by_repository :
        (b s : Bool)
        → (if◌then◌else◌ {A = Option Text × AuditStatus} b
            (none, AuditStatus.skipped_non_repo)
            ((if s then some m else none), AuditStatus.checkpoint_failed)).0
          ≡ some e
        → (s ≡ true) × (m ≡ e) × (b ≡ false)
    by_repository true s h = absurd (ground arith)
    by_repository false true h = (refl, (ground arith), refl)
    by_repository false false h = absurd (ground arith)

refuses_verdict :
    (e : Text) → contains (codes "not a git repo") e ≡ false → (verdict true (err e)).0 ≡ some e
unfolding verdict
refuses_verdict e h = rw h refl

module _ (home cwd : Text) (cfg : GitConfig) (tool : Text) (args : GuardArgs) (class : Class) where
  checkpoint_of-Asks :
      Asks home cwd cfg tool args class (checkpoint_of home cwd cfg tool args class)
  unfolding checkpoint_of
  checkpoint_of-Asks = record {
    there = by_path args.path;
    all_files = λ h. rw h refl;
    tracked_files = λ h. rw h refl;
    for_tool = refl;
    of_class = refl;
  }
    where
      by_path :
          (p : Option Text)
          → elim p as (λ _. Text) [ none ↦ cwd | some p ↦ expand_tilde home p ]
            ≡ repository home cwd p
      by_path none = refl
      by_path (some p) = refl

  Asks-checkpoint_of :
      (cp : Checkpoint)
      → Asks home cwd cfg tool args class cp
      → cp ≡ checkpoint_of home cwd cfg tool args class
  unfolding checkpoint_of
  Asks-checkpoint_of cp a = λ i. record {
    path = (a.there ∙ sym checkpoint_of-Asks.there) i;
    add = by_mode i;
    tool = a.for_tool i;
    class = a.of_class i;
  }
    where
      by_mode : cp.add ≡ (checkpoint_of home cwd cfg tool args class).add
      by_mode = elim (Bool-cases (text_eq cfg.add_mode (codes "all"))) [
        | inl all ↦ a.all_files all ∙ sym (checkpoint_of-Asks.all_files all)
        | inr tracked ↦ a.tracked_files tracked ∙ sym (checkpoint_of-Asks.tracked_files tracked)
      ]

module _ (git_checkpoint : Checkpoint → Result Text (Unit {0})) (home cwd : Text) (cfg : GitConfig)
    (tool : Text) (args : GuardArgs) where
  -- A tool is blocked with an error: the configuration is strict, and a checkpoint that is due fails with
  -- the error, which does not say that there is no repository.
  pub record Blocked (e : Text) : Type 0 where
    pub class : Class
    pub checkpoint : Checkpoint
    pub strictly : cfg.strict ≡ true
    pub due : Due cfg tool args class
    pub asks : Asks home cwd cfg tool args class checkpoint
    pub fails : git_checkpoint checkpoint ≡ err e
    pub in_repository : contains (codes "not a git repo") e ≡ false

  refused-Blocked :
      (e : Text)
      → (maybe_auto_checkpoint git_checkpoint home cwd cfg tool args).0 ≡ some e
      → Blocked e
  unfolding maybe_auto_checkpoint
  refused-Blocked e h = by_class (guarded cfg tool args) refl h
    where
      by_class :
          (k : Option Class)
          → guarded cfg tool args ≡ k
          → (elim k as (λ _. Option Text × Option AuditStatus) [
            | none ↦ (none, none)
            | some class ↦
                let (refused, status) =
                  verdict cfg.strict
                    (git_checkpoint (checkpoint_of home cwd cfg tool args class)) in
                (refused, some status)
          ]).0
            ≡ some e
          → Blocked e
      by_class none is h = absurd (ground arith)
      by_class (some class) is h =
          let asked = checkpoint_of home cwd cfg tool args class in
          let (on, fails, inside) = verdict_refuses cfg.strict (git_checkpoint asked) e h in
          record {
            class = class;
            checkpoint = asked;
            strictly = on;
            due = guarded-Due cfg tool args class is;
            asks = checkpoint_of-Asks home cwd cfg tool args class;
            fails = fails;
            in_repository = inside;
          }

  Blocked-refused :
      (e : Text)
      → Blocked e
      → (maybe_auto_checkpoint git_checkpoint home cwd cfg tool args).0 ≡ some e
  unfolding maybe_auto_checkpoint
  Blocked-refused e b =
      let same = Asks-checkpoint_of home cwd cfg tool args b.class b.checkpoint b.asks in
      rw
        (
          Due-guarded cfg tool args b.class b.due,
          b.strictly,
          ← same,
          b.fails,
          maybe_auto_checkpoint,
        )
        (refuses_verdict e b.in_repository)

  -- The guard refuses a tool with an error exactly when the configuration is strict, a checkpoint is due
  -- before the tool, it fails with that error, and the error does not say that there is no repository.
  -- A checkpoint is due before a tool that the table has in a class for which the configuration has
  -- checkpoints on, unless the tool is git_checkpoint or git_commit or the call declines it; it is made in the
  -- directory of the call.
  pub maybe_auto_checkpoint-Blocked :
      (e : Text)
      → ((maybe_auto_checkpoint git_checkpoint home cwd cfg tool args).0 ≡ some e) ↔ Blocked e
  maybe_auto_checkpoint-Blocked e = (refused-Blocked e, Blocked-refused e)
