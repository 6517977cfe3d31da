-- ===== src/GitGuard/Mutations.antt =====
-- The guard against the table of the scheduler: what mutates files there is guarded here.
use ferrite_mcp.Prelude.{
  ◌≡◌, refl, sym, subst, Bool, true, false, not, ◌&&◌, ◌||◌, some, List, [], ◌∷◌, ◌++◌, Text,
  text_eq, text_eq_iff, elem, Bool-cases, inl, inr, arith,
}
use ferrite_mcp.Server.Tools.{path_mutations, multi_file_mutations}
use ferrite_mcp.GitGuard.{
  write, GitConfig, GuardArgs, write_tools, classify, class_enabled, skip_by_tool, guarded,
}

abbrev all_of : (Text → Bool) → List Text → Bool
all_of f [] = true
all_of f (t ∷ ts) = f t && all_of f ts

all_of-elem :
    (f : Text → Bool) (ts : List Text) (t : Text)
    → all_of f ts ≡ true
    → elem t ts ≡ true
    → f t ≡ true
unfolding elem
all_of-elem f [] t h among = absurd (ground arith)
all_of-elem f (u ∷ ts) t h among = elim (Bool-cases (text_eq t u)) [
  | inl same ↦ subst (λ x. f x ≡ true) (sym ((text_eq_iff t u).0 same)) (ground arith)
  | inr differ ↦ all_of-elem f ts t (ground arith) (ground arith)
]

abbrev is_write : Text → Bool
is_write t = elem t write_tools && not (skip_by_tool t)

mutations_is_write : all_of is_write (path_mutations ++ multi_file_mutations) ≡ true
unfolding elem text_eq skip_by_tool
mutations_is_write = refl

-- Every tool that the scheduler's table has as changing a file or several files gets a checkpoint of the class
-- write first, where checkpoints are on for writes, unless the call is a dry run or declines the checkpoint.
pub guarded-mutations :
    (cfg : GitConfig) (tool : Text) (args : GuardArgs)
    → elem tool (path_mutations ++ multi_file_mutations) ≡ true
    → cfg.auto_checkpoint && cfg.before_write ≡ true
    → args.no_checkpoint || args.dry_run ≡ false
    → guarded cfg tool args ≡ some write
unfolding guarded classify class_enabled
guarded-mutations cfg tool args mutates on called =
    rw (not_skipped, is_write_tool, wet, declined, enabled, before) refl
  where
    both : is_write tool ≡ true
    both =
        all_of-elem is_write (path_mutations ++ multi_file_mutations) tool mutations_is_write
          mutates

    is_write_tool : elem tool write_tools ≡ true
    is_write_tool = ground (arith, both)

    not_skipped : skip_by_tool tool ≡ false
    not_skipped = ground (arith, both)

    wet : args.dry_run ≡ false
    wet = ground arith

    declined : args.no_checkpoint ≡ false
    declined = ground arith

    enabled : cfg.auto_checkpoint ≡ true
    enabled = ground arith

    before : cfg.before_write ≡ true
    before = ground arith
