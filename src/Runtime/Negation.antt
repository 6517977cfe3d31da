-- ===== src/Runtime/Negation.antt =====
-- What `!` in front of a pipeline does.
use ferrite_mcp.Prelude.{ℕ, ◌≡◌, refl, ap, Bool, true, false, List, Bool-cases, inl, inr}
use ferrite_mcp.Runtime.State.{ExitStatus, status, success, Os, ℤ}
use ferrite_mcp.Runtime.Execute.{
  Executor, Outcome, running, exited, ◌>>=◌, execute_commands, negated, execute_pipeline,
}
use ferrite_mcp.Parser.Ast.{Command}

module _ (os : Os) where
  open os use {World}

  -- what `&&` and `||` behind a pipeline read of its outcome
  pub data Seen : Type 0 where
    ended : (succeeded : Bool) → Executor os → Seen
    exits : ℤ → World → Seen

  unfoldable pub seen : Outcome os → Seen
  seen (running s x) = ended (success s) x
  seen (exited c w) = exits c w

success-negated :
    (alphanumeric : ℕ → Bool) (os : Os) (s : ExitStatus)
    → success (negated alphanumeric os true s) ≡ success s
success-negated alphanumeric os s = elim (Bool-cases (success s)) [
  | inl good ↦ rw good refl
  | inr bad ↦ rw bad refl
]

module _ (alphanumeric : ℕ → Bool) (os : Os) where
  seen-negated :
      (o : Outcome os)
      → seen os (o >>= λ s x. running (negated alphanumeric os true s) x)
        ≡ seen os (o >>= λ s x. running (negated alphanumeric os false s) x)
  unfolding seen
  seen-negated (running s x) = ap (λ b. ended b x) (success-negated alphanumeric os s)
  seen-negated (exited c w) = refl

  -- A pipeline with `!` in front runs the same commands, and succeeds exactly when it succeeds without `!`:
  -- nothing is inverted.
  pub execute_pipeline-negated :
      (commands : List Command) (x : Executor os)
      → seen os (execute_pipeline alphanumeric os (record { negate = true; commands = commands }) x)
        ≡ seen os
            (execute_pipeline alphanumeric os (record { negate = false; commands = commands }) x)
  unfolding execute_pipeline
  execute_pipeline-negated commands x =
      seen-negated (execute_commands alphanumeric os commands (status 0) x)
