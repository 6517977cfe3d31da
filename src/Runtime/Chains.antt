-- ===== src/Runtime/Chains.antt =====
-- `execute_list` against the shell's rule for `&&` and `||`: both have one precedence and group to the
-- left, and every other separator starts a new chain. An item behind `&` is waited for like any other.
use ferrite_mcp.Prelude.{
  ℕ, ◌≡◌, refl, sym, ◌∙◌, Bool, true, false, not, List, [], ◌∷◌, if◌then◌else◌,
}
use ferrite_mcp.Runtime.State.{ExitStatus, status, success, Os}
use ferrite_mcp.Runtime.Execute.{
  Executor, Outcome, running, exited, ◌>>=◌, run_item, execute_rest, execute_list,
}
use ferrite_mcp.Parser.Ast.{
  Separator, sequential, background, and_then, or_else, end_of_input, Pipeline, ListItem,
  CommandList,
}

-- Pipelines joined by `&&` and `||`.
pub data Chain : Type 0 where
  one : Pipeline → Chain
  both : Chain → Pipeline → Chain
  either : Chain → Pipeline → Chain

-- The chains of a list whose first chain begins with `c` and goes on behind `sep`.
unfoldable pub chains_from : Chain → Separator → List ListItem → List Chain
chains_from c sep [] = c ∷ []
chains_from c and_then (i ∷ is) = chains_from (both c i.pipeline) i.separator is
chains_from c or_else (i ∷ is) = chains_from (either c i.pipeline) i.separator is
chains_from c _ (i ∷ is) = c ∷ chains_from (one i.pipeline) i.separator is

unfoldable pub chains : List ListItem → List Chain
chains [] = []
chains (i ∷ is) = chains_from (one i.pipeline) i.separator is

module _ {os : Os} where
  bind_assoc :
      (m : Outcome os) (f g : ExitStatus → Executor os → Outcome os)
      → (m >>= f >>= g) ≡ (m >>= λ s x. f s x >>= g)
  bind_assoc (running s x) f g = refl
  bind_assoc (exited c w) f g = refl

  bind_cong :
      (m : Outcome os) {f g : ExitStatus → Executor os → Outcome os}
      → ((s : ExitStatus) (x : Executor os) → f s x ≡ g s x)
      → (m >>= f) ≡ (m >>= g)
  bind_cong (running s x) h = h s x
  bind_cong (exited c w) h = refl

  if-bind :
      (b : Bool) (m n : Outcome os) (f : ExitStatus → Executor os → Outcome os)
      → ((if b then m else n) >>= f) ≡ (if b then (m >>= f) else (n >>= f))
  if-bind true m n f = refl
  if-bind false m n f = refl

  if-not : (b : Bool) (m n : Outcome os) → (if not b then m else n) ≡ (if b then n else m)
  if-not true m n = refl
  if-not false m n = refl

module _ (alphanumeric : ℕ → Bool) (os : Os) where
  -- `a && p` runs `p` if `a` succeeded, `a || p` if it failed; else its status is that of `a`.
  unfoldable pub run_chain : Chain → Executor os → Outcome os
  run_chain (one p) x = run_item alphanumeric os p x
  run_chain (both c p) x =
      run_chain c x >>= λ s x'. if success s then run_item alphanumeric os p x' else running s x'
  run_chain (either c p) x =
      run_chain c x >>= λ s x'. if success s then running s x' else run_item alphanumeric os p x'

  unfoldable pub run_chains : List Chain → ExitStatus → Executor os → Outcome os
  run_chains [] last x = running last x
  run_chains (c ∷ cs) last x = run_chain c x >>= run_chains cs

  -- Behind the chain `c` the loop does what the remaining chains do.
  chains_from-rest :
      (is : List ListItem) (c : Chain) (sep : Separator) (last : ExitStatus) (x : Executor os)
      → run_chains (chains_from c sep is) last x
        ≡ (run_chain c x >>= execute_rest alphanumeric os is sep)
  unfolding chains_from run_chains execute_rest run_chain
  chains_from-rest [] c sep last x = refl
  chains_from-rest (i ∷ is) c and_then last x =
      chains_from-rest is (both c i.pipeline) i.separator last x
      ∙ (bind_assoc (run_chain c x) _ _
          ∙ bind_cong (run_chain c x) (λ s y. if-bind (success s) _ _ _))
  chains_from-rest (i ∷ is) c or_else last x =
      chains_from-rest is (either c i.pipeline) i.separator last x
      ∙ (bind_assoc (run_chain c x) _ _
          ∙ bind_cong (run_chain c x)
              (λ s y. if-bind (success s) _ _ _ ∙ sym (if-not (success s) _ _)))
  chains_from-rest (i ∷ is) c sequential last x =
      bind_cong (run_chain c x) (λ s y. chains_from-rest is (one i.pipeline) i.separator s y)
  chains_from-rest (i ∷ is) c background last x =
      bind_cong (run_chain c x) (λ s y. chains_from-rest is (one i.pipeline) i.separator s y)
  chains_from-rest (i ∷ is) c end_of_input last x =
      bind_cong (run_chain c x) (λ s y. chains_from-rest is (one i.pipeline) i.separator s y)

  execute_rest-chains :
      (is : List ListItem) (x : Executor os)
      → execute_rest alphanumeric os is sequential (status 0) x
        ≡ run_chains (chains is) (status 0) x
  unfolding execute_rest chains run_chains run_chain
  execute_rest-chains [] x = refl
  execute_rest-chains (i ∷ is) x =
      sym (chains_from-rest is (one i.pipeline) i.separator (status 0) x)

  -- Executing a list is running its chains one after the other, each by the rule for `&&` and `||`,
  -- and the status is that of the last chain; of an empty list it is 0.
  pub execute_list-chains :
      (l : CommandList) (x : Executor os)
      → execute_list alphanumeric os l x ≡ run_chains (chains l.items) (status 0) x
  unfolding execute_list
  execute_list-chains l x = execute_rest-chains l.items x
