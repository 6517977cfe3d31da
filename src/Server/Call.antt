-- ===== src/Server/Call.antt =====
-- `handle_tools_call`, `response_filter` and `RecyclePolicy`. The tool itself and the conversion of results are
-- outside: the tool is an argument. Under the scheduler's locks the guard comes first, and its error is the
-- answer of the call.
use ferrite_mcp.Prelude.{
  ℕ, ◌≡◌, refl, sym, ◌∙◌, Bool, true, false, ◌&&◌, ◌||◌, not, Option, none, some, List, [], ◌∷◌,
  ◌++◌, leb, if◌then◌else◌, Text, codes, elem, arith, ◌↔◌, ◌≢◌, Result,
}
use ferrite_mcp.GitGuard.{GitConfig, GuardArgs, Checkpoint, maybe_auto_checkpoint}
use ferrite_mcp.GitGuard.Strict.{Blocked, maybe_auto_checkpoint-Blocked}
use ferrite_mcp.Authz.Policy.{Decision, Loaded, ActionArgs, action_for, authorize}
use ferrite_mcp.Authz.Decides.{Allowed, authorize-Allowed}
use ferrite_mcp.Server.Scheduler.{ToolExecutionPolicy}
use ferrite_mcp.Server.Policy.{Session, Args, or_else, tool_execution_policy}

unfoldable pub tool_owns_filter_arg : Text → Bool
unfolding elem
tool_owns_filter_arg name = elem name (codes "test_run" ∷ codes "process_tree" ∷ [])

unfoldable pub unwrap_text : Option Text → Text
unwrap_text none = []
unwrap_text (some t) = t

unfoldable pub response_filter : Text → Args → Text
unfolding tool_owns_filter_arg or_else unwrap_text
response_filter name args = unwrap_text (
    or_else (args (codes "response_filter"))
      (if tool_owns_filter_arg name then none else args (codes "filter")))

-- what `handle_tools_call` does, in order
pub data Effect : Type 0 where
  counted : Effect
  audited : Decision → Effect
  scheduled : ToolExecutionPolicy → Effect
  ran : Effect

pub data Reply {ℓ} (A : Type ℓ) : Type ℓ where
  ok : A → Reply A
  err : Text → Reply A

-- `params`: whether there are any, and the string `name` among them
pub record Params : Type 0 where
  pub name : Option Text
  pub args : Args
  pub action_args : ActionArgs
  pub guard_args : GuardArgs
  pub max_chars : Option ℕ

-- `args["max_chars"]`, by default `DEFAULT_MAX_CHARS`
unfoldable pub max_chars_of : Option ℕ → ℕ
max_chars_of none = 8192
max_chars_of (some n) = n

unfoldable pub denied_message : Decision → Text
denied_message d =
    codes "authorization denied for "
    ++ d.action
    ++ codes " as principal="
    ++ d.principal
    ++ codes " role="
    ++ d.role
    ++ codes " reason="
    ++ d.reason

module _ {ℓ} {A : Type ℓ} where
  -- `maybe_auto_checkpoint(..)?` and the call of the tool behind it
  unfoldable pub guarded_call :
      Option Text → (name : Text) (answer : Reply A) → List Effect × Reply A
  guarded_call none name answer = (ran ∷ [], answer)
  guarded_call (some m) name answer =
      ([], err (codes "auto-checkpoint failed before '" ++ name ++ codes "': " ++ m))

  -- the answer of the tool goes through `cap_and_filter`
  unfoldable pub capped : (A → A) → Reply A → Reply A
  capped cap (ok r) = ok (cap r)
  capped cap (err m) = err m

  unfoldable pub handle_tools_call :
      (tool : Text → Args → Reply A) (git_checkpoint : Checkpoint → Result Text (Unit {0}))
      (cap : A → Text → ℕ → A) (e : Session) (cfg : GitConfig) (l : Loaded) (who : Text)
      → Option Params
      → List Effect × Reply A
  unfolding tool_execution_policy response_filter max_chars_of authorize denied_message guarded_call
      capped maybe_auto_checkpoint
  handle_tools_call tool git_checkpoint cap e cfg l who none =
      ([], err (codes "tools/call requires params"))
  handle_tools_call tool git_checkpoint cap e cfg l who (some p) = elim p.name [
    | none ↦ ([], err (codes "tools/call: missing 'name'"))
    | some name ↦
        let d = authorize l who name p.action_args in
        let refused = (maybe_auto_checkpoint git_checkpoint e.home e.cwd cfg name p.guard_args).0 in
        let (effects, answer) = guarded_call refused name (tool name p.args) in
        if not d.allowed then (counted ∷ audited d ∷ [], err (denied_message d)) else (
          counted ∷ audited d ∷ scheduled (tool_execution_policy e name p.args) ∷ effects,
          capped (λ r. cap r (response_filter name p.args) (max_chars_of p.max_chars)) answer,
        )
  ]

pub record RecyclePolicy : Type 0 where
  pub max_calls : Option ℕ
  pub max_uptime_secs : Option ℕ
  pub max_rss_bytes : Option ℕ

-- what `should_recycle` reads of `HealthSnapshot`
pub record HealthSnapshot : Type 0 where
  pub uptime_secs : ℕ
  pub total_tool_calls : ℕ
  pub rss_bytes : Option ℕ

unfoldable pub is_none : Option ℕ → Bool
is_none none = true
is_none (some n) = false

unfoldable pub is_disabled : RecyclePolicy → Bool
unfolding is_none
is_disabled p = is_none p.max_calls && is_none p.max_uptime_secs && is_none p.max_rss_bytes

-- a limit, where there is one, is reached by a value, where there is one
unfoldable pub reached : Option ℕ → Option ℕ → Bool
reached none value = false
reached (some v) none = false
reached (some v) (some n) = leb v n

unfoldable pub policy_should_recycle : RecyclePolicy → HealthSnapshot → Bool
unfolding reached
policy_should_recycle p s =
    reached p.max_calls (some s.total_tool_calls)
    || reached p.max_uptime_secs (some s.uptime_secs)
    || reached p.max_rss_bytes s.rss_bytes

unfoldable pub should_recycle : RecyclePolicy → HealthSnapshot → Bool
unfolding is_disabled policy_should_recycle
should_recycle p s = if is_disabled p then false else policy_should_recycle p s

reached-none : (v : Option ℕ) (o : Option ℕ) → is_none v ≡ true → reached v o ≡ false
unfolding reached is_none
reached-none none o h = refl
reached-none (some v) o h = cc

-- The early return of the server's `should_recycle` decides as the policy does on every snapshot.
pub should_recycle-policy :
    (p : RecyclePolicy) (s : HealthSnapshot) → should_recycle p s ≡ policy_should_recycle p s
unfolding should_recycle is_disabled policy_should_recycle
should_recycle-policy p s = grind (
  arith,
  reached-none p.max_calls (some s.total_tool_calls),
  reached-none p.max_uptime_secs (some s.uptime_secs),
  reached-none p.max_rss_bytes s.rss_bytes,
)

-- whether a tool ran
unfoldable pub runs_tool : List Effect → Bool
runs_tool [] = false
runs_tool (counted ∷ es) = runs_tool es
runs_tool (audited d ∷ es) = runs_tool es
runs_tool (scheduled p ∷ es) = runs_tool es
runs_tool (ran ∷ es) = true

unfoldable is_free : Option Text → Bool
is_free none = true
is_free (some m) = false

and_true : {b c : Bool} → b && c ≡ true → (b ≡ true) × (c ≡ true)
and_true h = (ground arith, ground arith)

module _ {ℓ} {A : Type ℓ} (tool : Text → Args → Reply A)
    (git_checkpoint : Checkpoint → Result Text (Unit {0})) (cap : A → Text → ℕ → A) (e : Session)
    (cfg : GitConfig) (l : Loaded) (who : Text) where
  -- what the guard answers before the tool of a call
  abbrev refused : Text → Params → Option Text
  refused name p = (maybe_auto_checkpoint git_checkpoint e.home e.cwd cfg name p.guard_args).0

  abbrev call : Params → List Effect × Reply A
  call p = handle_tools_call tool git_checkpoint cap e cfg l who (some p)

  runs_if :
      (b : Bool) (r : Option Text) (d : Decision) (q : ToolExecutionPolicy) (x answer : Reply A)
      (f : A → A) (name : Text)
      → runs_tool
          (if◌then◌else◌ {A = List Effect × Reply A}
            (not b)
            (counted ∷ audited d ∷ [], x)
            (
              counted ∷ audited d ∷ scheduled q ∷ (guarded_call r name answer).0,
              capped f (guarded_call r name answer).1,
            )).0
        ≡ b && is_free r
  unfolding runs_tool guarded_call is_free
  runs_if false r d q x answer f name = refl
  runs_if true none d q x answer f name = refl
  runs_if true (some m) d q x answer f name = refl

  handle_tools_call-runs :
      (p : Params) (name : Text)
      → p.name ≡ some name
      → runs_tool (call p).0
        ≡ (authorize l who name p.action_args).allowed && is_free (refused name p)
  unfolding handle_tools_call
  handle_tools_call-runs p name named =
      rw (named, handle_tools_call)
        (runs_if (authorize l who name p.action_args).allowed (refused name p) _ _ _ _ _ name)

  -- what the guard lets through, in terms of what blocks a tool
  free-Blocked :
      (p : Params) (name : Text) (r : Option Text)
      → refused name p ≡ r
      → (is_free r ≡ true)
        ↔ (¬ ((m : Text) × Blocked git_checkpoint e.home e.cwd cfg name p.guard_args m))
  unfolding is_free
  free-Blocked p name none is = (
    (λ h (m, b). absurd (
        option_apart m (
          sym is
          ∙ (maybe_auto_checkpoint-Blocked git_checkpoint e.home e.cwd cfg name p.guard_args m).1
              b))),
    (λ n. refl),
  )
    where
      option_apart : (m : Text) → none ≢ some m
      option_apart m h = ground arith
  free-Blocked p name (some m) is = (
    (λ h. absurd (ground arith)),
    (λ n. absurd (
        n (
          m,
          (maybe_auto_checkpoint-Blocked git_checkpoint e.home e.cwd cfg name p.guard_args m).0 is,
        ))),
  )

  -- A call that names a tool runs it exactly where the policy allows its action to the principal and the
  -- guard does not block it: no checkpoint that is due before it fails under a strict configuration with
  -- an error other than that there is no repository.
  pub handle_tools_call-Allowed :
      (p : Params) (name : Text)
      → p.name ≡ some name
      → (runs_tool (call p).0 ≡ true) ↔ (
          Allowed l who (action_for name p.action_args)
          × (¬ ((m : Text) × Blocked git_checkpoint e.home e.cwd cfg name p.guard_args m)))
  handle_tools_call-Allowed p name named =
      let runs = handle_tools_call-runs p name named in
      let allowed = authorize-Allowed l who name p.action_args in
      let free = free-Blocked p name (refused name p) refl in
      (
        (λ h. (allowed.0 (both h).0, free.0 (both h).1)),
        (λ (a, b). runs ∙ rw (allowed.1 a, free.1 b) refl),
      )
    where
      both :
          runs_tool (call p).0 ≡ true
          → ((authorize l who name p.action_args).allowed ≡ true)
            × (is_free (refused name p) ≡ true)
      both h = and_true (sym (handle_tools_call-runs p name named) ∙ h)
