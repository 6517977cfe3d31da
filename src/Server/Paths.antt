-- ===== src/Server/Paths.antt =====
-- What the policies keep apart: calls on one path. And that a call which writes resources names one.
use ferrite_mcp.Prelude.{
  ℕ, ◌<◌, sym, subst, refl, inl, inr, ◌≡◌, ◌≢◌, ◌⊎◌, Bool, true, false, ◌||◌, Option, none, some,
  List, [], ◌∷◌, ◌++◌, if◌then◌else◌, arith, Bool-cases, Text, codes, text_eq, text_eq_iff,
  text_eq_refl, elem,
}
use ferrite_mcp.Server.Scheduler.{
  parallel_read, serialized_state, serialized_resource, or_unknown, ToolExecutionPolicy, Request,
  System, working, Reach,
}
use ferrite_mcp.Server.Exclusion.{Exclusive, shared, keys_of, Reach-Exclusive}
use ferrite_mcp.Server.Tools.{
  scoped_queries, file_queries, diff_queries, git_queries, unscoped_queries, state_tools,
  path_mutations, multi_file_mutations, repo_mutations, job_registry, job_tools, pipeline_tools,
  fpga_tools, commands,
}
use ferrite_mcp.Server.Policy.{
  Session, Args, or_else, tagged, one_resource_key, job_key, pipeline_key, fpga_key,
  path_resource_key, tool_execution_policy,
}

-- The lane fits the keys: a lane of serialized state names none, one of serialized resources names some.
pub record Fits (p : ToolExecutionPolicy) : Type 0 where
  pub state_none : p.lane ≡ serialized_state → p.resource_keys ≡ []
  pub resource_some : p.lane ≡ serialized_resource → p.resource_keys ≢ []

abbrev All {ℓ} : (Text → Type ℓ) → List Text → Type ℓ
All P [] = Unit
All P (k ∷ ks) = P k × All P ks

All-elem {ℓ} : (P : Text → Type ℓ) (ks : List Text) (t : Text) → All P ks → elem t ks ≡ true → P t
unfolding elem
All-elem P [] t a h = absurd (ff h)
  where
    ff : false ≡ true → ⊥
    ff e = cc
All-elem P (k ∷ ks) t a h = elim (Bool-cases (text_eq t k)) [
  | inl same ↦ subst P (sym ((text_eq_iff t k).0 same)) a.0
  | inr other ↦ All-elem P ks t a.1 (rest other h)
]
  where
    rest : {b c : Bool} → b ≡ false → (b || c) ≡ true → c ≡ true
    rest e k = ground arith

if-Fits : (b : Bool) (p q : ToolExecutionPolicy) → Fits p → Fits q → Fits (if b then p else q)
if-Fits true p q f g = f
if-Fits false p q f g = g

-- reads, state and writes as the arms of the table have them
reads_Fits :
    (ks : List Text) (why : Text)
    → Fits (record { lane = parallel_read; resource_keys = ks; reason = why })
reads_Fits ks why = record { state_none = λ e. cc; resource_some = λ e. cc }

state_Fits :
    (why : Text) → Fits (record { lane = serialized_state; resource_keys = []; reason = why })
state_Fits why = record { state_none = λ _. refl; resource_some = λ e. cc }

writes_Fits :
    (k : Text) (ks : List Text) (why : Text)
    → Fits (record { lane = serialized_resource; resource_keys = k ∷ ks; reason = why })
writes_Fits k ks why = record { state_none = λ e. cc; resource_some = λ _ e. cc }

or_else-some : (o : Option Text) (t : Text) → (k : Text) × (or_else o (some t) ≡ some k)
unfolding or_else
or_else-some none t = (t, refl)
or_else-some (some k) t = (k, refl)

or_else-last :
    (o u : Option Text) → ((t : Text) × (u ≡ some t)) → (k : Text) × (or_else o u ≡ some k)
or_else-last o u (t, e) =
    subst (λ v. (k : Text) × (or_else o v ≡ some k)) (sym e) (or_else-some o t)

one_key_Fits :
    (o : Option Text) (why : Text)
    → ((t : Text) × (o ≡ some t))
    → Fits (record { lane = serialized_resource; resource_keys = one_resource_key o; reason = why })
unfolding one_resource_key
one_key_Fits none why (t, e) = cc
one_key_Fits (some k) why h = writes_Fits k [] why

job_key-some : (args : Args) → (t : Text) × (job_key args ≡ some t)
unfolding job_key
job_key-some args = or_else-last (tagged (codes "job:") (args (codes "job_id"))) _ (
    or_else-last (tagged (codes "observer:") (args (codes "pid_file"))) _
      (or_else-some (tagged (codes "uart:") (args (codes "port"))) (codes "jobs:shared")))

pipeline_key-some : (args : Args) → (t : Text) × (pipeline_key args ≡ some t)
unfolding pipeline_key
pipeline_key-some args = or_else-some _ _

fpga_key-some : (args : Args) → (t : Text) × (fpga_key args ≡ some t)
unfolding fpga_key
fpga_key-some args = or_else-last _ _ (or_else-some _ _)

-- Every tool, known or not, gets a lane that fits its keys: serialized state names none and serialized
-- resources name at least one.
pub tool_execution_policy-Fits :
    (e : Session) (name : Text) (args : Args) → Fits (tool_execution_policy e name args)
unfolding tool_execution_policy
tool_execution_policy-Fits e name args = if-Fits (elem name scoped_queries) _ _ (reads_Fits _ _) (
    if-Fits (elem name file_queries) _ _ (reads_Fits _ _) (
      if-Fits (elem name diff_queries) _ _ (reads_Fits _ _) (
        if-Fits (elem name git_queries) _ _ (reads_Fits _ _) (
          if-Fits (elem name unscoped_queries) _ _ (reads_Fits _ _) (
            if-Fits (elem name state_tools) _ _ (state_Fits _) (
              if-Fits (elem name path_mutations) _ _ (writes_Fits _ _ _) (
                if-Fits (elem name multi_file_mutations) _ _ (state_Fits _) (
                  if-Fits (elem name repo_mutations) _ _ (writes_Fits _ _ _) (
                    if-Fits (elem name job_registry) _ _ (state_Fits _) (
                      if-Fits (elem name job_tools) _ _ (one_key_Fits _ _ (job_key-some args)) (
                        if-Fits (elem name pipeline_tools) _ _
                          (one_key_Fits _ _ (pipeline_key-some args))
                          (if-Fits (elem name fpga_tools) _ _
                            (one_key_Fits _ _ (fpga_key-some args))
                            (if-Fits (elem name commands) _ _ (writes_Fits _ _ _)
                              (state_Fits _))))))))))))))

-- the lane and the keys of the tools that change or read one file
mutation_lem :
    (e : Session) (name : Text) (args : Args)
    → elem name path_mutations ≡ true
    → ((tool_execution_policy e name args).lane ≡ serialized_resource)
      × ((tool_execution_policy e name args).resource_keys
          ≡ path_resource_key e (args (codes "path")) ∷ [])
unfolding tool_execution_policy elem text_eq
mutation_lem e name args =
    All-elem
      (λ t.
        ((tool_execution_policy e t args).lane ≡ serialized_resource)
        × ((tool_execution_policy e t args).resource_keys
            ≡ path_resource_key e (args (codes "path")) ∷ []))
      path_mutations name
      (
        (refl, refl),
        (
          (refl, refl),
          ((refl, refl), ((refl, refl), ((refl, refl), ((refl, refl), ((refl, refl), tt))))),
        ),
      )

query_lem :
    (e : Session) (name : Text) (args : Args)
    → elem name file_queries ≡ true
    → ((tool_execution_policy e name args).lane ≡ parallel_read)
      × ((tool_execution_policy e name args).resource_keys
          ≡ path_resource_key e (args (codes "path")) ∷ [])
unfolding tool_execution_policy elem text_eq
query_lem e name args =
    All-elem
      (λ t.
        ((tool_execution_policy e t args).lane ≡ parallel_read)
        × ((tool_execution_policy e t args).resource_keys
            ≡ path_resource_key e (args (codes "path")) ∷ []))
      file_queries name ((refl, refl), ((refl, refl), ((refl, refl), ((refl, refl), tt))))

elem-append :
    (ks js : List Text) (t : Text)
    → elem t (ks ++ js) ≡ true
    → (elem t ks ≡ true) ⊎ (elem t js ≡ true)
unfolding elem
elem-append [] js t g = inr g
elem-append (k ∷ ks) js t g = elim (Bool-cases (text_eq t k)) [
  | inl same ↦ inl (rw same refl)
  | inr other ↦ elim (elem-append ks js t (rest other g)) [
    | inl here ↦ inl (rw other here)
    | inr there ↦ inr there
  ]
]
  where
    rest : {b c : Bool} → b ≡ false → (b || c) ≡ true → c ≡ true
    rest e h = ground arith

named : (t : Text) → elem t (keys_of serialized_resource (t ∷ [])) ≡ true
unfolding keys_of or_unknown elem
named t = rw (text_eq_refl t) refl

named_read : (t : Text) → elem t (keys_of parallel_read (t ∷ [])) ≡ true
unfolding keys_of elem
named_read t = rw (text_eq_refl t) refl

same_path-Exclusive :
    (e f : Session) (name other : Text) (args args' : Args)
    → elem name path_mutations ≡ true
    → elem other (path_mutations ++ file_queries) ≡ true
    → path_resource_key e (args (codes "path")) ≡ path_resource_key f (args' (codes "path"))
    → Exclusive (tool_execution_policy e name args) (tool_execution_policy f other args')
same_path-Exclusive e f name other args args' h k same =
    let (l, ks) = mutation_lem e name args h in
    shared key l (rw l (rw ks (named key)))
      (elim (elem-append path_mutations file_queries other k) [
        | inl mutates ↦
            let (m, js) = mutation_lem f other args' mutates in
            rw m (rw js (rw (sym same) (named key)))
        | inr reads ↦
            let (m, js) = query_lem f other args' reads in
            rw m (rw js (rw (sym same) (named_read key)))
      ])
  where
    key : Text
    key = path_resource_key e (args (codes "path"))

-- In every reachable state, while one of move_file, mkdir, delete_file, write_file, edit_file, sed_file and
-- apply_patch runs, no other thread runs one of these, nor read_file, stat_file, read_bytes or hash_file, with
-- the same lock key for its path argument.
pub one_writer_per_path :
    {s : System}
    → Reach s
    → (i j : ℕ) (e f : Session) (name other : Text) (args args' : Args) (held held' : List Request)
    → i < s.count
    → j < s.count
    → i ≢ j
    → s.thread i ≡ working (tool_execution_policy e name args) held []
    → s.thread j ≡ working (tool_execution_policy f other args') held' []
    → elem name path_mutations ≡ true
    → elem other (path_mutations ++ file_queries) ≡ true
    → path_resource_key e (args (codes "path")) ≢ path_resource_key f (args' (codes "path"))
one_writer_per_path r i j e f name other args args' held held' in_i in_j ne run_i run_j h k same =
    Reach-Exclusive r i j _ _ held held' in_i in_j ne run_i run_j
      (same_path-Exclusive e f name other args args' h k same)
