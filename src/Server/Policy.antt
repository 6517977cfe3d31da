-- ===== src/Server/Policy.antt =====
-- `tool_execution_policy` and the resource keys it names. The arguments of a call are a `serde_json` value:
-- `args key` is `args[key].as_str()`. The working directory and `HOME` are arguments.
use ferrite_mcp.Prelude.{
  Bool, false, ◌||◌, Option, none, some, List, [], ◌∷◌, ◌++◌, drop, if◌then◌else◌, ◌==◌, Text,
  codes, text_eq, starts_with, elem,
}
use ferrite_mcp.Server.Scheduler.{
  Lane, parallel_read, serialized_state, serialized_resource, ToolExecutionPolicy,
}
use ferrite_mcp.Server.Tools.{
  scoped_queries, file_queries, diff_queries, git_queries, unscoped_queries, state_tools,
  path_mutations, multi_file_mutations, repo_mutations, job_registry, job_tools, pipeline_tools,
  fpga_tools, commands,
}

pub record Session : Type 0 where
  pub cwd : Text
  pub home : Text

abbrev pub Args : Type 0
Args = Text → Option Text

unfoldable pub or_else : Option Text → Option Text → Option Text
or_else none o = o
or_else (some t) o = some t

-- `tools::project::expand_tilde`: the first `~` gives way to the home directory
unfoldable pub expand_tilde : Text → Text → Text
expand_tilde home path =
    if starts_with (codes "~/") path || text_eq path (codes "~") then home ++ drop 1 path else path

-- `Path::is_absolute`
unfoldable pub is_absolute : Text → Bool
is_absolute path = starts_with (codes "/") path

unfoldable pub ends_in_slash : Text → Bool
ends_in_slash [] = false
ends_in_slash (c ∷ []) = c == b'/'
ends_in_slash (c ∷ d ∷ cs) = ends_in_slash (d ∷ cs)

-- `PathBuf::join` with a relative path
unfoldable pub join : Text → Text → Text
join [] path = path
join (c ∷ dir) path =
    if ends_in_slash (c ∷ dir) then c ∷ dir ++ path else c ∷ dir ++ codes "/" ++ path

unfoldable pub path_resource_key : Session → Option Text → Text
unfolding expand_tilde is_absolute join
path_resource_key e none = codes "path:" ++ e.cwd
path_resource_key e (some raw) =
    let expanded = expand_tilde e.home raw in
    codes "path:" ++ (if is_absolute expanded then expanded else join e.cwd expanded)

-- `trim_start_matches("path:")`
unfoldable pub trim_path : Text → Text
trim_path (a ∷ b ∷ c ∷ d ∷ e ∷ cs) =
    let rest = trim_path cs in
    if text_eq (a ∷ b ∷ c ∷ d ∷ e ∷ []) (codes "path:") then rest else a ∷ b ∷ c ∷ d ∷ e ∷ cs
trim_path cs = cs

unfoldable pub repo_resource_key : Session → Option Text → Text
unfolding path_resource_key trim_path
repo_resource_key e raw = codes "repo:" ++ trim_path (path_resource_key e raw)

-- a key of an argument behind a prefix
unfoldable pub tagged : Text → Option Text → Option Text
tagged tag none = none
tagged tag (some v) = some (tag ++ v)

unfoldable pub one_resource_key : Option Text → List Text
one_resource_key none = []
one_resource_key (some k) = k ∷ []

unfoldable pub job_key : Args → Option Text
unfolding or_else tagged
job_key args = or_else (tagged (codes "job:") (args (codes "job_id"))) (
    or_else (tagged (codes "observer:") (args (codes "pid_file")))
      (or_else (tagged (codes "uart:") (args (codes "port"))) (some (codes "jobs:shared"))))

unfoldable pub pipeline_key : Args → Option Text
unfolding or_else tagged
pipeline_key args =
    or_else (tagged (codes "pipeline:") (args (codes "pipeline_id")))
      (some (codes "pipelines:shared"))

unfoldable pub fpga_key : Args → Option Text
unfolding or_else tagged
fpga_key args =
    or_else (tagged (codes "fpga-target:") (args (codes "target")))
      (or_else (tagged (codes "uart:") (args (codes "port"))) (some (codes "fpga:shared")))

abbrev policy_record : Lane → List Text → Text → ToolExecutionPolicy
policy_record l keys why = record { lane = l; resource_keys = keys; reason = why }

unfoldable pub tool_execution_policy : Session → Text → Args → ToolExecutionPolicy
unfolding elem path_resource_key repo_resource_key one_resource_key job_key pipeline_key fpga_key
    or_else
tool_execution_policy e name args =
    if elem name scoped_queries
    then policy_record parallel_read
        (path_resource_key e (or_else (args (codes "path")) (args (codes "cwd"))) ∷ [])
        (codes "read-only filesystem query scoped to a path")
    else if elem name file_queries
    then policy_record parallel_read (path_resource_key e (args (codes "path")) ∷ [])
        (codes "read-only file query scoped to a path")
    else if elem name diff_queries
    then policy_record parallel_read
        (path_resource_key e (args (codes "a")) ∷ path_resource_key e (args (codes "b")) ∷ [])
        (codes "read-only diff scoped to both input paths")
    else if elem name git_queries
    then policy_record parallel_read (repo_resource_key e (args (codes "path")) ∷ [])
        (codes "read-only git query scoped to a repository")
    else if elem name unscoped_queries
    then policy_record parallel_read [] (codes "read-only tool with no shared mutable resource")
    else if elem name state_tools
    then policy_record serialized_state [] (codes "mutates shared server or process-global state")
    else if elem name path_mutations
    then policy_record serialized_resource (path_resource_key e (args (codes "path")) ∷ [])
        (codes "mutates filesystem state under a target path")
    else if elem name multi_file_mutations
    then policy_record serialized_state []
        (codes "multi-file mutation; lock global to avoid overlap")
    else if elem name repo_mutations
    then policy_record serialized_resource (repo_resource_key e (args (codes "path")) ∷ [])
        (codes "mutates a git repository that should serialize per repo")
    else if elem name job_registry
    then policy_record serialized_state [] (codes "mutates shared background job registry")
    else if elem name job_tools
    then policy_record serialized_resource (one_resource_key (job_key args))
        (codes "targets a specific background job or observer handle")
    else if elem name pipeline_tools
    then policy_record serialized_resource (one_resource_key (pipeline_key args))
        (codes "mutates pipeline orchestration state")
    else if elem name fpga_tools
    then policy_record serialized_resource (one_resource_key (fpga_key args))
        (codes "talks to exclusive hardware control-plane resources")
    else if elem name commands
    then policy_record serialized_resource
        (path_resource_key e (or_else (args (codes "cwd")) (args (codes "path"))) ∷ [])
        (codes "runs external commands that may mutate a working tree or tool state")
    else policy_record serialized_state []
        (codes "unclassified tool defaults to conservative serialization")
