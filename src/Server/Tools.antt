-- ===== src/Server/Tools.antt =====
-- The names of the tools, by the arm of `tool_execution_policy` that they stand in.
use ferrite_mcp.Prelude.{List, [], ◌∷◌, Text, codes}

abbrev pub scoped_queries : List Text
scoped_queries =
    codes "read_context"
    ∷ codes "grep_code"
    ∷ codes "list_dir"
    ∷ codes "glob"
    ∷ codes "changed_since"
    ∷ codes "symbol_index"
    ∷ codes "find_symbol"
    ∷ []

abbrev pub file_queries : List Text
file_queries = codes "read_file" ∷ codes "stat_file" ∷ codes "read_bytes" ∷ codes "hash_file" ∷ []

abbrev pub diff_queries : List Text
diff_queries = codes "diff_files" ∷ []

abbrev pub git_queries : List Text
git_queries = codes "git_log" ∷ codes "git_diff" ∷ codes "git_status" ∷ codes "gh_status" ∷ []

abbrev pub unscoped_queries : List Text
unscoped_queries =
    codes "find_lib"
    ∷ codes "discover"
    ∷ codes "gpu_info"
    ∷ codes "cpu_info"
    ∷ codes "occupancy_calc"
    ∷ codes "which"
    ∷ codes "inspect_binary"
    ∷ codes "cargo_tree"
    ∷ codes "gpu_live"
    ∷ codes "ptx_inspect"
    ∷ codes "bench_history"
    ∷ codes "http_request"
    ∷ codes "tensor_inspect"
    ∷ codes "checkpoint_list"
    ∷ codes "process_tree"
    ∷ codes "port_list"
    ∷ codes "journal_query"
    ∷ codes "orient"
    ∷ codes "waveform_query"
    ∷ codes "synth_report"
    ∷ codes "pipeline_status"
    ∷ codes "chip_status"
    ∷ codes "rtl_regression_report"
    ∷ codes "fpga_triage"
    ∷ codes "fpga_artifacts"
    ∷ codes "board_status"
    ∷ codes "pre_validate"
    ∷ codes "health"
    ∷ codes "env_doctor"
    ∷ codes "shell_state"
    ∷ codes "session_status"
    ∷ codes "tailscale_status"
    ∷ []

abbrev pub state_tools : List Text
state_tools =
    codes "set_cwd"
    ∷ codes "control_reconcile"
    ∷ codes "config_ux"
    ∷ codes "ux_wizard"
    ∷ codes "note"
    ∷ codes "project_new"
    ∷ codes "notify"
    ∷ codes "session_restart"
    ∷ []

abbrev pub path_mutations : List Text
path_mutations =
    codes "move_file"
    ∷ codes "mkdir"
    ∷ codes "delete_file"
    ∷ codes "write_file"
    ∷ codes "edit_file"
    ∷ codes "sed_file"
    ∷ codes "apply_patch"
    ∷ []

abbrev pub multi_file_mutations : List Text
multi_file_mutations = codes "edit_transaction" ∷ codes "replace_in_files" ∷ []

abbrev pub repo_mutations : List Text
repo_mutations = codes "gh_sync" ∷ codes "git_checkpoint" ∷ codes "git_commit" ∷ []

abbrev pub job_registry : List Text
job_registry = codes "bg_spawn" ∷ codes "bg_attach" ∷ codes "bg_list" ∷ []

abbrev pub job_tools : List Text
job_tools =
    codes "bg_send"
    ∷ codes "bg_status"
    ∷ codes "bg_wait"
    ∷ codes "bg_tail"
    ∷ codes "bg_kill"
    ∷ codes "wait_for_pattern"
    ∷ codes "wait_for_idle"
    ∷ codes "output_summary"
    ∷ codes "live_window"
    ∷ []

abbrev pub pipeline_tools : List Text
pipeline_tools = codes "pipeline_run" ∷ codes "pipeline_cancel" ∷ []

abbrev pub fpga_tools : List Text
fpga_tools =
    codes "fpga_program"
    ∷ codes "fpga_serial"
    ∷ codes "fpga_tcfp_status"
    ∷ codes "fpga_tcfp_tile_read"
    ∷ codes "fpga_monitor"
    ∷ []

abbrev pub commands : List Text
commands =
    codes "exec"
    ∷ codes "build_check"
    ∷ codes "task_run"
    ∷ codes "test_run"
    ∷ codes "launch"
    ∷ codes "close_observer"
    ∷ codes "cuda_env_doctor"
    ∷ codes "cuda_artifacts"
    ∷ codes "cuda_triage"
    ∷ codes "cuda_regression_run"
    ∷ codes "cuda_regression_report"
    ∷ codes "ncu_profile"
    ∷ codes "compute_sanitizer"
    ∷ codes "flamegraph"
    ∷ codes "perf_stat"
    ∷ codes "gdb_run"
    ∷ codes "verilog_lint"
    ∷ codes "verilog_sim"
    ∷ codes "xsim_elab"
    ∷ codes "cocotb_run"
    ∷ codes "vivado_tcl"
    ∷ codes "chip_build_pipeline"
    ∷ codes "rtl_regression_run"
    ∷ codes "remote_exec"
    ∷ codes "remote_build"
    ∷ codes "sync_project"
    ∷ codes "tty_exec"
    ∷ codes "tmux_ctl"
    ∷ []
