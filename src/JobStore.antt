-- ===== src/JobStore.antt =====
-- crates/shell-mcp/src/job_store.rs: background jobs, their output and their status over restarts. The threads
-- of a job are events here; its log file and its pseudo-terminal are left out.
use ferrite_mcp.Prelude.{
  ℕ, zero, suc, ◌+◌, ◌-◌, ◌≡◌, Bool, true, false, not, ◌&&◌, ◌||◌, Option, none, some, List, [],
  ◌∷◌, ◌++◌, map, ltb, leb, ◌==◌, if◌then◌else◌, length, drop, replicate, Text, codes, text_eq,
}
use ferrite_mcp.Runtime.State.{ℤ, pos, negsuc}
use ferrite_mcp.Dict.{Dict, get, insert, remove, contains_key}
use ferrite_mcp.Edit.Content.{Bytes}
use ferrite_mcp.Server.Response.{digits}
pub mod Drains
pub mod Restores

pub data JobStatus : Type 0 where
  running killed attached : JobStatus
  done : ℤ → JobStatus

unfoldable pub exit_code : JobStatus → Option ℤ
exit_code (done c) = some c
exit_code running = none
exit_code killed = none
exit_code attached = none

unfoldable pub is_terminal : JobStatus → Bool
is_terminal (done c) = true
is_terminal killed = true
is_terminal running = false
is_terminal attached = false

unfoldable pub as_snapshot_str : JobStatus → Text
as_snapshot_str running = codes "running"
as_snapshot_str (done c) = codes "done"
as_snapshot_str killed = codes "killed"
as_snapshot_str attached = codes "attached"

-- what a reader thread has collected of one stream, and how much of it has been read
pub record Buffer : Type 0 where
  pub buf : Bytes
  pub cursor : ℕ

abbrev pub fresh_buffer : Buffer
fresh_buffer = record { buf = []; cursor = 0 }

-- `extend_from_slice` of a reader thread
unfoldable pub extend : Bytes → Buffer → Buffer
extend data_read b = record { buf = b.buf ++ data_read; cursor = b.cursor }

-- `drain_new_stdout` and `drain_new_stderr`; a cursor behind the end would panic.
unfoldable pub drain_new : Buffer → Option (Bytes × Buffer)
drain_new b =
    if ltb (length b.buf) b.cursor
    then none
    else some (drop b.cursor b.buf, record { buf = b.buf; cursor = length b.buf })

pub record Job : Type 0 where
  pub job_id : Text
  pub pid : ℕ
  pub label : Text
  pub cmd : Text
  pub cwd : Text
  pub status : JobStatus
  pub stdout : Buffer
  pub stderr : Buffer
  pub log_path : Text
  pub started_secs : ℕ
  pub is_pty : Bool

pub record JobSnapshot : Type 0 where
  pub job_id : Text
  pub pid : ℕ
  pub label : Text
  pub cmd : Text
  pub cwd : Text
  pub started_secs : ℕ
  pub status : Text
  pub exit_code : Option ℤ
  pub log_path : Text

-- `display` is what `Path::display` shows of a path: the text of one that is UTF-8, else a text with
-- replacement chars, which `PathBuf::from` does not turn back.
unfoldable pub to_snapshot : (display : Text → Text) → Job → JobSnapshot
unfolding as_snapshot_str exit_code
to_snapshot display j = record {
  job_id = j.job_id;
  pid = j.pid;
  label = j.label;
  cmd = j.cmd;
  cwd = display j.cwd;
  started_secs = j.started_secs;
  status = as_snapshot_str j.status;
  exit_code = exit_code j.status;
  log_path = display j.log_path;
}

pub record SessionData : Type 0 where
  pub counter : ℕ
  pub jobs : List JobSnapshot

-- The time, the last boot, which processes live, the path of a job's log, and how paths are shown.
pub record Machine : Type 0 where
  pub now : ℕ
  pub boot_time_secs : ℕ
  pub pid_alive : ℕ → Bool
  pub log_path_for : Text → Text
  pub display : Text → Text

pub record JobStore : Type 0 where
  pub jobs : Dict Job
  pub counter : ℕ

-- `{n:04}`
unfoldable pub padded : ℕ → Text
unfolding digits
padded n = let s = digits (suc n) n in replicate (4 - length s) b'0' ++ s

unfoldable pub next_id : JobStore → Text × JobStore
unfolding padded
next_id st = (b'j' ∷ padded st.counter, record { jobs = st.jobs; counter = st.counter + 1 })

unfoldable pub persist_all : (display : Text → Text) → JobStore → SessionData
unfolding to_snapshot
persist_all display st = record {
  counter = st.counter;
  jobs = map (λ kv. to_snapshot display kv.1) st.jobs;
}

-- the insertion of a new job, and what is saved then
unfoldable pub added : (display : Text → Text) → JobStore → Job → JobStore × SessionData
unfolding persist_all insert
added display st j =
    let next : JobStore = record { jobs = insert st.jobs j.job_id j; counter = st.counter } in
    (next, persist_all display next)

-- `spawn`, given the pid of the child if the shell could be started; a failed spawn uses up an id.
unfoldable pub spawn :
    Machine → Option ℕ → (cmd cwd : Text) → (label : Option Text) → JobStore → Option Job × JobStore
unfolding next_id added
spawn m none cmd cwd label st = (none, (next_id st).1)
spawn m (some pid) cmd cwd label st =
    let (id, counted) = next_id st in
    let job : Job = record {
      job_id = id;
      pid = pid;
      label = elim label [ none ↦ cmd | some l ↦ l ];
      cmd = cmd;
      cwd = cwd;
      status = running;
      stdout = fresh_buffer;
      stderr = fresh_buffer;
      log_path = m.log_path_for id;
      started_secs = m.now;
      is_pty = false;
    } in
    (some job, (added m.display counted job).0)

unfoldable pub attach :
    Machine → (pid : ℕ) → (label : Option Text) → JobStore → Option Job × JobStore
unfolding next_id added digits
attach m pid label st =
    let (id, counted) = next_id st in
    let name = codes "pid " ++ digits (suc pid) pid in
    let job : Job = record {
      job_id = id;
      pid = pid;
      label = elim label [ none ↦ name | some l ↦ l ];
      cmd = codes "<attached " ++ (name ++ codes ">");
      cwd = codes "/";
      status = attached;
      stdout = fresh_buffer;
      stderr = fresh_buffer;
      log_path = m.log_path_for id;
      started_secs = m.now;
      is_pty = false;
    } in
    if m.pid_alive pid then (some job, (added m.display counted job).0) else (none, st)

-- the status that a job gets back after a restart
unfoldable pub restored_status : Machine → JobSnapshot → JobStatus
restored_status m s =
    let was_running = text_eq s.status (codes "running") || text_eq s.status (codes "attached") in
    let alive = leb m.boot_time_secs s.started_secs && m.pid_alive s.pid in
    let code : ℤ = elim s.exit_code [ none ↦ pos 0 | some c ↦ c ] in
    if was_running
    then (if alive then attached else done (negsuc 0))
    else if text_eq s.status (codes "killed")
    then killed
    else done code

unfoldable pub restored_job : Machine → JobSnapshot → Job
unfolding restored_status
restored_job m s = record {
  job_id = s.job_id;
  pid = s.pid;
  label = s.label;
  cmd = s.cmd;
  cwd = s.cwd;
  status = restored_status m s;
  stdout = fresh_buffer;
  stderr = fresh_buffer;
  log_path = s.log_path;
  started_secs = s.started_secs;
  is_pty = false;
}

unfoldable pub restore_jobs : Machine → List JobSnapshot → Dict Job → Dict Job
unfolding restored_job insert
restore_jobs m [] jobs = jobs
restore_jobs m (s ∷ ss) jobs = restore_jobs m ss (insert jobs s.job_id (restored_job m s))

unfoldable pub restore : Machine → SessionData → JobStore
unfolding restore_jobs
restore m saved = record {
  jobs = restore_jobs m saved.jobs [];
  counter = if saved.counter == 0 then 1 else saved.counter;
}

unfoldable pub remove_job : JobStore → Text → Bool × JobStore
unfolding remove
remove_job st id =
    (contains_key st.jobs id, record { jobs = remove st.jobs id; counter = st.counter })

-- the waiter thread of a job: the child has ended
unfoldable pub exits : (code : ℤ) → JobStatus → JobStatus
exits code st = done code

-- one look of the thread that watches an attached job
unfoldable pub polls : (alive : Bool) → JobStatus → JobStatus
unfolding is_terminal
polls alive st = if is_terminal st || alive then st else done (negsuc 0)

-- `bg_kill`, whose signal was sent or not
unfoldable pub kills : (sent : Bool) → JobStatus → JobStatus
unfolding is_terminal
kills sent st = if is_terminal st || not sent then st else killed

pub record JobStoreStats : Type 0 where
  pub total_jobs : ℕ
  pub running_jobs : ℕ
  pub attached_jobs : ℕ
  pub done_jobs : ℕ
  pub killed_jobs : ℕ
  pub stdout_bytes : ℕ
  pub stderr_bytes : ℕ

-- one job more in the counts
unfoldable pub count_job : Job → JobStoreStats → JobStoreStats
count_job j s = record {
  total_jobs = s.total_jobs + 1;
  running_jobs =
      s.running_jobs + elim j.status [ running ↦ 1 | killed ↦ 0 | attached ↦ 0 | done c ↦ 0 ];
  attached_jobs =
      s.attached_jobs + elim j.status [ running ↦ 0 | killed ↦ 0 | attached ↦ 1 | done c ↦ 0 ];
  done_jobs = s.done_jobs + elim j.status [ running ↦ 0 | killed ↦ 0 | attached ↦ 0 | done c ↦ 1 ];
  killed_jobs =
      s.killed_jobs + elim j.status [ running ↦ 0 | killed ↦ 1 | attached ↦ 0 | done c ↦ 0 ];
  stdout_bytes = s.stdout_bytes + length j.stdout.buf;
  stderr_bytes = s.stderr_bytes + length j.stderr.buf;
}

unfoldable pub count_jobs : Dict Job → JobStoreStats → JobStoreStats
unfolding count_job
count_jobs [] s = s
count_jobs ((id, j) ∷ jobs) s = count_jobs jobs (count_job j s)

unfoldable pub stats : JobStore → JobStoreStats
unfolding count_jobs
stats st = count_jobs st.jobs (record {
  total_jobs = 0;
  running_jobs = 0;
  attached_jobs = 0;
  done_jobs = 0;
  killed_jobs = 0;
  stdout_bytes = 0;
  stderr_bytes = 0;
})
