-- ===== src/JobStore/Restores.antt =====
-- What a job is after it has been saved and restored.
use ferrite_mcp.Prelude.{◌≡◌, refl, Bool, false, ◌&&◌, leb, if◌then◌else◌, text_eq}
use ferrite_mcp.JobStore.{
  JobStatus, running, killed, attached, done, exit_code, as_snapshot_str, Job, to_snapshot, Machine,
  fresh_buffer, restored_status, restored_job,
}
use ferrite_mcp.Runtime.State.{negsuc}

-- The status that a restart leaves a job: one that has ended keeps how it ended, another is attached to if
-- its process lives and was started since the last boot, and counts as ended with code -1 else.
unfoldable pub survives : (lives : Bool) → JobStatus → JobStatus
survives lives (done c) = done c
survives lives killed = killed
survives lives running = if lives then attached else done (negsuc 0)
survives lives attached = if lives then attached else done (negsuc 0)

restored_status_lem :
    (m : Machine) (j : Job) (st : JobStatus)
    → j.status ≡ st
    → restored_status m (to_snapshot m.display j)
      ≡ survives (leb m.boot_time_secs j.started_secs && m.pid_alive j.pid) st
unfolding restored_status to_snapshot as_snapshot_str exit_code text_eq survives
restored_status_lem m j running is = rw is refl
restored_status_lem m j killed is = rw is refl
restored_status_lem m j attached is = rw is refl
restored_status_lem m j (done c) is = rw is refl

-- A job that is saved and restored keeps its id, pid, label, command and start; its directory and its log are
-- the paths that `display` shows of them; the output that it had collected is gone, and so is its terminal.
-- One that was done stays done with its code, and one that was killed stays killed; one that was running or
-- attached is attached to if its process lives and the recorded boot time is not behind its start, which a boot
-- time of 0 never is, and done with code -1 otherwise.
pub restored_job-to_snapshot :
    (m : Machine) (j : Job)
    → restored_job m (to_snapshot m.display j) ≡ record {
      job_id = j.job_id;
      pid = j.pid;
      label = j.label;
      cmd = j.cmd;
      cwd = m.display j.cwd;
      status = survives (leb m.boot_time_secs j.started_secs && m.pid_alive j.pid) j.status;
      stdout = fresh_buffer;
      stderr = fresh_buffer;
      log_path = m.display j.log_path;
      started_secs = j.started_secs;
      is_pty = false;
    }
unfolding restored_job to_snapshot
restored_job-to_snapshot m j = rw (restored_status_lem m j j.status refl) refl
