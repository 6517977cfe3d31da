-- ===== src/Tests/JobStore.antt =====
-- Jobs with some output.
use ferrite_mcp.Prelude.{
  ◌≡◌, ◌≤◌, refl, true, false, some, List, [], ◌∷◌, ◌++◌, length, drop, arith, codes,
}
use ferrite_mcp.Edit.Content.{Bytes}
use ferrite_mcp.Runtime.State.{negsuc}
use ferrite_mcp.JobStore.{
  running, attached, done, Buffer, fresh_buffer, Job, Machine, to_snapshot, restored_job, next_id,
  exits, kills,
}
use ferrite_mcp.JobStore.Drains.{BufferEvent, arrives, drains, observe, arrived, observe-arrived}
use ferrite_mcp.JobStore.Restores.{survives, restored_job-to_snapshot}

abbrev talk : List BufferEvent
talk =
    arrives (1 ∷ 2 ∷ [])
    ∷ drains
    ∷ arrives (3 ∷ [])
    ∷ arrives (4 ∷ [])
    ∷ drains
    ∷ arrives (5 ∷ [])
    ∷ []

observe-arrived_example :
    (out : Bytes) × (next : Buffer) × (observe talk fresh_buffer ≡ some (out, next))
    × (next.cursor ≤ length next.buf)
    × (out ++ drop next.cursor next.buf ≡ drop 0 [] ++ arrived talk)
observe-arrived_example = observe-arrived talk fresh_buffer (omega arith)

abbrev machine : Machine
machine = record {
  now = 9;
  boot_time_secs = 3;
  pid_alive = λ p. true;
  log_path_for = λ id. id;
  display = λ p. p;
}

abbrev job : Job
job = record {
  job_id = codes "j0001";
  pid = 7;
  label = codes "build";
  cmd = codes "make";
  cwd = codes "/";
  status = running;
  stdout = fresh_buffer;
  stderr = fresh_buffer;
  log_path = codes "j0001";
  started_secs = 5;
  is_pty = true;
}

restored_job-to_snapshot_example : restored_job machine (to_snapshot machine.display job) ≡ record {
  job_id = codes "j0001";
  pid = 7;
  label = codes "build";
  cmd = codes "make";
  cwd = codes "/";
  status = attached;
  stdout = fresh_buffer;
  stderr = fresh_buffer;
  log_path = codes "j0001";
  started_secs = 5;
  is_pty = false;
}
unfolding survives
restored_job-to_snapshot_example = restored_job-to_snapshot machine job

-- A job that was killed is reported as done once its waiter sees the end.
killed_example : exits (negsuc 0) (kills true running) ≡ done (negsuc 0)
unfolding exits
killed_example = refl

next_id_example : (next_id (record { jobs = []; counter = 12 })).0 ≡ codes "j0012"
unfolding next_id
next_id_example = refl
