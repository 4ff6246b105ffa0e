-- ===== src/TaskRun/Samples.antt =====
-- A task that passes, with the run at each point where the examples look at it.
use taskcluster_worker.Prelude.{◌≡◌, refl, true, false, [], none, some}
use taskcluster_worker.Errors.{no_exception}
use taskcluster_worker.TaskContext.Life.{
  TaskContext, cancelled, unset, set_queue_client, cancel, close_log,
}
use taskcluster_worker.TaskRun.State.{TaskRun, resolved, new}
use taskcluster_worker.TaskRun.Stages.{World, run_stage, returns, valid}
use taskcluster_worker.TaskRun.Advance.{
  Aborts, Schedule, completes, wait_for_result, run_to_stage, rounds, round, handle, advance,
  abort_all,
}
use taskcluster_worker.TaskRun.Dispose.{Teardown}

abbrev pub calm : World
calm = record {
  schema_conflict = false;
  validation = valid;
  new_sandbox_builder = returns (some 1, none);
  new_task_plugin = returns (some 2, none);
  build_sandbox = returns none;
  start_sandbox = returns (some 3, none);
  plugin_started = returns none;
  wait_for_result = returns (some 4, none);
  plugin_stopped = returns (true, none);
  close_stream = none;
  plugin_finished = returns none;
}

abbrev pub no_aborts : Aborts
no_aborts = record { before = []; after = [] }

abbrev pub quiet : Schedule
quiet s = no_aborts

abbrev pub smooth : Teardown
smooth = record {
  close_stream = none;
  exception_hook = λ r. returns none;
  dispose_plugin = returns none;
  discard_builder = returns none;
  abort_sandbox = returns none;
  late_result = returns (none, none);
  dispose_result = returns none;
  remove_log = returns none;
}

-- The context of a task, by its status and whether its log is closed.
abbrev pub open_context : TaskContext
open_context = record {
  status = unset;
  done_closed = false;
  log_closed = false;
  log = [];
  queue = some 7;
  client_id = "";
  access_token = "";
  certificate = "";
}

abbrev pub passed_run : TaskRun
passed_run = record {
  controller =
      some (record open_context { status = cancelled; done_closed = true; log_closed = true });
  running = false;
  stage = resolved;
  success = true;
  exception = false;
  reason = no_exception;
  fatal_err = false;
  non_fatal_err = false;
  task_plugin = some 2;
  sandbox_builder = none;
  sandbox = none;
  result_set = some 4;
}

pub calm_run : wait_for_result calm quiet (new true 7) ≡ completes passed_run
unfolding wait_for_result run_to_stage rounds round run_stage handle advance abort_all new
    set_queue_client cancel close_log
calm_run = refl
