-- ===== src/TaskRun/Tests.antt =====
-- Examples of the theorems on worker/taskrun.
use taskcluster_worker.Prelude.{
  ◌≡◌, refl, true, false, not, ◌||◌, [], ◌∷◌, none, some, any, arith, if◌then◌else◌,
}
use taskcluster_worker.Errors.{
  fatal_internal, non_fatal_internal, sandbox_terminated, canceled, internal_error,
}
use taskcluster_worker.TaskContext.Life.{cancelled, cancel}
use taskcluster_worker.TaskRun.State.{
  TaskRun, waiting, resolved, task_canceled, shutdown, abort, abort_reason, new,
}
use taskcluster_worker.TaskRun.Stages.{returns, panics, valid, World, returned, run_stage}
use taskcluster_worker.TaskRun.Advance.{
  Aborts, completes, dies, wait_for_result, run_to_stage, rounds, round, handle, advance, abort_all,
}
use taskcluster_worker.TaskRun.Frame.{has_reason}
use taskcluster_worker.TaskRun.Loop.{wait_for_result_returns}
use taskcluster_worker.TaskRun.Passing.{no_error}
use taskcluster_worker.TaskRun.Resolution.{wait_for_result_resolves, no_exception_passed}
use taskcluster_worker.TaskRun.Abortion.{
  abort_decides, stage_error_resolves, error_reason, is_fatal_error, is_non_fatal_error,
}
use taskcluster_worker.TaskRun.Dispose.{Teardown, dispose}
use taskcluster_worker.TaskRun.Disposal.{held, plan, actions, dispose_releases}
use taskcluster_worker.TaskRun.Verdict.{fatal_event, non_fatal_event, dispose_verdict}
use taskcluster_worker.TaskRun.Samples.{
  calm, no_aborts, quiet, smooth, open_context, passed_run, calm_run,
}

wait_for_result_returns_example :
    (v : TaskRun) × (wait_for_result calm quiet (new true 7) ≡ completes v)
wait_for_result_returns_example = wait_for_result_returns calm quiet 7 (λ e. cc) (λ e. cc)

wait_for_result_resolves_example :
    (passed_run.stage ≡ resolved)
    × (passed_run.running ≡ false)
    × (has_reason passed_run.reason ≡ passed_run.exception)
    × ((passed_run.exception || not (passed_run.fatal_err || passed_run.non_fatal_err)) ≡ true)
wait_for_result_resolves_example = wait_for_result_resolves calm quiet 7 passed_run calm_run

no_exception_passed_example :
    (calm.validation ≡ valid)
    × (no_error calm.new_sandbox_builder ≡ true)
    × (no_error calm.new_task_plugin ≡ true)
    × (calm.build_sandbox ≡ returns none)
    × (no_error calm.start_sandbox ≡ true)
    × (calm.plugin_started ≡ returns none)
    × (no_error calm.wait_for_result ≡ true)
    × (calm.plugin_stopped ≡ returns (true, none))
    × (calm.plugin_finished ≡ returns none)
no_exception_passed_example = no_exception_passed calm quiet 7 passed_run calm_run refl

-- A run that waits for its sandbox.
abbrev waiting_run : TaskRun
waiting_run = record passed_run {
  controller = some open_context;
  running = true;
  stage = waiting;
  success = false;
  sandbox = some 3;
  result_set = none;
}

abbrev cancels_late : Aborts
cancels_late = record { before = []; after = task_canceled ∷ shutdown ∷ [] }

abbrev canceled_run : TaskRun
canceled_run = record waiting_run {
  controller = some (record open_context { status = cancelled; done_closed = true });
  stage = resolved;
  exception = true;
  reason = canceled;
  sandbox = none;
  result_set = some 4;
}

round_canceled : round calm cancels_late waiting_run ≡ some canceled_run
unfolding round run_stage handle advance abort_all abort cancel
round_canceled = refl

abort_decides_example :
    (canceled_run.stage ≡ resolved)
    × (canceled_run.exception ≡ true)
    × (canceled_run.reason ≡ abort_reason task_canceled)
abort_decides_example =
    abort_decides calm cancels_late waiting_run canceled_run task_canceled (shutdown ∷ [])
      (omega arith) refl round_canceled

-- The engine fails to run the sandbox.
abbrev failing : World
failing = record calm { wait_for_result = returns (none, some non_fatal_internal) }

abbrev failed_run : TaskRun
failed_run = record waiting_run {
  stage = resolved;
  exception = true;
  reason = internal_error;
  non_fatal_err = true;
  sandbox = none;
}

failing_stage : (run_stage failing waiting waiting_run).1 ≡ returned (some non_fatal_internal)
unfolding run_stage
failing_stage = refl

round_failed : round failing no_aborts waiting_run ≡ some failed_run
unfolding round run_stage handle advance abort_all
round_failed = refl

stage_error_resolves_example :
    (failed_run.stage ≡ resolved)
    × (failed_run.exception ≡ true)
    × (failed_run.success ≡ false)
    × (failed_run.reason ≡ error_reason non_fatal_internal)
    × (failed_run.fatal_err ≡ (waiting_run.fatal_err || is_fatal_error non_fatal_internal))
    × (failed_run.non_fatal_err
        ≡ (waiting_run.non_fatal_err || is_non_fatal_error non_fatal_internal))
stage_error_resolves_example =
    stage_error_resolves failing no_aborts waiting_run failed_run non_fatal_internal (omega arith)
      refl failing_stage round_failed

-- The plugins are asked whether the task succeeded, and the task is canceled meanwhile.
-- The sandbox has terminated when it is to be aborted, and its result set cannot be disposed of.
abbrev rough : Teardown
rough = record smooth {
  abort_sandbox = returns (some sandbox_terminated);
  late_result = returns (some 5, none);
  dispose_result = panics;
}

dispose_releases_example :
    (actions (dispose rough waiting_run).1 ≡ plan rough (held waiting_run))
    × (held (dispose rough waiting_run).0 ≡ record (held waiting_run) {
      context = false;
      plugin = none;
      builder = none;
      sandbox = none;
      result = none;
    })
dispose_releases_example = dispose_releases rough waiting_run

dispose_verdict_example : (dispose rough waiting_run).2 ≡ (
    if any fatal_event (dispose rough waiting_run).1
    then some fatal_internal
    else if any non_fatal_event (dispose rough waiting_run).1
    then some non_fatal_internal
    else none)
dispose_verdict_example = dispose_verdict rough waiting_run

-- Where the task's context could not be created, WaitForResult cancels a context that is not there.
failed_context_dies : wait_for_result calm quiet (new false 7) ≡ dies
unfolding wait_for_result run_to_stage rounds new
failed_context_dies = refl
