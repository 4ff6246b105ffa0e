-- ===== src/TaskRun/Resolution.antt =====
-- What WaitForResult tells of the task, and what a task that is resolved without an exception has
-- been through.
use taskcluster_worker.Prelude.{
  ℕ, ◌≡◌, ◌<◌, refl, sym, ap, ◌∙◌, true, false, none, arith, not, ◌||◌,
}
use taskcluster_worker.TaskRun.State.{Stage, finished, resolved, index, TaskRun, new}
use taskcluster_worker.TaskRun.Stages.{returns, valid, World}
use taskcluster_worker.TaskRun.Advance.{Schedule, completes, enough, run_to_stage, wait_for_result}
use taskcluster_worker.TaskRun.Frame.{has_reason}
use taskcluster_worker.TaskRun.Loop.{Final, rounds_inv}
use taskcluster_worker.TaskRun.Passing.{Between, no_error, Passed-eq, Progress, round-Progress}

new-Progress : (w : World) (q : ℕ) → Progress w (record (new true q) { running = true })
unfolding new
new-Progress w q = ground arith

-- The state in which WaitForResult leaves a task whose context could be created.
record Settled (w : World) (v : TaskRun) : Type 0 where
  progress : Progress w v
  is_over : v.stage ≡ resolved
  is_stopped : v.running ≡ false

Final-Between : (t v : TaskRun) → Final t v → Between t → Between v
Final-Between t v f b = ground arith

last_stage : (s : Stage) → 6 < index s → s ≡ resolved
last_stage s l = ground arith

Final-Settled :
    (w : World) (t v : TaskRun) → Progress w t → 6 < index t.stage → Final t v → Settled w v
Final-Settled w t v p l f = record {
  progress = record {
    between = Final-Between t v f p.between;
    passed =
        λ x. Passed-eq w (ap index (sym f.stage)) (sym f.success) (p.passed (sym f.exception ∙ x));
  };
  is_over = f.stage ∙ last_stage t.stage l;
  is_stopped = f.stopped_running;
}

wait_for_result-Settled :
    (w : World) (sched : Schedule) (queue : ℕ) (v : TaskRun)
    → wait_for_result w sched (new true queue) ≡ completes v
    → Settled w v
unfolding wait_for_result run_to_stage new
wait_for_result-Settled w sched queue v e =
    let (t, p, l, f) =
      rounds_inv (Progress w) w sched finished (omega arith)
        (λ t u. round-Progress w (sched t.stage) t u) enough
        (record (new true queue) { running = true }) v (new-Progress w queue) e in
    Final-Settled w t v p l f

errors_excepted :
    (v : TaskRun) → Between v → (v.exception || not (v.fatal_err || v.non_fatal_err)) ≡ true
errors_excepted v b = ground arith

-- When WaitForResult returns, whatever happened, the task is resolved and no thread runs its stages,
-- the exception flag is set exactly when there is a reason, and no internal error has been seen
-- where it is not set.
pub wait_for_result_resolves :
    (w : World) (sched : Schedule) (queue : ℕ) (v : TaskRun)
    → wait_for_result w sched (new true queue) ≡ completes v
    → (v.stage ≡ resolved)
      × (v.running ≡ false)
      × (has_reason v.reason ≡ v.exception)
      × ((v.exception || not (v.fatal_err || v.non_fatal_err)) ≡ true)
wait_for_result_resolves w sched queue v e =
    let s = wait_for_result-Settled w sched queue v e in
    let b = s.progress.between in (s.is_over, s.is_stopped, b.exception_reason, errors_excepted v b)

-- A task that is resolved without an exception fits the payload schema, every call of the engine
-- and every plugin hook, from the creation of the sandbox to Finished, returned no error, and its
-- success is what the plugins answered to Stopped.
pub no_exception_passed :
    (w : World) (sched : Schedule) (queue : ℕ) (v : TaskRun)
    → wait_for_result w sched (new true queue) ≡ completes v
    → v.exception ≡ false
    → (w.validation ≡ valid)
      × (no_error w.new_sandbox_builder ≡ true)
      × (no_error w.new_task_plugin ≡ true)
      × (w.build_sandbox ≡ returns none)
      × (no_error w.start_sandbox ≡ true)
      × (w.plugin_started ≡ returns none)
      × (no_error w.wait_for_result ≡ true)
      × (w.plugin_stopped ≡ returns (v.success, none))
      × (w.plugin_finished ≡ returns none)
no_exception_passed w sched queue v e x =
    let s = wait_for_result-Settled w sched queue v e in
    let p = Passed-eq w (ap index s.is_over) refl (s.progress.passed x) in
    (
      p.schema (omega arith),
      p.builder (omega arith),
      p.plugin (omega arith),
      p.built (omega arith),
      p.sandbox (omega arith),
      p.started_hook (omega arith),
      p.result (omega arith),
      p.stopped_hook (omega arith),
      p.finished_hook (omega arith),
    )
