-- ===== src/Worker/Tests.antt =====
-- Examples of the theorems on worker/ and runtime/stoppable.go, on the runs of TaskRun/Samples.
use taskcluster_worker.Prelude.{
  zero, suc, ℕ, ◌+◌, ◌≤◌, ◌<◌, ◌≡◌, ◌≢◌, ◌⊎◌, refl, ap, ◌∙◌, ◌==◌, if◌then◌else◌, true, false, List,
  [], ◌∷◌, ◌++◌, none, some, any, arith, ◌||◌, if◌then◌else◌, count, ◌&&◌,
}
use taskcluster_worker.TaskRun.State.{TaskRun, new}
use taskcluster_worker.TaskRun.Stages.{returns, valid}
use taskcluster_worker.TaskRun.Advance.{abort_all, completes, wait_for_result}
use taskcluster_worker.TaskRun.Passing.{no_error}
use taskcluster_worker.TaskRun.Dispose.{
  dispose, release_context, release_result, release_sandbox, release_builder, release_plugin,
  run_exception_hook, close_context,
}
use taskcluster_worker.TaskRun.Verdict.{is_fatal_outcome}
use taskcluster_worker.TaskRun.Samples.{calm, quiet, smooth, passed_run, calm_run}
use taskcluster_worker.Worker.Claiming.{
  claims_within_capacity, Loop, claiming, over, Reach, leave, is_idle, stop_gracefully, here, next,
  start,
}
use taskcluster_worker.Worker.Reclaiming.{
  Happening, delay_over, reclaimed, conflict, failed, Reclaimer,
}
use taskcluster_worker.Worker.Superseding.{
  Claim, Candidate, last_run, supersede, is_given, last_given, claims_of, supersede_lem,
}
use taskcluster_worker.Worker.Processing.{
  completed, accepted, Processed, process_claim, report_and_settle, completed_only_if_passed,
  stops_when_fatal,
}
use taskcluster_worker.Worker.StoppableOnce as StoppableOnce

-- A queue that has one task to give.
abbrev stingy : ℕ → ℕ → ℕ
stingy zero (suc n) = 1
stingy _ _ = 0

stingy_obeys : (polls asked : ℕ) → stingy polls asked ≤ asked
stingy_obeys zero zero = omega arith
stingy_obeys zero (suc n) = omega arith
stingy_obeys (suc k) n = omega arith

abbrev ended_loop : Loop
ended_loop = record {
  concurrency = 2;
  phase = over;
  active = 0;
  asked = 0;
  polls = 0;
  stopping_gracefully = true;
  stopping_now = false;
}

Reach-ended : Reach stingy 2 ended_loop
unfolding start
Reach-ended =
    next (next (next here (stop_gracefully refl)) (leave refl refl refl)) (is_idle refl refl refl)

abbrev happenings : List Happening
happenings =
    delay_over failed
    ∷ delay_over (reclaimed (record { taken_until = 900; credentials = 8 }))
    ∷ delay_over conflict
    ∷ []

abbrev reclaimer : Reclaimer
reclaimer = record { client = 7; taken_until = 200; abortion = none; calls = 0; returned = false }

abbrev claim : Claim
claim = record { task_id = 1; run_id = 0 }

abbrev candidates : List Candidate
candidates =
    record { task_id = 1; status = last_run 0 true; claimable = true }
    ∷ record { task_id = 2; status = last_run 1 true; claimable = true }
    ∷ []

supersede_example :
    let (last, before) = supersede claim candidates in
    (last ≡ last_given 1 claim candidates)
    × (claims_of 1 (before ++ last ∷ []) ≡ (
        if 1 == 1 then 1 else count (λ (c : Candidate). c.task_id == 1 && is_given c) candidates))
supersede_example = supersede_lem claim candidates 1

abbrev processed : Processed
processed = record {
  report = completed;
  non_fatal_errors = 0;
  stops_worker = false;
  run = record passed_run { controller = none; task_plugin = none; result_set = none };
}

processed-calm : process_claim calm quiet [] smooth accepted true 7 ≡ some processed
unfolding process_claim report_and_settle dispose release_context release_result release_sandbox
    release_builder release_plugin run_exception_hook close_context
processed-calm = ap (report_and_settle smooth accepted) calm_run ∙ refl

completed_only_if_passed_example :
    (calm.validation ≡ valid)
    × (no_error calm.new_sandbox_builder ≡ true)
    × (no_error calm.new_task_plugin ≡ true)
    × (calm.build_sandbox ≡ returns none)
    × (no_error calm.start_sandbox ≡ true)
    × (calm.plugin_started ≡ returns none)
    × (no_error calm.wait_for_result ≡ true)
    × (calm.plugin_stopped ≡ returns (true, none))
    × (calm.plugin_finished ≡ returns none)
completed_only_if_passed_example =
    completed_only_if_passed calm quiet [] smooth accepted 7 processed processed-calm refl

stops_when_fatal_example :
    (u v : TaskRun) × (abort_all [] (new true 7) ≡ some u)
    × (wait_for_result calm quiet u ≡ completes v)
    × (processed.stops_worker
        ≡ (v.fatal_err || any (λ e. is_fatal_outcome e.outcome) (dispose smooth v).1))
stops_when_fatal_example = stops_when_fatal calm quiet [] smooth accepted 7 processed processed-calm

claims_within_capacity_example :
    (ended_loop.active ≤ 2)
    × ((ended_loop.phase ≢ claiming)
        ⊎ ((0 < ended_loop.asked) × (ended_loop.active + ended_loop.asked ≤ 2)))
    × ((ended_loop.phase ≢ over)
        ⊎ ((ended_loop.active ≡ 0) × (ended_loop.stopping_gracefully ≡ true)))
claims_within_capacity_example =
    claims_within_capacity stingy 2 stingy_obeys (omega arith) Reach-ended

-- StopGracefully and then StopNow are called; of the goroutines that they start, that of StopNow is
-- the first to run.
abbrev late_stopping : StoppableOnce.Stopping
late_stopping = record {
  once = record {
    stopping_now = StoppableOnce.calling;
    stopping_gracefully = StoppableOnce.calling;
  };
  graceful_calls = 1;
  now_calls = 1;
  now_first = false;
  late = true;
}

graceful_after_now : StoppableOnce.Reach late_stopping
unfolding StoppableOnce.stop_gracefully StoppableOnce.stop_now
graceful_after_now =
    StoppableOnce.next
      (StoppableOnce.next
        (StoppableOnce.next
          (StoppableOnce.next StoppableOnce.here (StoppableOnce.asks_gracefully refl))
          (StoppableOnce.asks_now refl))
        (StoppableOnce.calls_now refl refl))
      (StoppableOnce.calls_graceful refl refl)
