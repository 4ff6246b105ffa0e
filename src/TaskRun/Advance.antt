-- ===== src/TaskRun/Advance.antt =====
-- TaskRun.RunToStage and TaskRun.WaitForResult. While a stage runs the lock is free, so any number
-- of `Abort` calls may fall before and after what the stage writes: a schedule says which.
use taskcluster_worker.Prelude.{
  ℕ, zero, suc, true, false, List, [], ◌∷◌, Option, none, some, leb, ltb, String, if◌then◌else◌,
}
use taskcluster_worker.Prelude.OptionMonad.{◌>>=◌}
use taskcluster_worker.Errors.{
  fatal_internal, non_fatal_internal, malformed_payload, ExceptionReason, malformed, internal_error,
}
use taskcluster_worker.TaskContext.Life.{TaskContext, message, incident, log_error}
use taskcluster_worker.TaskRun.State.{
  Stage, finished, resolved, index, next_stage, TaskRun, AbortReason, abort, cancel_controller,
}
use taskcluster_worker.TaskRun.Stages.{World, Ending, returned, captured, died, run_stage}

unfoldable pub abort_all : List AbortReason → TaskRun → Option TaskRun
abort_all [] t = some t
abort_all (r ∷ rs) t = do t' ← abort r t; abort_all rs t'

abbrev log_all : List String → TaskContext → TaskContext
log_all [] c = c
log_all (m ∷ ms) c = log_all ms (log_error (message m) c)

-- Writing to the log through a nil controller panics: `none`.
abbrev with_log : (TaskContext → TaskContext) → TaskRun → Option TaskRun
with_log f t = elim t.controller [
  | none ↦ none
  | some c ↦ some (record t { controller = some (f c) })
]

-- The resolution is not changed once there is one.
unfoldable pub resolve : ExceptionReason → TaskRun → TaskRun
resolve r t = elim t.stage [
  | resolved ↦ t
  | _ ↦ record t { stage = resolved; exception = true; success = false; reason = r }
]

-- A panic, or an error that had to be reported, has an incident: it is fatal.
unfoldable pub note_incident : TaskRun → Option TaskRun
note_incident t = with_log (log_error incident) (record t { fatal_err = true })

-- The block under `if err != nil || incidentID != ""`; `none` is a panic, which kills the process.
unfoldable pub handle : Ending → TaskRun → Option TaskRun
unfolding resolve note_incident log_error
handle (returned none) t = some t
handle (returned (some (malformed_payload ms))) t = do
  t' ← with_log (log_all ms) t
  some (resolve malformed t')
handle (returned (some non_fatal_internal)) t =
    some (resolve internal_error (record t { non_fatal_err = true }))
handle (returned (some fatal_internal)) t =
    some (resolve internal_error (record t { fatal_err = true }))
handle (returned (some e)) t = do t' ← note_incident t; some (resolve internal_error t')
handle captured t = do t' ← note_incident t; some (resolve internal_error t')
handle died t = none

-- `if t.stage < stageResolved { t.stage++ }`
unfoldable pub advance : TaskRun → TaskRun
advance t = record t { stage = next_stage t.stage }

pub record Aborts : Type 0 where
  pub before : List AbortReason
  pub after : List AbortReason

abbrev pub Schedule : Type 0
Schedule = Stage → Aborts

-- One round of the loop.
unfoldable pub round : World → Aborts → TaskRun → Option TaskRun
round w a t = do
  t1 ← abort_all a.before t
  let ran = run_stage w t.stage t1
  t2 ← abort_all a.after ran.0
  t3 ← handle ran.1 t2
  some (advance t3)

pub data Outcome : Type 0 where
  completes : TaskRun → Outcome
  blocks dies out_of_fuel : Outcome

-- `for t.stage <= targetStage`, and the cancellation behind it.
unfoldable pub rounds : ℕ → World → Schedule → Stage → TaskRun → Outcome
rounds zero w sched target t = out_of_fuel
rounds (suc fuel) w sched target t = elim (leb (index t.stage) (index target)) [
  | true ↦ elim (round w (sched t.stage) t) [
    | none ↦ dies
    | some t' ↦ rounds fuel w sched target t'
  ]
  | false ↦ elim t.stage [
    | resolved ↦ elim (cancel_controller t) [
      | none ↦ dies
      | some t' ↦ completes (record t' { running = false })
    ]
    | _ ↦ completes (record t { running = false })
  ]
]

abbrev pub enough : ℕ
enough = 8

-- While another thread runs stages this one waits, or returns if its target is passed.
unfoldable pub run_to_stage : World → Schedule → Stage → TaskRun → Outcome
run_to_stage w sched target t =
    if ltb (index finished) (index target)
    then dies
    else if t.running
    then (if ltb (index target) (index t.stage) then completes t else blocks)
    else rounds enough w sched target (record t { running = true })

-- `WaitForResult`: after the stages, the resolution is read.
unfoldable pub wait_for_result : World → Schedule → TaskRun → Outcome
wait_for_result w sched t = run_to_stage w sched finished t
