-- ===== src/TaskRun/Passing.antt =====
-- The invariant of the loop of RunToStage: what a task that is not resolved with an exception has
-- been through so far.
use taskcluster_worker.Prelude.{
  ℕ, ◌+◌, ◌≡◌, ◌≤◌, ◌<◌, refl, sym, ap, ◌∙◌, Bool, true, false, List, [], ◌∷◌, Option, none, some,
  arith,
}
use taskcluster_worker.Prelude.OptionMonad.{>>=-eq-some}
use taskcluster_worker.Errors.{Err}
use taskcluster_worker.TaskRun.State.{
  Stage, prepare, build, start, started, waiting, stopped, finished, resolved, index, next_stage,
  TaskRun, AbortReason, abort,
}
use taskcluster_worker.TaskRun.Stages.{
  Call, returns, valid, World, Ending, returned, captured, died, run_prepare, run_stage,
}
use taskcluster_worker.TaskRun.Advance.{abort_all, handle, advance, round, Aborts}
use taskcluster_worker.TaskRun.Frame.{
  has_reason, Aborted, too_late, in_time, abort-Aborted, Mid, Round, round-Round, Round-Mid,
  abort_all-Moved, run_stage-Kept, handle-Moved,
}

-- The resolution between two rounds. A task that ran to its end is resolved with no exception.
pub record Between (t : TaskRun) : Type 0 where
  pub exception_resolved : t.exception ≡ true → t.stage ≡ resolved
  pub exception_reason : has_reason t.reason ≡ t.exception
  pub no_fatal : t.exception ≡ false → t.fatal_err ≡ false
  pub no_non_fatal : t.exception ≡ false → t.non_fatal_err ≡ false

Between-Mid : (t : TaskRun) → index t.stage ≤ 6 → Between t → Mid t
Between-Mid t l b = ground arith

Mid-Between : (t : TaskRun) → Mid t → Between (advance t)
unfolding advance
Mid-Between t m = ground arith

pub round-Between :
    (w : World) (a : Aborts) (t u : TaskRun)
    → index t.stage ≤ 6
    → Between t
    → round w a t ≡ some u
    → Between u
round-Between w a t u l b e =
    let r = round-Round w a t u e in
    let m = Mid-Between r.handled (Round-Mid w a t u r (Between-Mid t l b)) in rw r.advances m

-- A call that returned a nil error.
abbrev pub no_error : {A : Type 0} → Call (A × Option Err) → Bool
no_error (returns (a, none)) = true
no_error _ = false

-- What the stages before a given one asked was answered with no error, and the last answer to
-- Stopped is the success of the task.
pub record Passed (w : World) (i : ℕ) (success : Bool) : Type 0 where
  pub schema : 0 < i → w.validation ≡ valid
  pub builder : 0 < i → no_error w.new_sandbox_builder ≡ true
  pub plugin : 0 < i → no_error w.new_task_plugin ≡ true
  pub built : 1 < i → w.build_sandbox ≡ returns none
  pub sandbox : 2 < i → no_error w.start_sandbox ≡ true
  pub started_hook : 3 < i → w.plugin_started ≡ returns none
  pub result : 4 < i → no_error w.wait_for_result ≡ true
  pub stopped_hook : 5 < i → w.plugin_stopped ≡ returns (success, none)
  pub finished_hook : 6 < i → w.plugin_finished ≡ returns none

module _ (w : World) (t : TaskRun) (e : (run_prepare w t).1 ≡ returned none) where
  prepare_schema : w.validation ≡ valid
  unfolding run_prepare
  prepare_schema = ground arith

  prepare_builder : no_error w.new_sandbox_builder ≡ true
  unfolding run_prepare
  prepare_builder = ground arith

  prepare_plugin : no_error w.new_task_plugin ≡ true
  unfolding run_prepare
  prepare_plugin = ground arith

-- One stage that returns nil adds what it asked.
stage_passes :
    (w : World) (s : Stage) (t : TaskRun)
    → index s ≤ 6
    → (run_stage w s t).1 ≡ returned none
    → Passed w (index s) t.success
    → Passed w (index s + 1) (run_stage w s t).0.success
unfolding run_stage
stage_passes w prepare t l e p = record {
  schema = λ h. prepare_schema w t e;
  builder = λ h. prepare_builder w t e;
  plugin = λ h. prepare_plugin w t e;
  built = λ h. absurd (omega arith);
  sandbox = λ h. absurd (omega arith);
  started_hook = λ h. absurd (omega arith);
  result = λ h. absurd (omega arith);
  stopped_hook = λ h. absurd (omega arith);
  finished_hook = λ h. absurd (omega arith);
}
stage_passes w build t l e p = ground arith
stage_passes w start t l e p = ground arith
stage_passes w started t l e p = ground arith
stage_passes w waiting t l e p = ground arith
stage_passes w stopped t l e p = ground arith
stage_passes w finished t l e p = ground arith
stage_passes w resolved t l e p = absurd (omega arith)

-- Where there is no exception in the end there was no abort on the way.
abort_all_none :
    (rs : List AbortReason) (t u : TaskRun)
    → index t.stage ≤ 6
    → abort_all rs t ≡ some u
    → u.exception ≡ false
    → u ≡ t
unfolding abort_all
abort_all_none [] t u l e x = ground arith
abort_all_none (r ∷ rs) t u l e x =
    let (v, e1, e2) = >>=-eq-some (abort r t) (abort_all rs) e in
    let a = abort-Aborted r t v e1 in
    let m = abort_all-Moved rs v u e2 in absurd (none_left a m.exception)
  where
    none_left : {v : TaskRun} → Aborted r t v → (v.exception ≡ true → u.exception ≡ true) → ⊥
    none_left (too_late h q) m = ground arith
    none_left (in_time h q f g k) m = ground (arith, m f)

-- Nor was there an error.
handle-none :
    (e : Ending) (t u : TaskRun)
    → index t.stage ≤ 6
    → handle e t ≡ some u
    → u.exception ≡ false
    → (e ≡ returned none) × (u ≡ t)
unfolding handle
handle-none (returned none) t u l h x = (refl, ground arith)
handle-none (returned (some e)) t u l h x = absurd (ground arith)
handle-none captured t u l h x = absurd (ground arith)
handle-none died t u l h x = cc

pub record Progress (w : World) (t : TaskRun) : Type 0 where
  pub between : Between t
  pub passed : t.exception ≡ false → Passed w (index t.stage) t.success

not_true : (b c : Bool) → (b ≡ true → c ≡ true) → c ≡ false → b ≡ false
not_true b c h e = ground arith

index_next : (s : Stage) → index s ≤ 6 → index s + 1 ≡ index (next_stage s)
index_next s l = ground arith

pub Passed-eq : (w : World) {i j : ℕ} {a b : Bool} → i ≡ j → a ≡ b → Passed w i a → Passed w j b
Passed-eq w p q h = rw (← p, ← q) h

-- A round with no exception at its end: no abort, and the stage returns nil.
module _ (w : World) (a : Aborts) (t u : TaskRun) (l : index t.stage ≤ 6) (r : Round w a t u)
    (x : r.handled.exception ≡ false) where
  calm_after : r.stopped_after.exception ≡ false
  calm_after =
      not_true r.stopped_after.exception r.handled.exception
        (handle-Moved (run_stage w t.stage r.begun).1 r.stopped_after r.handled r.handles).exception
        x

  calm_ran : (run_stage w t.stage r.begun).0.exception ≡ false
  calm_ran =
      not_true (run_stage w t.stage r.begun).0.exception r.stopped_after.exception
        (abort_all-Moved a.after (run_stage w t.stage r.begun).0 r.stopped_after
          r.aborted_after).exception
        calm_after

  calm_begun : r.begun ≡ t
  calm_begun =
      abort_all_none a.before t r.begun l r.aborted_before
        (sym (run_stage-Kept w t.stage r.begun).exception ∙ calm_ran)

  calm_stage : index (run_stage w t.stage r.begun).0.stage ≤ 6
  calm_stage = rw ((run_stage-Kept w t.stage r.begun).stage, calm_begun) l

  calm_stopped : r.stopped_after ≡ (run_stage w t.stage r.begun).0
  calm_stopped =
      abort_all_none a.after (run_stage w t.stage r.begun).0 r.stopped_after calm_stage
        r.aborted_after calm_after

  calm_handled : ((run_stage w t.stage r.begun).1 ≡ returned none) × (r.handled ≡ r.stopped_after)
  calm_handled =
      handle-none (run_stage w t.stage r.begun).1 r.stopped_after r.handled
        (rw calm_stopped calm_stage) r.handles x

  calm_result : r.handled ≡ (run_stage w t.stage t).0
  calm_result = calm_handled.1 ∙ calm_stopped ∙ ap (λ b. (run_stage w t.stage b).0) calm_begun

  calm_returned : (run_stage w t.stage t).1 ≡ returned none
  calm_returned = sym (ap (λ b. (run_stage w t.stage b).1) calm_begun) ∙ calm_handled.0

  calm-Passed :
      (t.exception ≡ false → Passed w (index t.stage) t.success)
      → Passed w (index u.stage) u.success
  unfolding advance
  calm-Passed p =
      Passed-eq w
        (index_next t.stage l
          ∙ ap (λ s. index (next_stage s))
              (sym (run_stage-Kept w t.stage t).stage ∙ ap (λ v. v.stage) (sym calm_result))
          ∙ ap (λ v. index v.stage) (sym r.advances))
        (ap (λ v. v.success) (sym calm_result) ∙ ap (λ v. v.success) (sym r.advances))
        (stage_passes w t.stage t l calm_returned (
          p (
            sym (run_stage-Kept w t.stage t).exception
            ∙ ap (λ v. v.exception) (sym calm_result)
            ∙ x)))

pub round-Progress :
    (w : World) (a : Aborts) (t u : TaskRun)
    → index t.stage ≤ 6
    → Progress w t
    → round w a t ≡ some u
    → Progress w u
unfolding advance
round-Progress w a t u l p e = record {
  between = round-Between w a t u l p.between e;
  passed = λ x.
      let r = round-Round w a t u e in
      calm-Passed w a t u l r (ap (λ v. v.exception) (sym r.advances) ∙ x) p.passed;
}
