-- ===== src/TaskRun/Frame.antt =====
-- What the parts of a round of RunToStage leave alone, part by part.
use taskcluster_worker.Prelude.{
  ◌≡◌, ◌≢◌, ◌⊎◌, inl, inr, refl, Bool, true, false, List, [], ◌∷◌, Option, none, some, arith,
}
use taskcluster_worker.Prelude.OptionMonad.{>>=-eq-some}
use taskcluster_worker.Errors.{
  fatal_internal, non_fatal_internal, malformed_payload, disposable_in_use, size_not_supported,
  sandbox_terminated, sandbox_aborted, wait_group_draining, shell_terminated, shell_aborted,
  resource_not_found, other, ExceptionReason, no_exception,
}
use taskcluster_worker.TaskRun.State.{
  Stage, prepare, build, start, started, waiting, stopped, finished, resolved, is_resolved, TaskRun,
  AbortReason, abort, abort_reason,
}
use taskcluster_worker.TaskRun.Stages.{World, Ending, returned, captured, died, run_stage}
use taskcluster_worker.TaskRun.Advance.{abort_all, handle, advance, round, Aborts}

abbrev pub is_some : {A : Type 0} → Option A → Bool
is_some none = false
is_some (some a) = true

abbrev pub has_reason : ExceptionReason → Bool
has_reason no_exception = false
has_reason _ = true

-- The resolution of a task, while one of its stages runs: it is resolved only by an exception.
pub record Mid (t : TaskRun) : Type 0 where
  pub resolved_exception : is_resolved t.stage ≡ t.exception
  pub exception_reason : has_reason t.reason ≡ t.exception
  pub no_fatal : t.exception ≡ false → t.fatal_err ≡ false
  pub no_non_fatal : t.exception ≡ false → t.non_fatal_err ≡ false

-- What no stage writes.
pub record Kept (t u : TaskRun) : Type 0 where
  pub stage : u.stage ≡ t.stage
  pub exception : u.exception ≡ t.exception
  pub reason : u.reason ≡ t.reason
  pub fatal_err : u.fatal_err ≡ t.fatal_err
  pub non_fatal_err : u.non_fatal_err ≡ t.non_fatal_err
  pub running : u.running ≡ t.running
  pub controller : is_some u.controller ≡ is_some t.controller

pub run_stage-Kept : (w : World) (s : Stage) (t : TaskRun) → Kept t (run_stage w s t).0
unfolding run_stage
run_stage-Kept w prepare t = ground arith
run_stage-Kept w build t = ground arith
run_stage-Kept w start t = ground arith
run_stage-Kept w started t = ground arith
run_stage-Kept w waiting t = ground arith
run_stage-Kept w stopped t = ground arith
run_stage-Kept w finished t = ground arith
run_stage-Kept w resolved t = ground arith

pub Kept-Mid : (t u : TaskRun) → Kept t u → Mid t → Mid u
Kept-Mid t u k m = ground arith

-- An abort does nothing to a resolved task, and resolves any other with its reason.
pub data Aborted (r : AbortReason) (t u : TaskRun) : Type 0 where
  too_late : t.stage ≡ resolved → u ≡ t → Aborted r t u
  in_time :
      t.stage ≢ resolved
      → u.stage ≡ resolved
      → u.exception ≡ true
      → u.success ≡ false
      → u.reason ≡ abort_reason r
      → Aborted r t u

pub abort-Aborted : (r : AbortReason) (t u : TaskRun) → abort r t ≡ some u → Aborted r t u
unfolding abort
abort-Aborted r t u e = elim (stage_cases t.stage) [
  | inl h ↦ too_late h (ground arith)
  | inr h ↦ in_time h (ground arith) (ground arith) (ground arith) (ground arith)
]
  where
    stage_cases : (s : Stage) → (s ≡ resolved) ⊎ (s ≢ resolved)
    stage_cases resolved = inl refl
    stage_cases prepare = inr (λ h. cc)
    stage_cases build = inr (λ h. cc)
    stage_cases start = inr (λ h. cc)
    stage_cases started = inr (λ h. cc)
    stage_cases waiting = inr (λ h. cc)
    stage_cases stopped = inr (λ h. cc)
    stage_cases finished = inr (λ h. cc)

pub abort-Mid : (r : AbortReason) (t u : TaskRun) → abort r t ≡ some u → Mid t → Mid u
unfolding abort
abort-Mid r t u e m = ground arith

-- The stage is the same, or the task is resolved; the controller stays.
pub record Moved (t u : TaskRun) : Type 0 where
  pub stage : (u.stage ≡ t.stage) ⊎ (u.stage ≡ resolved)
  pub controller : is_some u.controller ≡ is_some t.controller
  pub running : u.running ≡ t.running
  pub exception : t.exception ≡ true → u.exception ≡ true

pub Moved-trans : (t u v : TaskRun) → Moved t u → Moved u v → Moved t v
Moved-trans t u v a b = ground arith

pub abort-Moved : (r : AbortReason) (t u : TaskRun) → abort r t ≡ some u → Moved t u
unfolding abort
abort-Moved r t u e = ground arith

pub Kept-Moved : (t u : TaskRun) → Kept t u → Moved t u
Kept-Moved t u k = ground arith

pub abort_all-Moved : (rs : List AbortReason) (t u : TaskRun) → abort_all rs t ≡ some u → Moved t u
unfolding abort_all
abort_all-Moved [] t u e = ground arith
abort_all-Moved (r ∷ rs) t u e =
    let (v, e1, e2) = >>=-eq-some (abort r t) (abort_all rs) e in
    Moved-trans t v u (abort-Moved r t v e1) (abort_all-Moved rs v u e2)

pub abort_all-Mid :
    (rs : List AbortReason) (t u : TaskRun) → abort_all rs t ≡ some u → Mid t → Mid u
unfolding abort_all
abort_all-Mid [] t u e m = ground arith
abort_all-Mid (r ∷ rs) t u e m =
    let (v, e1, e2) = >>=-eq-some (abort r t) (abort_all rs) e in
    abort_all-Mid rs v u e2 (abort-Mid r t v e1 m)

pub handle-Moved : (e : Ending) (t u : TaskRun) → handle e t ≡ some u → Moved t u
unfolding handle
handle-Moved e t u h = ground arith

pub handle-Mid : (e : Ending) (t u : TaskRun) → handle e t ≡ some u → Mid t → Mid u
unfolding handle
handle-Mid (returned none) t u h m = ground arith
handle-Mid (returned (some (malformed_payload ms))) t u h m = ground arith
handle-Mid (returned (some non_fatal_internal)) t u h m = ground arith
handle-Mid (returned (some fatal_internal)) t u h m = ground arith
handle-Mid (returned (some disposable_in_use)) t u h m = ground arith
handle-Mid (returned (some size_not_supported)) t u h m = ground arith
handle-Mid (returned (some sandbox_terminated)) t u h m = ground arith
handle-Mid (returned (some sandbox_aborted)) t u h m = ground arith
handle-Mid (returned (some wait_group_draining)) t u h m = ground arith
handle-Mid (returned (some shell_terminated)) t u h m = ground arith
handle-Mid (returned (some shell_aborted)) t u h m = ground arith
handle-Mid (returned (some resource_not_found)) t u h m = ground arith
handle-Mid (returned (some (other n))) t u h m = ground arith
handle-Mid captured t u h m = ground arith
handle-Mid died t u h m = ground arith

-- The four steps of a round that ends.
pub record Round (w : World) (a : Aborts) (t u : TaskRun) : Type 0 where
  pub begun : TaskRun
  pub aborted_before : abort_all a.before t ≡ some begun
  pub stopped_after : TaskRun
  pub aborted_after : abort_all a.after (run_stage w t.stage begun).0 ≡ some stopped_after
  pub handled : TaskRun
  pub handles : handle (run_stage w t.stage begun).1 stopped_after ≡ some handled
  pub advances : u ≡ advance handled

pub round-Round : (w : World) (a : Aborts) (t u : TaskRun) → round w a t ≡ some u → Round w a t u
unfolding round
round-Round w a t u e =
    let (b, e1, f1) = >>=-eq-some (abort_all a.before t) _ e in
    let (s, e2, f2) = >>=-eq-some (abort_all a.after (run_stage w t.stage b).0) _ f1 in
    let (h, e3, f3) = >>=-eq-some (handle (run_stage w t.stage b).1 s) _ f2 in
    record {
      begun = b;
      aborted_before = e1;
      stopped_after = s;
      aborted_after = e2;
      handled = h;
      handles = e3;
      advances = ground arith;
    }

-- What a round keeps, up to the last step of it.
pub Round-Moved : (w : World) (a : Aborts) (t u : TaskRun) (r : Round w a t u) → Moved t r.handled
Round-Moved w a t u r =
    Moved-trans t r.begun r.handled (abort_all-Moved a.before t r.begun r.aborted_before) (
      Moved-trans r.begun ran r.handled (Kept-Moved r.begun ran (run_stage-Kept w t.stage r.begun))
        (Moved-trans ran r.stopped_after r.handled
          (abort_all-Moved a.after ran r.stopped_after r.aborted_after)
          (handle-Moved (run_stage w t.stage r.begun).1 r.stopped_after r.handled r.handles)))
  where
    ran : TaskRun
    ran = (run_stage w t.stage r.begun).0

pub Round-Mid : (w : World) (a : Aborts) (t u : TaskRun) (r : Round w a t u) → Mid t → Mid r.handled
Round-Mid w a t u r m =
    handle-Mid (run_stage w t.stage r.begun).1 r.stopped_after r.handled r.handles (
      abort_all-Mid a.after ran r.stopped_after r.aborted_after (
        Kept-Mid r.begun ran (run_stage-Kept w t.stage r.begun)
          (abort_all-Mid a.before t r.begun r.aborted_before m)))
  where
    ran : TaskRun
    ran = (run_stage w t.stage r.begun).0
