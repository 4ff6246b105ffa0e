-- ===== src/TaskRun/Loop.antt =====
-- The loop of RunToStage: it ends within the fuel, it ends at all where nothing kills the process,
-- and what every round keeps holds at its end.
use taskcluster_worker.Prelude.{
  ℕ, zero, suc, ◌+◌, ◌≡◌, ◌≢◌, ◌≤◌, ◌<◌, ◌⊎◌, inl, inr, refl, true, false, List, [], ◌∷◌, Option,
  none, some, arith, leb, Bool-cases, Option-cases,
}
use taskcluster_worker.TaskRun.State.{
  Stage, prepare, build, start, started, waiting, stopped, finished, resolved, index, next_stage,
  TaskRun, AbortReason, abort, new,
}
use taskcluster_worker.TaskRun.Stages.{panics, World, Ending, died, run_stage}
use taskcluster_worker.TaskRun.Advance.{
  abort_all, handle, advance, round, Aborts, Schedule, Outcome, completes, blocks, dies,
  out_of_fuel, rounds, enough, run_to_stage, wait_for_result,
}
use taskcluster_worker.TaskRun.Frame.{
  is_some, round-Round, Round-Moved, abort_all-Moved, run_stage-Kept, handle-Moved, abort-Moved,
}

index-le : (s : Stage) → index s ≤ 7
index-le s = ground arith

index-advance :
    (s h : Stage) → index s ≤ 6 → (h ≡ s) ⊎ (h ≡ resolved) → index s < index (next_stage h)
index-advance s h l c = ground arith

pub round_progress :
    (w : World) (a : Aborts) (t u : TaskRun)
    → index t.stage ≤ 6
    → round w a t ≡ some u
    → index t.stage < index u.stage
unfolding advance
round_progress w a t u l e =
    let r = round-Round w a t u e in
    ground
      (arith, index-advance t.stage r.handled.stage l (Round-Moved w a t u r).stage, r.advances)

-- What is read of a run at the end of the loop.
pub record Final (t v : TaskRun) : Type 0 where
  pub stage : v.stage ≡ t.stage
  pub success : v.success ≡ t.success
  pub exception : v.exception ≡ t.exception
  pub reason : v.reason ≡ t.reason
  pub fatal_err : v.fatal_err ≡ t.fatal_err
  pub non_fatal_err : v.non_fatal_err ≡ t.non_fatal_err
  pub stopped_running : v.running ≡ false

rounds_over :
    (w : World) (sched : Schedule) (target : Stage) (fuel : ℕ) (t v : TaskRun)
    → leb (index t.stage) (index target) ≡ false
    → rounds (suc fuel) w sched target t ≡ completes v
    → Final t v
unfolding rounds
rounds_over w sched target fuel t v over e = record {
  stage = ground arith;
  success = ground arith;
  exception = ground arith;
  reason = ground arith;
  fatal_err = ground arith;
  non_fatal_err = ground arith;
  stopped_running = ground arith;
}

not-leb_lt : (a b : ℕ) → leb a b ≡ false → b < a
not-leb_lt a b h = ground arith

-- A property that each round keeps holds of the state in which the loop ends.
pub rounds_inv :
    (P : TaskRun → Type 0) (w : World) (sched : Schedule) (target : Stage)
    → index target ≤ 6
    → ((t u : TaskRun) → index t.stage ≤ 6 → P t → round w (sched t.stage) t ≡ some u → P u)
    → (fuel : ℕ) (t v : TaskRun) → P t
    → rounds fuel w sched target t ≡ completes v
    → (last : TaskRun) × P last × (index target < index last.stage) × Final last v
unfolding rounds
rounds_inv P w sched target l keep zero t v p e = cc
rounds_inv P w sched target l keep (suc fuel) t v p e =
    elim (Bool-cases (leb (index t.stage) (index target))) [
      | inl more ↦ elim (Option-cases (round w (sched t.stage) t)) [
        | inl dead ↦ ground arith
        | inr (u, q) ↦
            let step : P u = keep t u (ground arith) p q in
            rounds_inv P w sched target l keep fuel u v step (ground arith)
      ]
      | inr over ↦ (
        t,
        p,
        not-leb_lt (index t.stage) (index target) over,
        rounds_over w sched target fuel t v over e,
      )
    ]

rounds_total :
    (w : World) (sched : Schedule) (target : Stage)
    → index target ≤ 6
    → (fuel : ℕ) (t : TaskRun) → 8 ≤ fuel + index t.stage
    → rounds fuel w sched target t ≡ out_of_fuel
    → ⊥
unfolding rounds
rounds_total w sched target l zero t m e = absurd (omega (arith, index-le t.stage))
rounds_total w sched target l (suc fuel) t m e =
    elim (Bool-cases (leb (index t.stage) (index target))) [
      | inl more ↦ elim (Option-cases (round w (sched t.stage) t)) [
        | inl dead ↦ ground arith
        | inr (u, q) ↦
            let up = round_progress w (sched t.stage) t u (ground arith) q in
            rounds_total w sched target l fuel u (omega arith) (ground arith)
      ]
      | inr over ↦ ground arith
    ]

run_stage-lives :
    (w : World) (s : Stage) (t : TaskRun)
    → w.new_sandbox_builder ≢ panics
    → w.new_task_plugin ≢ panics
    → (run_stage w s t).1 ≢ died
unfolding run_stage
run_stage-lives w prepare t b p = ground arith
run_stage-lives w build t b p = ground arith
run_stage-lives w start t b p = ground arith
run_stage-lives w started t b p = ground arith
run_stage-lives w waiting t b p = ground arith
run_stage-lives w stopped t b p = ground arith
run_stage-lives w finished t b p = ground arith
run_stage-lives w resolved t b p = ground arith

abort_total :
    (r : AbortReason) (t : TaskRun)
    → is_some t.controller ≡ true
    → (u : TaskRun) × (abort r t ≡ some u)
unfolding abort
abort_total r t c = abort_found (abort r t) refl
  where
    abort_found : (o : Option TaskRun) → abort r t ≡ o → (u : TaskRun) × (abort r t ≡ some u)
    abort_found (some u) e = (u, e)
    abort_found none e = absurd (ground arith)

abort_all_total :
    (rs : List AbortReason) (t : TaskRun)
    → is_some t.controller ≡ true
    → (u : TaskRun) × (abort_all rs t ≡ some u)
unfolding abort_all
abort_all_total [] t c = (t, refl)
abort_all_total (r ∷ rs) t c =
    let (v, e) = abort_total r t c in
    let (u, f) = abort_all_total rs v (ground (arith, abort-Moved r t v e)) in (u, ground arith)

handle_total :
    (e : Ending) (t : TaskRun)
    → e ≢ died
    → is_some t.controller ≡ true
    → (u : TaskRun) × (handle e t ≡ some u)
unfolding handle
handle_total e t d c = handle_found (handle e t) refl
  where
    handle_found : (o : Option TaskRun) → handle e t ≡ o → (u : TaskRun) × (handle e t ≡ some u)
    handle_found (some u) q = (u, q)
    handle_found none q = absurd (ground arith)

module _ (w : World) (b : w.new_sandbox_builder ≢ panics) (p : w.new_task_plugin ≢ panics) where
  round_total :
      (a : Aborts) (t : TaskRun)
      → is_some t.controller ≡ true
      → (u : TaskRun) × (round w a t ≡ some u) × (is_some u.controller ≡ true)
  unfolding round advance
  round_total a t c =
      let (t1, e1) = abort_all_total a.before t c in
      let m1 = abort_all-Moved a.before t t1 e1 in
      let k = run_stage-Kept w t.stage t1 in
      let ran = run_stage w t.stage t1 in
      let c2 : is_some ran.0.controller ≡ true = ground arith in
      let (t2, e2) = abort_all_total a.after ran.0 c2 in
      let m2 = abort_all-Moved a.after ran.0 t2 e2 in
      let c3 : is_some t2.controller ≡ true = ground arith in
      let (t3, e3) = handle_total ran.1 t2 (run_stage-lives w t.stage t1 b p) c3 in
      let m3 = handle-Moved ran.1 t2 t3 e3 in (advance t3, ground arith, ground arith)

  rounds_complete :
      (sched : Schedule) (target : Stage)
      → index target ≤ 6
      → (fuel : ℕ) (t : TaskRun) → 8 ≤ fuel + index t.stage
      → is_some t.controller ≡ true
      → (v : TaskRun) × (rounds fuel w sched target t ≡ completes v)
  unfolding rounds
  rounds_complete sched target l zero t m c = absurd (omega (arith, index-le t.stage))
  rounds_complete sched target l (suc fuel) t m c =
      elim (Bool-cases (leb (index t.stage) (index target))) [
        | inl more ↦
            let (u, q, c') = round_total (sched t.stage) t c in
            let up = round_progress w (sched t.stage) t u (ground arith) q in
            let (v, e) = rounds_complete sched target l fuel u (omega arith) c' in (v, ground arith)
        | inr over ↦ end_found (rounds (suc fuel) w sched target t) refl over c
      ]
    where
      end_found :
          (o : Outcome)
          → rounds (suc fuel) w sched target t ≡ o
          → leb (index t.stage) (index target) ≡ false
          → is_some t.controller ≡ true
          → (v : TaskRun) × (rounds (suc fuel) w sched target t ≡ completes v)
      end_found (completes v) e o c = (v, e)
      end_found blocks e o c = absurd (ground arith)
      end_found dies e o c = absurd (ground arith)
      end_found out_of_fuel e o c = absurd (ground arith)

-- WaitForResult returns, whatever the stages answer and whenever the task is aborted, if the task's
-- context could be created and neither the engine's NewSandboxBuilder nor the plugin manager's
-- NewTaskPlugin panics.
pub wait_for_result_returns :
    (w : World) (sched : Schedule) (queue : ℕ)
    → w.new_sandbox_builder ≢ panics
    → w.new_task_plugin ≢ panics
    → (v : TaskRun) × (wait_for_result w sched (new true queue) ≡ completes v)
unfolding wait_for_result run_to_stage new
wait_for_result_returns w sched queue b p =
    rounds_complete w b p sched finished (omega arith) enough
      (record (new true queue) { running = true }) (omega arith) refl
