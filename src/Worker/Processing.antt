-- ===== src/Worker/Processing.antt =====
-- worker.go: processClaim, from the claim to the report of its resolution and the disposal of its
-- run. What the stages, the teardown and the queue answer are arguments. The waits for the goroutine
-- that reclaims and for those that resolve superseded claims are left out.
use taskcluster_worker.Prelude.{
  ℕ, ◌+◌, ◌≡◌, ◌↔◌, refl, ap, sym, ◌∙◌, Bool, true, false, List, [], ◌∷◌, inl, inr, Option-cases,
  Option, none, some, arith, if◌then◌else◌, ◌||◌, any,
}
use taskcluster_worker.Errors.{fatal_internal, non_fatal_internal, ExceptionReason, canceled}
use taskcluster_worker.TaskRun.State.{TaskRun, new, AbortReason, abort, resolved}
use taskcluster_worker.TaskRun.Stages.{returns, valid, World}
use taskcluster_worker.TaskRun.Advance.{
  Schedule, Outcome, completes, blocks, dies, out_of_fuel, abort_all, rounds, run_to_stage,
  wait_for_result,
}
use taskcluster_worker.TaskRun.Resolution.{no_exception_passed}
use taskcluster_worker.TaskRun.Passing.{no_error}
use taskcluster_worker.TaskRun.Dispose.{Teardown, dispose}
use taskcluster_worker.TaskRun.Verdict.{dispose_verdict, is_fatal_outcome}

-- What the queue is told.
pub data Report : Type 0 where
  nothing completed failed : Report
  exception : ExceptionReason → Report

-- A task that was canceled is not reported, for the queue knows.
unfoldable pub resolution : Bool → Bool → ExceptionReason → Report
resolution success true canceled = nothing
resolution success true reason = exception reason
resolution true false reason = completed
resolution false false reason = failed

-- The answer to the report. A conflict (409) is ignored.
pub data Reply : Type 0 where
  accepted conflict refused : Reply

abbrev pub is_refused : Reply → Bool
is_refused refused = true
is_refused _ = false

-- Where there is nothing to report there is no answer.
abbrev pub reply_error : Report → Reply → Bool
reply_error nothing reply = false
reply_error _ reply = is_refused reply

pub record Processed : Type 0 where
  pub report : Report
  pub non_fatal_errors : ℕ
  pub stops_worker : Bool
  pub run : TaskRun

-- `run.Dispose()` and what its error leads to.
unfoldable pub settle : Teardown → Report → Bool → TaskRun → Processed
settle d report failed_report v =
    let reported = (if failed_report then 1 else 0) in
    elim (dispose d v).2 [
      | none ↦ record {
        report = report;
        non_fatal_errors = reported;
        stops_worker = false;
        run = (dispose d v).0;
      }
      | some non_fatal_internal ↦ record {
        report = report;
        non_fatal_errors = reported + 1;
        stops_worker = false;
        run = (dispose d v).0;
      }
      | some e ↦ record {
        report = report;
        non_fatal_errors = reported;
        stops_worker = true;
        run = (dispose d v).0;
      }
    ]

-- From the return of `WaitForResult` on; `none` is the death of the process.
unfoldable pub report_and_settle : Teardown → Reply → Outcome → Option Processed
unfolding resolution settle
report_and_settle d reply (completes v) =
    let report = resolution v.success v.exception v.reason in
    some (settle d report (reply_error report reply) v)
report_and_settle d reply _ = none

-- `processClaim` of a claim without superseding. The goroutine that reclaims may abort the run before
-- WaitForResult takes its lock, with the reasons `early`; the schedule has the aborts after that.
unfoldable pub process_claim :
    World → Schedule → List AbortReason → Teardown → Reply → Bool → ℕ → Option Processed
unfolding report_and_settle abort_all
process_claim w sched early d reply has_context queue =
    elim (abort_all early (new has_context queue)) [
      | none ↦ none
      | some t ↦ report_and_settle d reply (wait_for_result w sched t)
    ]

abbrev Reported : World → Schedule → List AbortReason → Teardown → Reply → ℕ → Processed → Type 0
Reported w sched early d reply q p =
    (u v : TaskRun) × (abort_all early (new true q) ≡ some u)
    × (wait_for_result w sched u ≡ completes v)
    × (p
        ≡ settle d (resolution v.success v.exception v.reason)
            (reply_error (resolution v.success v.exception v.reason) reply) v)

-- The run before WaitForResult, and at the time of the report.
process-completes :
    (w : World) (sched : Schedule) (early : List AbortReason) (d : Teardown) (reply : Reply) (q : ℕ)
    (p : Processed)
    → process_claim w sched early d reply true q ≡ some p
    → Reported w sched early d reply q p
unfolding process_claim
process-completes w sched early d reply q p e = elim (Option-cases (abort_all early (new true q))) [
  | inl dead ↦ absurd (ground arith)
  | inr (u, f) ↦ waited u f (wait_for_result w sched u) refl
]
  where
    waited :
        (u : TaskRun)
        → abort_all early (new true q) ≡ some u
        → (o : Outcome) → wait_for_result w sched u ≡ o
        → Reported w sched early d reply q p
    waited u f (completes v) g = (u, v, f, g, ground arith)
    waited u f blocks g = absurd (ground arith)
    waited u f dies g = absurd (ground arith)
    waited u f out_of_fuel g = absurd (ground arith)

resolved_stays :
    (rs : List AbortReason) (t : TaskRun) → t.stage ≡ resolved → abort_all rs t ≡ some t
unfolding abort_all abort
resolved_stays [] t e = refl
resolved_stays (r ∷ rs) t e = ground (arith, resolved_stays rs t e)

resolved_ends :
    (w : World) (sched : Schedule) (t v : TaskRun)
    → t.stage ≡ resolved
    → t.running ≡ false
    → wait_for_result w sched t ≡ completes v
    → v.exception ≡ t.exception
unfolding wait_for_result run_to_stage rounds
resolved_ends w sched t v e r f = ground arith

abort-new :
    (r : AbortReason) (q : ℕ) (t : TaskRun)
    → abort r (new true q) ≡ some t
    → (t.stage ≡ resolved) × (t.running ≡ false) × (t.exception ≡ true)
unfolding abort new
abort-new r q t e = ground arith

-- A run that was aborted early is resolved with an exception.
aborted_early :
    (w : World) (sched : Schedule) (r : AbortReason) (rs : List AbortReason) (q : ℕ) (u v : TaskRun)
    → abort_all (r ∷ rs) (new true q) ≡ some u
    → wait_for_result w sched u ≡ completes v
    → v.exception ≡ true
unfolding abort_all
aborted_early w sched r rs q u v f g = elim (Option-cases (abort r (new true q))) [
  | inl dead ↦ absurd (ground (arith, dead, f))
  | inr (t, e) ↦
      let (stage, running, excepted) = abort-new r q t e in
      let same : t ≡ u = ground (arith, e, f, resolved_stays rs t stage) in
      resolved_ends w sched t v stage running (ap (wait_for_result w sched) same ∙ g) ∙ excepted
]

settle-report : (d : Teardown) (r : Report) (b : Bool) (v : TaskRun) → (settle d r b v).report ≡ r
unfolding settle
settle-report d r b v = ground arith

completed_means :
    (s x : Bool) (r : ExceptionReason) → resolution s x r ≡ completed → (x ≡ false) × (s ≡ true)
unfolding resolution
completed_means s x r e = ground arith

nothing_means :
    (s x : Bool) (r : ExceptionReason)
    → (resolution s x r ≡ nothing) ↔ ((x ≡ true) × (r ≡ canceled))
unfolding resolution
nothing_means s x r = (λ e. ground arith, λ h. ground arith)

not_early :
    (w : World) (sched : Schedule) (early : List AbortReason) (q : ℕ) (u v : TaskRun)
    → abort_all early (new true q) ≡ some u
    → wait_for_result w sched u ≡ completes v
    → v.exception ≡ false
    → wait_for_result w sched (new true q) ≡ completes v
unfolding abort_all
not_early w sched [] q u v b f x = ground arith
not_early w sched (r ∷ rs) q u v b f x =
    absurd (ground (arith, aborted_early w sched r rs q u v b f))

-- The worker reports a task as completed only if its payload fits the schema, every call of the
-- engine and every plugin hook, from the creation of the sandbox to Finished, returned no error, and
-- Stopped answered that the task succeeded.
pub completed_only_if_passed :
    (w : World) (sched : Schedule) (early : List AbortReason) (d : Teardown) (reply : Reply) (q : ℕ)
    (p : Processed)
    → process_claim w sched early d reply true q ≡ some p
    → p.report ≡ completed
    → (w.validation ≡ valid)
      × (no_error w.new_sandbox_builder ≡ true)
      × (no_error w.new_task_plugin ≡ true)
      × (w.build_sandbox ≡ returns none)
      × (no_error w.start_sandbox ≡ true)
      × (w.plugin_started ≡ returns none)
      × (no_error w.wait_for_result ≡ true)
      × (w.plugin_stopped ≡ returns (true, none))
      × (w.plugin_finished ≡ returns none)
completed_only_if_passed w sched early d reply q p e h =
    let (u, v, b, f, g) = process-completes w sched early d reply q p e in
    let (x, s) =
      completed_means v.success v.exception v.reason
        (sym (settle-report d _ _ v) ∙ ap (λ b. b.report) (sym g) ∙ h) in
    let passed = no_exception_passed w sched q v (not_early w sched early q u v b f x) x in
    (
      passed.0,
      passed.1,
      passed.2,
      passed.3,
      passed.4,
      passed.5,
      passed.6,
      passed.7 ∙ ap (λ b. returns (b, none)) s,
      passed.8,
    )

stops_if_fatal :
    (d : Teardown) (r : Report) (b : Bool) (v : TaskRun) (fatal non_fatal : Bool)
    → (dispose d v).2
      ≡ (if fatal then some fatal_internal else if non_fatal then some non_fatal_internal else none)
    → (settle d r b v).stops_worker ≡ fatal
unfolding settle
stops_if_fatal d r b v fatal non_fatal e = ground arith

-- The worker is stopped exactly when the run has seen a fatal error, or when a call of its disposal
-- panics or fails with an error other than the non-fatal one.
pub stops_when_fatal :
    (w : World) (sched : Schedule) (early : List AbortReason) (d : Teardown) (reply : Reply) (q : ℕ)
    (p : Processed)
    → process_claim w sched early d reply true q ≡ some p
    → (u v : TaskRun) × (abort_all early (new true q) ≡ some u)
      × (wait_for_result w sched u ≡ completes v)
      × (p.stops_worker ≡ (v.fatal_err || any (λ e. is_fatal_outcome e.outcome) (dispose d v).1))
stops_when_fatal w sched early d reply q p e =
    let (u, v, b, f, g) = process-completes w sched early d reply q p e in
    (
      u,
      v,
      b,
      f,
      ap (λ (r : Processed). r.stops_worker) g ∙ stops_if_fatal d _ _ v _ _ (dispose_verdict d v),
    )
