-- ===== src/TaskRun/Abortion.antt =====
-- TaskRun.Abort against a stage that runs meanwhile, and the resolution that an error leads to.
use taskcluster_worker.Prelude.{
  ◌≡◌, ◌≤◌, subst, sym, ap, ◌∙◌, Bool, true, false, List, [], ◌∷◌, ◌++◌, none, some, arith, ◌||◌,
}
use taskcluster_worker.Prelude.OptionMonad.{>>=-eq-some}
use taskcluster_worker.Errors.{
  Err, non_fatal_internal, malformed_payload, ExceptionReason, malformed, internal_error,
}
use taskcluster_worker.TaskRun.State.{
  Stage, stopped, resolved, index, next_stage, TaskRun, AbortReason, abort, abort_reason,
}
use taskcluster_worker.TaskRun.Stages.{returns, World, Ending, returned, captured, died, run_stage}
use taskcluster_worker.TaskRun.Advance.{abort_all, handle, advance, round, Aborts}
use taskcluster_worker.TaskRun.Frame.{
  Kept, round-Round, run_stage-Kept, is_some, Aborted, too_late, in_time, abort-Aborted,
}

-- A resolved task keeps its resolution.
record SameResolution (t u : TaskRun) : Type 0 where
  stage : u.stage ≡ t.stage
  exception : u.exception ≡ t.exception
  reason : u.reason ≡ t.reason

abort_resolved : (r : AbortReason) (t u : TaskRun) → t.stage ≡ resolved → abort r t ≡ some u → u ≡ t
abort_resolved r t u h e = aborted_late (abort-Aborted r t u e)
  where
    aborted_late : Aborted r t u → u ≡ t
    aborted_late (too_late h q) = q
    aborted_late (in_time n q f g k) = absurd (n h)

abort_all_resolved :
    (rs : List AbortReason) (t u : TaskRun) → t.stage ≡ resolved → abort_all rs t ≡ some u → u ≡ t
unfolding abort_all
abort_all_resolved [] t u h e = ground arith
abort_all_resolved (r ∷ rs) t u h e =
    let (v, e1, e2) = >>=-eq-some (abort r t) (abort_all rs) e in
    let q = abort_resolved r t v h e1 in abort_all_resolved rs v u (ap (λ x. x.stage) q ∙ h) e2 ∙ q

handle_resolved :
    (e : Ending) (t u : TaskRun) → t.stage ≡ resolved → handle e t ≡ some u → SameResolution t u
unfolding handle
handle_resolved (returned none) t u h q = ground arith
handle_resolved (returned (some e)) t u h q = ground arith
handle_resolved captured t u h q = ground arith
handle_resolved died t u h q = cc

-- The first of some aborts of a task that is not resolved decides.
abort_all_first :
    (r : AbortReason) (rs : List AbortReason) (t u : TaskRun)
    → index t.stage ≤ 6
    → abort_all (r ∷ rs) t ≡ some u
    → (u.stage ≡ resolved)
      × (u.exception ≡ true)
      × (u.reason ≡ abort_reason r)
      × (u.success ≡ false)
unfolding abort_all
abort_all_first r rs t u l e =
    let (v, e1, e2) = >>=-eq-some (abort r t) (abort_all rs) e in
    first_decides v (abort-Aborted r t v e1) e2
  where
    first_decides :
        (v : TaskRun)
        → Aborted r t v
        → abort_all rs v ≡ some u
        → (u.stage ≡ resolved)
          × (u.exception ≡ true)
          × (u.reason ≡ abort_reason r)
          × (u.success ≡ false)
    first_decides v (too_late h q) f = absurd (ground arith)
    first_decides v (in_time n q x y z) f =
        let same = abort_all_resolved rs v u q f in
        (
          ap (λ b. b.stage) same ∙ q,
          ap (λ b. b.exception) same ∙ x,
          ap (λ b. b.reason) same ∙ z,
          ap (λ b. b.success) same ∙ y,
        )

abbrev Decided : ExceptionReason → TaskRun → Type 0
Decided q t = (t.stage ≡ resolved) × (t.exception ≡ true) × (t.reason ≡ q)

Kept-Decided : (q : ExceptionReason) (t u : TaskRun) → Kept t u → Decided q t → Decided q u
Kept-Decided q t u k (s, x, z) = (k.stage ∙ s, k.exception ∙ x, k.reason ∙ z)

SameResolution-Decided :
    (q : ExceptionReason) (t u : TaskRun) → SameResolution t u → Decided q t → Decided q u
SameResolution-Decided q t u k (s, x, z) = (k.stage ∙ s, k.exception ∙ x, k.reason ∙ z)

aborts_decide :
    (w : World) (bs cs : List AbortReason) (s : Stage) (t b u : TaskRun) (r : AbortReason)
    (rs : List AbortReason)
    → index t.stage ≤ 6
    → abort_all bs t ≡ some b
    → abort_all cs (run_stage w s b).0 ≡ some u
    → bs ++ cs ≡ r ∷ rs
    → Decided (abort_reason r) u
unfolding abort_all
aborts_decide w [] cs s t b u r rs l e f h =
    let k = run_stage-Kept w s b in
    let l' : index (run_stage w s b).0.stage ≤ 6 = ground arith in
    let (d, x, z, y) =
      abort_all_first r rs (run_stage w s b).0 u l'
        (ap (λ xs. abort_all xs (run_stage w s b).0) (sym h) ∙ f) in
    (d, x, z)
aborts_decide w (b' ∷ bs) cs s t b u r rs l e f h =
    let (d, x, z, y) = abort_all_first b' bs t b l e in
    let k = Kept-Decided (abort_reason b') b (run_stage w s b).0 (run_stage-Kept w s b) (d, x, z) in
    let same = abort_all_resolved cs (run_stage w s b).0 u k.0 f in
    let q : b' ≡ r = cc in
    (
      ap (λ v. v.stage) same ∙ k.0,
      ap (λ v. v.exception) same ∙ k.1,
      ap (λ v. v.reason) same ∙ k.2 ∙ ap abort_reason q,
    )

advance-Decided : (q : ExceptionReason) (t : TaskRun) → Decided q t → Decided q (advance t)
unfolding advance
advance-Decided q t d = ground arith

-- `Abort` while a stage runs, before or after what the stage writes, decides the resolution of the
-- task: it is the exception of the first abort's reason, whatever the stage returns.
pub abort_decides :
    (w : World) (a : Aborts) (t u : TaskRun) (r : AbortReason) (rs : List AbortReason)
    → index t.stage ≤ 6
    → a.before ++ a.after ≡ r ∷ rs
    → round w a t ≡ some u
    → (u.stage ≡ resolved) × (u.exception ≡ true) × (u.reason ≡ abort_reason r)
abort_decides w a t u r rs l h e =
    let n = round-Round w a t u e in
    let d =
      aborts_decide w a.before a.after t.stage t n.begun n.stopped_after r rs l n.aborted_before
        n.aborted_after h in
    let m =
      SameResolution-Decided (abort_reason r) n.stopped_after n.handled
        (handle_resolved (run_stage w t.stage n.begun).1 n.stopped_after n.handled d.0 n.handles)
        d in
    rw n.advances (advance-Decided (abort_reason r) n.handled m)

-- What an error that a stage returns does to the task.
abbrev pub error_reason : Err → ExceptionReason
error_reason (malformed_payload ms) = malformed
error_reason _ = internal_error

abbrev pub is_fatal_error : Err → Bool
is_fatal_error (malformed_payload ms) = false
is_fatal_error non_fatal_internal = false
is_fatal_error _ = true

abbrev pub is_non_fatal_error : Err → Bool
is_non_fatal_error non_fatal_internal = true
is_non_fatal_error _ = false

handle_error :
    (e : Err) (t u : TaskRun)
    → index t.stage ≤ 6
    → handle (returned (some e)) t ≡ some u
    → (u.stage ≡ resolved)
      × (u.exception ≡ true)
      × (u.success ≡ false)
      × (u.reason ≡ error_reason e)
      × (u.fatal_err ≡ (t.fatal_err || is_fatal_error e))
      × (u.non_fatal_err ≡ (t.non_fatal_err || is_non_fatal_error e))
unfolding handle
handle_error e t u l h = ground arith

-- A stage that returns an error, with no abort meanwhile, resolves the task exception and not
-- successful: malformed-payload if the payload is to blame, and else internal-error. The error is
-- counted as fatal or as non-fatal; one that is neither of the two internal errors is fatal.
pub stage_error_resolves :
    (w : World) (a : Aborts) (t u : TaskRun) (e : Err)
    → index t.stage ≤ 6
    → a ≡ record { before = []; after = [] }
    → (run_stage w t.stage t).1 ≡ returned (some e)
    → round w a t ≡ some u
    → (u.stage ≡ resolved)
      × (u.exception ≡ true)
      × (u.success ≡ false)
      × (u.reason ≡ error_reason e)
      × (u.fatal_err ≡ (t.fatal_err || is_fatal_error e))
      × (u.non_fatal_err ≡ (t.non_fatal_err || is_non_fatal_error e))
unfolding round abort_all advance
stage_error_resolves w a t u e l q h r =
    let k = run_stage-Kept w t.stage t in
    let (v, e1, e2) =
      >>=-eq-some (handle (run_stage w t.stage t).1 (run_stage w t.stage t).0)
        (λ v. some (advance v)) (subst (λ b. round w b t ≡ some u) q r) in
    let (s, x, y, z, f, n) =
      handle_error e (run_stage w t.stage t).0 v (rw k.stage l)
        (ap (λ o. handle o (run_stage w t.stage t).0) (sym h) ∙ e1) in
    let done : advance v ≡ u = cc in
    rw (← done) (
      ap next_stage s,
      x,
      y,
      z,
      f ∙ ap (λ b. b || is_fatal_error e) k.fatal_err,
      n ∙ ap (λ b. b || is_non_fatal_error e) k.non_fatal_err,
    )

-- What WaitForResult may answer: `Abort` while the plugins decide on the success of a task leaves it
-- resolved with an exception and, as the stage then writes its verdict, successful too.
abort_while_stopping :
    (w : World) (a : Aborts) (t u : TaskRun) (r : AbortReason)
    → t.stage ≡ stopped
    → a ≡ record { before = r ∷ []; after = [] }
    → is_some t.task_plugin ≡ true
    → w.plugin_stopped ≡ returns (true, none)
    → round w a t ≡ some u
    → (u.exception ≡ true) × (u.success ≡ true)
unfolding round abort_all abort run_stage handle advance
abort_while_stopping w a t u r s q h p e = ground arith
