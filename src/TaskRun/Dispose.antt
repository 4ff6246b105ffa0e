-- ===== src/TaskRun/Dispose.antt =====
-- TaskRun.Dispose. Each call that it makes is recorded with its outcome. A call that panics, or that
-- returns an error which is neither of the two internal errors, counts as a fatal error.
use taskcluster_worker.Prelude.{
  ℕ, true, List, [], ◌∷◌, ◌++◌, Option, none, some, if◌then◌else◌, ◌&&◌,
}
use taskcluster_worker.Errors.{
  Err, fatal_internal, non_fatal_internal, sandbox_terminated, sandbox_aborted, ExceptionReason,
}
use taskcluster_worker.TaskContext.Life.{cancel, close_log}
use taskcluster_worker.TaskRun.State.{TaskRun}
use taskcluster_worker.TaskRun.Stages.{Call, returns, panics}
use taskcluster_worker.TaskRun.Frame.{is_some}

-- What the plugins, the engine and the log answer.
pub record Teardown : Type 0 where
  pub close_stream : Option Err
  pub exception_hook : ExceptionReason → Call (Option Err)
  pub dispose_plugin : Call (Option Err)
  pub discard_builder : Call (Option Err)
  pub abort_sandbox : Call (Option Err)
  pub late_result : Call (Option ℕ × Option Err)
  pub dispose_result : Call (Option Err)
  pub remove_log : Call (Option Err)

pub data Action : Type 0 where
  closes_log removes_log : Action
  runs_exception_hook : ExceptionReason → Action
  disposes_plugin discards_builder aborts_sandbox disposes_result : ℕ → Action

pub record Event : Type 0 where
  pub action : Action
  pub outcome : Call (Option Err)

-- `capturePanicAndError`, after the call.
unfoldable pub capture : Call (Option Err) → TaskRun → TaskRun
capture (returns none) t = t
capture (returns (some non_fatal_internal)) t = record t { non_fatal_err = true }
capture (returns (some e)) t = record t { fatal_err = true }
capture panics t = record t { fatal_err = true }

abbrev pub Phase : Type 0
Phase = TaskRun → TaskRun × List Event

abbrev pub call : Action → Call (Option Err) → Phase
call a o t = (capture o t, record { action = a; outcome = o } ∷ [])

-- One phase after another.
infixl 5 ◌>>◌
abbrev pub ◌>>◌ : Phase → Phase → Phase
◌>>◌ p q t = let (t1, e1) = p t in let (t2, e2) = q t1 in (t2, e1 ++ e2)

unfoldable pub close_context : Teardown → Phase
unfolding capture cancel close_log
close_context d t = elim t.controller [
  | none ↦ (t, [])
  | some c ↦
      let closing = close_log d.close_stream (cancel c) in
      call closes_log (returns closing.1) (record t { controller = some closing.0 })
]

unfoldable pub run_exception_hook : Teardown → Phase
unfolding capture
run_exception_hook d t =
    if t.exception && is_some t.task_plugin
    then call (runs_exception_hook t.reason) (d.exception_hook t.reason) t
    else (t, [])

unfoldable pub release_plugin : Teardown → Phase
unfolding capture
release_plugin d t = elim t.task_plugin [
  | none ↦ (t, [])
  | some h ↦
      let (t', e) = call (disposes_plugin h) d.dispose_plugin t in
      (record t' { task_plugin = none }, e)
]

unfoldable pub release_builder : Teardown → Phase
unfolding capture
release_builder d t = elim t.sandbox_builder [
  | none ↦ (t, [])
  | some h ↦
      let (t', e) = call (discards_builder h) d.discard_builder t in
      (record t' { sandbox_builder = none }, e)
]

abbrev pub ignore_aborted : Option Err → Option Err
ignore_aborted (some sandbox_aborted) = none
ignore_aborted e = e

-- The function under capturePanicAndError: a sandbox that has terminated yields its ResultSet.
unfoldable pub stop_sandbox : Teardown → TaskRun → TaskRun × Call (Option Err)
stop_sandbox d t = elim d.abort_sandbox [
  | panics ↦ (t, panics)
  | returns (some sandbox_terminated) ↦ elim t.result_set [
    | some r ↦ (t, returns none)
    | none ↦ elim d.late_result [
      | panics ↦ (t, panics)
      | returns (r, e) ↦ (record t { result_set = r }, returns (ignore_aborted e))
    ]
  ]
  | returns e ↦ (t, returns e)
]

unfoldable pub release_sandbox : Teardown → Phase
unfolding capture stop_sandbox
release_sandbox d t = elim t.sandbox [
  | none ↦ (t, [])
  | some h ↦
      let (t1, o) = stop_sandbox d t in
      let (t2, e) = call (aborts_sandbox h) o t1 in (record t2 { sandbox = none }, e)
]

unfoldable pub release_result : Teardown → Phase
unfolding capture
release_result d t = elim t.result_set [
  | none ↦ (t, [])
  | some h ↦
      let (t', e) = call (disposes_result h) d.dispose_result t in
      (record t' { result_set = none }, e)
]

unfoldable pub release_context : Teardown → Phase
unfolding capture
release_context d t = elim t.controller [
  | none ↦ (t, [])
  | some c ↦ let (t', e) = call removes_log d.remove_log t in (record t' { controller = none }, e)
]

unfoldable pub verdict : TaskRun → Option Err
verdict t =
    if t.fatal_err
    then some fatal_internal
    else if t.non_fatal_err
    then some non_fatal_internal
    else none

unfoldable pub phases : Teardown → Phase
phases d =
    close_context d
    >> run_exception_hook d
    >> release_plugin d
    >> release_builder d
    >> release_sandbox d
    >> release_result d
    >> release_context d

-- `Dispose`: the state after it, what it has called, and what it returns.
unfoldable pub dispose : Teardown → TaskRun → TaskRun × List Event × Option Err
unfolding phases verdict
dispose d t = let (t', es) = phases d t in (t', es, verdict t')
