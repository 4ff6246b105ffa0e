-- ===== src/TaskRun/State.antt =====
-- The TaskRun struct of taskrun.go with the stages of stages.go and the reasons of abortreason.go.
-- Handles (a TaskPlugin, a SandboxBuilder, a Sandbox, a ResultSet) are numbers; `nil` is `none`.
-- `nil` for the controller is what a failed NewTaskContext leaves, and what Dispose leaves.
use taskcluster_worker.Prelude.{ℕ, Bool, true, false, Option, none, some, String}
use taskcluster_worker.Errors.{
  ExceptionReason, no_exception, canceled, worker_shutdown, internal_error,
}
use taskcluster_worker.TaskContext.Life.{
  TaskContext, new_context, cancel, set_queue_client, set_credentials,
}

pub data Stage : Type 0 where
  prepare build start started waiting stopped finished resolved : Stage

-- The Go constants, from `iota`.
abbrev pub index : Stage → ℕ
index prepare = 0
index build = 1
index start = 2
index started = 3
index waiting = 4
index stopped = 5
index finished = 6
index resolved = 7

-- `t.stage++`, which is made of a stage before `resolved` only.
abbrev pub next_stage : Stage → Stage
next_stage prepare = build
next_stage build = start
next_stage start = started
next_stage started = waiting
next_stage waiting = stopped
next_stage stopped = finished
next_stage finished = resolved
next_stage resolved = resolved

abbrev pub is_resolved : Stage → Bool
is_resolved resolved = true
is_resolved _ = false

pub record TaskRun : Type 0 where
  pub controller : Option TaskContext
  pub running : Bool
  pub stage : Stage
  pub success : Bool
  pub exception : Bool
  pub reason : ExceptionReason
  pub fatal_err : Bool
  pub non_fatal_err : Bool
  pub task_plugin : Option ℕ
  pub sandbox_builder : Option ℕ
  pub sandbox : Option ℕ
  pub result_set : Option ℕ

-- `New`, given whether NewTaskContext succeeds and the queue client of the options.
unfoldable pub new : Bool → ℕ → TaskRun
unfolding set_queue_client
new true queue = record {
  controller = some (set_queue_client queue new_context);
  running = false;
  stage = prepare;
  success = false;
  exception = false;
  reason = no_exception;
  fatal_err = false;
  non_fatal_err = false;
  task_plugin = none;
  sandbox_builder = none;
  sandbox = none;
  result_set = none;
}
new false queue = record {
  controller = none;
  running = false;
  stage = resolved;
  success = false;
  exception = true;
  reason = internal_error;
  fatal_err = true;
  non_fatal_err = false;
  task_plugin = none;
  sandbox_builder = none;
  sandbox = none;
  result_set = none;
}

-- AbortReason: any other number panics in `Abort`.
pub data AbortReason : Type 0 where
  shutdown task_canceled : AbortReason

abbrev pub abort_reason : AbortReason → ExceptionReason
abort_reason shutdown = worker_shutdown
abort_reason task_canceled = canceled

-- `t.controller.Cancel()`: `none` is the panic on a nil controller.
abbrev pub cancel_controller : TaskRun → Option TaskRun
cancel_controller t = elim t.controller [
  | none ↦ none
  | some c ↦ some (record t { controller = some (cancel c) })
]

-- `Abort`. `none` is a panic.
unfoldable pub abort : AbortReason → TaskRun → Option TaskRun
unfolding cancel
abort r t = elim t.stage [
  | resolved ↦ some t
  | _ ↦
      cancel_controller
        (record t { stage = resolved; success = false; exception = true; reason = abort_reason r })
]

abbrev map_controller : (TaskContext → TaskContext) → Option TaskContext → Option TaskContext
map_controller f none = none
map_controller f (some c) = some (f c)

-- `SetQueueClient` and `SetCredentials` do nothing where there is no controller.
unfoldable pub update_queue_client : ℕ → TaskRun → TaskRun
unfolding set_queue_client
update_queue_client q t = record t { controller = map_controller (set_queue_client q) t.controller }

unfoldable pub update_credentials : String → String → String → TaskRun → TaskRun
unfolding set_credentials
update_credentials id token cert t = record t {
  controller = map_controller (set_credentials id token cert) t.controller;
}
