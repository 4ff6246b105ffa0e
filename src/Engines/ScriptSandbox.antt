-- ===== src/Engines/ScriptSandbox.antt =====
-- engines/script/sandbox.go. What the script's process, the file system and the queue answer are
-- arguments.
use taskcluster_worker.Prelude.{
  ℕ, ◌+◌, Bool, true, false, not, ◌&&◌, List, [], ◌∷◌, Option, none, some, if◌then◌else◌, ◌==◌,
}
use taskcluster_worker.Errors.{
  Err, malformed_payload, fatal_internal, non_fatal_internal, sandbox_terminated, sandbox_aborted,
}
use taskcluster_worker.Engines.Contract.{Outcome, Sandbox}

-- What filepath.Walk finds, with the errors of uploading and closing a file.
pub data Found : Type 0 where
  walk_error open_error : Err → Found
  folder : Found
  file : Option Err → Option Err → Found

-- `uploadArtifacts`: the function for each path, and the walk, which ends at an error.
unfoldable pub upload_one : Found → Option Err
upload_one (walk_error e) = some e
upload_one (open_error e) = some e
upload_one folder = none
upload_one (file upload close) = elim upload [ none ↦ none | some e ↦ close ]

unfoldable pub upload_artifacts : List Found → Option Err
unfolding upload_one
upload_artifacts [] = none
upload_artifacts (f ∷ fs) =
    let rest = upload_artifacts fs in elim (upload_one f) [ none ↦ rest | some e ↦ some e ]

-- How `cmd.Wait` returns: no error, an ExitError with a status or without, or another error. The
-- status of a process that a signal ended is -1, which is none of the cases.
pub data Exit : Type 0 where
  succeeds signaled no_status wait_error : Exit
  exits : ℕ → Exit

-- `ended` holds what `run` has found when it closes `done`; `folder` counts the removals.
pub record ScriptSandbox : Type 0 where
  pub resolved : Bool
  pub result_set : Option Bool
  pub result_error : Option Err
  pub result_abort : Option Err
  pub is_aborted : Bool
  pub ended : Option (Bool × Option Err)
  pub folder : ℕ

abbrev pub fresh : ScriptSandbox
fresh = record {
  resolved = false;
  result_set = none;
  result_error = none;
  result_abort = none;
  is_aborted = false;
  ended = none;
  folder = 0;
}

unfoldable pub exit_error : Exit → Option Err
exit_error (exits n) =
    if n == 1
    then none
    else if n == 2
    then some (malformed_payload [])
    else if n == 3
    then some non_fatal_internal
    else some fatal_internal
exit_error signaled = some fatal_internal
exit_error _ = none

abbrev is_success : Exit → Bool
is_success succeeds = true
is_success _ = false

abbrev pub is_ok : Option Err → Bool
is_ok none = true
is_ok (some e) = false

-- `run` up to `close(s.done)`, and the rest of it.
unfoldable pub run : Exit → List Found → ScriptSandbox → ScriptSandbox
unfolding exit_error upload_artifacts
run e fs s = elim s.ended [
  | some r ↦ s
  | none ↦
      let success = is_success e && not s.is_aborted && is_ok (upload_artifacts fs) in
      record s { ended = some (success, exit_error e) }
]

unfoldable pub resolve : ScriptSandbox → ScriptSandbox
resolve s = elim s.ended [
  | none ↦ s
  | some (success, err) ↦
      if s.resolved
      then s
      else let t = record s {
        resolved = true;
        folder = s.folder + 1;
        result_abort = some sandbox_terminated;
      } in
        elim err [
          | none ↦ record t { result_set = some success }
          | some e ↦ record t { result_error = some e }
        ]
]

-- `Kill` sends a signal and changes nothing of the sandbox; the process then ends as `signaled`.
unfoldable pub kill : ScriptSandbox → ScriptSandbox × Option Err
kill s = (s, none)

-- `Abort`, which waits for `run` to close `done`; `e` is how the process ends for it.
unfoldable pub abort : Exit → ScriptSandbox → ScriptSandbox × Option Err
unfolding run
abort e s =
    let r = run e [] (record s { resolved = true; is_aborted = true }) in
    let t =
      (if s.resolved
        then s
        else record r { folder = r.folder + 1; result_error = some sandbox_aborted }) in
    (t, t.result_abort)

unfoldable pub wait_for_result : ScriptSandbox → Option Outcome
wait_for_result s =
    if s.resolved then some (record { result_set = s.result_set; error = s.result_error }) else none

pub data Event : Type 0 where
  process_ends : Exit → List Found → Event
  resolves : Event

unfoldable pub happens : Event → ScriptSandbox → ScriptSandbox
unfolding run resolve
happens (process_ends e fs) s = run e fs s
happens resolves s = resolve s

abbrev pub script_sandbox : Sandbox
script_sandbox = record {
  State = ScriptSandbox;
  Event = Event;
  Answers = Exit;
  happens = happens;
  kill = λ e s. kill s;
  abort = abort;
  result = wait_for_result;
}
