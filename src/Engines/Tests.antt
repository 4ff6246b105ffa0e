-- ===== src/Engines/Tests.antt =====
-- Examples of the theorems on the engines.
use taskcluster_worker.Engines.QemuImages as Images
use taskcluster_worker.Prelude.{
  count, ◌≡◌, ◌≢◌, ◌⊎◌, refl, true, false, List, [], ◌∷◌, none, some, if◌then◌else◌,
}
use taskcluster_worker.Prelude.Int.{pos, ◌+ℤ◌}
use taskcluster_worker.Errors.{non_fatal_internal, sandbox_terminated}
use taskcluster_worker.Engines.Contract.{
  Outcome, aborted, Call, event, kills, aborts, after_call, after_calls,
}
use taskcluster_worker.Engines.DockerSandbox as Docker
use taskcluster_worker.Engines.DockerHeld.{Accounted, undecided}
use taskcluster_worker.Engines.DockerLaws.{docker_sandbox-DecidesOnce, docker_resources}
use taskcluster_worker.Engines.NativeSandbox as Native
use taskcluster_worker.Engines.NativeLaws.{shells_ended}
use taskcluster_worker.Engines.QemuSessions as Sessions
use taskcluster_worker.Engines.QemuSessions.{refused_display_locks}
use taskcluster_worker.Engines.DockerNetworks as Docker_Networks
use taskcluster_worker.TaskRun.State.{TaskRun, new}
use taskcluster_worker.TaskRun.Stages.{returns}
use taskcluster_worker.TaskRun.Dispose.{Teardown, dispose}
use taskcluster_worker.TaskRun.Disposal.{actions}
use taskcluster_worker.Engines.Disposing.{late_answer, is_disposal, late_result_disposed}

abbrev calm : Docker.Answers
calm = record {
  term = Docker.fine;
  term_timed_out = false;
  kill = Docker.not_running;
  wait = Docker.fine;
  remove_fails = false;
  storage_fails = false;
}

abbrev exit_then_kill : List (Call Docker.docker_sandbox)
exit_then_kill = event (Docker.exits 0) ∷ kills calm ∷ []

abbrev passed : Outcome
passed = record { result_set = some true; error = none }

docker-exits :
    Docker.docker_sandbox.result (after_calls Docker.docker_sandbox exit_then_kill Docker.fresh)
    ≡ some passed
unfolding after_calls after_call Docker.wait Docker.kill Docker.wait_for_result
docker-exits = refl

docker-waits :
    Docker.docker_sandbox.result (after_calls Docker.docker_sandbox [] Docker.fresh) ≡ none
unfolding after_calls Docker.wait_for_result
docker-waits = refl

docker_resources_example :
    let s = after_calls Docker.docker_sandbox exit_then_kill Docker.fresh in
    ((s.result_set ≢ none) × (s.held ≡ Docker.given_back 0 1))
    ⊎ ((s.result_set ≡ none)
        × ((s.held ≡ Docker.given_back 1 0)
            ⊎ ((s.held ≡ Docker.all_held)
                × ((s.resolved ≡ false) ⊎ (s.result_err ≡ some non_fatal_internal)))))
docker_resources_example = docker_resources exit_then_kill

abbrev shell_then_abort : List (Call Native.native_sandbox)
shell_then_abort = event (Native.starts_shell true) ∷ aborts (record {}) ∷ []

native-aborts :
    Native.wait_for_result (after_calls Native.native_sandbox shell_then_abort (Native.fresh true))
    ≡ some aborted
unfolding after_calls after_call Native.happens Native.abort Native.wait_for_result ◌+ℤ◌
native-aborts = refl

shells_ended_example :
    let s = after_calls Native.native_sandbox shell_then_abort (Native.fresh true) in
    (s.shells ≡ [])
    × (s.sessions.count ≡ pos 0)
    × (Native.new_shell true s ≡ (s, some sandbox_terminated))
    × (s.folder ≡ s.user)
    × (s.user ≡ (if s.create_user then 1 else 0))
shells_ended_example = shells_ended true true shell_then_abort aborted native-aborts

abbrev closed_sessions : Sessions.SessionManager
closed_sessions = record {
  held = false;
  new_error = some sandbox_terminated;
  shells = [];
  displays = [];
}

closed_sessions-refuse :
    (Sessions.ask_display closed_sessions).1 ≡ Sessions.returns (some sandbox_terminated)
unfolding Sessions.ask_display
closed_sessions-refuse = refl

refused_display_locks_example :
    (Sessions.serve Sessions.aborts
      (Sessions.serve_all (Sessions.kills ∷ []) (Sessions.ask_display closed_sessions).0)).1
    ≡ Sessions.blocks
refused_display_locks_example =
    refused_display_locks closed_sessions sandbox_terminated (Sessions.kills ∷ []) Sessions.aborts
      closed_sessions-refuse

abbrev two_uses : List Docker_Networks.Use
two_uses = Docker_Networks.gets true ∷ Docker_Networks.gets true ∷ Docker_Networks.releases 1 ∷ []

abbrev refused_copy : Images.Served
refused_copy = record {
  image = (Images.wake 6 false (Images.load true Images.new_image)).0;
  waiting = 0;
  instances = 0;
  refused = 1;
}

abbrev ended_sandbox : Docker.DockerSandbox
ended_sandbox = after_calls Docker.docker_sandbox exit_then_kill Docker.fresh

abbrev after_exit : Teardown
after_exit = record {
  close_stream = none;
  exception_hook = λ r. returns none;
  dispose_plugin = returns none;
  discard_builder = returns none;
  abort_sandbox = returns (Docker.abort calm ended_sandbox).1;
  late_result =
      returns (late_answer 9 (Docker.wait_for_result (Docker.abort calm ended_sandbox).0));
  dispose_result = returns none;
  remove_log = returns none;
}

abbrev late_run : TaskRun
late_run = record (new true 7) { sandbox = some 3; result_set = none }

late_result_disposed_example :
    (count (is_disposal 9) (actions (dispose after_exit late_run).1) ≡ 1)
    × ((dispose after_exit late_run).0.result_set ≡ none)
    × ((dispose after_exit late_run).0.sandbox ≡ none)
late_result_disposed_example =
    late_result_disposed Docker.docker_sandbox Accounted Docker.fresh exit_then_kill calm 3 9 true
      after_exit late_run docker_sandbox-DecidesOnce (undecided refl) docker-exits refl refl refl
      refl
