-- ===== src/Engines/DockerSandbox.antt =====
-- engines/docker/sandbox.go. The answers of the docker daemon, the networks and the folders are
-- arguments. A resource counts how often it was given back.
use taskcluster_worker.Prelude.{
  ℕ, ◌+◌, Bool, true, false, not, ◌&&◌, ◌||◌, [], Option, none, some, if◌then◌else◌, ◌==◌,
}
use taskcluster_worker.Errors.{
  Err, fatal_internal, non_fatal_internal, malformed_payload, sandbox_terminated, sandbox_aborted,
  other,
}
use taskcluster_worker.Engines.Contract.{Outcome, Sandbox}

-- How often the container and the storage were asked to be removed, and the handles of the network and of the
-- image released; and how often all of them were passed to a ResultSet.
pub record Held : Type 0 where
  pub container : ℕ
  pub storage : ℕ
  pub network : ℕ
  pub image : ℕ
  pub transfers : ℕ

abbrev pub all_held : Held
all_held = record { container = 0; storage = 0; network = 0; image = 0; transfers = 0 }

-- What newSandbox asks for, in its order: an error or none.
pub record Setup : Type 0 where
  pub network : Option Err
  pub container : Option Err
  pub folder : Option Err
  pub attach : Option Err
  pub start : Option Err

-- `newSandbox`: an error, or none and a sandbox; and what is given back. Errors are wrapped, which
-- is a new error.
abbrev pub wrapped : Err
wrapped = other 0

unfoldable pub new_sandbox : Setup → Held × Option Err
new_sandbox u =
    let released : Held = record all_held { image = 1 } in
    elim u.network [
      | some e ↦ (released, some wrapped)
      | none ↦ elim u.container [
        | some e ↦ (released, some (malformed_payload []))
        | none ↦ elim u.folder [
          | some e ↦ (released, some fatal_internal)
          | none ↦ elim u.attach [
            | some e ↦ (released, some wrapped)
            | none ↦ elim u.start [ some e ↦ (released, some wrapped) | none ↦ (all_held, none) ]
          ]
        ]
      ]
    ]

-- `resolved` says that a body of `s.resolve.Do` has run.
pub record DockerSandbox : Type 0 where
  pub resolved : Bool
  pub result_set : Option Bool
  pub result_err : Option Err
  pub abort_err : Option Err
  pub held : Held

abbrev pub fresh : DockerSandbox
fresh = record {
  resolved = false;
  result_set = none;
  result_err = none;
  abort_err = none;
  held = all_held;
}

-- The answer of WaitContainer in `wait`.
pub data Ends : Type 0 where
  exits : ℕ → Ends
  wait_fails : Ends

-- The answers of KillContainer and of WaitContainer: no error, ContainerNotRunning, or another error.
pub data Reply : Type 0 where
  fine not_running failed : Reply

pub record Answers : Type 0 where
  pub term : Reply
  pub term_timed_out : Bool
  pub kill : Reply
  pub wait : Reply
  pub remove_fails : Bool
  pub storage_fails : Bool

abbrev pub is_failed : Reply → Bool
is_failed failed = true
is_failed _ = false

-- `attemptGracefulTermination`.
unfoldable pub terminate : Answers → Option Err
terminate a =
    let has_err =
      (is_failed a.term && not a.term_timed_out) || is_failed a.kill || is_failed a.wait in
    if has_err then some non_fatal_internal else none

-- `dispose`.
unfoldable pub dispose : Answers → DockerSandbox → DockerSandbox × Option Err
dispose a s =
    let h = s.held in
    let has_err = a.remove_fails || a.storage_fails in
    (
      record s {
        held = record h {
          container = h.container + 1;
          storage = h.storage + 1;
          network = h.network + 1;
          image = h.image + 1;
        };
      },
      if has_err then some non_fatal_internal else none,
    )

abbrev give_result_set : Bool → DockerSandbox → DockerSandbox
give_result_set success s = record s {
  result_set = some success;
  abort_err = some sandbox_terminated;
  held = record (s.held) { transfers = s.held.transfers + 1 };
}

-- The body in `wait`.
unfoldable pub wait : Ends → DockerSandbox → DockerSandbox
wait e s = if s.resolved then s else elim e [
  | exits code ↦ give_result_set (code == 0) (record s { resolved = true })
  | wait_fails ↦ record s {
    resolved = true;
    result_err = some non_fatal_internal;
    abort_err = some sandbox_terminated;
  }
]

abbrev kill_body : Answers → DockerSandbox → DockerSandbox
kill_body a s = elim (terminate a) [
  | none ↦ give_result_set false s
  | some e ↦ (dispose a (record s { result_err = some e })).0
]

unfoldable pub kill : Answers → DockerSandbox → DockerSandbox × Option Err
unfolding terminate dispose
kill a s =
    let t = (if s.resolved then s else kill_body a (record s { resolved = true })) in
    (t, t.result_err)

unfoldable pub abort : Answers → DockerSandbox → DockerSandbox × Option Err
unfolding dispose
abort a s =
    let (d, err) = dispose a (record s { resolved = true }) in
    let t =
      (if s.resolved then s else record d { abort_err = err; result_err = some sandbox_aborted }) in
    (t, t.abort_err)

-- `WaitForResult`.
unfoldable pub wait_for_result : DockerSandbox → Option Outcome
wait_for_result s =
    if s.resolved then some (record { result_set = s.result_set; error = s.result_err }) else none

abbrev pub docker_sandbox : Sandbox
docker_sandbox = record {
  State = DockerSandbox;
  Event = Ends;
  Answers = Answers;
  happens = wait;
  kill = kill;
  abort = abort;
  result = wait_for_result;
}

abbrev pub given_back : ℕ → ℕ → Held
given_back released transfers = record {
  container = released;
  storage = released;
  network = released;
  image = released;
  transfers = transfers;
}
