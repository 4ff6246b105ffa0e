-- ===== src/Engines/NativeSandbox.antt =====
-- engines/native/sandbox.go: the sandbox with its shells, which atomics.WaitGroup counts. A shell is
-- a number, given out upwards.
use Prim.{Unit}
use taskcluster_worker.Prelude.{
  ℕ, ◌+◌, Bool, true, false, ◌||◌, List, [], ◌∷◌, ◌++◌, Option, none, some, if◌then◌else◌, ◌==◌,
}
use taskcluster_worker.Prelude.Int.{pos}
use taskcluster_worker.Errors.{Err, malformed_payload, sandbox_terminated, sandbox_aborted}
use taskcluster_worker.Atomics.WaitGroup.{
  WaitGroup, zero_wait_group, rejected, add, done, drain, arm, wait_and_drain,
}
use taskcluster_worker.Engines.Contract.{Outcome, Sandbox}

-- `terminated` holds what the process returned, once WaitAndDrain has returned behind it. `user` and
-- `folder` count how often they were removed, and `owned_killed` how often KillByOwner was called.
pub record NativeSandbox : Type 0 where
  pub create_user : Bool
  pub resolved : Bool
  pub result_set : Option Bool
  pub result_err : Option Err
  pub abort_err : Option Err
  pub sessions : WaitGroup
  pub shells : List ℕ
  pub next_shell : ℕ
  pub terminated : Option Bool
  pub user : ℕ
  pub folder : ℕ
  pub owned_killed : ℕ

abbrev pub fresh : Bool → NativeSandbox
fresh create_user = record {
  create_user = create_user;
  resolved = false;
  result_set = none;
  result_err = none;
  abort_err = none;
  sessions = zero_wait_group;
  shells = [];
  next_shell = 0;
  terminated = none;
  user = 0;
  folder = 0;
  owned_killed = 0;
}

-- `NewShell`, where the shell starts or not.
unfoldable pub new_shell : Bool → NativeSandbox → NativeSandbox × Option Err
unfolding add done
new_shell starts s =
    let (wg, signal) = add s.sessions (pos 1) in
    elim signal [
      | rejected ↦ (s, some sandbox_terminated)
      | _ ↦
          if starts
          then (
            record s {
              sessions = wg;
              shells = s.shells ++ s.next_shell ∷ [];
              next_shell = s.next_shell + 1;
            },
            none,
          )
          else (record s { sessions = (done wg).0 }, some (malformed_payload []))
    ]

abbrev pub without : ℕ → List ℕ → List ℕ
without x [] = []
without x (y ∷ ys) = let rest = without x ys in if x == y then rest else y ∷ rest

abbrev pub has : ℕ → List ℕ → Bool
has x [] = false
has x (y ∷ ys) = (x == y) || has x ys

-- What NewShell leaves to run when the shell `x` is done.
unfoldable pub shell_done : ℕ → NativeSandbox → NativeSandbox
unfolding done
shell_done x s = record s { shells = without x s.shells; sessions = (done s.sessions).0 }

unfoldable pub all_done : List ℕ → NativeSandbox → NativeSandbox
unfolding shell_done
all_done [] s = s
all_done (x ∷ xs) s = all_done xs (shell_done x s)

-- `abortShells`: the shells that it aborts are done when it returns.
unfoldable pub abort_shells : NativeSandbox → NativeSandbox
unfolding drain all_done arm
abort_shells s =
    let t = all_done s.shells (record s { sessions = drain s.sessions; shells = [] }) in
    record t { sessions = arm t.sessions }

abbrev one_if : Bool → ℕ
one_if true = 1
one_if false = 0

abbrev give_result_set : Bool → NativeSandbox → NativeSandbox
give_result_set success s = record s {
  result_set = some success;
  abort_err = some sandbox_terminated;
  owned_killed = s.owned_killed + one_if s.create_user;
}

-- `waitForTermination`: once the process has ended it waits for the sessions, and then resolves.
unfoldable pub drained : Bool → NativeSandbox → NativeSandbox
unfolding wait_and_drain
drained success s = elim (wait_and_drain s.sessions) [
  | none ↦ s
  | some wg ↦ record s { sessions = wg; terminated = some success }
]

unfoldable pub finish : NativeSandbox → NativeSandbox
finish s = elim s.terminated [
  | none ↦ s
  | some success ↦ if s.resolved then s else give_result_set success (record s { resolved = true })
]

unfoldable pub kill : NativeSandbox → NativeSandbox × Option Err
unfolding abort_shells
kill s =
    let t =
      (if s.resolved
        then s
        else give_result_set false (abort_shells (record s { resolved = true }))) in
    (t, t.result_err)

unfoldable pub abort : NativeSandbox → NativeSandbox × Option Err
unfolding abort_shells
abort s =
    let a = abort_shells (record s { resolved = true }) in
    let n = one_if s.create_user in
    let t =
      (if s.resolved then s else record a {
        owned_killed = a.owned_killed + n;
        user = a.user + n;
        folder = a.folder + n;
        result_err = some sandbox_aborted;
      }) in
    (t, t.abort_err)

unfoldable pub wait_for_result : NativeSandbox → Option Outcome
wait_for_result s =
    if s.resolved then some (record { result_set = s.result_set; error = s.result_err }) else none

pub data Event : Type 0 where
  starts_shell : Bool → Event
  ends_shell : ℕ → Event
  process_ends : Bool → Event
  finishes : Event

-- Only a shell that runs can end.
unfoldable pub happens : Event → NativeSandbox → NativeSandbox
unfolding new_shell shell_done drained finish
happens (starts_shell b) s = (new_shell b s).0
happens (ends_shell x) s = if has x s.shells then shell_done x s else s
happens (process_ends b) s = drained b s
happens finishes s = finish s

abbrev pub native_sandbox : Sandbox
native_sandbox = record {
  State = NativeSandbox;
  Event = Event;
  Answers = Unit;
  happens = happens;
  kill = λ a s. kill s;
  abort = λ a s. abort s;
  result = wait_for_result;
}
