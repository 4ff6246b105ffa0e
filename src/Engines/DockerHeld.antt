-- ===== src/Engines/DockerHeld.antt =====
-- Where the resources of the sandbox of engines/docker/sandbox.go are.
use taskcluster_worker.Prelude.{
  subst, sym, ◌≡◌, refl, Bool, true, false, Option, none, some, arith, ◌==◌,
}
use taskcluster_worker.Errors.{Err, non_fatal_internal, sandbox_terminated, sandbox_aborted}
use taskcluster_worker.Engines.Contract.{Call, event, kills, aborts, after_call}
use taskcluster_worker.Engines.DockerSandbox.{
  all_held, DockerSandbox, fresh, exits, wait_fails, terminate, dispose, wait, kill, abort,
  docker_sandbox, given_back,
}

-- Where the resources of a sandbox are, by what it returns.
pub data Accounted (s : DockerSandbox) : Type 0 where
  undecided : s ≡ fresh → Accounted s
  passed_on :
      (b : Bool)
      → s ≡ record {
        resolved = true;
        result_set = some b;
        result_err = none;
        abort_err = some sandbox_terminated;
        held = given_back 0 1;
      }
      → Accounted s
  freed :
      (e : Err) (f : Option Err)
      → s ≡ record {
        resolved = true;
        result_set = none;
        result_err = some e;
        abort_err = f;
        held = given_back 1 0;
      }
      → Accounted s
  kept :
      s ≡ record {
        resolved = true;
        result_set = none;
        result_err = some non_fatal_internal;
        abort_err = some sandbox_terminated;
        held = all_held;
      }
      → Accounted s

pub stays :
    (c : Call docker_sandbox) (s : DockerSandbox)
    → s.resolved ≡ true
    → after_call docker_sandbox c s ≡ s
unfolding after_call wait kill abort
stays (event e) s h = ground arith
stays (kills a) s h = ground arith
stays (aborts a) s h = ground arith

has_set : DockerSandbox → Bool
has_set s = elim s.result_set [ none ↦ false | some b ↦ true ]

decided-fresh : (c : Call docker_sandbox) → Accounted (after_call docker_sandbox c fresh)
unfolding after_call wait kill abort terminate dispose
decided-fresh (event (exits n)) = passed_on (n == 0) (ground arith)
decided-fresh (event wait_fails) = kept (ground arith)
decided-fresh (kills a) = split (terminate a) refl
  where
    split : (r : Option Err) → terminate a ≡ r → Accounted (kill a fresh).0
    split none q = passed_on false (ground arith)
    split (some e) q = freed e none (ground arith)
decided-fresh (aborts a) = freed sandbox_aborted (dispose a fresh).1 (ground arith)

still :
    (c : Call docker_sandbox) (s : DockerSandbox)
    → s.resolved ≡ true
    → Accounted s
    → Accounted (after_call docker_sandbox c s)
still c s h v = subst Accounted (sym (stays c s h)) v

pub call-Accounted :
    (c : Call docker_sandbox) (s : DockerSandbox)
    → Accounted s
    → Accounted (after_call docker_sandbox c s)
call-Accounted c s (undecided e) =
    subst (λ t. Accounted (after_call docker_sandbox c t)) (sym e) (decided-fresh c)
call-Accounted c s (passed_on b e) = still c s (ground arith) (passed_on b e)
call-Accounted c s (freed x f e) = still c s (ground arith) (freed x f e)
call-Accounted c s (kept e) = still c s (ground arith) (kept e)
