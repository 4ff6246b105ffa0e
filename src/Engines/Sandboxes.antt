-- ===== src/Engines/Sandboxes.antt =====
-- The sandboxes of engines/docker, engines/native and engines/script, by the interface.
use taskcluster_worker.Prelude.{true, false, refl, arith}
use taskcluster_worker.Engines.DockerSandbox as Docker
use taskcluster_worker.Engines.NativeSandbox as Native
use taskcluster_worker.Engines.ScriptSandbox as Script
use taskcluster_worker.Engines.Contract.{DecidesOnce, KillFails}
use taskcluster_worker.Engines.DockerSandbox.{docker_sandbox}
use taskcluster_worker.Engines.DockerHeld.{Accounted, undecided}
use taskcluster_worker.Engines.DockerLaws.{docker_sandbox-DecidesOnce, docker_sandbox-KillFails}
use taskcluster_worker.Engines.NativeSandbox.{native_sandbox}
use taskcluster_worker.Engines.NativeLaws.{
  Sound, fresh-Sound, native_sandbox-DecidesOnce, native_sandbox-KillFails,
}
use taskcluster_worker.Engines.ScriptSandbox.{script_sandbox}
use taskcluster_worker.Engines.ScriptLaws.{Settled, script_sandbox-DecidesOnce}

-- In the sandboxes of the docker, the native and the script engine, from new ones on and after any
-- calls, what WaitForResult returns is decided once and stays: an error, or a ResultSet. An Abort
-- before that makes it ErrSandboxAborted; an Abort after it changes nothing, and returns
-- ErrSandboxTerminated if it is a ResultSet. In the docker and the native engine, a Kill before that
-- makes it a failed ResultSet, or in the docker engine, where the container cannot be killed,
-- ErrNonFatalInternalError.
pub sandboxes_decide_once :
    (DecidesOnce docker_sandbox Accounted
      × KillFails docker_sandbox Accounted
      × Accounted Docker.fresh)
    × (DecidesOnce native_sandbox Sound
        × KillFails native_sandbox Sound
        × Sound (Native.fresh true)
        × Sound (Native.fresh false))
    × (DecidesOnce script_sandbox Settled × Settled Script.fresh)
sandboxes_decide_once = (
  (docker_sandbox-DecidesOnce, docker_sandbox-KillFails, undecided refl),
  (native_sandbox-DecidesOnce, native_sandbox-KillFails, fresh-Sound true, fresh-Sound false),
  (script_sandbox-DecidesOnce, record { agreed = ground arith }),
)
