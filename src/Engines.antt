-- ===== src/Engines.antt =====
-- engines: the interface Sandbox, and the sandboxes, networks and images of the engines.
pub mod Contract
pub mod DockerSandbox
pub mod DockerHeld
pub mod DockerLaws
pub mod NativeSandbox
pub mod NativeShells
pub mod NativeLaws
pub mod QemuSessions
pub mod ScriptSandbox
pub mod ScriptLaws
pub mod DockerNetworks
pub mod QemuNetworks
pub mod QemuExclusive
pub mod QemuImages
pub mod QemuKeeping
pub mod Sandboxes
pub mod Disposing
mod Tests
