-- ===== src/Plugins.antt =====
-- plugins: the manager that calls all plugins in parallel, and some of the plugins.
pub mod Hooks
pub mod Manager
pub mod Verdicts
pub mod Watchdog
pub mod Volumes
pub mod Purging
pub mod Reboot
pub mod Mounting
pub mod Artifacts
pub mod Uploads
mod Tests
