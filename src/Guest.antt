-- ===== src/Guest.antt =====
-- engines/qemu/metaservice: what the guest of a virtual machine asks, reports and is asked.
pub mod Resolving
pub mod Asking
pub mod Retrying
pub mod Tools
pub mod Fetching
mod Tests
