-- ===== src/Runtime.antt =====
-- main/app_runtime.c: startup, shutdown and rollback of the service assembly, and the check of the apps
-- that it requires.
pub mod State
pub mod Action
pub mod Rules
pub mod Preserve
pub mod Stop
pub mod Start
pub mod Lifecycle
pub mod Dispatch
pub mod Apps
mod Tests
