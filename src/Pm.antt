-- ===== src/Pm.antt =====
-- main/app_runtime_pm.c: sleep transactions, standby admission and the bridges to the board.
pub mod Context
pub mod Sleep
pub mod Admission
pub mod Wake
pub mod Bridge
mod Tests
