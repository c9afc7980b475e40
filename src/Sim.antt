-- ===== src/Sim.antt =====
-- The parts of the simulator (sim/ports) that hold logic of their own.
pub mod Base64
pub mod Nvs
pub mod Freertos
pub mod Assets
