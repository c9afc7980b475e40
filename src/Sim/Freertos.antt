-- ===== src/Sim/Freertos.antt =====
-- sim/ports/sim_freertos.c: the objects that tasks share. Each call holds the object's lock but while
-- it waits; so a call is one step on the object, from the state in which its wait ends.
pub mod Wait
pub mod Queue
pub mod Semaphore
pub mod Registry
mod Tests
