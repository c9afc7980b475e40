-- ===== src/Sim/Freertos/Registry/Table.antt =====
-- What the table of the tasks lists after any starts and ends.
use micro_tech.Sim.Freertos.Registry.{Registry}
