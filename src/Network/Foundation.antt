-- ===== src/Network/Foundation.antt =====
-- main/network_runtime.c: what an initialisation leaves behind.
use micro_tech.Prelude.{◌≡◌, ◌↔◌, ◌⊎◌, true, false, arith, EspErr, ok}
use micro_tech.Network.{resource_ready, Foundations, network_is_ready, network_init, create}

-- An initialisation succeeds exactly when the foundation is ready after it; it leaves the busy flag
-- as it was, and a resource that was ready keeps its owner.
pub network_init_result :
    (netif_reply loop_reply : EspErr) (n : Foundations)
    → let (r, m) = network_init netif_reply loop_reply n in
      ((r ≡ ok) ↔ (network_is_ready m ≡ true))
      × (m.busy ≡ n.busy)
      × ((resource_ready n.netif ≡ false) ⊎ (m.netif ≡ n.netif))
      × ((resource_ready n.event_loop ≡ false) ⊎ (m.event_loop ≡ n.event_loop))
unfolding network_init create
network_init_result netif_reply loop_reply n = ground arith
