-- ===== src/Network/Transport.antt =====
-- main/p4_radio_runtime.c: the hosted transport and the flags that tell of it.
use micro_tech.Prelude.{◌≡◌, ◌↔◌, ◌⊎◌, true, false, arith, ok, is_ok, is_ok→eq}
use micro_tech.Network.Foundation.{network_init_result}
use micro_tech.Network.{
  Radio, RadioAnswers, radio_init, radio_deinit, radio_is_ready, Foundations, network_is_ready,
  network_init,
}

network_succeeds :
    (a : RadioAnswers) (n : Foundations)
    → is_ok (network_init a.netif a.event_loop n).0 ≡ true
    → network_is_ready (network_init a.netif a.event_loop n).1 ≡ true
network_succeeds a n h = (network_init_result a.netif a.event_loop n).0.0 (is_ok→eq _ h)

-- From a state in which the two flags agree, an initialisation succeeds exactly when the radio is
-- ready after it, and the flags agree again; if it has made the radio ready, so is the network.
pub radio_init_ok_iff :
    (a : RadioAnswers) (s : Radio)
    → s.initialized ≡ s.ready
    → ((radio_init a s).1.initialized ≡ (radio_init a s).1.ready)
      × (((radio_init a s).0 ≡ ok) ↔ (radio_is_ready (radio_init a s).1 ≡ true))
      × ((radio_is_ready s ≡ true)
          ⊎ ((radio_is_ready (radio_init a s).1 ≡ false)
              ⊎ (network_is_ready (radio_init a s).1.foundations ≡ true)))
unfolding radio_init
radio_init_ok_iff a s h = ground (arith, network_succeeds a s.foundations)

-- A deinitialisation that fails is not tried again: the next one succeeds without a call, and the
-- transport stays as the failure has left it.
pub radio_deinit_forgets :
    (a b : RadioAnswers) (s : Radio)
    → s.initialized ≡ true
    → is_ok (radio_deinit a s).0 ≡ false
    → ((radio_deinit b (radio_deinit a s).1).0 ≡ ok)
      × ((radio_deinit b (radio_deinit a s).1).1.transport ≡ s.transport)
unfolding radio_deinit
radio_deinit_forgets a b s h n = ground arith
