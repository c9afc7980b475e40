-- ===== src/Network/Tests.antt =====
-- main/network_runtime.c and main/p4_radio_runtime.c on concrete answers.
use micro_tech.Prelude.{◌≡◌, refl, true, false, ok}
use micro_tech.Network.Transport.{radio_deinit_forgets}
use micro_tech.Network.{
  uninitialized, owned, Foundations, done, timed_out, Radio, RadioAnswers, radio_deinit,
}

-- Nothing is there yet.
abbrev nothing : Foundations
nothing = record { netif = uninitialized; event_loop = uninitialized; busy = false }

abbrev loop_missing : Foundations
loop_missing = record { netif = owned; event_loop = uninitialized; busy = false }

-- The link to the other chip cannot be brought up, and the transport cannot be released.
abbrev unlinked : RadioAnswers
unlinked = record {
  netif = ok;
  event_loop = ok;
  init = done;
  connect = timed_out;
  deinit = timed_out;
}

abbrev silent : Radio
silent = record { initialized = false; ready = false; transport = false; foundations = nothing }

abbrev linked : Radio
linked = record { initialized = true; ready = true; transport = true; foundations = loop_missing }

radio_deinit_forgets_example :
    ((radio_deinit unlinked (radio_deinit unlinked linked).1).0 ≡ ok)
    × ((radio_deinit unlinked (radio_deinit unlinked linked).1).1.transport ≡ true)
unfolding radio_deinit
radio_deinit_forgets_example = radio_deinit_forgets unlinked unlinked linked refl refl
