-- ===== src/Sim/Freertos/Queue/Waits.antt =====
-- A send on a queue that may wait, while other tasks use the queue.
use micro_tech.Prelude.{◌<◌, ◌≡◌, Bool, true, false, List, ◌∷◌}
use micro_tech.Sim.Freertos.Wait.{Wake, Outcome, returned, blocked, woken, expired}
use micro_tech.Sim.Freertos.Queue.{Block, Queue, put_item}
use micro_tech.Sim.Freertos.Queue.Contents.{contents, IsValid}
use micro_tech.Sim.Freertos.Queue.Refine.{put_list}

-- A state that a call sees: the one that it finds, or one that another task has left.
pub data IsSeen {ℓ} {S : Type ℓ} (s : S) : S → List (Wake S) → Type ℓ where
  found : (wakes : List (Wake S)) → IsSeen s s wakes
  on_wake : (t u : S) (wakes : List (Wake S)) → IsSeen s u wakes → IsSeen s t (woken u ∷ wakes)
  on_expiry : (t u : S) (wakes : List (Wake S)) → IsSeen s u wakes → IsSeen s t (expired u ∷ wakes)

-- What a call with the state `q` and these wake-ups has come to.
abbrev pub SendEnds : Bool → Block → Queue → List (Wake Queue) → Outcome Queue Bool → Type 0
SendEnds front item q wakes (returned true q') =
    (s : Queue) × IsSeen s q wakes
    × IsValid s
    × (s.count < s.capacity)
    × (q' ≡ put_item front item s)
    × IsValid q'
    × (contents q' ≡ put_list front item (contents s))
SendEnds front item q wakes (returned false q') = IsSeen q' q wakes × IsValid q'
SendEnds front item q wakes (blocked q') = IsSeen q' q wakes × IsValid q' × (q'.count ≡ q'.capacity)
