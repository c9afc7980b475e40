-- ===== src/Sim/Freertos/Queue/Run.antt =====
-- The looks of calls at a queue, one after another, on the queue itself and on a list.
use micro_tech.Prelude.{ℕ, Bool, true, false, not, Option, none, some, List, [], ◌∷◌, length, ◌==◌}
use micro_tech.Sim.Freertos.Wait.{
  Outcome, returned, blocked, Look, start_of, wakes_of, gives_up, look_result, MustWait,
}
use micro_tech.Sim.Freertos.Queue.{
  Block, Queue, has_room, has_item, x_queue_send, x_queue_send_to_front, x_queue_receive,
  ux_queue_messages_waiting,
}
use micro_tech.Sim.Freertos.Queue.Refine.{put_list}

-- The looks of the tasks' calls at one queue, in the order in which they hold the lock. A call has its
-- time-out; one that waits looks again when its wait ends.
pub data QueueCall : Type 0 where
  send : Block → ℕ → Look Queue → QueueCall
  send_to_front : Block → ℕ → Look Queue → QueueCall
  receive : ℕ → Look Queue → QueueCall
  messages_waiting : QueueCall

pub data QueueReply : Type 0 where
  sent : Bool → QueueReply
  received : Option Block → QueueReply
  number : ℕ → QueueReply
  still_waits : QueueReply

abbrev pub outcome_state {ℓ} : {S : Type ℓ} {R : Type 0} → Outcome S R → S
outcome_state (returned r s) = s
outcome_state (blocked s) = s

abbrev pub sent_reply : Outcome Queue Bool → QueueReply
sent_reply (returned r s) = sent r
sent_reply (blocked s) = still_waits

abbrev pub received_reply : Outcome Queue (Option Block) → QueueReply
received_reply (returned r s) = received r
received_reply (blocked s) = still_waits

unfoldable pub run_calls : Queue → List QueueCall → List QueueReply
run_calls q [] = []
run_calls q (send item timeout look ∷ calls) =
    let o = x_queue_send item timeout (start_of look q) (wakes_of look q) in
    sent_reply o ∷ run_calls (outcome_state o) calls
run_calls q (send_to_front item timeout look ∷ calls) =
    let o = x_queue_send_to_front item timeout (start_of look q) (wakes_of look q) in
    sent_reply o ∷ run_calls (outcome_state o) calls
run_calls q (receive timeout look ∷ calls) =
    let o = x_queue_receive timeout (start_of look q) (wakes_of look q) in
    received_reply o ∷ run_calls (outcome_state o) calls
run_calls q (messages_waiting ∷ calls) = number (ux_queue_messages_waiting q) ∷ run_calls q calls

-- The calls that look again have found the queue full, or empty for a receive, and have a time-out.
abbrev pub AllMustWait : List QueueCall → Type 0
AllMustWait [] = Unit
AllMustWait (send item timeout look ∷ calls) = MustWait has_room timeout look × AllMustWait calls
AllMustWait (send_to_front item timeout look ∷ calls) =
    MustWait has_room timeout look × AllMustWait calls
AllMustWait (receive timeout look ∷ calls) = MustWait has_item timeout look × AllMustWait calls
AllMustWait (messages_waiting ∷ calls) = AllMustWait calls

-- A send on a list, by its result: the reply, and the replies that follow.
abbrev pub list_send : Option Bool → List QueueReply → List QueueReply → List QueueReply
list_send none same changed = still_waits ∷ same
list_send (some true) same changed = sent true ∷ changed
list_send (some false) same changed = sent false ∷ same

abbrev pub list_receive :
    Option Bool → Option Block → List QueueReply → List QueueReply → List QueueReply
list_receive none x same changed = still_waits ∷ same
list_receive (some true) x same changed = received x ∷ changed
list_receive (some false) x same changed = received none ∷ same

-- The same on a list of at most `capacity` items.
unfoldable pub run_list : ℕ → List Block → List QueueCall → List QueueReply
run_list capacity xs [] = []
run_list capacity xs (send item timeout look ∷ calls) =
    list_send (look_result (gives_up timeout look) (not (length xs == capacity)) timeout)
      (run_list capacity xs calls) (run_list capacity (put_list false item xs) calls)
run_list capacity xs (send_to_front item timeout look ∷ calls) =
    list_send (look_result (gives_up timeout look) (not (length xs == capacity)) timeout)
      (run_list capacity xs calls) (run_list capacity (put_list true item xs) calls)
run_list capacity [] (receive timeout look ∷ calls) =
    list_receive (look_result (gives_up timeout look) false timeout) none
      (run_list capacity [] calls) (run_list capacity [] calls)
run_list capacity (x ∷ xs) (receive timeout look ∷ calls) =
    list_receive (look_result (gives_up timeout look) true timeout) (some x)
      (run_list capacity (x ∷ xs) calls) (run_list capacity xs calls)
run_list capacity xs (messages_waiting ∷ calls) = number (length xs) ∷ run_list capacity xs calls
