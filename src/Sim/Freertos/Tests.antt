-- ===== src/Sim/Freertos/Tests.antt =====
-- The objects that tasks share, on concrete data.
use micro_tech.Prelude.{◌≡◌, refl, true, false, some, List, [], ◌∷◌, arith}
use micro_tech.Sim.Freertos.Wait.{made, after_wake, after_expiry, wait_loop}
use micro_tech.Sim.Freertos.Queue.{
  Queue, queue_send, put_item, take_item, x_queue_receive, x_queue_send, x_queue_send_to_front,
}
use micro_tech.Sim.Freertos.Queue.Contents.{IsValid, contents}
use micro_tech.Sim.Freertos.Queue.Run.{
  QueueCall, send, send_to_front, receive, messages_waiting, sent, received, number, still_waits,
  run_calls, run_list,
}
use micro_tech.Sim.Freertos.Queue.Calls.{queue_run_refines}
use micro_tech.Sim.Freertos.Semaphore.{
  MutexCall, Semaphore, create_semaphore, take_recursive, give_recursive, holder, run_mutex,
  run_holder, mutex_run_refines,
}
use micro_tech.Sim.Freertos.Registry
use micro_tech.Sim.Freertos.Registry.{registry_remove, index_of, started, ended, TaskEvent}

-- A queue of two, whose items go round the end of the buffer.
abbrev full_queue : Queue
full_queue = record {
  items = λ i. i ∷ [];
  item_size = 1;
  capacity = 2;
  head = 1;
  tail = 1;
  count = 2;
}

full_queue-IsValid : IsValid full_queue
full_queue-IsValid = record {
  not_empty = omega arith;
  tail_in = omega arith;
  count_in = omega arith;
  head_at = refl;
}

-- A send finds the queue full and waits; it looks again after a receive, and another one gives up.
abbrev some_calls : List QueueCall
some_calls =
    send (7 ∷ []) 50 made
    ∷ receive 0 made
    ∷ send (7 ∷ []) 50 (after_wake full_queue)
    ∷ send (8 ∷ []) 0 made
    ∷ send (6 ∷ []) 20 (after_expiry full_queue)
    ∷ receive 9 made
    ∷ send_to_front (9 ∷ []) 0 made
    ∷ receive 0 made
    ∷ messages_waiting
    ∷ []

calls_run :
    run_calls full_queue some_calls
    ≡ still_waits
      ∷ received (some (1 ∷ []))
      ∷ sent true
      ∷ sent false
      ∷ sent false
      ∷ received (some (0 ∷ []))
      ∷ sent true
      ∷ received (some (9 ∷ []))
      ∷ number 1
      ∷ []
unfolding run_calls x_queue_send x_queue_send_to_front x_queue_receive queue_send put_item take_item
    wait_loop
calls_run = refl

queue_run_refines_example :
    run_calls full_queue some_calls ≡ run_list 2 (contents full_queue) some_calls
queue_run_refines_example =
    queue_run_refines some_calls full_queue full_queue-IsValid
      (tt, (tt, ((refl, refl), (tt, ((refl, refl), (tt, (tt, (tt, tt))))))))

abbrev drained : Queue
drained = (take_item full_queue).1

abbrev new_mutex : Semaphore
new_mutex = create_semaphore true true

abbrev held_mutex : Semaphore
held_mutex = record new_mutex { available = false; owner = 3; hold_count = 2 }

-- Thread 3 takes the mutex twice; thread 4 waits for it, in vain at first.
abbrev mutex_calls : List MutexCall
mutex_calls =
    take_recursive 3 0 made
    ∷ take_recursive 3 9 made
    ∷ take_recursive 4 9 made
    ∷ give_recursive 3
    ∷ take_recursive 4 9 (after_wake held_mutex)
    ∷ give_recursive 3
    ∷ take_recursive 5 7 (after_expiry held_mutex)
    ∷ take_recursive 4 9 (after_wake held_mutex)
    ∷ []

mutex_run_refines_example :
    run_mutex new_mutex mutex_calls ≡ run_holder (holder new_mutex) mutex_calls
mutex_run_refines_example =
    mutex_run_refines mutex_calls new_mutex (record { is_recursive = refl; held = refl })
      (tt, (tt, (tt, ((refl, refl, refl), ((refl, refl, refl), ((refl, refl, refl), tt))))))
      (omega arith)

-- Three tasks, of which the first ends: the last one takes its place in the table.
abbrev some_events : List TaskEvent
some_events = ended 1 ∷ started 3 ∷ started 2 ∷ started 1 ∷ []
