-- ===== src/Sim/Freertos/Queue.antt =====
-- sim/ports/sim_freertos.c: the queues. An item is a block of `item_size` bytes, and the buffer is a
-- function from the index of a block to the block.
pub mod Contents
pub mod Refine
pub mod Run
pub mod Calls
pub mod Waits
use micro_tech.Prelude.{
  ℕ, ◌+◌, ◌-◌, ◌%◌, Bool, true, false, not, ◌&&◌, ◌||◌, Option, none, some, List, [], ◌∷◌, ◌==◌,
  if◌then◌else◌, write_at,
}
use micro_tech.Sim.Freertos.Wait.{
  Wake, Waited, ready, timed_out, waiting, wait_loop, Outcome, returned, blocked,
}

abbrev pub Block : Type 0
Block = List ℕ

-- `host_queue`, the lock and the conditions aside.
pub record Queue : Type 0 where
  pub items : ℕ → Block
  pub item_size : ℕ
  pub capacity : ℕ
  pub head : ℕ
  pub tail : ℕ
  pub count : ℕ

-- What the creation finds: the buffer, if it is given or can be allocated, and whether the lock and
-- the two conditions can be initialised.
pub record Resources : Type 0 where
  pub buffer : Option (ℕ → Block)
  pub lock : Bool
  pub not_empty : Bool
  pub not_full : Bool

-- `_queue_fill`; `none` is its false. What it gives back after an error is left out.
unfoldable pub queue_fill : ℕ → ℕ → Resources → Option Queue
queue_fill length item_size r = if length == 0 || item_size == 0 then none else elim r.buffer [
  | none ↦ none
  | some items ↦
      if not r.lock
      then none
      else if not r.not_empty
      then none
      else if not r.not_full
      then none
      else some (record {
        items = items;
        item_size = item_size;
        capacity = length;
        head = 0;
        tail = 0;
        count = 0;
      })
]

abbrev pub has_room : Queue → Bool
has_room q = not (q.count == q.capacity)

abbrev pub has_item : Queue → Bool
has_item q = not (q.count == 0)

-- The end of `_queue_send`, with room in the queue.
unfoldable pub put_item : Bool → Block → Queue → Queue
put_item front item q =
    let tail = (q.tail + q.capacity - 1) % q.capacity in
    if front
    then record q { items = write_at tail item q.items; tail = tail; count = q.count + 1 }
    else record q {
      items = write_at q.head item q.items;
      head = (q.head + 1) % q.capacity;
      count = q.count + 1;
    }

-- `_queue_send` on a queue, with an item; a NULL for either is refused at once.
unfoldable pub queue_send : Bool → Block → ℕ → Queue → List (Wake Queue) → Outcome Queue Bool
queue_send front item timeout q wakes = elim (wait_loop has_room timeout q wakes) [
  | ready s ↦ returned true (put_item front item s)
  | timed_out s ↦ returned false s
  | waiting s ↦ blocked s
]

unfoldable pub x_queue_send : Block → ℕ → Queue → List (Wake Queue) → Outcome Queue Bool
x_queue_send = queue_send false

unfoldable pub x_queue_send_to_front : Block → ℕ → Queue → List (Wake Queue) → Outcome Queue Bool
x_queue_send_to_front = queue_send true

-- The end of `xQueueReceive`, with an item in the queue: the item, and the queue.
unfoldable pub take_item : Queue → Block × Queue
take_item q = (q.items q.tail, record q { tail = (q.tail + 1) % q.capacity; count = q.count - 1 })

unfoldable pub x_queue_receive : ℕ → Queue → List (Wake Queue) → Outcome Queue (Option Block)
x_queue_receive timeout q wakes = elim (wait_loop has_item timeout q wakes) [
  | ready s ↦ let (item, s') = take_item s in returned (some item) s'
  | timed_out s ↦ returned none s
  | waiting s ↦ blocked s
]

abbrev pub ux_queue_messages_waiting : Queue → ℕ
ux_queue_messages_waiting q = q.count
