-- ===== src/Sim/Freertos/Queue/Refine.antt =====
-- A queue behaves as the bounded list of the items that it holds.
use micro_tech.Prelude.{
  ℕ, suc, ◌+◌, ◌-◌, ◌%◌, ◌<◌, ◌≡◌, ap, ap₂, ◌∙◌, sym, Bool, true, false, List, [], ◌∷◌, ◌++◌,
  length, write_at, arith,
}
use micro_tech.Sim.Freertos.Queue.{Block, Queue, put_item, take_item}
use micro_tech.Sim.Freertos.Queue.Contents.{
  place, items_from, contents, IsValid, length-items_from, next_index, previous_index,
  items_from-write_at, items_from_snoc, items_from-next, items_from_pos,
}

module _ (item : Block) (q : Queue) (v : IsValid q) (room : q.count < q.capacity) where
  put_back-contents : contents (put_item false item q) ≡ contents q ++ (item ∷ [])
  unfolding contents put_item
  put_back-contents =
      let e : q.count + 1 ≡ suc q.count = omega arith in
      let z : 0 + q.count ≡ q.count = omega arith in
      rw
        (
          e,
          items_from_snoc (write_at q.head item q.items) q.capacity q.tail 0 q.count,
          items_from-write_at q.items q.capacity q.tail q.head 0 q.count item v.tail_in
              (omega arith) (λ j lo hi. ground (arith, v.head_at, v.tail_in)),
          z,
        )
        (ground (arith, v.head_at))

  put_back-IsValid : IsValid (put_item false item q)
  unfolding put_item
  put_back-IsValid = record {
    not_empty = v.not_empty;
    tail_in = v.tail_in;
    count_in = omega arith;
    head_at = ground (arith, v.head_at, v.tail_in, next_index q.capacity q.head);
  }

  abbrev front_index : ℕ
  front_index = (q.tail + q.capacity - 1) % q.capacity

  front_before : (q.tail ≡ place q.capacity front_index 1) × (front_index < q.capacity)
  front_before = ground (arith, previous_index q.capacity q.tail v.tail_in, v.tail_in)

  put_front-contents : contents (put_item true item q) ≡ item ∷ contents q
  unfolding contents put_item items_from
  put_front-contents =
      let f = write_at front_index item q.items in
      let e : q.count + 1 ≡ suc q.count = omega arith in
      let here : f (place q.capacity front_index 0) ≡ item = ground (arith, front_before) in
      let one : 0 + 1 ≡ 1 = omega arith in
      rw (e, items_from, here)
        (ap (λ (xs : List Block). item ∷ xs)
          (sym (
              items_from-next f q.capacity front_index q.tail 0 q.count front_before.1
                front_before.0 (omega arith))
            ∙ items_from-write_at q.items q.capacity q.tail front_index 0 q.count item v.tail_in
                (omega arith)
                (λ j lo hi. ground (arith, previous_index q.capacity q.tail v.tail_in, v.tail_in))))

  put_front-IsValid : IsValid (put_item true item q)
  unfolding put_item
  put_front-IsValid = record {
    not_empty = v.not_empty;
    tail_in = front_before.1;
    count_in = omega arith;
    head_at = ground (arith, v.head_at, v.tail_in, previous_index q.capacity q.tail v.tail_in);
  }

module _ (q : Queue) (v : IsValid q) (item : 0 < q.count) where
  pub take_item-contents : contents q ≡ (take_item q).0 ∷ contents (take_item q).1
  unfolding contents take_item
  take_item-contents =
      let first : q.items (place q.capacity q.tail 0) ≡ q.items q.tail =
        ap q.items (ground (arith, v.tail_in)) in
      let next : (q.tail + 1) % q.capacity ≡ place q.capacity q.tail 1 =
        ground (arith, v.tail_in, next_index q.capacity q.tail) in
      items_from_pos q.items q.capacity q.tail 0 q.count item
      ∙ ap₂ ◌∷◌ first (
          sym (
            items_from-next q.items q.capacity q.tail ((q.tail + 1) % q.capacity) 0 (q.count - 1)
              v.tail_in next (omega (arith, v.count_in))))

  pub take_item-IsValid : IsValid (take_item q).1
  unfolding take_item
  take_item-IsValid = record {
    not_empty = v.not_empty;
    tail_in = ground (arith, v.tail_in, next_index q.capacity q.tail);
    count_in = omega (arith, v.count_in);
    head_at = ground (arith, v.head_at, v.tail_in, v.count_in, next_index q.capacity q.tail);
  }

-- The same calls on the list, oldest item first.
abbrev pub put_list : Bool → Block → List Block → List Block
put_list true item xs = item ∷ xs
put_list false item xs = xs ++ (item ∷ [])

pub put_item-contents :
    (front : Bool) (item : Block) (q : Queue)
    → IsValid q
    → q.count < q.capacity
    → contents (put_item front item q) ≡ put_list front item (contents q)
put_item-contents true item q v room = put_front-contents item q v room
put_item-contents false item q v room = put_back-contents item q v room

pub put_item-IsValid :
    (front : Bool) (item : Block) (q : Queue)
    → IsValid q
    → q.count < q.capacity
    → IsValid (put_item front item q)
put_item-IsValid true item q v room = put_front-IsValid item q v room
put_item-IsValid false item q v room = put_back-IsValid item q v room

pub length-contents : (q : Queue) → length (contents q) ≡ q.count
unfolding contents
length-contents q = length-items_from q.items q.capacity q.tail 0 q.count
