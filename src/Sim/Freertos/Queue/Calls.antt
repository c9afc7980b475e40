-- ===== src/Sim/Freertos/Queue/Calls.antt =====
-- The calls on a queue, as the tasks see them.
use micro_tech.Prelude.{
  ℕ, ◌<◌, ◌≡◌, refl, ap, ap₂, ◌∙◌, Bool, true, false, not, Option, none, some, List, [], ◌∷◌,
  length, ◌==◌, arith, Bool-cases, inl, inr, ==_iff,
}
use micro_tech.Sim.Freertos.Wait.{
  ready, timed_out, waiting, Outcome, returned, blocked, Look, start_of, wakes_of, gives_up,
  look_result, waited, MustWait, wait_loop-look,
}
use micro_tech.Sim.Freertos.Queue.{
  Block, Queue, put_item, take_item, has_room, has_item, queue_send, x_queue_send,
  x_queue_send_to_front, x_queue_receive, Resources, queue_fill,
}
use micro_tech.Sim.Freertos.Queue.Contents.{contents, IsValid}
use micro_tech.Sim.Freertos.Queue.Refine.{
  put_list, put_item-contents, put_item-IsValid, take_item-contents, take_item-IsValid,
  length-contents,
}
use micro_tech.Sim.Freertos.Queue.Run.{
  QueueCall, send, send_to_front, receive, messages_waiting, QueueReply, sent, received,
  still_waits, outcome_state, sent_reply, received_reply, run_calls, run_list, AllMustWait,
  list_send, list_receive,
}

abbrev send_outcome : Option Bool → Bool → Block → Queue → Outcome Queue Bool
send_outcome none front item q = blocked q
send_outcome (some true) front item q = returned true (put_item front item q)
send_outcome (some false) front item q = returned false q

send_now :
    (front : Bool) (item : Block) (timeout : ℕ) (look : Look Queue) (q : Queue)
    → MustWait has_room timeout look
    → queue_send front item timeout (start_of look q) (wakes_of look q)
      ≡ send_outcome (look_result (gives_up timeout look) (has_room q) timeout) front item q
unfolding queue_send
send_now front item timeout look q w =
    rw (wait_loop-look has_room timeout look q w, queue_send)
      (cases (look_result (gives_up timeout look) (has_room q) timeout))
  where
    cases :
        (o : Option Bool)
        → (elim (waited o q) as (λ _. Outcome Queue Bool) [
          | ready s ↦ returned true (put_item front item s)
          | timed_out s ↦ returned false s
          | waiting s ↦ blocked s
        ])
          ≡ send_outcome o front item q
    cases none = refl
    cases (some true) = refl
    cases (some false) = refl

abbrev receive_outcome : Option Bool → Queue → Outcome Queue (Option Block)
receive_outcome none q = blocked q
receive_outcome (some true) q = returned (some (take_item q).0) (take_item q).1
receive_outcome (some false) q = returned none q

receive_now :
    (timeout : ℕ) (look : Look Queue) (q : Queue)
    → MustWait has_item timeout look
    → x_queue_receive timeout (start_of look q) (wakes_of look q)
      ≡ receive_outcome (look_result (gives_up timeout look) (has_item q) timeout) q
unfolding x_queue_receive
receive_now timeout look q w =
    rw (wait_loop-look has_item timeout look q w, x_queue_receive)
      (cases (look_result (gives_up timeout look) (has_item q) timeout))
  where
    cases :
        (o : Option Bool)
        → (elim (waited o q) as (λ _. Outcome Queue (Option Block)) [
          | ready s ↦ let (item, s') = take_item s in returned (some item) s'
          | timed_out s ↦ returned none s
          | waiting s ↦ blocked s
        ])
          ≡ receive_outcome o q
    cases none = refl
    cases (some true) = refl
    cases (some false) = refl

look_result-true :
    (up test : Bool) (timeout : ℕ) → look_result up test timeout ≡ some true → test ≡ true
look_result-true up test timeout h = ground arith

capacity-put_item :
    (front : Bool) (item : Block) (q : Queue) → (put_item front item q).capacity ≡ q.capacity
unfolding put_item
capacity-put_item true item q = refl
capacity-put_item false item q = refl

capacity-take_item : (q : Queue) → (take_item q).1.capacity ≡ q.capacity
unfolding take_item
capacity-take_item q = refl

nil_of_length : (xs : List Block) → length xs ≡ 0 → xs ≡ []
nil_of_length [] h = refl
nil_of_length (x ∷ xs) h = absurd (omega (arith, h))

-- `calls` stands for the calls that follow, of which the refinement holds.
module _ (calls : List QueueCall) (q : Queue) (v : IsValid q)
    (later : (q' : Queue)
      → IsValid q'
      → run_calls q' calls ≡ run_list q'.capacity (contents q') calls) where
  later_at :
      (q' : Queue) (c : ℕ) (xs : List Block)
      → IsValid q'
      → q'.capacity ≡ c
      → contents q' ≡ xs
      → run_calls q' calls ≡ run_list c xs calls
  later_at q' c xs v' e f = later q' v' ∙ ap₂ (λ (c : ℕ) (xs : List Block). run_list c xs calls) e f

  send_refines :
      (front : Bool) (item : Block) (timeout : ℕ) (look : Look Queue)
      → MustWait has_room timeout look
      → let o = queue_send front item timeout (start_of look q) (wakes_of look q) in
        sent_reply o ∷ run_calls (outcome_state o) calls
        ≡ list_send
            (look_result (gives_up timeout look) (not (length (contents q) == q.capacity)) timeout)
            (run_list q.capacity (contents q) calls)
            (run_list q.capacity (put_list front item (contents q)) calls)
  send_refines front item timeout look w =
      rw (length-contents q, send_now front item timeout look q w)
        (cases (look_result (gives_up timeout look) (has_room q) timeout)
          (λ h. look_result-true (gives_up timeout look) (has_room q) timeout h))
    where
      cases :
          (r : Option Bool)
          → (r ≡ some true → has_room q ≡ true)
          → let o = send_outcome r front item q in
            sent_reply o ∷ run_calls (outcome_state o) calls
            ≡ list_send r
                (run_list q.capacity (contents q) calls)
                (run_list q.capacity (put_list front item (contents q)) calls)
      cases none room = ap (λ (rs : List QueueReply). still_waits ∷ rs) (later q v)
      cases (some true) room =
          let less : q.count < q.capacity = ground (arith, v.count_in, room refl) in
          ap (λ (rs : List QueueReply). sent true ∷ rs)
            (later_at (put_item front item q) q.capacity (put_list front item (contents q))
              (put_item-IsValid front item q v less) (capacity-put_item front item q)
              (put_item-contents front item q v less))
      cases (some false) room = ap (λ (rs : List QueueReply). sent false ∷ rs) (later q v)

  receive_refines :
      (timeout : ℕ) (look : Look Queue)
      → MustWait has_item timeout look
      → let o = x_queue_receive timeout (start_of look q) (wakes_of look q) in
        received_reply o ∷ run_calls (outcome_state o) calls
        ≡ run_list q.capacity (contents q) (receive timeout look ∷ calls)
  unfolding run_list
  receive_refines timeout look w = elim (Bool-cases (q.count == 0)) [
    | inl none_left ↦
        let empty : contents q ≡ [] =
          nil_of_length (contents q)
            (omega (arith, length-contents q, (==_iff q.count 0).0 none_left)) in
        rw (receive_now timeout look q w, none_left, empty)
          (on_empty (look_result (gives_up timeout look) false timeout) empty
            (λ h. look_result-true (gives_up timeout look) false timeout h))
    | inr some_left ↦
        let pos : 0 < q.count = ground arith in
        rw (receive_now timeout look q w, some_left, take_item-contents q v pos)
          (on_items (look_result (gives_up timeout look) true timeout) pos)
  ]
    where
      on_empty :
          (r : Option Bool)
          → contents q ≡ []
          → (r ≡ some true → false ≡ true)
          → let o = receive_outcome r q in
            received_reply o ∷ run_calls (outcome_state o) calls
            ≡ list_receive r none (run_list q.capacity [] calls) (run_list q.capacity [] calls)
      on_empty none e h =
          ap (λ (rs : List QueueReply). still_waits ∷ rs) (later_at q q.capacity [] v refl e)
      on_empty (some true) e h = cc (h refl)
      on_empty (some false) e h =
          ap (λ (rs : List QueueReply). received none ∷ rs) (later_at q q.capacity [] v refl e)

      on_items :
          (r : Option Bool)
          → 0 < q.count
          → let o = receive_outcome r q in
            let x = (take_item q).0 in
            let rest = contents (take_item q).1 in
            received_reply o ∷ run_calls (outcome_state o) calls
            ≡ list_receive r
                (some x)
                (run_list q.capacity (x ∷ rest) calls)
                (run_list q.capacity rest calls)
      on_items none pos =
          ap (λ (rs : List QueueReply). still_waits ∷ rs)
            (later_at q q.capacity _ v refl (take_item-contents q v pos))
      on_items (some true) pos =
          ap (λ (rs : List QueueReply). received (some (take_item q).0) ∷ rs)
            (later_at (take_item q).1 q.capacity (contents (take_item q).1)
              (take_item-IsValid q v pos) (capacity-take_item q) refl)
      on_items (some false) pos =
          ap (λ (rs : List QueueReply). received none ∷ rs)
            (later_at q q.capacity _ v refl (take_item-contents q v pos))

-- Whatever calls the tasks make, with any time-outs, and in whatever order they get the lock and their
-- waits end, no reply tells a valid queue from a list of at most `capacity` items. A look that ends by
-- the time-out gives false, or no item, and changes nothing, even if there is room or an item.
-- Otherwise a send adds its item at the back or at the front if there is room, and a receive takes
-- the oldest item if there is one; if not, a call with the time-out 0 gives false or no item, and
-- another one waits.
pub queue_run_refines :
    (calls : List QueueCall) (q : Queue)
    → IsValid q
    → AllMustWait calls
    → run_calls q calls ≡ run_list q.capacity (contents q) calls
unfolding run_calls run_list x_queue_send x_queue_send_to_front
queue_run_refines [] q v all = refl
queue_run_refines (send item timeout look ∷ calls) q v (w, all) =
    send_refines calls q v (λ q' v'. queue_run_refines calls q' v' all) false item timeout look w
queue_run_refines (send_to_front item timeout look ∷ calls) q v (w, all) =
    send_refines calls q v (λ q' v'. queue_run_refines calls q' v' all) true item timeout look w
queue_run_refines (receive timeout look ∷ calls) q v (w, all) =
    receive_refines calls q v (λ q' v'. queue_run_refines calls q' v' all) timeout look w
queue_run_refines (messages_waiting ∷ calls) q v all =
    rw (length-contents q, queue_run_refines calls q v all)

-- A new queue is valid and empty.
queue_fill-IsValid :
    (size item_size : ℕ) (r : Resources) (q : Queue)
    → queue_fill size item_size r ≡ some q
    → IsValid q × (q.count ≡ 0)
unfolding queue_fill
queue_fill-IsValid size item_size r q h = ground arith
