-- ===== src/Sim/Freertos/Semaphore.antt =====
-- sim/ports/sim_freertos.c: the semaphores. A thread is a number.
use micro_tech.Prelude.{
  ℕ, ◌+◌, ◌-◌, ◌%◌, ◌^◌, ◌<◌, ◌≤◌, ◌≡◌, refl, ap, ◌∙◌, Bool, true, false, not, ◌&&◌, ◌||◌, Option,
  none, some, List, [], ◌∷◌, length, ltb, ◌==◌, if◌then◌else◌, arith,
}
use micro_tech.Sim.Freertos.Wait.{
  Look, made, after_wake, after_expiry, start_of, wakes_of, port_max_delay, Wake, ready, timed_out,
  waiting, wait_loop, Outcome, returned, blocked,
}

-- `host_semaphore`, the lock and the condition aside.
pub record Semaphore : Type 0 where
  pub available : Bool
  pub recursive : Bool
  pub owner : ℕ
  pub hold_count : ℕ

-- `_semaphore_create`, once its storage, its lock and its condition are there.
abbrev pub create_semaphore : Bool → Bool → Semaphore
create_semaphore available recursive = record {
  available = available;
  recursive = recursive;
  owner = 0;
  hold_count = 0;
}

module _ (self : ℕ) where
  -- The end of `_semaphore_take`, with the semaphore available.
  abbrev pub acquire : Bool → Semaphore → Semaphore
  acquire recursive s =
      if recursive && s.recursive
      then record s { available = false; owner = self; hold_count = 1 }
      else record s { available = false }

  -- `_semaphore_take` by the thread `self`.
  unfoldable pub semaphore_take :
      Bool → ℕ → Semaphore → List (Wake Semaphore) → Outcome Semaphore Bool
  semaphore_take recursive timeout s wakes =
      let waited : Outcome Semaphore Bool = elim (wait_loop (λ s. s.available) timeout s wakes) [
        | ready t ↦ returned true (acquire recursive t)
        | timed_out t ↦ returned false t
        | waiting t ↦ blocked t
      ] in
      if recursive && s.recursive && ltb 0 s.hold_count && (s.owner == self)
      then returned true (record s { hold_count = (s.hold_count + 1) % 2 ^ 32 })
      else waited

  -- `_semaphore_give` by the thread `self`: the result, and the semaphore.
  unfoldable pub semaphore_give : Bool → Semaphore → Bool × Semaphore
  semaphore_give recursive s =
      let s' = record s { hold_count = s.hold_count - 1 } in
      if recursive && s.recursive
      then (if (s.hold_count == 0) || not (s.owner == self)
          then (false, s)
          else if ltb 0 s'.hold_count
          then (true, s')
          else (true, record s' { available = true }))
      else (true, record s { available = true })

-- The looks of the threads' calls at a recursive mutex, in the order in which they hold its lock. A
-- take has its time-out, and looks again when a wait ends.
pub data MutexCall : Type 0 where
  take_recursive : ℕ → ℕ → Look Semaphore → MutexCall
  give_recursive : ℕ → MutexCall

-- Who holds a mutex, and how often.
abbrev pub Holder : Type 0
Holder = Option (ℕ × ℕ)

unfoldable pub holder : Semaphore → Holder
holder s = if s.available then none else some (s.owner, s.hold_count)

pub record IsMutex (s : Semaphore) : Type 0 where
  pub is_recursive : s.recursive ≡ true
  pub held : s.available ≡ (s.hold_count == 0)

-- The result of a call; `none` while it waits.
abbrev returned_value : Outcome Semaphore Bool → Option Bool
returned_value (returned r s) = some r
returned_value (blocked s) = none

abbrev state_of : Outcome Semaphore Bool → Semaphore
state_of (returned r s) = s
state_of (blocked s) = s

unfoldable pub run_mutex : Semaphore → List MutexCall → List (Option Bool)
run_mutex s [] = []
run_mutex s (take_recursive t timeout look ∷ calls) =
    let o = semaphore_take t true timeout (start_of look s) (wakes_of look s) in
    returned_value o ∷ run_mutex (state_of o) calls
run_mutex s (give_recursive t ∷ calls) =
    let (r, s') = semaphore_give t true s in some r ∷ run_mutex s' calls

-- A take that waits has a time-out, and has found the mutex held, but not by its own thread.
abbrev pub WaitsFor : ℕ → ℕ → Look Semaphore → Type 0
WaitsFor t timeout made = Unit
WaitsFor t timeout (after_wake before) =
    (before.available ≡ false)
    × ((timeout == 0) ≡ false)
    × ((ltb 0 before.hold_count && before.owner == t) ≡ false)
WaitsFor t timeout (after_expiry before) =
    (before.available ≡ false)
    × ((timeout == 0) ≡ false)
    × ((ltb 0 before.hold_count && before.owner == t) ≡ false)

abbrev pub AllWaitFor : List MutexCall → Type 0
AllWaitFor [] = Unit
AllWaitFor (take_recursive t timeout look ∷ calls) = WaitsFor t timeout look × AllWaitFor calls
AllWaitFor (give_recursive t ∷ calls) = AllWaitFor calls

-- A recursive mutex as it should be: a thread gets it when nobody or the thread itself holds it, and
-- gives it back as often as it has got it. A call that finds it held by another thread has no success
-- if its time-out is 0, and waits otherwise (`none`); a wait that ends goes on or gives up.
abbrev pub held_by_other : ℕ → Holder → Option Bool × Holder
held_by_other timeout h = (if timeout == 0 then some false else none, h)

abbrev pub take_by : ℕ → ℕ → Look Semaphore → Holder → Option Bool × Holder
take_by t timeout made none = (some true, some (t, 1))
take_by t timeout made (some (owner, depth)) =
    if owner == t
    then (some true, some (owner, depth + 1))
    else held_by_other timeout (some (owner, depth))
take_by t timeout (after_wake before) none = (some true, some (t, 1))
take_by t timeout (after_wake before) (some h) = (none, some h)
take_by t timeout (after_expiry before) h =
    if not (timeout == port_max_delay)
    then (some false, h)
    else elim h [ none ↦ (some true, some (t, 1)) | some g ↦ (none, some g) ]

abbrev pub give_by : ℕ → Holder → Bool × Holder
give_by t none = (false, none)
give_by t (some (owner, depth)) =
    if owner == t
    then (true, if depth == 1 then none else some (owner, depth - 1))
    else (false, some (owner, depth))

unfoldable pub run_holder : Holder → List MutexCall → List (Option Bool)
run_holder h [] = []
run_holder h (take_recursive t timeout look ∷ calls) =
    let (r, h') = take_by t timeout look h in r ∷ run_holder h' calls
run_holder h (give_recursive t ∷ calls) = let (r, h') = give_by t h in some r ∷ run_holder h' calls

module _ (t : ℕ) (s : Semaphore) (v : IsMutex s) where
  take_lem :
      (timeout : ℕ) (look : Look Semaphore)
      → WaitsFor t timeout look
      → s.hold_count + 1 < 2 ^ 32
      → let o = semaphore_take t true timeout (start_of look s) (wakes_of look s) in
        ((returned_value o, holder (state_of o)) ≡ take_by t timeout look (holder s))
        × IsMutex (state_of o)
        × ((state_of o).hold_count ≤ s.hold_count + 1)
  unfolding semaphore_take wait_loop holder
  take_lem timeout made w small = ground (arith, v.is_recursive, v.held)
  take_lem timeout (after_wake before) w small = ground (arith, v.is_recursive, v.held, w)
  take_lem timeout (after_expiry before) w small = ground (arith, v.is_recursive, v.held, w)

  give_lem :
      let (r, s') = semaphore_give t true s in
      ((r, holder s') ≡ give_by t (holder s)) × IsMutex s' × (s'.hold_count ≤ s.hold_count)
  unfolding semaphore_give holder
  give_lem = ground (arith, v.is_recursive, v.held)

-- With recursive calls only, with any time-outs and in whatever order the calls get the lock and their
-- waits end, a recursive mutex answers each look as a mutex should: it is held by one thread at a time,
-- that thread gets it again, and it is free again when that thread has given it back as often as it
-- got it; another thread's take waits or fails, and one whose wait ends by the time-out fails, even if
-- the mutex is free. The depth stays below 2 ^ 32, where its counter would wrap.
pub mutex_run_refines :
    (calls : List MutexCall) (s : Semaphore)
    → IsMutex s
    → AllWaitFor calls
    → s.hold_count + length calls < 2 ^ 32
    → run_mutex s calls ≡ run_holder (holder s) calls
unfolding run_mutex run_holder
mutex_run_refines [] s v all small = refl
mutex_run_refines (take_recursive t timeout look ∷ calls) s v (w, all) small =
    let (e, u, d) = take_lem t s v timeout look w (omega (arith, small)) in
    let s' = state_of (semaphore_take t true timeout (start_of look s) (wakes_of look s)) in
    ap (λ (p : Option Bool × Holder). p.0 ∷ run_mutex s' calls) e
    ∙ ap (λ (rs : List (Option Bool)). (take_by t timeout look (holder s)).0 ∷ rs)
        (mutex_run_refines calls s' u all (omega (arith, small, d))
          ∙ ap (λ (p : Option Bool × Holder). run_holder p.1 calls) e)
mutex_run_refines (give_recursive t ∷ calls) s v all small =
    let (e, u, d) = give_lem t s v in
    let s' = (semaphore_give t true s).1 in
    ap (λ (p : Bool × Holder). some p.0 ∷ run_mutex s' calls) e
    ∙ ap (λ (rs : List (Option Bool)). some (give_by t (holder s)).0 ∷ rs)
        (mutex_run_refines calls s' u all (omega (arith, small, d))
          ∙ ap (λ (p : Bool × Holder). run_holder p.1 calls) e)
