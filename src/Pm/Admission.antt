-- ===== src/Pm/Admission.antt =====
-- main/app_runtime_pm.c: standby admission. Any number of threads run
-- `_app_runtime_pm_request_standby`, and one thread closes and opens admission; their steps, one
-- access of a shared atomic each, interleave in any order. The store to `admitted` is a release and the
-- load of the counter an acquire: the load may come before other threads see the store, and may see
-- an older value of the counter. So a store is held back until a step of its own makes it visible to all
-- requesters, and a load of the counter may give any value. The requesters change the counter with
-- read-modify-write operations, which all take place in one order.
pub mod Safety
use micro_tech.Prelude.{ℕ, ◌+◌, ◌-◌, ◌%◌, ◌^◌, ◌≡◌, Bool, true, false, List, [], ◌∷◌, ◌++◌}

-- `s_standby_admitted` as the requesters see it, the stores to it that they do not see yet, the oldest
-- first, and `s_standby_request_users`, an `atomic_uint`.
pub record Shared : Type 0 where
  pub admitted : Bool
  pub unseen : List Bool
  pub users : ℕ

abbrev pub u32 : ℕ → ℕ
u32 n = n % 2 ^ 32

-- Where a requester stands. What it tests besides admission decides only whether it starts, so
-- `idle` is also a request that is refused there.
pub data Pc : Type 0 where
  idle : Pc
  loaded : Pc  -- has read `admitted` as true, before the increment
  counted : Pc  -- before the second read
  refused : Pc  -- has read false, before the decrement
  inside : Pc  -- in `system_pm_request_standby`, before the decrement

-- One step of a requester.
pub data Move (m : Shared) : Pc → Shared → Pc → Type 0 where
  look_open : m.admitted ≡ true → Move m idle m loaded
  look_closed : m.admitted ≡ false → Move m idle m idle
  enter : Move m loaded (record m { users = u32 (m.users + 1) }) counted
  recheck_open : m.admitted ≡ true → Move m counted m inside
  recheck_closed : m.admitted ≡ false → Move m counted m refused
  back_out : Move m refused (record m { users = u32 (m.users + 2 ^ 32 - 1) }) idle
  leave : Move m inside (record m { users = u32 (m.users + 2 ^ 32 - 1) }) idle

-- What the controlling thread has done last: opened admission, stored false and still waits, or
-- returned from `app_runtime_pm_close_admission`. The flag of `closed` says whether the load that
-- ended the wait saw the counter as it was, with the store visible to the requesters; the program
-- does not know it. The image starts with admission closed.
pub data Phase : Type 0 where
  running closing : Phase
  closed : Bool → Phase

-- A store of the controlling thread, which the requesters see later.
abbrev pub stored : Bool → Shared → Shared
stored b m = record m { unseen = m.unseen ++ b ∷ [] }

-- One step of the controlling thread; `poll` is one turn of the wait loop, on a load of any value,
-- and `done_early` the end of the wait on a load of 0 that is out of date or ahead of the store.
pub data Control (m : Shared) : Phase → Shared → Phase → Type 0 where
  close_running : Control m running (stored false m) closing
  close_again : (current : Bool) → Control m (closed current) (stored false m) closing
  poll : Control m closing m closing
  done : m.users ≡ 0 → m.unseen ≡ [] → Control m closing m (closed true)
  done_early : Control m closing m (closed false)
  open_admission : (current : Bool) → Control m (closed current) (stored true m) running

pub record System : Type 0 where
  pub mem : Shared
  pub phase : Phase
  pub threads : List Pc

pub data Step (s t : System) : Type 0 where
  request :
      (before after : List Pc) {p q : Pc}
      → s.threads ≡ before ++ p ∷ after
      → t.threads ≡ before ++ q ∷ after
      → t.phase ≡ s.phase
      → Move s.mem p t.mem q
      → Step s t
  appear :
      (b : Bool) (later_stores : List Bool)
      → s.mem.unseen ≡ b ∷ later_stores
      → t.mem ≡ record s.mem { admitted = b; unseen = later_stores }
      → t.threads ≡ s.threads
      → t.phase ≡ s.phase
      → Step s t
  control : t.threads ≡ s.threads → Control s.mem s.phase t.mem t.phase → Step s t

abbrev pub idle_threads : ℕ → List Pc
idle_threads ℕ.zero = []
idle_threads (ℕ.suc n) = idle ∷ idle_threads n

abbrev pub init : ℕ → System
init n = record {
  mem = record { admitted = false; unseen = []; users = 0 };
  phase = closed true;
  threads = idle_threads n;
}

pub data Reach (n : ℕ) : System → Type 0 where
  start : Reach n (init n)
  later : {s t : System} → Reach n s → Step s t → Reach n t
