-- ===== src/Sim/Freertos/Registry.antt =====
-- sim/ports/sim_freertos.c: the table of the tasks. A task handle is a number, and the table a function
-- from its indices; `none` is NULL.
pub mod Removal
pub mod Table
use micro_tech.Prelude.{
  ℕ, zero, suc, ◌+◌, ◌-◌, ◌<◌, ◌≤◌, ◌≡◌, ◌≢◌, ◌↔◌, ◌⊎◌, inl, inr, refl, ap, ◌∙◌, sym, Bool, true,
  false, Option, none, some, List, [], ◌∷◌, subst, ltb, ◌==◌, if◌then◌else◌, write_at, arith,
  Bool-cases, ==_iff,
}

-- SIM_FREERTOS_MAX_TASKS
abbrev pub max_tasks : ℕ
max_tasks = 32

pub record Registry : Type 0 where
  pub tasks : ℕ → Option ℕ
  pub task_count : ℕ

unfoldable pub registry_add : ℕ → Registry → Registry
registry_add task r =
    if ltb r.task_count max_tasks
    then record { tasks = write_at r.task_count (some task) r.tasks; task_count = r.task_count + 1 }
    else r

abbrev pub is_task : Option ℕ → ℕ → Bool
is_task none task = false
is_task (some t) task = t == task

-- The index at which the loop of `_registry_remove` stops, if it does, from `i` on with `left` to go.
unfoldable pub index_of : (ℕ → Option ℕ) → ℕ → ℕ → ℕ → Option ℕ
index_of tasks task zero i = none
index_of tasks task (suc left) i =
    let rest = index_of tasks task left (i + 1) in if is_task (tasks i) task then some i else rest

-- The body of the `if` in that loop.
abbrev pub remove_at : ℕ → Registry → Registry
remove_at i r =
    let last = r.task_count - 1 in
    record { tasks = write_at last none (write_at i (r.tasks last) r.tasks); task_count = last }

abbrev pub remove_found : Option ℕ → Registry → Registry
remove_found none r = r
remove_found (some i) r = remove_at i r

unfoldable pub registry_remove : ℕ → Registry → Registry
registry_remove task r = remove_found (index_of r.tasks task r.task_count 0) r

-- The task stands in the table.
abbrev pub IsListed : ℕ → Registry → Type 0
IsListed task r = (i : ℕ) × (i < r.task_count) × (r.tasks i ≡ some task)

-- No task stands in the table twice.
pub record IsValid (r : Registry) : Type 0 where
  pub fits : r.task_count ≤ max_tasks
  pub once :
      (i j task : ℕ)
      → i < r.task_count
      → j < r.task_count
      → r.tasks i ≡ some task
      → r.tasks j ≡ some task
      → i ≡ j

-- What has become of the tasks, the last first.
pub data TaskEvent : Type 0 where
  started : ℕ → TaskEvent
  ended : ℕ → TaskEvent

unfoldable pub table : List TaskEvent → Registry
table [] = record { tasks = λ i. none; task_count = 0 }
table (started task ∷ before) = registry_add task (table before)
table (ended task ∷ before) = registry_remove task (table before)

-- The task has been started and has not ended since.
abbrev pub IsLive : ℕ → List TaskEvent → Type 0
IsLive u [] = ⊥
IsLive u (started task ∷ before) = IsLive u before ⊎ (u ≡ task)
IsLive u (ended task ∷ before) = IsLive u before × (u ≢ task)

-- No task is started while it is live, nor while the table is full.
abbrev pub IsOrderly : List TaskEvent → Type 0
IsOrderly [] = Unit
IsOrderly (started task ∷ before) =
    IsOrderly before × (IsLive task before → ⊥) × ((table before).task_count < max_tasks)
IsOrderly (ended task ∷ before) = IsOrderly before
