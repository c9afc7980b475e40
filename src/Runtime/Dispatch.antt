-- ===== src/Runtime/Dispatch.antt =====
-- main/app_runtime.c: `_app_runtime_ui_dispatch_depth`.
use micro_tech.Prelude.{ℕ, ◌+◌, ◌-◌, ◌≤◌, ◌⊎◌, arith, ltb, if◌then◌else◌}

-- APP_RUNTIME_UI_DISPATCH_RESERVE
abbrev pub ui_dispatch_reserve : ℕ
ui_dispatch_reserve = 4

-- From CONFIG_APP_MANAGER_MAILBOX_CAPACITY and EVENT_BUS_MAX_PENDING_UI_BATCHES.
unfoldable pub ui_dispatch_depth : ℕ → ℕ → ℕ
ui_dispatch_depth capacity max_batches =
    let depth = if ltb ui_dispatch_reserve capacity then capacity - ui_dispatch_reserve else 1 in
    if ltb depth max_batches then depth else max_batches

-- Where the event bus allows a batch at all, the depth is at least one batch and no more than the
-- bus allows; and it leaves the reserve in the mailbox, if the mailbox is larger than the reserve.
pub ui_dispatch_depth-bounds :
    (capacity max_batches : ℕ)
    → 1 ≤ max_batches
    → (1 ≤ ui_dispatch_depth capacity max_batches)
      × (ui_dispatch_depth capacity max_batches ≤ max_batches)
      × ((capacity ≤ ui_dispatch_reserve)
          ⊎ (ui_dispatch_depth capacity max_batches + ui_dispatch_reserve ≤ capacity))
unfolding ui_dispatch_depth
ui_dispatch_depth-bounds capacity max_batches h = ground arith
