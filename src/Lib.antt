-- ===== src/Lib.antt =====
-- MicroTech, firmware of a smart watch: the part that assembles the services, puts them to sleep and
-- takes them down again.
--
-- The program starts a few dozen services in a fixed order (main/app_runtime.c), rolls back when one
-- of them fails, and stops them in another order; a stop that fails can be tried again. While it
-- runs, system power management may put the device to sleep: main/app_runtime_pm.c then suspends the
-- services that take part in a sleep transaction, and resumes them afterwards. The runtime opens
-- and closes the gate for standby requests, and tells power management which services take part.
--
-- Files, and the code that they model:
--   Prelude: the library names, ESP-IDF error codes (Esp), and hosts (Host). A host stands for
--     everything outside the repository: it answers each call of a service from the whole history
--     of calls and answers, so a theorem about every host covers every behaviour of the services.
--   Pm.Context, Pm.Sleep: app_runtime_sleep_context_t, _app_runtime_pm_prepare_sleep and
--     _app_runtime_pm_complete_sleep. The blocks of the source, one for each participant, are
--     a function of the participant, and the order of the blocks is a list. Pm.Sleep.Pending says
--     who may be suspended after a history of calls; Complete, Calls, Prepare, Outcome and Safety
--     hold the proofs.
--   Pm.Admission: s_standby_admitted and s_standby_request_users, with the requesters in
--     _app_runtime_pm_request_standby and the thread in app_runtime_pm_close_admission, as a step
--     relation with one access of an atomic for each step. The orders of the source are release and
--     acquire, so a store becomes visible by a step of its own, to all requesters at once, and a load of the counter
--     by the closing thread may give any value; that the requesters' changes of the counter take place
--     in one order is what an atomic read-modify-write gives.
--   Pm.Wake: the wake sources of app_runtime_pm_build_system_config. The loop runs over 64 GPIO
--     numbers, by recursion on how many are left.
--   Pm.Bridge: the guards of standby, standby requests, and the registration of the app manager for
--     the board's keys.
--   Runtime.State, Runtime.Action: the static variables of app_runtime.c, and the forms of its
--     functions (statements in a row with early return, tests, calls) as actions that return an
--     error code and the new state. A subscription handle and a static pointer are modelled by
--     whether they are set. The local variable `result` is part of the state, since some functions
--     return it after an error that they tolerate.
--   Runtime.Stop: _app_runtime_unwind and its phases. Kept and Release show what the service phases
--     keep and clear, Attempt, Storage, Display and Foundations the phase that goes on after an
--     error, Unwind the outcome, Progress the case in which no call fails.
--   Runtime.Start: the phases of app_runtime_start. Accounts and Clear show what they keep.
--   Runtime.Lifecycle: app_runtime_start, app_runtime_stop, app_runtime_is_running, and the states
--     that any sequence of them leads to, each call with a host of its own.
--   Runtime.Dispatch: the depth of the queue for UI dispatches.
--   Runtime.Apps: the check of the apps that the product requires. The required ids, which the build
--     generates, and the builtin apps, which the app manager lists, are arguments.
--   Runtime.Rules, Runtime.Preserve: the rules by which actions are proved to keep a condition; the
--     rulesets let `search` prove it of a whole phase.
--   FsStorage: main/fs_storage/fs_storage.c. Probe shows what the search for a byte of content finds,
--     Mount and Safety which partitions are mounted. Wipe is _fs_storage_wipe_tree on a tree, and Left
--     shows what it leaves.
--   Network: main/network_runtime.c and main/p4_radio_runtime.c. Foundation is about the network's two
--     resources, Transport about the link to a radio on another chip.
--   Sim.Base64: mbedtls_base64_decode of sim/ports/sim_base64.c, the loop as a recursion on the text.
--     Digits holds its arithmetic, Decode the round trip, Bounds and Accepts what any input gives.
--   Sim.Nvs: sim/ports/sim_nvs.c. Sim.Nvs itself is _find, _set, _get and nvs_erase_key on the list of
--     records of one namespace; Values is the map that the list stands for, and Refine and Run show
--     that the operations are those of the map. Image is _store_flush and _load on the bytes of a file,
--     with RoundTrip and Durable. Handles has the stores, the slots and the functions of nvs.h; Counts,
--     Valid, Calls and Reach show that the counts are right, Open and Reopen what a handle gives
--     access to. Typed has the setters and getters for each type.
--   Sim.Freertos: the queues and semaphores of sim/ports/sim_freertos.c. Wait is the loop in which a
--     call waits: the wake-ups of a call are a list, each with the state that the other tasks have left
--     when the call gets the lock again. A run of calls is a list of their looks at the state, since a
--     call that waits acts at its last look only. Sizes and indices of a queue are `size_t`; its length
--     is 32 bits wide, so that no sum of two of them wraps. Queue.Contents is the list that the ring
--     stands for, Refine what a send and a receive do to it, Run has the runs, and Calls, Waits and
--     Semaphore hold the outcome. Registry is s_tasks with _registry_add and _registry_remove, and
--     Removal and Table its proofs.
--   Sim.Assets: _verify_checksum of sim/ports/sim_mmap_assets.c on the files in their order, with
--     Checksum about the sum; Names is _name_cmp, which gives that order.
--   The modules named Tests: the theorems on concrete data.
--
-- A service is held when a call that acquires it has succeeded and no later call has given it back
-- (`held` of Runtime.State). Of each service's call it is assumed only what its name and the source
-- say: an initialisation that succeeds acquires the service, and a deinitialisation that succeeds
-- gives it back; an initialisation that fails holds nothing that counts here. The services that count
-- are those with an ownership flag in app_runtime.c. The link to a radio on another chip, the network
-- foundation and the event bus have no flag there, and are not counted; Network is about their own
-- state.
--
-- The heap and the file system of the simulator are arguments: which allocations succeed, and which
-- writes. What has no defined behaviour (a copy from or to NULL) is `none` or `fault`. A write that
-- fwrite accepts reaches the file unless fclose fails, which is an outcome of a flush; a key and a
-- namespace are the bytes before their 0; and a directory is a finite tree, read as the list of its
-- entries, which a removal of an earlier entry does not disturb, where each read may fail.
--
-- The probe's loop over a partition has the size of the partition for fuel, which is enough, since
-- each turn reads at least one byte. The wipe and the simulator's loops recur on a list, a tree, or how
-- many items are left. There is no other fuel. Requesters are bounded to fewer than 2 ^ 32, the range of
-- the counter, and so is the depth of a recursive mutex. The table of the tasks has 32 places, and the
-- theorem about it is about runs that fit.
--
-- Not modelled: the adapters between services and the board in app_runtime.c and the power snapshot
-- of app_runtime_pm.c; the control centre; the rest of the simulator (sim/); the display benchmark's
-- scenes. The services, the board support and the app manager are
-- submodules whose code is not in the repository. Configuration that is only passed on to a service,
-- and logging, are left out.
pub mod Prelude
pub mod Pm
pub mod Runtime
pub mod FsStorage
pub mod Network
pub mod Sim
