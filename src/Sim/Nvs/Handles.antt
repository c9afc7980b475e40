-- ===== src/Sim/Nvs/Handles.antt =====
-- sim/ports/sim_nvs.c: the stores of the namespaces, the handles, and the functions of nvs.h. Each
-- function holds the lock, so one call is one step.
pub mod Counts
pub mod Valid
pub mod Calls
pub mod Reach
pub mod Open
pub mod Reopen
use micro_tech.Prelude.{
  write_at, ℕ, zero, suc, ◌+◌, ◌-◌, ◌%◌, ◌^◌, Bool, true, false, not, ◌&&◌, ◌||◌, Option, none,
  some, List, [], ◌∷◌, ◌++◌, length, ltb, leb, ◌==◌, if◌then◌else◌, EspErr, ok, fail, no_mem,
  invalid_arg, is_ok,
}
use micro_tech.Sim.Nvs.{
  Text, Record, key_max, str_eq, Alloc, set_record, Got, refuse, get_record, erase_record,
}
use micro_tech.Sim.Nvs.Image.{Io, done, failed, fault, le32, Disk, store_flush, load}

-- SIM_NVS_MAX_HANDLES
abbrev pub max_handles : ℕ
max_handles = 16

-- `nvs_store_t`
pub record Store : Type 0 where
  pub occupied : Bool
  pub refs : ℕ
  pub namespace_name : Text
  pub records : List Record

-- `nvs_slot_t`; `store` is an index of `s_stores`.
pub record Slot : Type 0 where
  pub in_use : Bool
  pub store : Option ℕ

-- `s_stores`, `s_slots`, and the content of the `.nvs` file of each namespace.
pub record Nvs : Type 0 where
  pub stores : ℕ → Store
  pub slots : ℕ → Slot
  pub files : Text → Option (List ℕ)

-- `_store_reset`
abbrev pub blank_store : Store
blank_store = record { occupied = false; refs = 0; namespace_name = []; records = [] }

abbrev pub blank_slot : Slot
blank_slot = record { in_use = false; store = none }

-- `_slot`, and the store that it points to.
unfoldable pub slot_store : Nvs → ℕ → Option ℕ
slot_store n handle =
    let s = n.slots (handle - 1) in
    if handle == 0 || ltb max_handles handle then none else if s.in_use then s.store else none

-- A search of an array from `i` on, with `left` entries to go.
unfoldable pub first : (ℕ → Bool) → ℕ → ℕ → Option ℕ
first test zero i = none
first test (suc left) i = let rest = first test left (suc i) in if test i then some i else rest

pub record Opened : Type 0 where
  pub result : EspErr
  pub handle : Option ℕ  -- what is stored in `*out_handle`
  pub state : Nvs

-- The end of `nvs_open`, with the store found.
unfoldable pub take_slot : ℕ → Nvs → Opened
take_slot k n =
    let store = n.stores k in
    elim (first (λ i. not (n.slots i).in_use) max_handles 0) [
      | none ↦ record {
        result = no_mem;
        handle = none;
        state =
            if store.refs == 0 then record n { stores = write_at k blank_store n.stores } else n;
      }
      | some h ↦ record {
        result = ok;
        handle = some (suc h);
        state = record n {
          slots = write_at h (record { in_use = true; store = some k }) n.slots;
          stores = write_at k (record store { refs = (store.refs + 1) % 2 ^ 32 }) n.stores;
        };
      }
    ]

-- A free store is taken for a namespace whose records have been loaded, or the load has failed.
unfoldable pub fill_store : ℕ → Text → Io (EspErr × List Record) → Nvs → Io Opened
fill_store k name (done (e, rs)) n =
    if is_ok e
    then done (
        take_slot k (record n {
          stores =
              write_at k (record { occupied = true; refs = 0; namespace_name = name; records = rs })
                n.stores;
        }))
    else done (record {
      result = fail;
      handle = none;
      state = record n { stores = write_at k blank_store n.stores };
    })
fill_store k name failed n = failed
fill_store k name fault n = fault

abbrev refuse_open : EspErr → Nvs → Io Opened
refuse_open e n = done (record { result = e; handle = none; state = n })

abbrev pub holds_name : Nvs → Text → ℕ → Bool
holds_name n name i = (n.stores i).occupied && str_eq (n.stores i).namespace_name name

-- `nvs_open` after the checks of its arguments.
unfoldable pub open_named : (ℕ → Alloc) → Text → Nvs → Io Opened
open_named alloc name n = elim (first (holds_name n name) max_handles 0) [
  | some k ↦ done (take_slot k n)
  | none ↦ elim (first (λ i. not (n.stores i).occupied) max_handles 0) [
    | none ↦ refuse_open no_mem n
    | some k ↦ fill_store k name (load alloc (n.files name)) n
  ]
]

unfoldable pub nvs_open : (ℕ → Alloc) → Option Text → Bool → Nvs → Io Opened
nvs_open alloc none wants_handle n = refuse_open invalid_arg n
nvs_open alloc (some name) wants_handle n =
    if not wants_handle || leb key_max (length name)
    then refuse_open invalid_arg n
    else open_named alloc name n

unfoldable pub nvs_close : ℕ → Nvs → Nvs
nvs_close handle n = elim (slot_store n handle) [
  | none ↦ n
  | some k ↦
      let store = n.stores k in
      let refs = store.refs - 1 in
      record n {
        slots = write_at (handle - 1) blank_slot n.slots;
        stores =
            write_at k (if refs == 0 then blank_store else record store { refs = refs }) n.stores;
      }
]

unfoldable pub nvs_commit : Disk → ℕ → Nvs → Io (EspErr × Nvs)
nvs_commit disk handle n = elim (slot_store n handle) [
  | none ↦ done (invalid_arg, n)
  | some k ↦
      let name = (n.stores k).namespace_name in
      elim (store_flush disk (n.stores k).records (n.files name)) [
        | done (e, file) ↦
            done
              (e, record n { files = λ other. if str_eq name other then file else n.files other })
        | failed ↦ failed
        | fault ↦ fault
      ]
]

abbrev pub set_records : ℕ → List Record → Nvs → Nvs
set_records k rs n = record n {
  stores = write_at k (record (n.stores k) { records = rs }) n.stores;
}

-- `_set`, with its key and its data, and how the allocations go.
unfoldable pub nvs_set : Alloc → ℕ → Option Text → ℕ → Option (List ℕ) → Nvs → EspErr × Nvs
nvs_set alloc handle (some key) type (some bytes) n = elim (slot_store n handle) [
  | none ↦ (invalid_arg, n)
  | some k ↦
      if leb key_max (length key)
      then (invalid_arg, n)
      else let (e, rs) = set_record alloc key type bytes (n.stores k).records in
        (e, set_records k rs n)
]
nvs_set alloc handle key type bytes n = (invalid_arg, n)

-- `_get`
unfoldable pub nvs_get : ℕ → Option Text → ℕ → Bool → Option ℕ → Nvs → Option Got
nvs_get handle none type wants_bytes size n = refuse invalid_arg
nvs_get handle (some key) type wants_bytes size n = elim (slot_store n handle) [
  | none ↦ refuse invalid_arg
  | some k ↦ get_record key type wants_bytes size (n.stores k).records
]

unfoldable pub nvs_erase_key : ℕ → Option Text → Nvs → EspErr × Nvs
nvs_erase_key handle none n = (invalid_arg, n)
nvs_erase_key handle (some key) n = elim (slot_store n handle) [
  | none ↦ (invalid_arg, n)
  | some k ↦ let (e, rs) = erase_record key (n.stores k).records in (e, set_records k rs n)
]

unfoldable pub nvs_erase_all : ℕ → Nvs → EspErr × Nvs
nvs_erase_all handle n = elim (slot_store n handle) [
  | none ↦ (invalid_arg, n)
  | some k ↦ (ok, set_records k [] n)
]

-- `nvs_flash_erase`: `unlinked` says which of the files go, once the directory can be opened.
-- The name of the file of the empty namespace is four characters long, and stays.
unfoldable pub nvs_flash_erase : Bool → (Text → Bool) → Nvs → Nvs
nvs_flash_erase listed unlinked n = record {
  stores = λ k. if ltb k max_handles then blank_store else n.stores k;
  slots = λ h. if ltb h max_handles then blank_slot else n.slots h;
  files = λ name. if listed && ltb 0 (length name) && unlinked name then none else n.files name;
}
