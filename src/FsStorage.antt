-- ===== src/FsStorage.antt =====
-- main/fs_storage/fs_storage.c: mounting and unmounting of the two partitions, by one caller at a
-- time.
pub mod Probe
pub mod Mount
pub mod Safety
pub mod Wipe
mod Tests
use micro_tech.Prelude.{
  ℕ, zero, suc, ◌+◌, ◌-◌, Bool, true, false, not, ◌&&◌, Option, none, some, List, [], ◌∷◌, ltb,
  ◌==◌, if◌then◌else◌, EspErr, ok, fail, no_mem, invalid_state, not_found, is_ok, is_fail, Log,
  Replies,
}

-- `fs_storage_state_t`
pub data State : Type 0 where
  uninitialized initializing ready deinitializing : State

pub data Call : Type 0 where
  mount_res register_data format_data unregister_data unmount_res : Call

-- The static variables, with the calls that were made so far.
pub record Storage : Type 0 where
  pub state : State
  pub res_mounted : Bool
  pub data_mounted : Bool
  pub log : Log Call EspErr

-- The data partition: its size, its bytes, and the answer of a read at an offset.
pub record Flash : Type 0 where
  pub size : ℕ
  pub content : ℕ → ℕ
  pub read : ℕ → EspErr

pub record Host : Type 0 where
  pub reply : Replies Call EspErr
  pub has_memory : Bool  -- heap_caps_malloc_prefer does not return NULL
  pub partition : Option Flash  -- esp_partition_find_first

-- FS_STORAGE_PROBE_BYTES
abbrev pub probe_bytes : ℕ
probe_bytes = 4096

-- The inner loop: `left` bytes from `offset` on are all UINT8_MAX.
unfoldable pub all_erased : (ℕ → ℕ) → ℕ → ℕ → Bool
all_erased content zero offset = true
all_erased content (suc left) offset =
    (content offset == 255) && all_erased content left (offset + 1)

abbrev pub read_size : Flash → ℕ → ℕ
read_size f offset =
    let remaining = f.size - offset in if ltb remaining probe_bytes then remaining else probe_bytes

-- The outer loop, on fuel: the size of the partition is enough.
unfoldable pub probe_loop : ℕ → Flash → ℕ → EspErr × Bool
probe_loop zero f offset = (ok, not (ltb offset f.size))
probe_loop (suc fuel) f offset =
    let n = read_size f offset in
    let rest = probe_loop fuel f (offset + n) in
    if ltb offset f.size
    then (if is_ok (f.read offset)
        then (if all_erased f.content n offset then rest else (ok, false))
        else (f.read offset, false))
    else (ok, true)

abbrev pub fs_storage_is_initialized : Storage → Bool
fs_storage_is_initialized s = elim s.state [ ready ↦ true | _ ↦ false ]

-- The static variables before the first call.
abbrev pub at_rest : Storage
at_rest = record { state = uninitialized; res_mounted = false; data_mounted = false; log = [] }

module _ (host : Host) where
  unfoldable pub data_partition_is_erased : EspErr × Bool
  data_partition_is_erased =
      if host.has_memory
      then elim host.partition [ none ↦ (not_found, false) | some f ↦ probe_loop f.size f 0 ]
      else (no_mem, false)

  unfoldable pub call : Call → Storage → EspErr × Storage
  call c s = let r = host.reply s.log c in (r, record s { log = (c, r) ∷ s.log })

  -- An erased partition is formatted; a partition with any content is not touched.
  unfoldable pub mount_data : Storage → EspErr × Storage
  mount_data s =
      let (r, s₁) = call register_data s in
      let (e, is_erased) = data_partition_is_erased in
      let (f, s₂) = call format_data s₁ in
      if not (is_fail r)
      then (r, s₁)
      else (if not (is_ok e)
          then (e, s₁)
          else (if not is_erased
              then (fail, s₁)
              else (if is_ok f then call register_data s₂ else (f, s₂))))

  unfoldable pub unmount_data : Storage → EspErr × Storage
  unmount_data s =
      let (r, s₁) = call unregister_data s in
      if s.data_mounted then (r, record s₁ { data_mounted = not (is_ok r) }) else (ok, s)

  unfoldable pub unmount_owned : Storage → EspErr × Storage
  unmount_owned s =
      let (r, s₁) = unmount_data s in
      let (e, s₂) = call unmount_res s₁ in
      if is_ok r && s₁.res_mounted then (e, record s₂ { res_mounted = not (is_ok e) }) else (r, s₁)

  -- The resource partition, where it is not owned by the LVGL adapter; a failure is tolerated.
  unfoldable pub mount_resources : Bool → Storage → Storage
  mount_resources adapter s =
      let (r, s₁) = call mount_res s in
      if adapter then s else (if is_ok r then record s₁ { res_mounted = true } else s₁)

  unfoldable pub launch : Bool → Storage → EspErr × Storage
  launch adapter s =
      let s₁ =
        mount_resources adapter
          (record s { state = initializing; res_mounted = false; data_mounted = false }) in
      let (r, s₂) = mount_data s₁ in
      let (e, s₃) = unmount_owned s₂ in
      if is_ok r
      then (r, record s₂ { state = ready; data_mounted = true })
      else (r, record s₃ { state = if is_ok e then uninitialized else deinitializing })

  unfoldable pub fs_storage_init : Bool → Storage → EspErr × Storage
  fs_storage_init adapter s = elim s.state [
    | ready ↦ (ok, s)
    | uninitialized ↦ launch adapter s
    | initializing ↦ (invalid_state, s)
    | deinitializing ↦ (invalid_state, s)
  ]

  unfoldable pub release : Storage → EspErr × Storage
  release s =
      let (r, s₁) = unmount_owned (record s { state = deinitializing }) in
      (r, if is_ok r then record s₁ { state = uninitialized } else s₁)

  unfoldable pub fs_storage_deinit : Storage → EspErr × Storage
  fs_storage_deinit s = elim s.state [
    | uninitialized ↦ (ok, s)
    | ready ↦ release s
    | deinitializing ↦ release s
    | initializing ↦ (invalid_state, s)
  ]

-- The states that calls of the two functions lead to, each call with a host of its own.
pub data Reached (adapter : Bool) : Storage → Type 0 where
  boot : Reached adapter at_rest
  after_init :
      {s : Storage} (host : Host)
      → Reached adapter s
      → Reached adapter (fs_storage_init host adapter s).1
  after_deinit :
      {s : Storage} (host : Host) → Reached adapter s → Reached adapter (fs_storage_deinit host s).1
