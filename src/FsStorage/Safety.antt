-- ===== src/FsStorage/Safety.antt =====
-- main/fs_storage/fs_storage.c: what calls of the two functions in any order can lead to.
use mathlib.Core.Bool.{false≢true}
use micro_tech.Prelude.{
  ◌≡◌, ◌↔◌, refl, sym, ap, ◌∙◌, Bool, true, false, [], ◌∷◌, arith, Log, EspErr, ok, is_ok, is_ok→eq,
  is_fail,
}
use micro_tech.FsStorage.Mount.{
  Valid, data_held, res_held, is_state, fs_storage_init-Valid, fs_storage_deinit-Valid,
  init_running,
}
use micro_tech.FsStorage.{
  State, uninitialized, ready, Call, format_data, register_data, Storage, Host,
  data_partition_is_erased, call, mount_data, fs_storage_is_initialized, fs_storage_init, Reached,
  boot, after_init, after_deinit,
}

Reached-Valid : (adapter : Bool) (s : Storage) → Reached adapter s → Valid s
unfolding data_held res_held
Reached-Valid adapter _ boot = record {
  told = record { data_told = refl; res_told = refl };
  data_clear = λ _. refl;
  res_clear = λ _. refl;
  mounted = λ e. absurd (false≢true e);
}
Reached-Valid adapter _ (after_init {s} host r) =
    fs_storage_init-Valid host adapter s (Reached-Valid adapter s r)
Reached-Valid adapter _ (after_deinit {s} host r) =
    fs_storage_deinit-Valid host s (Reached-Valid adapter s r)

-- After any calls of fs_storage_init and fs_storage_deinit, each with any answers, no partition is
-- mounted in the state `uninitialized`: neither a failed initialisation nor a failed
-- deinitialisation reaches that state with a partition left.
pub uninitialized_holds_nothing :
    (adapter : Bool) (s : Storage)
    → Reached adapter s
    → s.state ≡ uninitialized
    → (data_held s.log ≡ false) × (res_held s.log ≡ false)
uninitialized_holds_nothing adapter s r e =
    let v = Reached-Valid adapter s r in
    (
      sym v.told.data_told ∙ v.data_clear (ap (is_state uninitialized) e),
      sym v.told.res_told ∙ v.res_clear (ap (is_state uninitialized) e),
    )

-- After any calls of fs_storage_init and fs_storage_deinit, each with any answers, the data
-- partition is mounted while the storage counts as initialised.
pub initialized_is_mounted :
    (adapter : Bool) (s : Storage)
    → Reached adapter s
    → fs_storage_is_initialized s ≡ true
    → data_held s.log ≡ true
initialized_is_mounted adapter s r e =
    let v = Reached-Valid adapter s r in sym v.told.data_told ∙ v.mounted (running s.state e)
  where
    running : (x : State) → (elim x [ ready ↦ true | _ ↦ false ]) ≡ true → is_state ready x ≡ true
    running x h = ground arith

-- An initialisation succeeds exactly when the storage counts as initialised after it.
pub fs_storage_init_ok_iff :
    (host : Host) (adapter : Bool) (s : Storage)
    → ((fs_storage_init host adapter s).0 ≡ ok)
      ↔ (fs_storage_is_initialized (fs_storage_init host adapter s).1 ≡ true)
fs_storage_init_ok_iff host adapter s = (
  λ e. init_running host adapter s ∙ ap is_ok e,
  λ e. is_ok→eq _ (sym (init_running host adapter s) ∙ e),
)

-- How often the data partition has been formatted or has been asked to be.
unfoldable pub asked_to_format : Log Call EspErr → Bool
asked_to_format [] = false
asked_to_format ((c, r) ∷ log) =
    let before = asked_to_format log in elim c [ format_data ↦ true | _ ↦ before ]

-- Mounting the data partition formats it only if it could not be mounted for want of a file system
-- and the probe has found it erased.
pub mount_data_formats_erased :
    (host : Host) (s : Storage)
    → asked_to_format s.log ≡ false
    → asked_to_format (mount_data host s).1.log ≡ true
    → (is_fail (host.reply s.log register_data) ≡ true)
      × ((data_partition_is_erased host).0 ≡ ok)
      × ((data_partition_is_erased host).1 ≡ true)
unfolding mount_data call asked_to_format
mount_data_formats_erased host s h e = ground (arith)
