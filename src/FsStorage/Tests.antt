-- ===== src/FsStorage/Tests.antt =====
-- main/fs_storage/fs_storage.c: mounting on concrete hosts.
use micro_tech.FsStorage.Wipe.{
  FilePath, Entries, nil, dots, file, directory, Calls, fine, refused, is_empty, after_open,
  after_stat, wipe_entries, wipe_tree, fs_storage_wipe_data,
}
use micro_tech.FsStorage.Wipe.Left.{
  Thinned, IsUnread, fs_storage_wipe_data_leaves, fs_storage_wipe_data_succeeds,
}
use micro_tech.Prelude.{
  length, ltb, if◌then◌else◌, [], ◌∷◌, arith, ◌⊎◌, ◌≡◌, ◌↔◌, ◌<◌, ℕ, refl, true, false, some, ok,
  fail, is_fail,
}
use micro_tech.FsStorage.Probe.{data_partition_is_erased_iff}
use micro_tech.FsStorage.Mount.{data_held, res_held}
use micro_tech.FsStorage.Safety.{
  uninitialized_holds_nothing, asked_to_format, mount_data_formats_erased,
}
use micro_tech.FsStorage.{
  uninitialized, ready, register_data, format_data, Storage, Flash, Host, at_rest,
  data_partition_is_erased, probe_loop, all_erased, call, mount_data, unmount_data, unmount_owned,
  mount_resources, launch, release, fs_storage_is_initialized, fs_storage_init, fs_storage_deinit,
  Reached, boot, after_init, after_deinit,
}

-- Three erased bytes, and reads that succeed.
abbrev blank : Flash
blank = record { size = 3; content = λ i. 255; read = λ offset. ok }

abbrev willing : Host
willing = record { reply = λ log c. ok; has_memory = true; partition = some blank }

-- The data partition holds no file system, and cannot be formatted.
abbrev broken : Host
broken = record {
  reply = λ log c. elim c [ register_data ↦ fail | format_data ↦ fail | _ ↦ ok ];
  has_memory = true;
  partition = some blank;
}

data_partition_is_erased_iff_example :
    ((data_partition_is_erased willing).0 ≡ ok)
    × (((data_partition_is_erased willing).1 ≡ true) ↔ ((i : ℕ) → i < 3 → blank.content i ≡ 255))
data_partition_is_erased_iff_example =
    data_partition_is_erased_iff willing blank refl refl (λ offset. refl)

-- A failed start, a start and a stop.
abbrev failed : Storage
failed = (fs_storage_init broken false at_rest).1

abbrev started : Storage
started = (fs_storage_init willing false failed).1

abbrev ended : Storage
ended = (fs_storage_deinit willing started).1

facts :
    (fs_storage_is_initialized started ≡ true)
    × (ended.state ≡ uninitialized)
    × (asked_to_format (mount_data broken at_rest).1.log ≡ true)
unfolding fs_storage_init launch mount_resources mount_data data_partition_is_erased probe_loop
    all_erased call unmount_owned unmount_data fs_storage_deinit release asked_to_format
facts = (refl, refl, refl)

started-Reached : Reached false started
started-Reached = after_init willing (after_init broken boot)

uninitialized_holds_nothing_example : (data_held ended.log ≡ false) × (res_held ended.log ≡ false)
uninitialized_holds_nothing_example =
    uninitialized_holds_nothing false ended (after_deinit willing started-Reached) facts.1

mount_data_formats_erased_example :
    (is_fail (broken.reply at_rest.log register_data) ≡ true)
    × ((data_partition_is_erased broken).0 ≡ ok)
    × ((data_partition_is_erased broken).1 ≡ true)
unfolding asked_to_format
mount_data_formats_erased_example = mount_data_formats_erased broken at_rest refl facts.2

-- A directory with a file and a directory that holds another file.
abbrev some_files : Entries
some_files = dots (file (b'a' ∷ []) (directory (b'd' ∷ []) (dots (file (b'b' ∷ []) nil)) nil))

abbrev running : Storage
running = record { state = ready; res_mounted = true; data_mounted = true; log = [] }

abbrev data_root : FilePath
data_root = b'/' ∷ b'd' ∷ []

-- A file system where a file cannot be removed, and one where all calls succeed.
abbrev stuck : Calls
stuck = record {
  readdir = λ p rest. true;
  opendir = λ p. fine;
  stat = λ p. fine;
  rmdir = λ p. fine;
  unlink = λ p. if ltb 5 (length p) then refused else fine;
}

abbrev working : Calls
working = record {
  readdir = λ p rest. true;
  opendir = λ p. fine;
  stat = λ p. fine;
  rmdir = λ p. fine;
  unlink = λ p. fine;
}

-- The file that can be removed is gone, the other one and its directory are left.
wipe_stuck :
    fs_storage_wipe_data stuck data_root running some_files
    ≡ (fail, dots (directory (b'd' ∷ []) (dots (file (b'b' ∷ []) nil)) nil))
unfolding fs_storage_wipe_data wipe_tree wipe_entries after_open after_stat
wipe_stuck = refl

fs_storage_wipe_data_leaves_example :
    let (e, left) = fs_storage_wipe_data stuck data_root running some_files in
    Thinned left some_files
    × (e ≡ ok
        → (fs_storage_is_initialized running ≡ true) × ((is_empty left ≡ true) ⊎ IsUnread stuck))
fs_storage_wipe_data_leaves_example = fs_storage_wipe_data_leaves stuck data_root running some_files

fs_storage_wipe_data_succeeds_example :
    (left : Entries) × (fs_storage_wipe_data working data_root running some_files ≡ (ok, left))
    × (is_empty left ≡ true)
fs_storage_wipe_data_succeeds_example =
    fs_storage_wipe_data_succeeds working data_root running some_files refl (omega arith)
      (λ p rest. refl) (λ p. tt) (λ p. tt) (λ p. tt) (λ p. tt)
