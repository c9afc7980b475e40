-- ===== src/FsStorage/Wipe.antt =====
-- main/fs_storage/fs_storage.c: `_fs_storage_wipe_tree` and `fs_storage_wipe_data`.
pub mod Left
use micro_tech.Prelude.{
  ℕ, suc, ◌+◌, ◌<◌, ◌≤◌, ◌≡◌, refl, Bool, true, false, not, ◌&&◌, List, [], ◌∷◌, ◌++◌, length, ltb,
  leb, if◌then◌else◌, EspErr, ok, fail, invalid_size, invalid_state, is_ok, arith, Bool-cases, inl,
  inr, is_ok→eq,
}
use micro_tech.FsStorage.{Storage, fs_storage_is_initialized}

abbrev pub FilePath : Type 0
FilePath = List ℕ

-- What is in a directory, in the order of `readdir`. `dots` is "." or "..".
pub data Entries : Type 0 where
  nil : Entries
  dots : Entries → Entries
  file : List ℕ → Entries → Entries
  directory : List ℕ → Entries → Entries → Entries

-- A call of the file system: it succeeds, it fails with ENOENT, or it fails otherwise.
pub data Answer : Type 0 where
  fine missing refused : Answer

-- The answers for each path; `rmdir` answers for an empty directory. `readdir` says whether the next
-- entry of a directory is read, given the entries that are left; NULL for an error is false.
pub record Calls : Type 0 where
  pub readdir : FilePath → Entries → Bool
  pub opendir : FilePath → Answer
  pub stat : FilePath → Answer
  pub rmdir : FilePath → Answer
  pub unlink : FilePath → Answer

-- sizeof(path)
abbrev pub path_max : ℕ
path_max = 256

-- snprintf(path, sizeof(path), "%s/%s", directory, entry->d_name)
abbrev pub join : FilePath → List ℕ → FilePath
join path name = path ++ (b'/' ∷ name)

unfoldable pub is_empty : Entries → Bool
is_empty nil = true
is_empty (dots es) = is_empty es
is_empty (file name es) = false
is_empty (directory name sub es) = false

-- `opendir`, and the loop if it succeeds.
unfoldable pub after_open : Answer → Entries → EspErr × Entries → EspErr × Entries
after_open fine es loop = loop
after_open missing es loop = (ok, nil)
after_open refused es loop = (fail, es)

-- `stat`: the loop goes on without the entry, ends, or removes the entry.
unfoldable pub after_stat :
    Answer → EspErr × Entries → EspErr × Entries → EspErr × Entries → EspErr × Entries
after_stat fine rest failed removal = removal
after_stat missing rest failed removal = rest
after_stat refused rest failed removal = failed

-- `rmdir` of a directory that holds `sub`.
abbrev pub removes : Answer → Entries → Bool
removes fine sub = is_empty sub
removes missing sub = true
removes refused sub = false

abbrev pub is_gone : Answer → Bool
is_gone refused = false
is_gone _ = true

module _ (c : Calls) where
  -- The loop over a directory: the result, and what is left in it.
  unfoldable pub wipe_entries : FilePath → Entries → EspErr × Entries
  wipe_entries path nil = (ok, nil)
  wipe_entries path (dots es) =
      let (e, left) = wipe_entries path es in
      if c.readdir path (dots es) then (e, dots left) else (ok, dots es)
  wipe_entries path (file name es) =
      let rest = wipe_entries path es in
      if not (c.readdir path (file name es))
      then (ok, file name es)
      else if leb path_max (length (join path name))
      then (invalid_size, file name es)
      else after_stat (c.stat (join path name)) rest (fail, file name es)
          (if is_gone (c.unlink (join path name)) then rest else (fail, file name es))
  wipe_entries path (directory name sub es) =
      let rest = wipe_entries path es in
      let (e, left) =
        after_open (c.opendir (join path name)) sub (wipe_entries (join path name) sub) in
      if not (c.readdir path (directory name sub es))
      then (ok, directory name sub es)
      else if leb path_max (length (join path name))
      then (invalid_size, directory name sub es)
      else after_stat (c.stat (join path name)) rest (fail, directory name sub es)
          (if is_ok e
            then (if removes (c.rmdir (join path name)) left
                then rest
                else (fail, directory name left es))
            else (e, directory name left es))

  -- `_fs_storage_wipe_tree` on a directory that holds these entries.
  unfoldable pub wipe_tree : FilePath → Entries → EspErr × Entries
  wipe_tree path es = after_open (c.opendir path) es (wipe_entries path es)

  -- `fs_storage_wipe_data`; `root` is FS_DATA_MOUNT_PATH, of the board.
  unfoldable pub fs_storage_wipe_data : FilePath → Storage → Entries → EspErr × Entries
  fs_storage_wipe_data root s es =
      if fs_storage_is_initialized s then wipe_tree root es else (invalid_state, es)
