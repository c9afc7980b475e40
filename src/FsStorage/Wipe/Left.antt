-- ===== src/FsStorage/Wipe/Left.antt =====
-- What a wipe leaves.
use mathlib.Core.Bool.{false≢true}
use micro_tech.Prelude.{
  leb, not, ◌⊎◌, sym, ◌∙◌, is_ok, ℕ, ◌<◌, ◌≡◌, refl, Bool, true, false, List, length, if◌then◌else◌,
  EspErr, ok, fail, invalid_size, arith, Bool-cases, inl, inr, ap,
}
use micro_tech.FsStorage.{Storage, fs_storage_is_initialized}
use micro_tech.FsStorage.Wipe.{
  FilePath, Entries, nil, dots, file, directory, Answer, fine, missing, refused, Calls, path_max,
  join, is_gone, removes, is_empty, after_open, after_stat, wipe_entries, wipe_tree,
  fs_storage_wipe_data,
}

-- The first directory is the second one with some files and directories taken out, at any depth.
pub data Thinned : Entries → Entries → Type 0 where
  same : (es : Entries) → Thinned es es
  gone : (es : Entries) → Thinned nil es
  with_dots : (left es : Entries) → Thinned left es → Thinned (dots left) (dots es)
  without_file : (name : List ℕ) (left es : Entries) → Thinned left es → Thinned left (file name es)
  without_directory :
      (name : List ℕ) (sub left es : Entries)
      → Thinned left es
      → Thinned left (directory name sub es)
  inside :
      (name : List ℕ) (left sub es : Entries)
      → Thinned left sub
      → Thinned (directory name left es) (directory name sub es)

abbrev pub AllFit : FilePath → Entries → Type 0
AllFit path nil = Unit
AllFit path (dots es) = AllFit path es
AllFit path (file name es) = (length (join path name) < path_max) × AllFit path es
AllFit path (directory name sub es) =
    (length (join path name) < path_max) × AllFit (join path name) sub × AllFit path es

abbrev pub Tolerated : Answer → Type 0
Tolerated refused = ⊥
Tolerated fine = Unit
Tolerated missing = Unit

-- Some entry of a directory could not be read.
abbrev pub IsUnread : Calls → Type 0
IsUnread c = (path : FilePath) × (es : Entries) × (c.readdir path es ≡ false)

-- A success leaves nothing but dots, unless some entry could not be read.
record Clean (c : Calls) (p : EspErr × Entries) : Type 0 where
  left_empty : p.0 ≡ ok → (is_empty p.1 ≡ true) ⊎ IsUnread c

module _ (c : Calls) where
  if-Clean :
      (b : Bool) (x y : EspErr × Entries)
      → (b ≡ true → Clean c x)
      → (b ≡ false → Clean c y)
      → Clean c (if b then x else y)
  if-Clean true x y f g = f refl
  if-Clean false x y f g = g refl

  after_stat-Clean :
      (a : Answer) (x y z : EspErr × Entries)
      → Clean c x
      → Clean c y
      → Clean c z
      → Clean c (after_stat a x y z)
  unfolding after_stat
  after_stat-Clean fine x y z f g h = h
  after_stat-Clean missing x y z f g h = f
  after_stat-Clean refused x y z f g h = g

  after_open-Clean :
      (a : Answer) (es : Entries) (p : EspErr × Entries) → Clean c p → Clean c (after_open a es p)
  unfolding after_open is_empty
  after_open-Clean fine es p f = f
  after_open-Clean missing es p f = record { left_empty = λ h. inl refl }
  after_open-Clean refused es p f = record { left_empty = λ h. cc h }

  unread-Clean : (path : FilePath) (es : Entries) → c.readdir path es ≡ false → Clean c (ok, es)
  unread-Clean path es e = record { left_empty = λ _. inr (path, es, e) }

  not_read : (path : FilePath) (es : Entries) → not (c.readdir path es) ≡ true → Clean c (ok, es)
  not_read path es e = unread-Clean path es (ground arith)

  failed-Clean : (e : EspErr) (es : Entries) → is_ok e ≡ false → Clean c (e, es)
  failed-Clean e es failed = record {
    left_empty = λ h. absurd (false≢true (sym failed ∙ ap is_ok h));
  }

  dots-Clean : (p : EspErr × Entries) → Clean c p → Clean c (p.0, dots p.1)
  unfolding is_empty
  dots-Clean p f = record { left_empty = f.left_empty }

  wipe_entries-Clean : (path : FilePath) (es : Entries) → Clean c (wipe_entries c path es)
  unfolding wipe_entries
  wipe_entries-Clean path nil = unfold is_empty in record { left_empty = λ h. inl refl }
  wipe_entries-Clean path (dots es) =
      if-Clean _ _ _ (λ _. dots-Clean _ (wipe_entries-Clean path es)) (unread-Clean path (dots es))
  wipe_entries-Clean path (file name es) =
      let here = file name es in
      let rest = wipe_entries c path es in
      let removal : EspErr × Entries =
        if is_gone (c.unlink (join path name)) then rest else (fail, here) in
      let on = after_stat (c.stat (join path name)) rest (fail, here) removal in
      let clean = wipe_entries-Clean path es in
      let refused = failed-Clean fail here refl in
      if-Clean (not (c.readdir path here)) (ok, here)
        (if leb path_max (length (join path name)) then (invalid_size, here) else on)
        (not_read path here)
        (λ _.
          if-Clean (leb path_max (length (join path name))) (invalid_size, here) on
            (λ _. failed-Clean invalid_size here refl)
            (λ _.
              after_stat-Clean (c.stat (join path name)) rest (fail, here) removal clean refused
                (if-Clean (is_gone (c.unlink (join path name))) rest (fail, here) (λ _. clean)
                  (λ _. refused))))
  wipe_entries-Clean path (directory name sub es) =
      let here = directory name sub es in
      let rest = wipe_entries c path es in
      let (e, left) =
        after_open (c.opendir (join path name)) sub (wipe_entries c (join path name) sub) in
      let removed : EspErr × Entries =
        if removes (c.rmdir (join path name)) left then rest else (fail, directory name left es) in
      let removal : EspErr × Entries = if is_ok e then removed else (e, directory name left es) in
      let on = after_stat (c.stat (join path name)) rest (fail, here) removal in
      let clean = wipe_entries-Clean path es in
      if-Clean (not (c.readdir path here)) (ok, here)
        (if leb path_max (length (join path name)) then (invalid_size, here) else on)
        (not_read path here)
        (λ _.
          if-Clean (leb path_max (length (join path name))) (invalid_size, here) on
            (λ _. failed-Clean invalid_size here refl)
            (λ _.
              after_stat-Clean (c.stat (join path name)) rest (fail, here) removal clean
                (failed-Clean fail here refl)
                (if-Clean (is_ok e) removed (e, directory name left es)
                  (λ _.
                    if-Clean (removes (c.rmdir (join path name)) left) rest
                      (fail, directory name left es) (λ _. clean)
                      (λ _. failed-Clean fail (directory name left es) refl))
                  (failed-Clean e (directory name left es)))))

  after_open-Thinned :
      (a : Answer) (es : Entries) (p : EspErr × Entries)
      → Thinned p.1 es
      → Thinned (after_open a es p).1 es
  unfolding after_open
  after_open-Thinned fine es p t = t
  after_open-Thinned missing es p t = gone es
  after_open-Thinned refused es p t = same es

  if-Thinned :
      (b : Bool) (x y : EspErr × Entries) (es : Entries)
      → Thinned x.1 es
      → Thinned y.1 es
      → Thinned (if b then x else y).1 es
  if-Thinned true x y es s t = s
  if-Thinned false x y es s t = t

  after_stat-Thinned :
      (a : Answer) (x y z : EspErr × Entries) (es : Entries)
      → Thinned x.1 es
      → Thinned y.1 es
      → Thinned z.1 es
      → Thinned (after_stat a x y z).1 es
  unfolding after_stat
  after_stat-Thinned fine x y z es s t u = u
  after_stat-Thinned missing x y z es s t u = s
  after_stat-Thinned refused x y z es s t u = t

  ruleset thinning = (
    same, without_file, without_directory, inside, if-Thinned, after_stat-Thinned,
    after_open-Thinned,
  )

  wipe_entries-Thinned : (path : FilePath) (es : Entries) → Thinned (wipe_entries c path es).1 es
  unfolding wipe_entries
  wipe_entries-Thinned path nil = same nil
  wipe_entries-Thinned path (dots es) =
      if-Thinned (c.readdir path (dots es)) _ _ (dots es)
        (with_dots _ es (wipe_entries-Thinned path es)) (same (dots es))
  wipe_entries-Thinned path (file name es) =
      search (thinning, wipe_entries-Thinned path es) depth 20
  wipe_entries-Thinned path (directory name sub es) =
      search (thinning, wipe_entries-Thinned path es, wipe_entries-Thinned (join path name) sub)
        depth 20

  module _ (reads : (p : FilePath) (es : Entries) → c.readdir p es ≡ true)
      (opens : (p : FilePath) → Tolerated (c.opendir p))
      (stats : (p : FilePath) → Tolerated (c.stat p))
      (unlinks : (p : FilePath) → Tolerated (c.unlink p))
      (rmdirs : (p : FilePath) → Tolerated (c.rmdir p)) where
    all_read :
        (path : FilePath) (es : Entries)
        → (wipe_entries c path es).0 ≡ ok
        → is_empty (wipe_entries c path es).1 ≡ true
    all_read path es h = elim ((wipe_entries-Clean path es).left_empty h) [
      | inl e ↦ e
      | inr (p, rest, unread) ↦ absurd (false≢true (sym unread ∙ reads p rest))
    ]

    wipe_entries_total :
        (path : FilePath) (es : Entries) → AllFit path es → (wipe_entries c path es).0 ≡ ok
    unfolding wipe_entries after_open after_stat is_empty
    wipe_entries_total path nil f = refl
    wipe_entries_total path (dots es) f =
        ground (arith, wipe_entries_total path es f, reads path (dots es))
    wipe_entries_total path (file name es) (short, f) = ground (
      arith,
      wipe_entries_total path es f,
      reads path (file name es),
      stats (join path name),
      unlinks (join path name),
    )
    wipe_entries_total path (directory name sub es) (short, g, f) = ground (
      arith,
      wipe_entries_total path es f,
      wipe_entries_total (join path name) sub g,
      reads path (directory name sub es),
      all_read (join path name) sub,
      stats (join path name),
      opens (join path name),
      rmdirs (join path name),
    )

wipe_tree-Clean : (c : Calls) (path : FilePath) (es : Entries) → Clean c (wipe_tree c path es)
unfolding wipe_tree
wipe_tree-Clean c path es = after_open-Clean c (c.opendir path) es _ (wipe_entries-Clean c path es)

wipe_tree_total :
    (c : Calls) (path : FilePath) (es : Entries)
    → ((p : FilePath) (rest : Entries) → c.readdir p rest ≡ true)
    → ((p : FilePath) → Tolerated (c.opendir p))
    → ((p : FilePath) → Tolerated (c.stat p))
    → ((p : FilePath) → Tolerated (c.unlink p))
    → ((p : FilePath) → Tolerated (c.rmdir p))
    → AllFit path es
    → (wipe_tree c path es).0 ≡ ok
unfolding wipe_tree after_open
wipe_tree_total c path es reads opens stats unlinks rmdirs fits =
    ground (arith, wipe_entries_total c reads opens stats unlinks rmdirs path es fits, opens path)

-- A wipe only takes files and directories away, whatever the file system answers; and when it
-- reports success, the storage was initialised, and nothing is left but "." and "..", or `readdir`
-- has failed on some directory, which the code takes for the end of it.
pub fs_storage_wipe_data_leaves :
    (c : Calls) (root : FilePath) (s : Storage) (es : Entries)
    → let (e, left) = fs_storage_wipe_data c root s es in
      Thinned left es
      × (e ≡ ok → (fs_storage_is_initialized s ≡ true) × ((is_empty left ≡ true) ⊎ IsUnread c))
unfolding fs_storage_wipe_data
fs_storage_wipe_data_leaves c root s es = elim (Bool-cases (fs_storage_is_initialized s)) [
  | inl on ↦
      rw (on, if◌then◌else◌)
        (
          unfold wipe_tree in
              after_open-Thinned c (c.opendir root) es (wipe_entries c root es)
                (wipe_entries-Thinned c root es),
          λ h. (refl, (wipe_tree-Clean c root es).left_empty h),
        )
  | inr off ↦ rw (off, if◌then◌else◌) (same es, λ h. cc h)
]

-- When the storage is initialised, every path fits the buffer, every entry can be read, and the file
-- system otherwise only ever succeeds or says that something is gone already, a wipe reports success,
-- with nothing left but "." and "..".
pub fs_storage_wipe_data_succeeds :
    (c : Calls) (root : FilePath) (s : Storage) (es : Entries)
    → fs_storage_is_initialized s ≡ true
    → AllFit root es
    → ((p : FilePath) (rest : Entries) → c.readdir p rest ≡ true)
    → ((p : FilePath) → Tolerated (c.opendir p))
    → ((p : FilePath) → Tolerated (c.stat p))
    → ((p : FilePath) → Tolerated (c.unlink p))
    → ((p : FilePath) → Tolerated (c.rmdir p))
    → (left : Entries) × (fs_storage_wipe_data c root s es ≡ (ok, left)) × (is_empty left ≡ true)
unfolding fs_storage_wipe_data
fs_storage_wipe_data_succeeds c root s es on fits reads opens stats unlinks rmdirs =
    let done = wipe_tree_total c root es reads opens stats unlinks rmdirs fits in
    (
      (wipe_tree c root es).1,
      rw on (ap (λ e. (e, (wipe_tree c root es).1)) done),
      elim ((wipe_tree-Clean c root es).left_empty done) [
        | inl e ↦ e
        | inr (p, rest, unread) ↦ absurd (false≢true (sym unread ∙ reads p rest))
      ],
    )
