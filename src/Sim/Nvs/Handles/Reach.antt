-- ===== src/Sim/Nvs/Handles/Reach.antt =====
-- The states that any sequence of calls leads to.
use micro_tech.Prelude.{ℕ, ◌<◌, ◌≡◌, refl, Bool, Option, List, arith, EspErr, ap, subst}
use micro_tech.Sim.Nvs.{Text, Alloc}
use micro_tech.Sim.Nvs.Image.{done, Disk}
use micro_tech.Sim.Nvs.Handles.{
  Nvs, blank_store, blank_slot, Opened, nvs_open, nvs_close, nvs_commit, nvs_set, nvs_erase_key,
  nvs_erase_all, nvs_flash_erase,
}
use micro_tech.Sim.Nvs.Handles.Valid.{IsValid}
use micro_tech.Sim.Nvs.Handles.Counts.{count_blank}
use micro_tech.Sim.Nvs.Handles.Calls.{
  nvs_open-IsValid, nvs_close-IsValid, nvs_commit-IsValid, nvs_set-IsValid, nvs_erase_key-IsValid,
  nvs_erase_all-IsValid, files-IsValid,
}

-- Nothing is open.
pub blank-IsValid :
    (n : Nvs)
    → ((k : ℕ) → k < 16 → n.stores k ≡ blank_store)
    → ((h : ℕ) → h < 16 → n.slots h ≡ blank_slot)
    → IsValid n
blank-IsValid n b s = record {
  target = λ h lt u. cc (s h lt, u);
  counted = λ k lt. rw (b k lt, count_blank n.slots k 16 (λ h l. ap (λ x. x.in_use) (s h l)));
  held = λ k lt. rw (b k lt) refl;
  one_each = λ j k hj hk oj ok e. cc (b j hj, oj);
}

nvs_flash_erase-IsValid :
    (listed : Bool) (unlinked : Text → Bool) (n : Nvs) → IsValid (nvs_flash_erase listed unlinked n)
unfolding nvs_flash_erase
nvs_flash_erase-IsValid listed unlinked n =
    blank-IsValid _ (λ k lt. ground arith) (λ h lt. ground arith)

-- The static variables at the start, with any files in the directory.
unfoldable pub init : (Text → Option (List ℕ)) → Nvs
init files = record { stores = λ _. blank_store; slots = λ _. blank_slot; files = files }

-- One call, with any answers of the heap and of the file system; `moved` is `sim_nvs_set_dir`, or
-- any other change of the files.
pub data NvsStep (n : Nvs) : Nvs → Type 0 where
  opened :
      (alloc : ℕ → Alloc) (name : Option Text) (wants : Bool) (o : Opened) (m : Nvs)
      → nvs_open alloc name wants n ≡ done o
      → o.state ≡ m
      → NvsStep n m
  closed : (handle : ℕ) (m : Nvs) → nvs_close handle n ≡ m → NvsStep n m
  committed :
      (disk : Disk) (handle : ℕ) (e : EspErr) (m : Nvs)
      → nvs_commit disk handle n ≡ done (e, m)
      → NvsStep n m
  wrote :
      (alloc : Alloc) (handle : ℕ) (key : Option Text) (type : ℕ) (bytes : Option (List ℕ))
      (m : Nvs)
      → (nvs_set alloc handle key type bytes n).1 ≡ m
      → NvsStep n m
  erased_key :
      (handle : ℕ) (key : Option Text) (m : Nvs) → (nvs_erase_key handle key n).1 ≡ m → NvsStep n m
  erased_all : (handle : ℕ) (m : Nvs) → (nvs_erase_all handle n).1 ≡ m → NvsStep n m
  erased_flash :
      (listed : Bool) (unlinked : Text → Bool) (m : Nvs)
      → nvs_flash_erase listed unlinked n ≡ m
      → NvsStep n m
  moved : (files : Text → Option (List ℕ)) (m : Nvs) → record n { files = files } ≡ m → NvsStep n m

pub data NvsReached : Nvs → Type 0 where
  start : (files : Text → Option (List ℕ)) (n : Nvs) → init files ≡ n → NvsReached n
  next : {n m : Nvs} → NvsReached n → NvsStep n m → NvsReached m

NvsStep-IsValid : {n m : Nvs} → IsValid n → NvsStep n m → IsValid m
NvsStep-IsValid v (opened alloc name wants o m e q) =
    subst IsValid q (rw e at (nvs_open-IsValid v alloc name wants))
NvsStep-IsValid v (closed handle m q) = subst IsValid q (nvs_close-IsValid v handle)
NvsStep-IsValid v (committed disk handle e m q) = rw q at (nvs_commit-IsValid v disk handle)
NvsStep-IsValid v (wrote alloc handle key type bytes m q) =
    subst IsValid q (nvs_set-IsValid v alloc handle key type bytes)
NvsStep-IsValid v (erased_key handle key m q) = subst IsValid q (nvs_erase_key-IsValid v handle key)
NvsStep-IsValid v (erased_all handle m q) = subst IsValid q (nvs_erase_all-IsValid v handle)
NvsStep-IsValid {n} v (erased_flash listed unlinked m q) =
    subst IsValid q (nvs_flash_erase-IsValid listed unlinked n)
NvsStep-IsValid v (moved files m q) = subst IsValid q (files-IsValid v files)

-- After any sequence of calls on any number of handles, with any answers of the heap and of the file
-- system: each handle in use points to one of the sixteen stores, the references of a store are the
-- handles in use that point to it, a store is occupied exactly while it has any, and no namespace
-- has two occupied stores.
pub reached-IsValid : {n : Nvs} → NvsReached n → IsValid n
reached-IsValid (start files n q) =
    subst IsValid q (unfold init in blank-IsValid (init files) (λ k lt. refl) (λ h lt. refl))
reached-IsValid (next r s) = NvsStep-IsValid (reached-IsValid r) s
