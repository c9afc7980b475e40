-- ===== src/Sim/Nvs/Tests.antt =====
-- The storage on concrete data.
use micro_tech.Prelude.{
  write_at, ℕ, ◌≡◌, refl, true, false, none, some, List, [], ◌∷◌, ◌==◌, if◌then◌else◌, ok, no_mem,
  arith,
}
use micro_tech.Sim.Nvs.{Text, Record, Alloc, str_eq, find, set_record, get_record}
use micro_tech.Sim.Nvs.Values.{values}
use micro_tech.Sim.Nvs.Refine.{answer, set_record_no_mem}
use micro_tech.Sim.Nvs.Run.{Op, put_key, get_key, erase_key, run, run_values, run_refines, plenty}
use micro_tech.Sim.Nvs.Image.{done, Disk, store_flush, load}
use micro_tech.Sim.Nvs.Image.RoundTrip.{image}
use micro_tech.Sim.Nvs.Handles.{
  Nvs, blank_store, blank_slot, slot_store, Opened, first, take_slot, nvs_open, nvs_close,
  nvs_commit, nvs_set, nvs_get, open_named, fill_store,
}
use micro_tech.Sim.Nvs.Handles.Counts.{count}
use micro_tech.Sim.Nvs.Handles.Valid.{IsValid}
use micro_tech.Sim.Nvs.Handles.Reach.{
  init, NvsReached, start, next, opened, closed, reached-IsValid,
}
use micro_tech.Sim.Nvs.Handles.Open.{nvs_open_shares}
use micro_tech.Sim.Nvs.Handles.Reopen.{nvs_reopen, committed_files}
use micro_tech.Sim.Nvs.Typed.{nvs_get-nvs_set}

abbrev ssid : Text
ssid = b's' ∷ b's' ∷ b'i' ∷ b'd' ∷ []

abbrev mode : Text
mode = b'm' ∷ b'o' ∷ b'd' ∷ b'e' ∷ []

abbrev wifi : Text
wifi = b'w' ∷ b'i' ∷ b'f' ∷ b'i' ∷ []

abbrev ssid_record : Record
ssid_record = record { key = ssid; type = 4; content = some (b'h' ∷ 0 ∷ []); size = 2 }

abbrev mode_record : Record
mode_record = record { key = mode; type = 1; content = some (3 ∷ []); size = 1 }

abbrev two_records : List Record
two_records = ssid_record ∷ mode_record ∷ []

some_ops : List Op
some_ops =
    put_key mode 1 (5 ∷ [])
    ∷ get_key mode 1 true (some 4)
    ∷ erase_key ssid
    ∷ get_key ssid 4 true (some 9)
    ∷ []

run_refines_example : run two_records some_ops ≡ some (run_values (values two_records) some_ops)
run_refines_example =
    run_refines some_ops two_records (refl, (refl, tt)) (unfold find str_eq in (refl, (refl, tt)))

abbrev works : Disk
works = record { opened = true; counted = true; wrote = λ _ _. true; lost = none; renamed = true }

abbrev one_open : Nvs
one_open = record {
  stores = λ k.
      if k == 0
      then record { occupied = true; refs = 1; namespace_name = wifi; records = two_records }
      else blank_store;
  slots = λ h. if h == 0 then record { in_use = true; store = some 0 } else blank_slot;
  files = λ _. none;
}

one_open-IsValid : IsValid one_open
unfolding count
one_open-IsValid = record {
  target = λ h lt u. ground arith;
  counted = λ k lt. ground arith;
  held = λ k lt. ground arith;
  one_each = λ j k hj hk oj ok e. ground arith;
}

-- An empty directory, and a namespace opened in it.
abbrev empty_dir : Nvs
empty_dir = init (λ _. none)

abbrev first_open : Opened
first_open = take_slot 0 (record empty_dir {
  stores =
      write_at 0 (record { occupied = true; refs = 0; namespace_name = wifi; records = [] })
        empty_dir.stores;
})

open_runs : nvs_open (λ _. plenty) (some wifi) true empty_dir ≡ done first_open
unfolding nvs_open open_named first fill_store init load str_eq
open_runs = refl

first_open_runs : (first_open.result ≡ ok) × (first_open.handle ≡ some 1)
unfolding take_slot first init
first_open_runs = (refl, refl)

reached_first : NvsReached first_open.state
reached_first =
    next (start (λ _. none) empty_dir refl)
      (opened (λ _. plenty) (some wifi) true first_open first_open.state open_runs refl)

reached-IsValid_example : IsValid (nvs_close 1 first_open.state)
reached-IsValid_example =
    reached-IsValid (next reached_first (closed 1 (nvs_close 1 first_open.state) refl))

one_open_slot : slot_store one_open 1 ≡ some 0
unfolding slot_store
one_open_slot = refl

nvs_open_shares_example :
    (o : Opened) × (h : ℕ) × (nvs_open (λ _. plenty) (some wifi) true one_open ≡ done o)
    × (o.result ≡ ok)
    × (o.handle ≡ some h)
    × (slot_store one_open h ≡ none)
    × (slot_store o.state h ≡ some 0)
    × (slot_store o.state 1 ≡ some 0)
    × ((o.state.stores 0).records ≡ two_records)
nvs_open_shares_example =
    nvs_open_shares (λ _. plenty) one_open 1 0 3 one_open-IsValid one_open_slot (omega arith)
      (omega arith) refl

abbrev committed : Nvs
committed = record one_open { files = committed_files one_open 0 (some (image two_records)) }

commit_runs : nvs_commit works 1 one_open ≡ done (ok, committed)
unfolding nvs_commit slot_store store_flush
commit_runs = refl

nvs_reopen_example :
    (o : Opened) × (h : ℕ) × (j : ℕ) × (nvs_open
        (λ _. plenty)
        (some wifi)
        true
        (nvs_close 1 committed)
      ≡ done o)
    × (o.result ≡ ok)
    × (o.handle ≡ some h)
    × (slot_store o.state h ≡ some j)
    × ((key : Text) → values (o.state.stores j).records key ≡ values two_records key)
nvs_reopen_example =
    nvs_reopen works one_open committed 1 0 one_open-IsValid one_open_slot refl (omega arith)
      (omega arith) (unfold find str_eq in (refl, (refl, tt))) (omega arith) refl commit_runs

set_runs : (nvs_set plenty 1 (some mode) 1 (some (7 ∷ [])) one_open).0 ≡ ok
unfolding nvs_set slot_store set_record find str_eq
set_runs = refl

nvs_get-nvs_set_example :
    nvs_get 1
      (some mode)
      1
      true
      (some 1)
      (nvs_set plenty 1 (some mode) 1 (some (7 ∷ [])) one_open).1
    ≡ some (
        answer 1 true
          (some 1)
          (if str_eq mode mode then some (1, 7 ∷ []) else values two_records mode))
nvs_get-nvs_set_example =
    nvs_get-nvs_set plenty 1 1 0 mode 1 (7 ∷ []) one_open one_open_slot one_open_slot
      (refl, (refl, tt)) set_runs mode 1 true (some 1)

abbrev no_content : Alloc
no_content = record { node = true; name = true; content = false }

find-mode : find two_records mode ≡ some mode_record
unfolding find str_eq
find-mode = refl

set_record_no_mem_example :
    ((set_record no_content mode 1 (9 ∷ []) two_records).0 ≡ no_mem)
    × (find (set_record no_content mode 1 (9 ∷ []) two_records).1 mode
        ≡ some (record mode_record { content = none }))
    × ((k : Text)
        → str_eq mode k ≡ false
        → find (set_record no_content mode 1 (9 ∷ []) two_records).1 k ≡ find two_records k)
    × (get_record mode 1 true (some 1) (set_record no_content mode 1 (9 ∷ []) two_records).1 ≡ none)
set_record_no_mem_example =
    set_record_no_mem no_content mode 1 (9 ∷ []) two_records mode_record find-mode refl
      (omega arith)
