-- ===== src/Sim/Nvs/Handles/Open.antt =====
-- What a handle gives access to.
use micro_tech.Prelude.{
  ℕ, suc, ◌-◌, ◌<◌, ◌≡◌, refl, true, false, not, none, some, length, leb, if◌then◌else◌, arith, ok,
}
use micro_tech.Sim.Nvs.{Alloc, key_max}
use micro_tech.Sim.Nvs.Values.{str_eq_refl}
use micro_tech.Sim.Nvs.Image.{done}
use micro_tech.Sim.Nvs.Handles.{
  Nvs, slot_store, first, Opened, take_slot, holds_name, open_named, nvs_open,
}
use micro_tech.Sim.Nvs.Handles.Counts.{first_found, first-some, count_pos}
use micro_tech.Sim.Nvs.Handles.Valid.{IsValid}
use micro_tech.Sim.Nvs.Handles.Calls.{slot_store_lem, slot_points}

-- `take_slot` where there is a free slot.
pub take_slot_ok :
    (k : ℕ) (n : Nvs) (h : ℕ)
    → first (λ i. not (n.slots i).in_use) 16 0 ≡ some h
    → let o = take_slot k n in
      (o.result ≡ ok)
      × (o.handle ≡ some (suc h))
      × (slot_store o.state (suc h) ≡ some k)
      × ((o.state.stores k).records ≡ (n.stores k).records)
unfolding take_slot slot_store
take_slot_ok k n h e =
    let f = first_found (λ i. not (n.slots i).in_use) 16 0 h e in
    let s : suc h - 1 ≡ h = omega arith in ground (arith, f, s)

-- A namespace is opened in the store that has its name.
open_named_again :
    (alloc : ℕ → Alloc) (n : Nvs) (k : ℕ)
    → IsValid n
    → k < 16
    → (n.stores k).occupied ≡ true
    → open_named alloc (n.stores k).namespace_name n ≡ done (take_slot k n)
unfolding open_named
open_named_again alloc n k v small o =
    let name = (n.stores k).namespace_name in
    let (j, e) =
      first-some (holds_name n name) 16 0 k (ground (arith, str_eq_refl name)) (omega arith)
        (omega arith) in
    let f = first_found (holds_name n name) 16 0 j e in
    let same : j ≡ k = ground (arith, f, v.one_each j k) in rw (e, open_named, same)

-- A store that a slot points to is occupied.
pub pointed_occupied :
    (n : Nvs) (handle k : ℕ)
    → IsValid n
    → slot_store n handle ≡ some k
    → (n.stores k).occupied ≡ true
pointed_occupied n handle k v e =
    let (u, s, hs, ks) = slot_store_lem v handle k e in
    ground (
      arith,
      v.held k ks,
      v.counted k ks,
      count_pos n.slots k 16 (handle - 1) hs (slot_points v (handle - 1) k u s),
    )

take_slot_keeps :
    (k : ℕ) (n : Nvs) (h handle j : ℕ)
    → first (λ i. not (n.slots i).in_use) 16 0 ≡ some h
    → slot_store n handle ≡ some j
    → slot_store (take_slot k n).state handle ≡ some j
unfolding take_slot slot_store
take_slot_keeps k n h handle j e s =
    ground (arith, first_found (λ i. not (n.slots i).in_use) 16 0 h e)

free_is_closed :
    (n : Nvs) (h : ℕ)
    → first (λ i. not (n.slots i).in_use) 16 0 ≡ some h
    → slot_store n (suc h) ≡ none
unfolding slot_store
free_is_closed n h e =
    let s : suc h - 1 ≡ h = omega arith in
    ground (arith, s, first_found (λ i. not (n.slots i).in_use) 16 0 h e)

-- A namespace that is open already is opened again without a look at its file: while a slot is free,
-- the call succeeds, with a handle that was not open, on the same store as the first handle, and the
-- records of that store are as they were. So a value that is set by one handle is what the other gets.
pub nvs_open_shares :
    (alloc : ℕ → Alloc) (n : Nvs) (handle k j : ℕ)
    → IsValid n
    → slot_store n handle ≡ some k
    → length (n.stores k).namespace_name < 16
    → j < 16
    → (n.slots j).in_use ≡ false
    → (o : Opened) × (h : ℕ) × (nvs_open alloc (some (n.stores k).namespace_name) true n ≡ done o)
      × (o.result ≡ ok)
      × (o.handle ≡ some h)
      × (slot_store n h ≡ none)
      × (slot_store o.state h ≡ some k)
      × (slot_store o.state handle ≡ some k)
      × ((o.state.stores k).records ≡ (n.stores k).records)
unfolding nvs_open
nvs_open_shares alloc n handle k j v e short small free =
    let (h, f) =
      first-some (λ i. not (n.slots i).in_use) 16 0 j (rw free refl) (omega arith) (omega arith) in
    let (r, hd, s, rs) = take_slot_ok k n h f in
    let long : leb key_max (length (n.stores k).namespace_name) ≡ false = ground arith in
    let (u, st, hs, ks) = slot_store_lem v handle k e in
    (
      take_slot k n,
      suc h,
      rw (long, if◌then◌else◌) (open_named_again alloc n k v ks (pointed_occupied n handle k v e)),
      r,
      hd,
      free_is_closed n h f,
      s,
      take_slot_keeps k n h handle k f e,
      rs,
    )
