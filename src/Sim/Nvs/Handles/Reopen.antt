-- ===== src/Sim/Nvs/Handles/Reopen.antt =====
-- A namespace that is committed, closed and opened again.
use micro_tech.Prelude.{
  write_at, ℕ, suc, ◌-◌, ◌^◌, ◌<◌, ◌≡◌, true, false, not, Option, none, some, List, length, leb,
  if◌then◌else◌, arith, inl, inr, EspErr, ok, fail, ◌∙◌,
}
use micro_tech.Sim.Nvs.{Text, Record, str_eq, key_max}
use micro_tech.Sim.Nvs.Values.{str_eq_refl, Distinct, values}
use micro_tech.Sim.Nvs.Run.{plenty}
use micro_tech.Sim.Nvs.Image.{done, Disk, load, store_flush}
use micro_tech.Sim.Nvs.Image.RoundTrip.{AllStorable}
use micro_tech.Sim.Nvs.Image.Durable.{store_flush_durable}
use micro_tech.Sim.Nvs.Handles.{
  Nvs, blank_store, blank_slot, slot_store, first, Opened, take_slot, fill_store, holds_name,
  open_named, nvs_open, nvs_close, nvs_commit,
}
use micro_tech.Sim.Nvs.Handles.Counts.{first-some, first_is_none}
use micro_tech.Sim.Nvs.Handles.Valid.{IsValid}
use micro_tech.Sim.Nvs.Handles.Calls.{slot_store_lem}
use micro_tech.Sim.Nvs.Handles.Open.{take_slot_ok, pointed_occupied}

module _ (n : Nvs) (handle k : ℕ) (files : Text → Option (List ℕ)) where
  -- The state after the last handle of the store `k` is closed.
  abbrev closed : Nvs
  closed = record {
    stores = write_at k blank_store n.stores;
    slots = write_at (handle - 1) blank_slot n.slots;
    files = files;
  }

  close_last :
      slot_store n handle ≡ some k
      → (n.stores k).refs ≡ 1
      → nvs_close handle (record n { files = files }) ≡ closed
  unfolding nvs_close slot_store
  close_last e last = ground arith

  module _ (v : IsValid n) (ks : k < 16) (hs : handle - 1 < 16)
      (used : (n.stores k).occupied ≡ true) where
    nobody_left : (j : ℕ) → j < 16 → holds_name closed (n.stores k).namespace_name j ≡ false
    nobody_left j small = ground (arith, v.one_each j k)

    -- The first free store gets what the file of the namespace holds.
    abbrev filled : ℕ → List Record → Nvs
    filled j rs = record closed {
      stores =
          write_at j
            (record {
              occupied = true;
              refs = 0;
              namespace_name = (n.stores k).namespace_name;
              records = rs;
            })
            closed.stores;
    }

    open_named-closed :
        (rs : List Record) (j : ℕ)
        → load (λ _. plenty) (files (n.stores k).namespace_name) ≡ done (ok, rs)
        → first (λ i. not (closed.stores i).occupied) 16 0 ≡ some j
        → open_named (λ _. plenty) (n.stores k).namespace_name closed
          ≡ done (take_slot j (filled j rs))
    unfolding open_named fill_store
    open_named-closed rs j loaded f =
        let none_left =
          first_is_none (holds_name closed (n.stores k).namespace_name) 16 0
            (λ i lt. nobody_left i (omega (arith, lt))) in
        rw (none_left, open_named, f, loaded, fill_store)

    filled_here : (rs : List Record) (j : ℕ) → ((filled j rs).stores j).records ≡ rs
    filled_here rs j = ground arith

    pub open_loads :
        (rs : List Record)
        → load (λ _. plenty) (files (n.stores k).namespace_name) ≡ done (ok, rs)
        → (o : Opened) × (h : ℕ) × (j : ℕ) × (open_named
              (λ _. plenty)
              (n.stores k).namespace_name
              closed
            ≡ done o)
          × (o.result ≡ ok)
          × (o.handle ≡ some h)
          × (slot_store o.state h ≡ some j)
          × ((o.state.stores j).records ≡ rs)
    open_loads rs loaded =
        let (j, f) =
          first-some (λ i. not (closed.stores i).occupied) 16 0 k (ground arith) (omega arith)
            (omega arith) in
        let (h, g) =
          first-some (λ i. not ((filled j rs).slots i).in_use) 16 0 (handle - 1) (ground arith)
            (omega arith) (omega arith) in
        let (r, hd, s, q) = take_slot_ok j (filled j rs) h g in
        (
          take_slot j (filled j rs),
          suc h,
          j,
          open_named-closed rs j loaded f,
          r,
          hd,
          s,
          q ∙ filled_here rs j,
        )

abbrev pub committed_files : Nvs → ℕ → Option (List ℕ) → Text → Option (List ℕ)
committed_files n k file other =
    if str_eq (n.stores k).namespace_name other then file else n.files other

commit_done :
    (disk : Disk) (n : Nvs) (handle k : ℕ) (e : EspErr) (file : Option (List ℕ))
    → slot_store n handle ≡ some k
    → store_flush disk (n.stores k).records (n.files (n.stores k).namespace_name) ≡ done (e, file)
    → nvs_commit disk handle n ≡ done (e, record n { files = committed_files n k file })
unfolding nvs_commit
commit_done disk n handle k e file opened flushed = rw (opened, nvs_commit, flushed)

-- A commit that succeeds keeps the values of a namespace across its last close: the state after the
-- commit and the close lets the namespace be opened again, on a store with the same values for the
-- same keys as before. The fclose of the commit is taken to succeed, since the source does not look at
-- its result, the heap to have memory, and the records to fit the file.
pub nvs_reopen :
    (disk : Disk) (n n' : Nvs) (handle k : ℕ)
    → IsValid n
    → slot_store n handle ≡ some k
    → (n.stores k).refs ≡ 1
    → length (n.stores k).namespace_name < 16
    → AllStorable (n.stores k).records
    → Distinct (n.stores k).records
    → length (n.stores k).records < 2 ^ 32
    → disk.lost ≡ none
    → nvs_commit disk handle n ≡ done (ok, n')
    → (o : Opened) × (h : ℕ) × (j : ℕ) × (nvs_open
          (λ _. plenty)
          (some (n.stores k).namespace_name)
          true
          (nvs_close handle n')
        ≡ done o)
      × (o.result ≡ ok)
      × (o.handle ≡ some h)
      × (slot_store o.state h ≡ some j)
      × ((key : Text) → values (o.state.stores j).records key ≡ values (n.stores k).records key)
unfolding nvs_open
nvs_reopen disk n n' handle k v opened last short storable distinct few kept committed =
    elim (store_flush_durable disk rs (n.files name) storable distinct few kept) [
      | inl e ↦ cc (commit_done disk n handle k fail (n.files name) opened e, committed)
      | inr (bs, rs', e, loaded, same) ↦
          let files = committed_files n k (some bs) in
          let q : n' ≡ record n { files = files } =
            cc (commit_done disk n handle k ok (some bs) opened e, committed) in
          let here : files name ≡ some bs = rw (str_eq_refl name) in
          let (u, s, hs, ks) = slot_store_lem v handle k opened in
          let (o, h, j, is_open, r, hd, sj, records) =
            open_loads n handle k files v ks hs (pointed_occupied n handle k v opened) rs'
              (rw here loaded) in
          (
            o,
            h,
            j,
            rw (q, close_last n handle k files opened last, not_long, if◌then◌else◌) is_open,
            r,
            hd,
            sj,
            λ key. rw records (same key),
          )
    ]
  where
    name : Text
    name = (n.stores k).namespace_name

    rs : List Record
    rs = (n.stores k).records

    not_long : leb key_max (length (n.stores k).namespace_name) ≡ false
    not_long = ground arith
