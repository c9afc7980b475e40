-- ===== src/Sim/Nvs/Handles/Calls.antt =====
-- Each call keeps the counts, and so does any sequence of calls.
use micro_tech.Prelude.{
  write_at, ℕ, ◌+◌, ◌-◌, ◌<◌, ◌≡◌, refl, Bool, true, false, not, ◌||◌, Option, none, some, List, [],
  length, leb, ◌==◌, if◌then◌else◌, arith, Bool-cases, Option-cases, inl, inr, EspErr, is_ok,
}
use micro_tech.Sim.Nvs.{Text, Record, str_eq, Alloc, key_max}
use micro_tech.Sim.Nvs.Image.{Io, done, failed, fault, Disk, load, store_flush}
use micro_tech.Sim.Nvs.Handles.{
  Nvs, blank_store, blank_slot, slot_store, first, fill_store, holds_name, open_named, nvs_open,
  nvs_close, nvs_commit, nvs_set, set_records, nvs_erase_key, nvs_erase_all,
}
use micro_tech.Sim.Nvs.Handles.Counts.{
  first_found, first-none, points, one_if, count, count-write_at,
}
use micro_tech.Sim.Nvs.Handles.Valid.{
  IsValid, take_slot-IsValid, IsValid→IsChosen, filled-IsChosen, unfilled-IsValid,
}

-- What holds of a state that a call leaves, if the call is defined.
abbrev pub Leaves {ℓ} : {A : Type 0} → (A → Type ℓ) → Io A → Type ℓ
Leaves P (done a) = P a
Leaves P failed = Unit
Leaves P fault = Unit

module _ {n : Nvs} (v : IsValid n) where
  fill_store-IsValid :
      (k : ℕ) (name : Text) (io : Io (EspErr × List Record))
      → k < 16
      → (n.stores k).occupied ≡ false
      → ((j : ℕ) → j < 16 → holds_name n name j ≡ false)
      → Leaves (λ o. IsValid o.state) (fill_store k name io n)
  unfolding fill_store
  fill_store-IsValid k name (done (e, rs)) small free fresh = elim (Bool-cases (is_ok e)) [
    | inl y ↦
        rw (y, if◌then◌else◌)
          (take_slot-IsValid k _ small (filled-IsChosen k name rs n small free fresh v))
    | inr y ↦ rw (y, if◌then◌else◌) (unfilled-IsValid k name rs n small free fresh v)
  ]
  fill_store-IsValid k name failed small free fresh = tt
  fill_store-IsValid k name fault small free fresh = tt

  open_named-IsValid :
      (alloc : ℕ → Alloc) (name : Text) → Leaves (λ o. IsValid o.state) (open_named alloc name n)
  unfolding open_named
  open_named-IsValid alloc name = elim (Option-cases (first (holds_name n name) 16 0)) [
    | inl e ↦ elim (Option-cases (first (λ i. not (n.stores i).occupied) 16 0)) [
      | inl f ↦ rw (e, open_named, f) v
      | inr (k, f) ↦
          let g = first_found (λ i. not (n.stores i).occupied) 16 0 k f in
          rw (e, open_named, f)
            (fill_store-IsValid k name (load alloc (n.files name)) (omega (arith, g))
              (ground (arith, g))
              (λ j lt. first-none (holds_name n name) 16 0 j e (omega arith) (omega arith)))
    ]
    | inr (k, e) ↦
        let g = first_found (holds_name n name) 16 0 k e in
        rw (e, open_named)
          (take_slot-IsValid k n (omega (arith, g))
            (IsValid→IsChosen k n (omega (arith, g)) (ground (arith, g)) v))
  ]

  pub nvs_open-IsValid :
      (alloc : ℕ → Alloc) (name : Option Text) (wants : Bool)
      → Leaves (λ o. IsValid o.state) (nvs_open alloc name wants n)
  unfolding nvs_open
  nvs_open-IsValid alloc none wants = v
  nvs_open-IsValid alloc (some name) wants =
      elim (Bool-cases (not wants || leb key_max (length name))) [
        | inl e ↦ rw (e, if◌then◌else◌) v
        | inr e ↦ rw (e, if◌then◌else◌) (open_named-IsValid alloc name)
      ]

  -- The records of a store are not counted.
  set_records-IsValid : (k : ℕ) (rs : List Record) → IsValid (set_records k rs n)
  set_records-IsValid k rs = record {
    target = v.target;
    counted = λ j lt. ground (arith, v.counted j lt);
    held = λ j lt. ground (arith, v.held j lt);
    one_each = λ i j hi hj oi oj s. ground (arith, v.one_each i j hi hj);
  }

  pub files-IsValid : (files : Text → Option (List ℕ)) → IsValid (record n { files = files })
  files-IsValid files = record {
    target = v.target;
    counted = v.counted;
    held = v.held;
    one_each = v.one_each;
  }

  pub slot_store_lem :
      (handle k : ℕ)
      → slot_store n handle ≡ some k
      → ((n.slots (handle - 1)).in_use ≡ true)
        × ((n.slots (handle - 1)).store ≡ some k)
        × (handle - 1 < 16)
        × (k < 16)
  unfolding slot_store
  slot_store_lem handle k e = ground (arith, v.target (handle - 1))

  pub slot_points :
      (h k : ℕ)
      → (n.slots h).in_use ≡ true
      → (n.slots h).store ≡ some k
      → points k (n.slots h) ≡ true
  slot_points h k u s = rw (u, s) (ground arith)

  module _ (h k : ℕ) (hs : h < 16) (ks : k < 16) (used : (n.slots h).in_use ≡ true)
      (stored : (n.slots h).store ≡ some k) where
    abbrev released : Nvs
    released =
        let store = n.stores k in
        let refs = store.refs - 1 in
        record n {
          slots = write_at h blank_slot n.slots;
          stores =
              write_at k (if refs == 0 then blank_store else record store { refs = refs }) n.stores;
        }

    released_counts :
        (j : ℕ)
        → count (write_at h blank_slot n.slots) j 16 + one_if (points j (n.slots h))
          ≡ count n.slots j 16
    released_counts j = omega (arith, count-write_at n.slots j h 16 blank_slot hs)

    points_one : (j : ℕ) → points j (n.slots h) ≡ (k == j)
    points_one j = rw (used, stored) refl

    released-IsValid : IsValid released
    released-IsValid = record {
      target = λ i lt u. ground (arith, v.target i lt);
      counted =
          λ j lt. ground (arith, v.counted k ks, v.counted j lt, released_counts j, points_one j);
      held = λ j lt. ground (arith, v.counted k ks, v.held j lt, v.held k ks);
      one_each = λ i j hi hj oi oj s. ground (arith, v.one_each i j hi hj);
    }

  pub nvs_close-IsValid : (handle : ℕ) → IsValid (nvs_close handle n)
  unfolding nvs_close
  nvs_close-IsValid handle = elim (Option-cases (slot_store n handle)) [
    | inl e ↦ rw (e, nvs_close) v
    | inr (k, e) ↦
        let (u, s, hs, ks) = slot_store_lem handle k e in
        rw (e, nvs_close) (released-IsValid (handle - 1) k hs ks u s)
  ]

  pub nvs_commit-IsValid :
      (disk : Disk) (handle : ℕ) → Leaves (λ p. IsValid p.1) (nvs_commit disk handle n)
  unfolding nvs_commit
  nvs_commit-IsValid disk handle = elim (Option-cases (slot_store n handle)) [
    | inl e ↦ rw (e, nvs_commit) v
    | inr (k, e) ↦
        rw (e, nvs_commit)
          (elim (store_flush disk (n.stores k).records (n.files (n.stores k).namespace_name))
            as (λ io.
              let p : Io (EspErr × Nvs) = elim io [
                | done (e, file) ↦ done (
                  e,
                  record n {
                    files = λ o. if str_eq (n.stores k).namespace_name o then file else n.files o;
                  },
                )
                | failed ↦ failed
                | fault ↦ fault
              ] in
              Leaves (λ p. IsValid p.1) p) [
                | done (e, file) ↦ files-IsValid _
                | failed ↦ tt
                | fault ↦ tt
              ])
  ]

  pub nvs_set-IsValid :
      (alloc : Alloc) (handle : ℕ) (key : Option Text) (type : ℕ) (bytes : Option (List ℕ))
      → IsValid (nvs_set alloc handle key type bytes n).1
  unfolding nvs_set
  nvs_set-IsValid alloc handle none type bytes = v
  nvs_set-IsValid alloc handle (some key) type none = v
  nvs_set-IsValid alloc handle (some key) type (some bytes) =
      elim (Option-cases (slot_store n handle)) [
        | inl e ↦ rw (e, nvs_set) v
        | inr (k, e) ↦ elim (Bool-cases (leb key_max (length key))) [
          | inl l ↦ rw (e, nvs_set, l, if◌then◌else◌) v
          | inr l ↦ rw (e, nvs_set, l, if◌then◌else◌) (set_records-IsValid k _)
        ]
      ]

  pub nvs_erase_key-IsValid :
      (handle : ℕ) (key : Option Text) → IsValid (nvs_erase_key handle key n).1
  unfolding nvs_erase_key
  nvs_erase_key-IsValid handle none = v
  nvs_erase_key-IsValid handle (some key) = elim (Option-cases (slot_store n handle)) [
    | inl e ↦ rw (e, nvs_erase_key) v
    | inr (k, e) ↦ rw (e, nvs_erase_key) (set_records-IsValid k _)
  ]

  pub nvs_erase_all-IsValid : (handle : ℕ) → IsValid (nvs_erase_all handle n).1
  unfolding nvs_erase_all
  nvs_erase_all-IsValid handle = elim (Option-cases (slot_store n handle)) [
    | inl e ↦ rw (e, nvs_erase_all) v
    | inr (k, e) ↦ rw (e, nvs_erase_all) (set_records-IsValid k [])
  ]
