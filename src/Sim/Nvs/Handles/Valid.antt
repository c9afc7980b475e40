-- ===== src/Sim/Nvs/Handles/Valid.antt =====
-- The counts of the stores agree with the handles, after any sequence of calls.
use micro_tech.Prelude.{
  write_at, ℕ, ◌+◌, ◌%◌, ◌^◌, ◌<◌, ◌≡◌, ◌≢◌, true, false, not, Option, none, some, List, ltb, ◌==◌,
  if◌then◌else◌, arith, Bool-cases, Option-cases, inl, inr, ==_iff,
}
use micro_tech.Sim.Nvs.{Text, Record, str_eq}
use micro_tech.Sim.Nvs.Values.{str_eq_comm}
use micro_tech.Sim.Nvs.Handles.{Nvs, blank_store, first, take_slot, holds_name}
use micro_tech.Sim.Nvs.Handles.Counts.{first_found, count, count-le, count-write_at}

abbrev pub Aims : Option ℕ → Type 0
Aims none = ⊥
Aims (some k) = k < 16

-- `refs` counts the slots that point to a store; a store is occupied when there are any; and no two
-- occupied stores have the same namespace.
pub record IsValid (n : Nvs) : Type 0 where
  pub target : (h : ℕ) → h < 16 → (n.slots h).in_use ≡ true → Aims (n.slots h).store
  pub counted : (k : ℕ) → k < 16 → (n.stores k).refs ≡ count n.slots k 16
  pub held : (k : ℕ) → k < 16 → (n.stores k).occupied ≡ ltb 0 (n.stores k).refs
  pub one_each :
      (j k : ℕ)
      → j < 16
      → k < 16
      → (n.stores j).occupied ≡ true
      → (n.stores k).occupied ≡ true
      → str_eq (n.stores j).namespace_name (n.stores k).namespace_name ≡ true
      → j ≡ k

-- The state between the choice of a store and that of a slot: the store `k` is occupied, and may not
-- be counted yet.
pub record IsChosen (k : ℕ) (n : Nvs) : Type 0 where
  target : (h : ℕ) → h < 16 → (n.slots h).in_use ≡ true → Aims (n.slots h).store
  counted : (j : ℕ) → j < 16 → (n.stores j).refs ≡ count n.slots j 16
  held : (j : ℕ) → j < 16 → j ≢ k → (n.stores j).occupied ≡ ltb 0 (n.stores j).refs
  chosen : (n.stores k).occupied ≡ true
  one_each :
      (i j : ℕ)
      → i < 16
      → j < 16
      → (n.stores i).occupied ≡ true
      → (n.stores j).occupied ≡ true
      → str_eq (n.stores i).namespace_name (n.stores j).namespace_name ≡ true
      → i ≡ j

module _ (k h : ℕ) (n : Nvs) (small : k < 16) (slot_small : h < 16)
    (free : (n.slots h).in_use ≡ false) (c : IsChosen k n) where
  abbrev taken : Nvs
  taken = record n {
    slots = write_at h (record { in_use = true; store = some k }) n.slots;
    stores = write_at k (record (n.stores k) { refs = ((n.stores k).refs + 1) % 2 ^ 32 }) n.stores;
  }

  taken-IsValid : IsValid taken
  taken-IsValid = record {
    target = λ i lt u. elim (Bool-cases (i == h)) [
      | inl e ↦ rw (e, if◌then◌else◌) small
      | inr e ↦ rw (e, if◌then◌else◌) (c.target i lt (rw (e, if◌then◌else◌) at u))
    ];
    counted = λ j lt. ground (
      arith,
      c.counted k small,
      c.counted j lt,
      count-le n.slots j 16,
      count-write_at n.slots j h 16 (record { in_use = true; store = some k }) slot_small,
    );
    held = λ j lt. ground (arith, c.counted k small, c.held j lt, c.chosen, count-le n.slots k 16);
    one_each = λ i j hi hj oi oj e. ground (arith, c.one_each i j hi hj);
  }

module _ (k : ℕ) (n : Nvs) (small : k < 16) (c : IsChosen k n) where
  given_back-IsValid :
      (n.stores k).refs ≡ 0 → IsValid (record n { stores = write_at k blank_store n.stores })
  given_back-IsValid e = record {
    target = c.target;
    counted = λ j lt. ground (arith, c.counted j lt);
    held = λ j lt. ground (arith, c.held j lt);
    one_each = λ i j hi hj oi oj s. ground (arith, c.one_each i j hi hj);
  }

  kept-IsValid : (n.stores k).refs ≢ 0 → IsValid n
  kept-IsValid e = record {
    target = c.target;
    counted = c.counted;
    held = λ j lt. ground (arith, c.held j lt, c.chosen);
    one_each = c.one_each;
  }

  pub take_slot-IsValid : IsValid (take_slot k n).state
  unfolding take_slot
  take_slot-IsValid = elim (Option-cases (first (λ i. not (n.slots i).in_use) 16 0)) [
    | inl e ↦ elim (Bool-cases ((n.stores k).refs == 0)) [
      | inl z ↦ rw (e, take_slot, z, if◌then◌else◌) (given_back-IsValid ((==_iff _ 0).0 z))
      | inr z ↦ rw (e, take_slot, z, if◌then◌else◌) (kept-IsValid (ground arith))
    ]
    | inr (h, e) ↦
        let f = first_found (λ i. not (n.slots i).in_use) 16 0 h e in
        rw (e, take_slot) (taken-IsValid k h n small (omega (arith, f)) (ground (arith, f)) c)
  ]

pub IsValid→IsChosen :
    (k : ℕ) (n : Nvs) → k < 16 → (n.stores k).occupied ≡ true → IsValid n → IsChosen k n
IsValid→IsChosen k n small o v = record {
  target = v.target;
  counted = v.counted;
  held = λ j lt ne. v.held j lt;
  chosen = o;
  one_each = v.one_each;
}

module _ (k : ℕ) (name : Text) (rs : List Record) (n : Nvs) (small : k < 16)
    (free : (n.stores k).occupied ≡ false) (fresh : (j : ℕ) → j < 16 → holds_name n name j ≡ false)
    (v : IsValid n) where
  pub filled-IsChosen : IsChosen k (record n {
    stores =
        write_at k
          (record { occupied = true; refs = 0; namespace_name = name; records = rs })
          n.stores;
  })
  filled-IsChosen = record {
    target = v.target;
    counted = λ j lt. ground (arith, v.counted k small, v.counted j lt, v.held k small);
    held = λ j lt ne. ground (arith, v.held j lt);
    chosen = ground arith;
    one_each = λ i j hi hj oi oj s. ground (
      arith,
      v.one_each i j hi hj,
      fresh i hi,
      fresh j hj,
      str_eq_comm name (n.stores j).namespace_name,
    );
  }

  pub unfilled-IsValid : IsValid (record n { stores = write_at k blank_store n.stores })
  unfilled-IsValid = record {
    target = v.target;
    counted = λ j lt. ground (arith, v.counted k small, v.counted j lt, v.held k small);
    held = λ j lt. ground (arith, v.held j lt);
    one_each = λ i j hi hj oi oj s. ground (arith, v.one_each i j hi hj);
  }
