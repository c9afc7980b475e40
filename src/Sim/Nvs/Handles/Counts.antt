-- ===== src/Sim/Nvs/Handles/Counts.antt =====
-- How many slots point to a store, and what a search of an array finds.
use micro_tech.Prelude.{
  write_at, ℕ, zero, suc, ◌+◌, ◌<◌, ◌≤◌, ◌≡◌, refl, Bool, true, false, ◌&&◌, none, some, ◌==◌,
  if◌then◌else◌, arith, Bool-cases, Option-cases, inl, inr, ==_iff,
}
use micro_tech.Sim.Nvs.Handles.{Slot, first}

pub first_found :
    (test : ℕ → Bool) (left i k : ℕ)
    → first test left i ≡ some k
    → (test k ≡ true) × (i ≤ k) × (k < i + left)
unfolding first
first_found test zero i k h = cc
first_found test (suc left) i k h = elim (Bool-cases (test i)) [
  | inl e ↦ ground (arith)
  | inr e ↦ ground (arith, first_found test left (suc i) k)
]

pub first-none :
    (test : ℕ → Bool) (left i k : ℕ)
    → first test left i ≡ none
    → i ≤ k
    → k < i + left
    → test k ≡ false
unfolding first
first-none test zero i k h lo hi = absurd (omega arith)
first-none test (suc left) i k h lo hi = ground (arith, first-none test left (suc i) k)

pub first-some :
    (test : ℕ → Bool) (left i j : ℕ)
    → test j ≡ true
    → i ≤ j
    → j < i + left
    → (k : ℕ) × (first test left i ≡ some k)
first-some test left i j t lo hi = elim (Option-cases (first test left i)) [
  | inl e ↦ cc (first-none test left i j e lo hi, t)
  | inr (k, e) ↦ (k, e)
]

pub first_is_none :
    (test : ℕ → Bool) (left i : ℕ)
    → ((k : ℕ) → k < i + left → test k ≡ false)
    → first test left i ≡ none
first_is_none test left i h = elim (Option-cases (first test left i)) [
  | inl e ↦ e
  | inr (k, e) ↦ let f = first_found test left i k e in cc (f.0, h k f.2)
]

-- The slot holds a pointer to the store `k`.
abbrev pub points : ℕ → Slot → Bool
points k s = s.in_use && (elim s.store [ none ↦ false | some j ↦ j == k ])

abbrev pub one_if : Bool → ℕ
one_if b = if b then 1 else 0

unfoldable pub count : (ℕ → Slot) → ℕ → ℕ → ℕ
count slots k zero = 0
count slots k (suc n) = one_if (points k (slots n)) + count slots k n

pub count-le : (slots : ℕ → Slot) (k n : ℕ) → count slots k n ≤ n
unfolding count
count-le slots k zero = omega arith
count-le slots k (suc n) = ground (arith, count-le slots k n)

pub count_pos :
    (slots : ℕ → Slot) (k n h : ℕ) → h < n → points k (slots h) ≡ true → 0 < count slots k n
unfolding count
count_pos slots k zero h lt p = absurd (omega arith)
count_pos slots k (suc n) h lt p = elim (Bool-cases (h == n)) [
  | inl e ↦ let q : h ≡ n = (==_iff h n).0 e in rw (rw q at p) (omega arith)
  | inr e ↦ omega (arith, count_pos slots k n h (ground arith) p)
]

count-write_beyond :
    (slots : ℕ → Slot) (k h n : ℕ) (s : Slot)
    → n ≤ h
    → count (write_at h s slots) k n ≡ count slots k n
unfolding count
count-write_beyond slots k h zero s le = refl
count-write_beyond slots k h (suc n) s le = ground (arith, count-write_beyond slots k h n s)

-- A write of one slot moves its share of the count.
pub count-write_at :
    (slots : ℕ → Slot) (k h n : ℕ) (s : Slot)
    → h < n
    → count (write_at h s slots) k n + one_if (points k (slots h))
      ≡ count slots k n + one_if (points k s)
unfolding count
count-write_at slots k h zero s lt = absurd (omega arith)
count-write_at slots k h (suc n) s lt = elim (Bool-cases (n == h)) [
  | inl e ↦
      let q : n ≡ h = (==_iff n h).0 e in
      rw (e, if◌then◌else◌)
        (rw (count-write_beyond slots k h n s (omega arith)) (rw q (omega arith)))
  | inr e ↦ rw (e, if◌then◌else◌) (omega (arith, count-write_at slots k h n s (ground arith)))
]

pub count_blank :
    (slots : ℕ → Slot) (k n : ℕ)
    → ((h : ℕ) → h < n → (slots h).in_use ≡ false)
    → count slots k n ≡ 0
unfolding count
count_blank slots k zero h = refl
count_blank slots k (suc n) h =
    ground (arith, h n, count_blank slots k n (λ i lt. h i (omega arith)))
