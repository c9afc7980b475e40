-- ===== src/Sim/Freertos/Queue/Contents.antt =====
-- The items of a queue, oldest first, and what the two ends of the ring do to them.
use micro_tech.Prelude.{
  ℕ, zero, suc, ◌+◌, ◌-◌, ◌%◌, ◌≤◌, ◌<◌, ◌≡◌, ◌≢◌, refl, ap, ap₂, ◌∙◌, List, [], ◌∷◌, ◌++◌, length,
  ltb, ◌==◌, if◌then◌else◌, write_at, arith, Bool-cases, inl, inr, ==_iff,
}
use native.Mathlib.Nat.{mod-eq_of_lt, mod-eq-sub-mod}
use micro_tech.Sim.Freertos.Queue.{Block, Queue}

-- The index of the `i`-th item from the tail `t` on.
abbrev pub place : ℕ → ℕ → ℕ → ℕ
place capacity t i = if ltb (t + i) capacity then t + i else t + i - capacity

-- `n` items from the `i`-th on.
unfoldable pub items_from : (ℕ → Block) → ℕ → ℕ → ℕ → ℕ → List Block
items_from f capacity t i zero = []
items_from f capacity t i (suc n) = f (place capacity t i) ∷ items_from f capacity t (i + 1) n

unfoldable pub contents : Queue → List Block
contents q = items_from q.items q.capacity q.tail 0 q.count

pub record IsValid (q : Queue) : Type 0 where
  pub not_empty : 0 < q.capacity
  pub tail_in : q.tail < q.capacity
  pub count_in : q.count ≤ q.capacity
  pub head_at : q.head ≡ place q.capacity q.tail q.count

pub next_index : (c i : ℕ) → i < c → (i + 1) % c ≡ (if i + 1 == c then 0 else i + 1)
next_index c i h = elim (Bool-cases (i + 1 == c)) [
  | inl e ↦ let q : i + 1 ≡ c = (==_iff (i + 1) c).0 e in rw (e, if◌then◌else◌) (grind (arith))
  | inr e ↦ rw (e, if◌then◌else◌) (mod-eq_of_lt (ground arith))
]

pub previous_index : (c i : ℕ) → i < c → (i + c - 1) % c ≡ (if i == 0 then c - 1 else i - 1)
previous_index c i h = elim (Bool-cases (i == 0)) [
  | inl e ↦ rw (e, if◌then◌else◌) (mod-eq_of_lt (ground arith) ∙ ground arith)
  | inr e ↦
      let big : c ≤ i + c - 1 = ground arith in
      let low : i + c - 1 - c < c = omega arith in
      let less : i + c - 1 - c ≡ i - 1 = ground arith in
      rw (e, if◌then◌else◌) (mod-eq-sub-mod big ∙ mod-eq_of_lt low ∙ less)
]

pub length-items_from : (f : ℕ → Block) (c t i n : ℕ) → length (items_from f c t i n) ≡ n
unfolding items_from
length-items_from f c t i zero = refl
length-items_from f c t i (suc n) = omega (arith, length-items_from f c t (i + 1) n)

-- A write at a place that the items do not take up.
pub items_from-write_at :
    (f : ℕ → Block) (c t k i n : ℕ) (x : Block)
    → t < c
    → i + n ≤ c
    → ((j : ℕ) → i ≤ j → j < i + n → place c t j ≢ k)
    → items_from (write_at k x f) c t i n ≡ items_from f c t i n
unfolding items_from
items_from-write_at f c t k i zero x ht fits apart = refl
items_from-write_at f c t k i (suc n) x ht fits apart = ground (
  arith,
  apart i (omega arith) (omega arith),
  items_from-write_at f c t k (i + 1) n x ht (omega arith)
      (λ j lo hi. apart j (omega arith) (omega arith)),
)

pub items_from_snoc :
    (f : ℕ → Block) (c t i n : ℕ)
    → items_from f c t i (suc n) ≡ items_from f c t i n ++ (f (place c t (i + n)) ∷ [])
unfolding items_from
items_from_snoc f c t i zero = let e : i + 0 ≡ i = omega arith in rw e
items_from_snoc f c t i (suc n) =
    let e : i + 1 + n ≡ i + suc n = omega arith in
    ap (λ (xs : List Block). f (place c t i) ∷ xs) (rw e at (items_from_snoc f c t (i + 1) n))

-- From the next tail on, the items are those from the second one on.
pub items_from-next :
    (f : ℕ → Block) (c t t' i n : ℕ)
    → t < c
    → t' ≡ place c t 1
    → i + n < c
    → items_from f c t' i n ≡ items_from f c t (i + 1) n
unfolding items_from
items_from-next f c t t' i zero ht e fits = refl
items_from-next f c t t' i (suc n) ht e fits =
    ap₂ ◌∷◌ (ap f (ground arith)) (items_from-next f c t t' (i + 1) n ht e (omega arith))

pub items_from_pos :
    (f : ℕ → Block) (c t i n : ℕ)
    → 0 < n
    → items_from f c t i n ≡ f (place c t i) ∷ items_from f c t (i + 1) (n - 1)
unfolding items_from
items_from_pos f c t i zero h = absurd (omega arith)
items_from_pos f c t i (suc n) h =
    ap (λ (k : ℕ). f (place c t i) ∷ items_from f c t (i + 1) k) (omega arith)
