-- ===== src/FsStorage/Probe.antt =====
-- main/fs_storage/fs_storage.c: the probe for an erased data partition.
use mathlib.Core.Bool.{false≢true}
use micro_tech.Prelude.{
  ℕ, zero, suc, ◌+◌, ◌≤◌, ◌<◌, ◌≡◌, ◌↔◌, refl, sym, ap, ◌∙◌, Bool, true, false, inl, inr, arith,
  ltb, ltb→lt, ◌==◌, ==_iff, if◌then◌else◌, Bool-cases, some, EspErr, ok, is_ok,
}
use micro_tech.FsStorage.{Flash, Host, data_partition_is_erased, all_erased, read_size, probe_loop}

all_erased-true :
    (c : ℕ → ℕ) (left offset i : ℕ)
    → all_erased c left offset ≡ true
    → offset ≤ i
    → i < offset + left
    → c i ≡ 255
unfolding all_erased
all_erased-true c zero offset i h a b = absurd (omega arith)
all_erased-true c (suc left) offset i h a b = elim (Bool-cases (offset == i)) [
  | inl y ↦ ap c (sym ((==_iff offset i).0 y)) ∙ (==_iff (c offset) 255).0 (ground arith)
  | inr n ↦ all_erased-true c left (offset + 1) i (ground arith) (ground arith) (omega arith)
]

all_erased-of :
    (c : ℕ → ℕ) (left offset : ℕ)
    → ((i : ℕ) → offset ≤ i → i < offset + left → c i ≡ 255)
    → all_erased c left offset ≡ true
unfolding all_erased
all_erased-of c zero offset h = refl
all_erased-of c (suc left) offset h =
    rw
      (
        (==_iff (c offset) 255).1 (h offset (omega arith) (omega arith)),
        all_erased-of c left (offset + 1) (λ i a b. h i (omega arith) (omega arith)),
      )
      refl

module _ (f : Flash) (reads : (offset : ℕ) → f.read offset ≡ ok) where
  read_size-bounds :
      (offset : ℕ)
      → offset < f.size
      → (1 ≤ read_size f offset) × (offset + read_size f offset ≤ f.size)
  read_size-bounds offset h = ground arith

  -- What a probe from an offset on is to say.
  abbrev Tells : ℕ → EspErr × Bool → Type 0
  Tells offset x =
      (x.0 ≡ ok) × ((x.1 ≡ true) ↔ ((i : ℕ) → offset ≤ i → i < f.size → f.content i ≡ 255))

  turn-Tells :
      (offset n : ℕ) (rest : EspErr × Bool)
      → offset + n ≤ f.size
      → Tells (offset + n) rest
      → Tells offset (if all_erased f.content n offset then rest else (ok, false))
  turn-Tells offset n rest fits (good, (to, from)) =
      elim (Bool-cases (all_erased f.content n offset)) [
        | inl y ↦
            rw (y, if◌then◌else◌)
              (
                good,
                (
                  λ e i a b. elim (Bool-cases (ltb i (offset + n))) [
                    | inl below ↦ all_erased-true f.content n offset i y a (ground arith)
                    | inr above ↦ to e i (ground arith) b
                  ],
                  λ h. from (λ i a b. h i (omega arith) b),
                ),
              )
        | inr n ↦
            rw (n, if◌then◌else◌)
              (
                refl,
                (
                  λ e. absurd (false≢true e),
                  λ h. absurd (
                      false≢true
                        (sym n ∙ all_erased-of f.content _ offset (λ i a b. h i a (omega arith)))),
                ),
              )
      ]

  -- A run of the outer loop whose fuel reaches the end of the partition.
  probe_loop-Tells :
      (fuel offset : ℕ) → f.size ≤ offset + fuel → Tells offset (probe_loop fuel f offset)
  unfolding probe_loop
  probe_loop-Tells zero offset enough = (refl, (λ e i a b. absurd (omega arith), λ h. ground arith))
  probe_loop-Tells (suc fuel) offset enough = elim (Bool-cases (ltb offset f.size)) [
    | inr n ↦ rw (n, if◌then◌else◌) (refl, (λ e i a b. absurd (ground arith), λ h. refl))
    | inl y ↦
        rw (y, ap is_ok (reads offset), if◌then◌else◌)
          (turn-Tells offset (read_size f offset) (probe_loop fuel f (offset + read_size f offset))
            (read_size-bounds offset (ground arith)).1
            (probe_loop-Tells fuel (offset + read_size f offset)
              (omega (arith, (read_size-bounds offset (ltb→lt offset f.size y)).0))))
  ]

-- Where the memory and the partition are there and every read succeeds, the probe succeeds, and
-- says that the partition is erased exactly when each of its bytes is 255.
pub data_partition_is_erased_iff :
    (host : Host) (f : Flash)
    → host.has_memory ≡ true
    → host.partition ≡ some f
    → ((offset : ℕ) → f.read offset ≡ ok)
    → ((data_partition_is_erased host).0 ≡ ok)
      × (((data_partition_is_erased host).1 ≡ true) ↔ ((i : ℕ) → i < f.size → f.content i ≡ 255))
unfolding data_partition_is_erased
data_partition_is_erased_iff host f memory part reads =
    let (good, (to, from)) = probe_loop-Tells f reads f.size 0 (omega arith) in
    rw (memory, part, if◌then◌else◌)
      (good, (λ e i b. to e i (omega arith) b, λ h. from (λ i a b. h i b)))
