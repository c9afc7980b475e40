-- ===== src/Sim/Base64/Digits.antt =====
-- The arithmetic of the decoder: the bit operations on its accumulator, and the digits.
use Prim.Native.Nat.{bit_and, bit_or}
use micro_tech.Prelude.{
  ℕ, zero, suc, ◌+◌, ◌-◌, ◌*◌, ◌/◌, ◌%◌, ◌^◌, ◌<◌, ◌≡◌, refl, Bool, true, false, ◌&&◌, some, List,
  [], ◌∷◌, ◌++◌, length, ltb, ◌==◌, if◌then◌else◌, arith,
}
use micro_tech.Sim.Base64.{value, is_blank, Decoder, go, shift_in, turn}

-- Two functions that agree on each number below `n`, found by evaluation.
module _ (f g : ℕ → ℕ) where
  same_below : ℕ → Bool
  same_below zero = true
  same_below (suc n) = f n == g n && same_below n

  same_below→eq : (n i : ℕ) → same_below n ≡ true → i < n → f i ≡ g i
  unfolding same_below
  same_below→eq zero i h lt = absurd (omega arith)
  same_below→eq (suc n) i h lt = ground (arith, same_below→eq n i)

-- An accumulator of at most six bits takes the next digit.
or_digit : (n : ℕ) → n < 4096 → bit_or (n / 64 * 2 ^ 6 % 2 ^ 32) (n % 64) ≡ n
or_digit n h =
    same_below→eq (λ n. bit_or (n / 64 * 2 ^ 6 % 2 ^ 32) (n % 64)) (λ n. n) 4096 n
      (unfold same_below in refl) h

pub join_digit : (a v : ℕ) → a < 64 → v < 64 → bit_or (a * 2 ^ 6 % 2 ^ 32) v ≡ a * 64 + v
join_digit a v ha hv =
    let q : (a * 64 + v) / 64 ≡ a = omega arith in
    let r : (a * 64 + v) % 64 ≡ v = omega arith in
    rw (q, r) at (or_digit (a * 64 + v) (omega arith))

pub keep_four : (n : ℕ) → n < 4096 → bit_and n 15 ≡ n % 16
keep_four n h = same_below→eq (λ n. bit_and n 15) (λ n. n % 16) 4096 n (unfold same_below in refl) h

pub keep_two : (n : ℕ) → n < 4096 → bit_and n 3 ≡ n % 4
keep_two n h = same_below→eq (λ n. bit_and n 3) (λ n. n % 4) 4096 n (unfold same_below in refl) h

pub keep_none : (n : ℕ) → n < 4096 → bit_and n 0 ≡ 0
keep_none n h = same_below→eq (λ n. bit_and n 0) (λ _. 0) 4096 n (unfold same_below in refl) h

-- The digit that stands for a number below 64, by the table of RFC 4648.
unfoldable pub digit : ℕ → ℕ
digit v =
    if ltb v 26
    then b'A' + v
    else if ltb v 52
    then b'a' + (v - 26)
    else if ltb v 62
    then b'0' + (v - 52)
    else if v == 62
    then b'+'
    else b'/'

pub value-digit : (v : ℕ) → v < 64 → value (digit v) ≡ some v
unfolding value digit
value-digit v h = ground arith

pub digit_plain : (v : ℕ) → v < 64 → (is_blank (digit v) ≡ false) × ((digit v == b'=') ≡ false)
unfolding digit
digit_plain v h = ground arith

-- A decoder between two characters, before any padding.
abbrev pub at : List ℕ → ℕ → ℕ → Decoder
at out a n = record { out = out; accumulator = a; bits = n; padding = false }

pub turn-digit :
    (dlen v a n : ℕ) (out : List ℕ)
    → v < 64
    → turn dlen (digit v) (at out a n) ≡ shift_in dlen v (at out a n)
unfolding turn
turn-digit dlen v a n out h = ground (arith, value-digit v, digit_plain v)

pub shift_first :
    (dlen v : ℕ) (out : List ℕ) → v < 64 → shift_in dlen v (at out 0 0) ≡ go (at out v 6)
unfolding shift_in
shift_first dlen v out h = ground (arith, join_digit 0 v)

module _ (dlen v : ℕ) (out : List ℕ) (room : length out < dlen) (small : v < 64) where
  pub shift_second :
      (a : ℕ)
      → a < 64
      → shift_in dlen v (at out a 6)
        ≡ go (at (out ++ ((a * 64 + v) / 16 ∷ [])) ((a * 64 + v) % 16) 4)
  unfolding shift_in
  shift_second a h = ground (arith, join_digit a v, keep_four (a * 64 + v))

  pub shift_third :
      (a : ℕ)
      → a < 16
      → shift_in dlen v (at out a 4) ≡ go (at (out ++ ((a * 64 + v) / 4 ∷ [])) ((a * 64 + v) % 4) 2)
  unfolding shift_in
  shift_third a h = ground (arith, join_digit a v, keep_two (a * 64 + v))

  pub shift_fourth :
      (a : ℕ) → a < 4 → shift_in dlen v (at out a 2) ≡ go (at (out ++ ((a * 64 + v) ∷ [])) 0 0)
  unfolding shift_in
  shift_fourth a h = ground (arith, join_digit a v, keep_none (a * 64 + v))
