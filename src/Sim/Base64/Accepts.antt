-- ===== src/Sim/Base64/Accepts.antt =====
-- Which texts the decoder accepts.
use Prim.Native.Nat.{bit_or}
use mathlib.Core.Path.{fun_ext}
use micro_tech.Prelude.{
  ℕ, suc, ◌+◌, ◌-◌, ◌*◌, ◌/◌, ◌%◌, ◌^◌, ◌<◌, ◌≤◌, ◌≡◌, refl, Bool, true, false, not, ◌&&◌, ◌||◌,
  none, some, List, [], ◌∷◌, length, length_snoc, keep, leb, ◌==◌, if◌then◌else◌, arith, Bool-cases,
  Option-cases, inl, inr, ap, ◌∙◌,
}
use micro_tech.Sim.Base64.{
  Code, done, malformed, short, Decoder, Turn, go, stop, value, is_blank, turn, shift_in,
  decode_loop, empty, base64_decode, set_olen,
}

-- The alphabet of RFC 4648, written out.
abbrev pub is_digit : ℕ → Bool
is_digit ch =
    (leb b'A' ch && leb ch b'Z')
    || (leb b'a' ch && leb ch b'z')
    || (leb b'0' ch && leb ch b'9')
    || ch == b'+'
    || ch == b'/'

-- The characters that are not white space: carriage return, line feed, blank and tabulator.
abbrev pub letters : List ℕ → List ℕ
letters = keep (λ ch. not (ch == 13 || ch == 10 || ch == 32 || ch == 9))

abbrev pub all_pads : List ℕ → Bool
all_pads [] = true
all_pads (ch ∷ s) = ch == b'=' && all_pads s

module _ (test : ℕ → Bool) where
  -- How many digits a text starts with.
  abbrev pub digits : List ℕ → ℕ
  digits [] = 0
  digits (ch ∷ s) = if test ch then suc (digits s) else 0

  abbrev pub ends_in_pads : List ℕ → Bool
  ends_in_pads [] = true
  ends_in_pads (ch ∷ s) = let rest = ends_in_pads s in if test ch then rest else all_pads (ch ∷ s)

-- Digits and then any number of `=`, white space aside; one digit over a multiple of four is too
-- few for a byte.
unfoldable pub is_base64 : List ℕ → Bool
is_base64 src = ends_in_pads is_digit (letters src) && not (digits is_digit (letters src) % 4 == 1)

-- What the decoder takes for a digit.
abbrev has_value : ℕ → Bool
has_value ch = elim (value ch) [ none ↦ false | some v ↦ true ]

has_value-is_digit : (ch : ℕ) → has_value ch ≡ is_digit ch
unfolding value
has_value-is_digit ch = ground arith

abbrev pub code_of : Bool → Code
code_of accepted = if accepted then done else malformed

pad_is_plain : (ch : ℕ) → (ch == b'=') ≡ true → (is_blank ch ≡ false) × (value ch ≡ none)
unfolding value
pad_is_plain ch h = ground arith

loop_padded :
    (dlen : ℕ) (src : List ℕ) (d : Decoder)
    → d.padding ≡ true
    → (decode_loop dlen src d).0 ≡ code_of (all_pads (letters src) && not (leb 6 d.bits))
unfolding decode_loop turn
loop_padded dlen [] d h = ground arith
loop_padded dlen (ch ∷ src) d h =
    ground (arith, loop_padded dlen src d, loop_padded dlen src (record d { padding = true }))

-- After `n` digits, six bits for each stored or held, and less than a byte held.
record Read (n : ℕ) (d : Decoder) : Type 0 where
  bits_read : 8 * length d.out + d.bits ≡ 6 * n
  less_than_byte : d.bits < 8
  unpadded : d.padding ≡ false

-- The turn goes on, in a decoder of which `P` holds.
abbrev GoesOn : (Decoder → Type 0) → Turn → Type 0
GoesOn P (stop code) = ⊥
GoesOn P (go d) = P d

shift_in-GoesOn :
    (dlen v n : ℕ) (d : Decoder)
    → Read n d
    → 6 * suc n ≤ 8 * dlen
    → GoesOn (Read (suc n)) (shift_in dlen v d)
unfolding shift_in
shift_in-GoesOn dlen v n d i room = elim (Bool-cases (leb 8 (d.bits + 6))) [
  | inl full ↦
      let more : leb dlen (length d.out) ≡ false = ground (arith, i.bits_read) in
      rw (full, if◌then◌else◌, more, if◌then◌else◌)
        (record {
          bits_read = ground (
            arith,
            i.bits_read,
            length_snoc d.out
                (bit_or (d.accumulator * 2 ^ 6 % 2 ^ 32) v / 2 ^ (d.bits + 6 - 8) % 2 ^ 8),
          );
          less_than_byte = omega (arith, i.less_than_byte);
          unpadded = i.unpadded;
        })
  | inr some_left ↦
      rw (some_left, if◌then◌else◌)
        (record {
          bits_read = omega (arith, i.bits_read);
          less_than_byte = ground arith;
          unpadded = i.unpadded;
        })
]

loop-GoesOn :
    (dlen v n : ℕ) (d : Decoder) (src : List ℕ) (t : Turn) (c : Code)
    → GoesOn (Read (suc n)) t
    → ((d' : Decoder) → Read (suc n) d' → (decode_loop dlen src d').0 ≡ c)
    → let r : Code × List ℕ = elim t [
      | stop code ↦ (code, d.out)
      | go d' ↦ decode_loop dlen src d'
    ] in
      r.0 ≡ c
loop-GoesOn dlen v n d src (stop code) c on h = absurd on
loop-GoesOn dlen v n d src (go d') c on h = h d' on

turn_digit :
    (dlen v ch : ℕ) (d : Decoder)
    → is_blank ch ≡ false
    → (ch == b'=') ≡ false
    → d.padding ≡ false
    → value ch ≡ some v
    → turn dlen ch d ≡ shift_in dlen v d
unfolding turn
turn_digit dlen v ch d plain other early e = ground arith

-- The loop on a digit, when no padding stands before it.
loop_digit :
    (dlen v n ch : ℕ) (src : List ℕ) (d : Decoder) (c : Code)
    → Read n d
    → 6 * suc n ≤ 8 * dlen
    → is_blank ch ≡ false
    → (ch == b'=') ≡ false
    → value ch ≡ some v
    → ((d' : Decoder) → Read (suc n) d' → (decode_loop dlen src d').0 ≡ c)
    → (decode_loop dlen (ch ∷ src) d).0 ≡ c
unfolding decode_loop
loop_digit dlen v n ch src d c i room plain other e h =
    rw (turn_digit dlen v ch d plain other i.unpadded e, decode_loop)
      (loop-GoesOn dlen v n d src (shift_in dlen v d) c (shift_in-GoesOn dlen v n d i room) h)

loop_other :
    (dlen n ch : ℕ) (src : List ℕ) (d : Decoder)
    → Read n d
    → is_blank ch ≡ false
    → (ch == b'=') ≡ false
    → value ch ≡ none
    → (decode_loop dlen (ch ∷ src) d).0 ≡ malformed
unfolding decode_loop turn
loop_other dlen n ch src d i plain other e = ground (arith, i.unpadded)

loop_blank :
    (dlen ch : ℕ) (src : List ℕ) (d : Decoder)
    → is_blank ch ≡ true
    → (decode_loop dlen (ch ∷ src) d).0 ≡ (decode_loop dlen src d).0
unfolding decode_loop turn
loop_blank dlen ch src d blank = ground arith

loop_pad :
    (dlen ch : ℕ) (src : List ℕ) (d : Decoder)
    → (ch == b'=') ≡ true
    → (decode_loop dlen (ch ∷ src) d).0 ≡ (decode_loop dlen src (record d { padding = true })).0
unfolding decode_loop turn
loop_pad dlen ch src d pad = ground (arith, pad_is_plain ch)

loop_accepts :
    (dlen n : ℕ) (src : List ℕ) (d : Decoder)
    → Read n d
    → 6 * (n + length src) ≤ 8 * dlen
    → (decode_loop dlen src d).0
      ≡ code_of (
          ends_in_pads has_value (letters src)
          && not ((n + digits has_value (letters src)) % 4 == 1))
loop_accepts dlen n [] d i room =
    unfold decode_loop in ground (arith, i.bits_read, i.less_than_byte)
loop_accepts dlen n (ch ∷ src) d i room = elim (Bool-cases (is_blank ch)) [
  | inl blank ↦
      rw (blank, if◌then◌else◌)
        (loop_blank dlen ch src d blank ∙ loop_accepts dlen n src d i (omega arith))
  | inr plain ↦ elim (Bool-cases (ch == b'=')) [
    | inl pad ↦
        loop_pad dlen ch src d pad
        ∙ loop_padded dlen src (record d { padding = true }) refl
        ∙ ground (arith, i.bits_read, i.less_than_byte, pad_is_plain ch)
    | inr other ↦ elim (Option-cases (value ch)) [
      | inl e ↦ loop_other dlen n ch src d i plain other e ∙ ground (arith)
      | inr (v, e) ↦ loop_digit dlen v n ch src d _ i (omega arith) plain other e (λ d' i'.
          loop_accepts dlen (suc n) src d' i' (omega arith)
          ∙ rw (plain, if◌then◌else◌, e) (ground arith))
    ]
  ]
]

code-set_olen : (wanted : Bool) (p : Code × List ℕ) → (set_olen wanted p).code ≡ p.0
code-set_olen wanted (done, out) = refl
code-set_olen wanted (malformed, out) = refl
code-set_olen wanted (short, out) = refl

-- With room for three bytes of each four characters, the decoder accepts exactly the texts that
-- are digits of the alphabet (A to Z, a to z, 0 to 9, + and /) and then any number of `=`, white space left aside, where the number
-- of digits is not one more than a multiple of four; all other texts are malformed.
pub base64_decode_accepts :
    (dlen : ℕ) (wanted : Bool) (src : List ℕ)
    → 3 * length src ≤ 4 * dlen
    → (base64_decode (some dlen) wanted (some src)).code ≡ code_of (is_base64 src)
unfolding base64_decode is_base64
base64_decode_accepts dlen wanted src room =
    code-set_olen wanted (decode_loop dlen src empty)
    ∙ loop_accepts dlen 0 src empty start (omega arith)
    ∙ ap (λ (n : ℕ). code_of (ends_in_pads has_value (letters src) && not (n % 4 == 1)))
        (omega arith)
    ∙ ap
        (λ (test : ℕ → Bool).
          code_of (ends_in_pads test (letters src) && not (digits test (letters src) % 4 == 1)))
        (fun_ext has_value-is_digit)
  where
    start : Read 0 empty
    start = record { bits_read = omega arith; less_than_byte = omega arith; unpadded = refl }
