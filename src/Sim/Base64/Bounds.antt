-- ===== src/Sim/Base64/Bounds.antt =====
-- Bounds of the decoder's output on any input.
use micro_tech.Prelude.{
  ℕ, suc, ◌+◌, ◌*◌, ◌<◌, ◌≤◌, ◌≡◌, refl, Bool, true, some, List, [], ◌∷◌, ◌++◌, length, length_snoc,
  leb, ◌==◌, if◌then◌else◌, arith, tests, leb→le, leb_false→lt, Bool-cases, Option-cases, inl, inr,
}
use micro_tech.Sim.Base64.{
  Code, done, Decoder, Turn, go, stop, value, is_blank, turn, shift_in, decode_loop, empty,
  base64_decode, set_olen,
}

abbrev pub AllBytes : List ℕ → Type 0
AllBytes [] = Unit
AllBytes (b ∷ bs) = b < 256 × AllBytes bs

AllBytes-append : (xs ys : List ℕ) → AllBytes xs → AllBytes ys → AllBytes (xs ++ ys)
AllBytes-append [] ys h k = k
AllBytes-append (x ∷ xs) ys (h, hs) k = (h, AllBytes-append xs ys hs k)

-- After `k` characters: no more than six bits for each of them, stored or still held.
record InBounds (dlen k : ℕ) (d : Decoder) : Type 0 where
  fits : length d.out ≤ dlen
  paid : 8 * length d.out + d.bits ≤ 6 * k
  held : AllBytes d.out

abbrev OnGo : (Decoder → Type 0) → Turn → Type 0
OnGo P (stop code) = Unit
OnGo P (go d) = P d

shift_in-InBounds :
    (dlen v k : ℕ) (d : Decoder)
    → InBounds dlen k d
    → OnGo (InBounds dlen (suc k)) (shift_in dlen v d)
unfolding shift_in
shift_in-InBounds dlen v k d i = elim (Bool-cases (leb 8 (d.bits + 6))) [
  | inl full ↦ elim (Bool-cases (leb dlen (length d.out))) [
    | inl no_room ↦ rw (full, if◌then◌else◌, no_room, if◌then◌else◌) tt
    | inr room ↦
        rw (full, if◌then◌else◌, room, if◌then◌else◌)
          (record {
            fits = omega (tests, length_snoc d.out _, leb_false→lt dlen (length d.out) room);
            paid = omega (tests, length_snoc d.out _, leb→le 8 (d.bits + 6) full, i.paid);
            held = AllBytes-append d.out _ i.held (omega arith, tt);
          })
  ]
  | inr some_left ↦
      rw (some_left, if◌then◌else◌)
        (record { fits = i.fits; paid = omega (arith, i.paid); held = i.held })
]

turn-InBounds :
    (dlen ch k : ℕ) (d : Decoder)
    → InBounds dlen k d
    → OnGo (InBounds dlen (suc k)) (turn dlen ch d)
unfolding turn
turn-InBounds dlen ch k d i = elim (Bool-cases (is_blank ch)) [
  | inl blank ↦ rw (blank, if◌then◌else◌) longer
  | inr plain ↦
      rw (plain, if◌then◌else◌)
        (elim (Bool-cases (ch == b'=')) [
          | inl pad ↦ rw (pad, if◌then◌else◌) padded
          | inr other ↦
              rw (other, if◌then◌else◌)
                (elim (Bool-cases d.padding) [
                  | inl late ↦ rw (late, if◌then◌else◌) tt
                  | inr early ↦
                      rw (early, if◌then◌else◌)
                        (elim (Option-cases (value ch)) [
                          | inl e ↦ rw e tt
                          | inr (v, e) ↦ rw e (shift_in-InBounds dlen v k d i)
                        ])
                ])
        ])
]
  where
    longer : InBounds dlen (suc k) d
    longer = record { fits = i.fits; paid = omega (arith, i.paid); held = i.held }

    padded : InBounds dlen (suc k) (record d { padding = true })
    padded = record { fits = i.fits; paid = omega (arith, i.paid); held = i.held }

-- At most `dlen` bytes, and three for each four of the `n` characters.
record IsOutput (dlen n : ℕ) (out : List ℕ) : Type 0 where
  fits : length out ≤ dlen
  paid : 8 * length out ≤ 6 * n
  bytes : AllBytes out

loop-IsOutput :
    (dlen k : ℕ) (src : List ℕ) (d : Decoder)
    → InBounds dlen k d
    → IsOutput dlen (k + length src) (decode_loop dlen src d).1
unfolding decode_loop
loop-IsOutput dlen k [] d i = record { fits = i.fits; paid = omega (arith, i.paid); bytes = i.held }
loop-IsOutput dlen k (ch ∷ src) d i =
    (elim (turn dlen ch d)
        as (λ t.
          OnGo (InBounds dlen (suc k)) t
          → let r : Code × List ℕ = elim t [
            | stop code ↦ (code, d.out)
            | go d' ↦ decode_loop dlen src d'
          ] in
            IsOutput dlen (k + suc (length src)) r.1) [
              | stop code ↦
                  λ p. record { fits = i.fits; paid = omega (arith, i.paid); bytes = i.held }
              | go d' ↦ λ p. ground (arith, loop-IsOutput dlen (suc k) src d' p)
            ])
      (turn-InBounds dlen ch k d i)

out-set_olen : (wanted : Bool) (p : Code × List ℕ) → (set_olen wanted p).out ≡ p.1
out-set_olen wanted (done, out) = refl
out-set_olen wanted (code, out) = refl

-- Whatever the input, and whatever the code that is returned: no more than `dlen` bytes are stored,
-- no more than three for each four characters, and each of them is a byte.
pub base64_decode_bounds :
    (dlen : ℕ) (wanted : Bool) (src : List ℕ)
    → let out = (base64_decode (some dlen) wanted (some src)).out in
      (length out ≤ dlen) × (4 * length out ≤ 3 * length src) × AllBytes out
unfolding base64_decode
base64_decode_bounds dlen wanted src =
    rw (out-set_olen wanted (decode_loop dlen src empty)) (o.fits, omega (arith, o.paid), o.bytes)
  where
    o : IsOutput dlen (0 + length src) (decode_loop dlen src empty).1
    o =
        loop-IsOutput dlen 0 src empty
          (record { fits = omega arith; paid = omega arith; held = tt })
