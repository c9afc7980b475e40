-- ===== src/Sim/Base64/Decode.antt =====
-- The decoder on what the encoding of RFC 4648 writes.
use micro_tech.Prelude.{
  ℕ, ◌+◌, ◌*◌, ◌/◌, ◌%◌, ◌<◌, ◌≤◌, ◌≡◌, refl, ◌∙◌, ap, true, some, List, [], ◌∷◌, ◌++◌, length,
  length-append, arith,
}
use mathlib.Core.List.{append_assoc, append-nil}
use micro_tech.Sim.Base64.{done, Decoder, go, turn, decode_loop, base64_decode}
use micro_tech.Sim.Base64.Bounds.{AllBytes}
use micro_tech.Sim.Base64.Digits.{
  digit, at, turn-digit, shift_first, shift_second, shift_third, shift_fourth,
}

-- The encoding of RFC 4648, three bytes to four characters.
unfoldable pub encode : List ℕ → List ℕ
encode [] = []
encode (a ∷ []) = digit (a / 4) ∷ digit (a % 4 * 16) ∷ b'=' ∷ b'=' ∷ []
encode (a ∷ b ∷ []) = digit (a / 4) ∷ digit (a % 4 * 16 + b / 16) ∷ digit (b % 16 * 4) ∷ b'=' ∷ []
encode (a ∷ b ∷ c ∷ rest) =
    digit (a / 4)
    ∷ digit (a % 4 * 16 + b / 16)
    ∷ digit (b % 16 * 4 + c / 64)
    ∷ digit (c % 64)
    ∷ encode rest

-- A turn that goes on leaves the rest of the loop.
loop_go :
    (dlen ch : ℕ) (src : List ℕ) (d d' : Decoder)
    → turn dlen ch d ≡ go d'
    → decode_loop dlen (ch ∷ src) d ≡ decode_loop dlen src d'
unfolding decode_loop
loop_go dlen ch src d d' h = ground arith

module _ (dlen : ℕ) (out : List ℕ) where
  loop_first :
      (v : ℕ) (src : List ℕ)
      → v < 64
      → decode_loop dlen (digit v ∷ src) (at out 0 0) ≡ decode_loop dlen src (at out v 6)
  loop_first v src h =
      loop_go dlen (digit v) src _ _ (turn-digit dlen v 0 0 out h ∙ shift_first dlen v out h)

module _ (dlen : ℕ) (out : List ℕ) (room : length out < dlen) where
  loop_second :
      (a v b w : ℕ) (src : List ℕ)
      → a < 64
      → v < 64
      → b * 16 + w ≡ a * 64 + v
      → w < 16
      → decode_loop dlen (digit v ∷ src) (at out a 6)
        ≡ decode_loop dlen src (at (out ++ (b ∷ [])) w 4)
  loop_second a v b w src ha hv e hw =
      let q : (a * 64 + v) / 16 ≡ b = omega arith in
      let r : (a * 64 + v) % 16 ≡ w = omega arith in
      loop_go dlen (digit v) src _ _
        (turn-digit dlen v a 6 out hv ∙ rw (q, r) at (shift_second dlen v out room hv a ha))

  loop_third :
      (a v b w : ℕ) (src : List ℕ)
      → a < 16
      → v < 64
      → b * 4 + w ≡ a * 64 + v
      → w < 4
      → decode_loop dlen (digit v ∷ src) (at out a 4)
        ≡ decode_loop dlen src (at (out ++ (b ∷ [])) w 2)
  loop_third a v b w src ha hv e hw =
      let q : (a * 64 + v) / 4 ≡ b = omega arith in
      let r : (a * 64 + v) % 4 ≡ w = omega arith in
      loop_go dlen (digit v) src _ _
        (turn-digit dlen v a 4 out hv ∙ rw (q, r) at (shift_third dlen v out room hv a ha))

  loop_fourth :
      (a v b : ℕ) (src : List ℕ)
      → a < 4
      → v < 64
      → b ≡ a * 64 + v
      → decode_loop dlen (digit v ∷ src) (at out a 2)
        ≡ decode_loop dlen src (at (out ++ (b ∷ [])) 0 0)
  loop_fourth a v b src ha hv e = rw e (
      loop_go dlen (digit v) src _ _
        (turn-digit dlen v a 2 out hv ∙ shift_fourth dlen v out room hv a ha))

-- Two padding characters, or one, and the end: what is left of the accumulator is dropped.
loop_pads :
    (dlen w : ℕ) (out : List ℕ) → decode_loop dlen (b'=' ∷ b'=' ∷ []) (at out w 4) ≡ (done, out)
unfolding decode_loop turn
loop_pads dlen w out = refl

loop_pad : (dlen w : ℕ) (out : List ℕ) → decode_loop dlen (b'=' ∷ []) (at out w 2) ≡ (done, out)
unfolding decode_loop turn
loop_pad dlen w out = refl

loop_end : (dlen : ℕ) (out : List ℕ) → decode_loop dlen [] (at out 0 0) ≡ (done, out)
unfolding decode_loop
loop_end dlen out = refl

loop-encode :
    (dlen : ℕ) (bs out : List ℕ)
    → AllBytes bs
    → length out + length bs ≤ dlen
    → decode_loop dlen (encode bs) (at out 0 0) ≡ (done, out ++ bs)
unfolding encode
loop-encode dlen [] out h fits = rw append-nil (loop_end dlen out)
loop-encode dlen (a ∷ []) out (ha, _) fits =
    loop_first dlen out (a / 4) _ (omega arith)
    ∙ loop_second dlen out (omega arith) (a / 4) (a % 4 * 16) a 0 _ (omega arith) (omega arith)
        (omega arith) (omega arith)
    ∙ loop_pads dlen 0 _
loop-encode dlen (a ∷ b ∷ []) out (ha, (hb, _)) fits =
    loop_first dlen out (a / 4) _ (omega arith)
    ∙ loop_second dlen out (omega arith) (a / 4) (a % 4 * 16 + b / 16) a (b / 16) _ (omega arith)
        (omega arith) (omega arith) (omega arith)
    ∙ loop_third dlen (out ++ (a ∷ [])) (rw length-append (omega arith)) (b / 16) (b % 16 * 4) b 0 _
        (omega arith) (omega arith) (omega arith) (omega arith)
    ∙ loop_pad dlen 0 _
    ∙ ap (λ (xs : List ℕ). (done, xs)) (append_assoc out (a ∷ []) (b ∷ []))
loop-encode dlen (a ∷ b ∷ c ∷ rest) out (ha, (hb, (hc, hs))) fits =
    loop_first dlen out (a / 4) _ (omega arith)
    ∙ loop_second dlen out (omega arith) (a / 4) (a % 4 * 16 + b / 16) a (b / 16) _ (omega arith)
        (omega arith) (omega arith) (omega arith)
    ∙ loop_third dlen (out ++ (a ∷ [])) (rw length-append (omega arith)) (b / 16)
        (b % 16 * 4 + c / 64) b (c / 64) _ (omega arith) (omega arith) (omega arith) (omega arith)
    ∙ loop_fourth dlen ((out ++ (a ∷ [])) ++ (b ∷ []))
        (rw (length-append, length-append) (omega arith)) (c / 64) (c % 64) c _ (omega arith)
        (omega arith) (omega arith)
    ∙ loop-encode dlen rest (((out ++ (a ∷ [])) ++ (b ∷ [])) ++ (c ∷ [])) hs
        (rw (length-append, length-append, length-append) (omega arith))
    ∙ ap (λ (xs : List ℕ). (done, xs)) (simp append_assoc)

-- Bytes that were encoded as RFC 4648 says are decoded to themselves, and their number is stored,
-- when `dst` has room for them.
pub base64_decode-encode :
    (bs : List ℕ) (dlen : ℕ)
    → AllBytes bs
    → length bs ≤ dlen
    → base64_decode (some dlen) true (some (encode bs))
      ≡ record { code = done; out = bs; olen = some (length bs) }
unfolding base64_decode
base64_decode-encode bs dlen h fits = rw (loop-encode dlen bs [] h (omega arith))
