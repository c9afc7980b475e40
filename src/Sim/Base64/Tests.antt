-- ===== src/Sim/Base64/Tests.antt =====
-- The decoder on concrete data.
use micro_tech.Prelude.{
  ◌≡◌, refl, ◌≤◌, ◌*◌, ℕ, true, false, none, some, List, [], ◌∷◌, length, arith,
}
use micro_tech.Sim.Base64.{base64_decode, done, malformed, short}
use micro_tech.Sim.Base64.Accepts.{code_of, is_base64, base64_decode_accepts}
use micro_tech.Sim.Base64.Bounds.{AllBytes, base64_decode_bounds}
use micro_tech.Sim.Base64.Decode.{encode, base64_decode-encode}

-- "TQ==" is "M".
decode_one :
    base64_decode (some 4) true (some (b'T' ∷ b'Q' ∷ b'=' ∷ b'=' ∷ []))
    ≡ record { code = done; out = b'M' ∷ []; olen = some 1 }
unfolding base64_decode
decode_one = refl

-- "TW Fu" is "Man".
decode_blank :
    base64_decode (some 3) false (some (b'T' ∷ b'W' ∷ b' ' ∷ b'F' ∷ b'u' ∷ []))
    ≡ record { code = done; out = b'M' ∷ b'a' ∷ b'n' ∷ []; olen = none }
unfolding base64_decode
decode_blank = refl

decode_no_room :
    base64_decode (some 1) true (some (b'T' ∷ b'W' ∷ b'F' ∷ b'u' ∷ []))
    ≡ record { code = short; out = b'M' ∷ []; olen = none }
unfolding base64_decode
decode_no_room = refl

decode_after_padding :
    base64_decode (some 9) true (some (b'T' ∷ b'Q' ∷ b'=' ∷ b'A' ∷ []))
    ≡ record { code = malformed; out = b'M' ∷ []; olen = none }
unfolding base64_decode
decode_after_padding = refl

abbrev four_bytes : List ℕ
four_bytes = 0 ∷ 255 ∷ 77 ∷ 200 ∷ []

base64_decode-encode_example :
    base64_decode (some 7) true (some (encode four_bytes))
    ≡ record { code = done; out = four_bytes; olen = some (length four_bytes) }
base64_decode-encode_example = base64_decode-encode four_bytes 7 (omega arith) (omega arith)

abbrev padded_text : List ℕ
padded_text = b'T' ∷ b'W' ∷ b'E' ∷ b'=' ∷ b'\n' ∷ []

base64_decode_bounds_example :
    (length (base64_decode (some 1) true (some padded_text)).out ≤ 1)
    × (4 * length (base64_decode (some 1) true (some padded_text)).out ≤ 3 * length padded_text)
    × AllBytes (base64_decode (some 1) true (some padded_text)).out
base64_decode_bounds_example = base64_decode_bounds 1 true padded_text

base64_decode_accepts_example :
    (base64_decode (some 8) true (some padded_text)).code ≡ code_of (is_base64 padded_text)
base64_decode_accepts_example = base64_decode_accepts 8 true padded_text (omega arith)
