-- ===== src/Sim/Base64.antt =====
-- sim/ports/sim_base64.c: the base64 decoder of the simulated music backend.
pub mod Digits
pub mod Accepts
pub mod Bounds
pub mod Decode
mod Tests
use Prim.Native.Nat.{bit_and, bit_or}
use micro_tech.Prelude.{
  ℕ, ◌+◌, ◌-◌, ◌*◌, ◌/◌, ◌%◌, ◌^◌, Bool, true, false, ◌&&◌, ◌||◌, Option, none, some, List, [], ◌∷◌,
  ◌++◌, length, ltb, leb, ◌==◌, if◌then◌else◌,
}

-- What `mbedtls_base64_decode` returns: 0, -1, -2.
pub data Code : Type 0 where
  done malformed short : Code

-- `_value`; `none` is its -1.
unfoldable pub value : ℕ → Option ℕ
value ch =
    if leb b'A' ch && leb ch b'Z'
    then some (ch - b'A')
    else if leb b'a' ch && leb ch b'z'
    then some (ch - b'a' + 26)
    else if leb b'0' ch && leb ch b'9'
    then some (ch - b'0' + 52)
    else if ch == b'+'
    then some 62
    else if ch == b'/'
    then some 63
    else none

-- The local variables; `out` is `dst[0 .. written)`.
pub record Decoder : Type 0 where
  pub out : List ℕ
  pub accumulator : ℕ
  pub bits : ℕ
  pub padding : Bool

pub data Turn : Type 0 where
  stop : Code → Turn
  go : Decoder → Turn

abbrev pub is_blank : ℕ → Bool
is_blank ch = ch == b'\r' || ch == b'\n' || ch == b' ' || ch == b'\t'

-- From `accumulator = ...` to the end of the loop's body, in a `uint32_t`.
unfoldable pub shift_in : ℕ → ℕ → Decoder → Turn
shift_in dlen v d =
    let accumulator = bit_or (d.accumulator * 2 ^ 6 % 2 ^ 32) v in
    let left = d.bits + 6 - 8 in
    if leb 8 (d.bits + 6)
    then (if leb dlen (length d.out)
        then stop short
        else go (record d {
          out = d.out ++ (accumulator / 2 ^ left % 2 ^ 8 ∷ []);
          accumulator = bit_and accumulator (2 ^ left - 1);
          bits = left;
        }))
    else go (record d { accumulator = accumulator; bits = d.bits + 6 })

-- The body of the loop.
unfoldable pub turn : ℕ → ℕ → Decoder → Turn
turn dlen ch d =
    if is_blank ch
    then go d
    else if ch == b'='
    then go (record d { padding = true })
    else if d.padding
    then stop malformed
    else elim (value ch) [ none ↦ stop malformed | some v ↦ shift_in dlen v d ]

-- The loop and what follows it: the code, and what stands in `dst`.
unfoldable pub decode_loop : ℕ → List ℕ → Decoder → Code × List ℕ
decode_loop dlen [] d = (if leb 6 d.bits then malformed else done, d.out)
decode_loop dlen (ch ∷ src) d = elim (turn dlen ch d) [
  | stop code ↦ (code, d.out)
  | go d' ↦ decode_loop dlen src d'
]

abbrev pub empty : Decoder
empty = record { out = []; accumulator = 0; bits = 0; padding = false }

-- The code, what is stored from `dst` on, and what is stored in `*olen`, if anything is.
pub record Decoded : Type 0 where
  pub code : Code
  pub out : List ℕ
  pub olen : Option ℕ

abbrev pub set_olen : Bool → Code × List ℕ → Decoded
set_olen wanted (done, out) = record {
  code = done;
  out = out;
  olen = if wanted then some (length out) else none;
}
set_olen wanted (code, out) = record { code = code; out = out; olen = none }

-- `dst` is its room, and `none` is NULL; `wants_length` is `olen != NULL`.
unfoldable pub base64_decode : Option ℕ → Bool → Option (List ℕ) → Decoded
unfolding decode_loop turn shift_in value
base64_decode (some dlen) wants_length (some src) =
    set_olen wants_length (decode_loop dlen src empty)
base64_decode dst wants_length src = record { code = malformed; out = []; olen = none }
