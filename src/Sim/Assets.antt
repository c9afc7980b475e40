-- ===== src/Sim/Assets.antt =====
-- sim/ports/sim_mmap_assets.c: the checksum of the staged files, and the access to a file by its index
-- or its name.
pub mod Checksum
pub mod Names
mod Tests
use micro_tech.Prelude.{
  ℕ, zero, suc, ◌+◌, ◌*◌, ◌/◌, ◌%◌, ◌^◌, Bool, true, false, not, ◌&&◌, ◌||◌, Option, none, some,
  List, [], ◌∷◌, length, ltb, ◌==◌, if◌then◌else◌, EspErr, ok, invalid_crc,
}

-- `sim_asset_t`: the bytes of the name, up to its 0, and those of the file; `size` is the length of
-- `data`.
pub record Asset : Type 0 where
  pub name : List ℕ
  pub data_bytes : List ℕ

-- `actual_max`, from what it is so far.
unfoldable pub longest : ℕ → List Asset → ℕ
longest so_far [] = so_far
longest so_far (a ∷ set) =
    longest (if ltb so_far (length a.name) then length a.name else so_far) set

-- `(actual_max + 1U + 3U) & ~(size_t)3U`
abbrev pub padded : ℕ → ℕ
padded actual_max = (actual_max + 1 + 3) / 4 * 4

-- `sum += b` on a `uint32_t`
abbrev pub add_byte : ℕ → ℕ → ℕ
add_byte sum b = (sum + b) % 2 ^ 32

-- The loop over the name, padded with 0; the number is how far it still goes.
unfoldable pub sum_name : ℕ → List ℕ → ℕ → ℕ
sum_name zero name sum = sum
sum_name (suc n) [] sum = sum_name n [] (add_byte sum 0)
sum_name (suc n) (c ∷ name) sum = sum_name n name (add_byte sum c)

-- The turn of the loop over the fields.
unfoldable pub sum_field : ℕ → ℕ → ℕ
sum_field field sum =
    let sum0 = add_byte sum (field % 256) in
    let sum1 = add_byte sum0 (field / 256 % 256) in
    let sum2 = add_byte sum1 (field / 65536 % 256) in add_byte sum2 (field / 16777216 % 256)

-- The loop over the bytes of the file.
unfoldable pub sum_data : List ℕ → ℕ → ℕ
sum_data [] sum = sum
sum_data (b ∷ bytes) sum = sum_data bytes (add_byte sum b)

-- One turn of the loop over the files, with `running` and `sum`.
unfoldable pub sum_asset : ℕ → Asset → ℕ → ℕ → ℕ
sum_asset name_len a running sum =
    let named = sum_name name_len a.name sum in
    let size_field = sum_field (length a.data_bytes % 2 ^ 32) named in
    let offset_field = sum_field (running % 2 ^ 32) size_field in
    let fields = sum_field 0 (sum_field 0 offset_field) in
    sum_data a.data_bytes (add_byte (add_byte fields 90) 90)

unfoldable pub sum_loop : ℕ → List Asset → ℕ → ℕ → ℕ
sum_loop name_len [] running sum = sum
sum_loop name_len (a ∷ set) running sum =
    sum_loop name_len set ((running + (length a.data_bytes + 2)) % 2 ^ 64)
      (sum_asset name_len a running sum)

-- `_verify_checksum`
unfoldable pub verify_checksum : List Asset → ℕ → ℕ → EspErr
verify_checksum set expect expect_count =
    let sum = sum_loop (padded (longest 0 set)) set 0 0 in
    if not (length set == expect_count) || not (sum % 2 ^ 16 == expect % 2 ^ 16)
    then invalid_crc
    else ok
