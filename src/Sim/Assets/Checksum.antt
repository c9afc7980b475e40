-- ===== src/Sim/Assets/Checksum.antt =====
-- What the checksum of the staged files is, and which changes it finds.
use micro_tech.Prelude.{
  ℕ, zero, suc, ◌+◌, ◌/◌, ◌%◌, ◌^◌, ◌<◌, ◌≤◌, ◌≡◌, ◌≢◌, refl, ap, ◌∙◌, ◌&&◌, List, [], ◌∷◌, ◌++◌,
  length, ltb, ◌==◌, if◌then◌else◌, ok, invalid_crc, arith,
}
use micro_tech.Sim.Assets.{
  Asset, longest, padded, add_byte, sum_name, sum_field, sum_data, sum_asset, sum_loop,
  verify_checksum,
}

abbrev pub total : List ℕ → ℕ
total [] = 0
total (b ∷ bytes) = b + total bytes

-- The sum of the bytes of a `uint32_t`.
abbrev pub field_total : ℕ → ℕ
field_total f = f % 256 + (f / 256 % 256 + (f / 65536 % 256 + f / 16777216 % 256))

-- What a file adds to the sum, at the offset `running`.
abbrev pub share : Asset → ℕ → ℕ
share a running =
    total a.name
    + field_total (length a.data_bytes % 2 ^ 32)
    + field_total (running % 2 ^ 32)
    + 180
    + total a.data_bytes

abbrev pub next_offset : Asset → ℕ → ℕ
next_offset a running = (running + (length a.data_bytes + 2)) % 2 ^ 64

abbrev pub shares : List Asset → ℕ → ℕ
shares [] running = 0
shares (a ∷ set) running = share a running + shares set (next_offset a running)

sum_zeros : (n sum : ℕ) → sum < 2 ^ 32 → sum_name n [] sum ≡ sum
unfolding sum_name
sum_zeros zero sum h = refl
sum_zeros (suc n) sum h = rw (sum_zeros n (add_byte sum 0) (omega arith)) (omega (arith, h))

-- The padding does not count.
sum_name_lem :
    (n : ℕ) (name : List ℕ) (sum : ℕ)
    → length name ≤ n
    → sum < 2 ^ 32
    → sum_name n name sum ≡ (sum + total name) % 2 ^ 32
unfolding sum_name
sum_name_lem n [] sum h small = sum_zeros n sum small ∙ omega (arith, small)
sum_name_lem zero (c ∷ name) sum h small = absurd (omega (arith, h))
sum_name_lem (suc n) (c ∷ name) sum h small =
    sum_name_lem n name (add_byte sum c) (omega (arith, h)) (omega arith) ∙ omega arith

sum_field_lem : (f sum : ℕ) → sum_field f sum ≡ (sum + field_total f) % 2 ^ 32
unfolding sum_field
sum_field_lem f sum = omega arith

sum_data_lem :
    (bytes : List ℕ) (sum : ℕ) → sum < 2 ^ 32 → sum_data bytes sum ≡ (sum + total bytes) % 2 ^ 32
unfolding sum_data
sum_data_lem [] sum small = omega (arith, small)
sum_data_lem (b ∷ bytes) sum small = sum_data_lem bytes (add_byte sum b) (omega arith) ∙ omega arith

sum_asset_lem :
    (n : ℕ) (a : Asset) (running sum : ℕ)
    → length a.name ≤ n
    → sum < 2 ^ 32
    → sum_asset n a running sum ≡ (sum + share a running) % 2 ^ 32
unfolding sum_asset
sum_asset_lem n a running sum fits small =
    let size_field = length a.data_bytes % 2 ^ 32 in
    let offset_field = running % 2 ^ 32 in
    let named = sum_name n a.name sum in
    let sized = sum_field size_field named in
    let placed = sum_field offset_field sized in
    let unused = sum_field 0 placed in
    let fields = sum_field 0 unused in
    let zeros : field_total 0 ≡ 0 = refl in
    sum_data_lem a.data_bytes (add_byte (add_byte fields 90) 90) (omega arith)
    ∙ omega (
      arith,
      sum_name_lem n a.name sum fits small,
      sum_field_lem size_field named,
      sum_field_lem offset_field sized,
      sum_field_lem 0 placed,
      sum_field_lem 0 unused,
      zeros,
    )

-- Each name is at most `n` bytes long.
abbrev pub Fits : ℕ → List Asset → Type 0
Fits n [] = Unit
Fits n (a ∷ set) = (length a.name ≤ n) × Fits n set

sum_loop_lem :
    (n : ℕ) (set : List Asset) (running sum : ℕ)
    → Fits n set
    → sum < 2 ^ 32
    → sum_loop n set running sum ≡ (sum + shares set running) % 2 ^ 32
unfolding sum_loop
sum_loop_lem n [] running sum fits small = omega (arith, small)
sum_loop_lem n (a ∷ set) running sum (fit, fits) small =
    let next = sum_asset n a running sum in
    let e : next ≡ (sum + share a running) % 2 ^ 32 = sum_asset_lem n a running sum fit small in
    sum_loop_lem n set (next_offset a running) next fits (omega (arith, e)) ∙ omega (arith, e)

Fits-more : (m n : ℕ) (set : List Asset) → m ≤ n → Fits m set → Fits n set
Fits-more m n [] h f = tt
Fits-more m n (a ∷ set) h (f, fs) = (omega (arith, h, f), Fits-more m n set h fs)

longest-Fits :
    (so_far : ℕ) (set : List Asset) → (so_far ≤ longest so_far set) × Fits (longest so_far set) set
unfolding longest
longest-Fits so_far [] = (omega arith, tt)
longest-Fits so_far (a ∷ set) =
    let next = if ltb so_far (length a.name) then length a.name else so_far in
    let (le, fits) = longest-Fits next set in
    let le' : (so_far ≤ next) × (length a.name ≤ next) = ground arith in
    (omega (arith, le, le'.0), (omega (arith, le, le'.1), fits))

-- The staged files are accepted exactly when there are as many of them as expected, and the low 16
-- bits of the expected checksum are those of the sum, over all files in order, of the bytes of the
-- name, of the size, of the offset and of the contents, with 180 for the prefix of each file. The
-- padding of the names to one length does not count, and the wrap of the sum at 2 ^ 32 does not show.
pub verify_checksum_lem :
    (set : List Asset) (expect expect_count : ℕ)
    → verify_checksum set expect expect_count ≡ (
        if (length set == expect_count) && (shares set 0 % 2 ^ 16 == expect % 2 ^ 16)
        then ok
        else invalid_crc)
unfolding verify_checksum
verify_checksum_lem set expect expect_count =
    let n = padded (longest 0 set) in
    let fits : Fits n set = Fits-more (longest 0 set) n set (omega arith) (longest-Fits 0 set).1 in
    let e : sum_loop n set 0 0 ≡ shares set 0 % 2 ^ 32 =
      sum_loop_lem n set 0 0 fits (omega arith) ∙ ap (λ (k : ℕ). k % 2 ^ 32) (omega arith) in
    let low : sum_loop n set 0 0 % 2 ^ 16 ≡ shares set 0 % 2 ^ 16 = omega (arith, e) in
    rw low (ground arith)

total-append : (xs ys : List ℕ) → total (xs ++ ys) ≡ total xs + total ys
total-append [] ys = omega arith
total-append (x ∷ xs) ys = omega (arith, total-append xs ys)

-- Two files of one name and one size differ in their bytes only.
shares-append :
    (before after : List Asset) (a b : Asset) (running : ℕ)
    → a.name ≡ b.name
    → length a.data_bytes ≡ length b.data_bytes
    → shares (before ++ (a ∷ after)) running + total b.data_bytes
      ≡ shares (before ++ (b ∷ after)) running + total a.data_bytes
shares-append [] after a b running same_name same_size =
    let names : total a.name ≡ total b.name = ap total same_name in
    let rest : shares after (next_offset a running) ≡ shares after (next_offset b running) =
      ap (λ (n : ℕ). shares after ((running + (n + 2)) % 2 ^ 64)) same_size in
    let sizes : field_total (length a.data_bytes % 2 ^ 32)
        ≡ field_total (length b.data_bytes % 2 ^ 32) =
      ap (λ (n : ℕ). field_total (n % 2 ^ 32)) same_size in
    omega (arith, names, rest, sizes)
shares-append (p ∷ before) after a b running same_name same_size =
    omega (arith, shares-append before after a b (next_offset p running) same_name same_size)

same_byte : (k x y : ℕ) → x < 256 → y < 256 → (k + x) % 65536 ≡ (k + y) % 65536 → x ≡ y
same_byte k x y hx hy h = omega (arith, hx, hy, h)

length-insert : (xs ys : List ℕ) (x y : ℕ) → length (xs ++ (x ∷ ys)) ≡ length (xs ++ (y ∷ ys))
length-insert [] ys x y = refl
length-insert (z ∷ xs) ys x y = ap (λ (n : ℕ). suc n) (length-insert xs ys x y)

-- If the staged files are accepted, they are refused once one byte of one of them has another value,
-- wherever it stands: the sum then differs by less than 256, and not by a multiple of 2 ^ 16.
pub changed_byte_refused :
    (before after : List Asset) (name start end : List ℕ) (x y expect expect_count : ℕ)
    → x < 256
    → y < 256
    → x ≢ y
    → let with_byte : ℕ → List Asset =
        λ b. before ++ (record { name = name; data_bytes = start ++ (b ∷ end) } ∷ after) in
      verify_checksum (with_byte x) expect expect_count ≡ ok
      → verify_checksum (with_byte y) expect expect_count ≡ invalid_crc
changed_byte_refused before after name start end x y expect expect_count hx hy differ accepted =
    let asset : ℕ → Asset = λ b. record { name = name; data_bytes = start ++ (b ∷ end) } in
    let with_byte : ℕ → List Asset = λ b. before ++ (asset b ∷ after) in
    let e : shares (with_byte x) 0 + total (start ++ (y ∷ end))
        ≡ shares (with_byte y) 0 + total (start ++ (x ∷ end)) =
      shares-append before after (asset x) (asset y) 0 refl (length-insert start end x y) in
    let sx : total (start ++ (x ∷ end)) ≡ total start + (x + total end) =
      total-append start (x ∷ end) in
    let sy : total (start ++ (y ∷ end)) ≡ total start + (y + total end) =
      total-append start (y ∷ end) in
    let (sum_x, sum_y) : ℕ × ℕ = (shares (with_byte x) 0, shares (with_byte y) 0) in
    let low : sum_x % 65536 ≡ expect % 65536 =
      ground (arith, verify_checksum_lem (with_byte x) expect expect_count, accepted) in
    let apart : sum_y % 65536 ≢ expect % 65536 = λ (same : sum_y % 65536 ≡ expect % 65536).
      differ (omega (arith, hx, hy, e, sx, sy, low, same)) in
    verify_checksum_lem (with_byte y) expect expect_count ∙ ground (arith, apart)
