-- ===== src/Sim/Nvs/Image/RoundTrip.antt =====
-- What is flushed is loaded again.
use mathlib.Core.List.{append_assoc}
use micro_tech.Prelude.{
  ℕ, zero, suc, ◌%◌, ◌^◌, ◌<◌, ◌≡◌, refl, ap, ◌⊎◌, inl, inr, Bool, true, false, ◌&&◌, Option, none,
  some, List, [], ◌∷◌, ◌++◌, length, take-length, if◌then◌else◌, ok, fail, arith, Bool-cases,
  push_all, map,
}
use micro_tech.Sim.Nvs.{Record}
use micro_tech.Sim.Nvs.Values.{bytes_of}
use micro_tech.Sim.Nvs.Run.{plenty}
use micro_tech.Sim.Nvs.Image.{
  le32, done, failed, Field, type_field, klen_field, key_field, dlen_field, content_field,
  write_content, write_record, write_records, Disk, store_flush, read_bytes, read_u32, c_string,
  Header, read_header, read_content, read_record, load_loop, load,
}

-- The bytes of a C string: not 0.
abbrev pub AllNonzero : List ℕ → Type 0
AllNonzero [] = Unit
AllNonzero (b ∷ bs) = (0 < b) × AllNonzero bs

-- A record that fits its fields in the file.
pub record IsStorable (r : Record) : Type 0 where
  pub key_text : AllNonzero r.key
  pub key_short : length r.key < 256
  pub size_fits : r.size < 2 ^ 32
  pub sound : length (bytes_of r.content) ≡ r.size

abbrev pub AllStorable : List Record → Type 0
AllStorable [] = Unit
AllStorable (r ∷ rs) = IsStorable r × AllStorable rs

abbrev pub image_record : Record → List ℕ
image_record r = r.type ∷ length r.key ∷ (r.key ++ (le32 r.size ++ bytes_of r.content))

abbrev pub image_records : List Record → List ℕ
image_records [] = []
image_records (r ∷ rs) = image_record r ++ image_records rs

-- The file of a namespace.
abbrev pub image : List Record → List ℕ
image rs = le32 (length rs) ++ image_records rs

write_content_lem :
    (wrote : Bool) (size : ℕ) (content : Option (List ℕ))
    → length (bytes_of content) ≡ size
    → (write_content wrote size content ≡ done (bytes_of content))
      ⊎ (write_content wrote size content ≡ failed)
unfolding write_content
write_content_lem wrote zero none h = inl refl
write_content_lem wrote zero (some []) h = inl refl
write_content_lem wrote zero (some (b ∷ bs)) h = absurd (omega (arith, h))
write_content_lem wrote (suc n) none h = absurd (omega (arith, h))
write_content_lem true (suc n) (some bytes) h = inl (rw (← h) (rw take-length))
write_content_lem false (suc n) (some bytes) h = inr refl

write_record_lem :
    (wrote : Field → Bool) (r : Record)
    → IsStorable r
    → (write_record wrote r ≡ done (image_record r)) ⊎ (write_record wrote r ≡ failed)
unfolding write_record
write_record_lem wrote r s =
    let size_mod : r.size % 2 ^ 32 ≡ r.size = omega (arith, s.size_fits) in
    let klen_mod : length r.key % 256 ≡ length r.key = omega (arith, s.key_short) in
    elim (Bool-cases
      (wrote type_field && wrote klen_field && wrote key_field && wrote dlen_field)) [
        | inl e ↦ elim (write_content_lem (wrote content_field) r.size r.content s.sound) [
          | inl w ↦ inl (rw (e, if◌then◌else◌, size_mod, w, klen_mod, take-length, size_mod))
          | inr w ↦ inr (rw (e, if◌then◌else◌, size_mod, w))
        ]
        | inr e ↦ inr (rw (e, if◌then◌else◌))
      ]

write_records_lem :
    (wrote : ℕ → Field → Bool) (i : ℕ) (rs : List Record)
    → AllStorable rs
    → (write_records wrote i rs ≡ done (image_records rs)) ⊎ (write_records wrote i rs ≡ failed)
unfolding write_records
write_records_lem wrote i [] s = inl refl
write_records_lem wrote i (r ∷ rs) (s, ss) =
    ground (arith, write_record_lem (wrote i) r s, write_records_lem wrote (suc i) rs ss)

-- A flush whose fclose succeeds changes the file of the namespace to the image of its records, or leaves it as it was.
pub store_flush_cases :
    (disk : Disk) (rs : List Record) (file : Option (List ℕ))
    → AllStorable rs
    → length rs < 2 ^ 32
    → disk.lost ≡ none
    → (store_flush disk rs file ≡ done (ok, some (image rs)))
      ⊎ (store_flush disk rs file ≡ done (fail, file))
unfolding store_flush
store_flush_cases disk rs file s h closed =
    let count_mod : length rs % 2 ^ 32 ≡ length rs = omega arith in
    ground (arith, count_mod, write_records_lem disk.wrote 0 rs s)

read_bytes-append : (xs rest : List ℕ) → read_bytes (length xs) (xs ++ rest) ≡ some (xs, rest)
unfolding read_bytes
read_bytes-append [] rest = refl
read_bytes-append (x ∷ xs) rest = rw (read_bytes-append xs rest)

read_u32-le32 : (n : ℕ) (rest : List ℕ) → n < 2 ^ 32 → read_u32 (le32 n ++ rest) ≡ some (n, rest)
unfolding read_u32
read_u32-le32 n rest h = ap (λ (k : ℕ). some (k, rest)) (omega arith)

c_string_nonzero : (bs : List ℕ) → AllNonzero bs → c_string bs ≡ bs
unfolding c_string
c_string_nonzero [] h = refl
c_string_nonzero (b ∷ bs) (p, h) = ground (arith, c_string_nonzero bs h)

header_of : Record → Header
header_of r = record { type = r.type; key = r.key; dlen = r.size }

read_header-image :
    (r : Record) (rest : List ℕ)
    → r.size < 2 ^ 32
    → read_header (image_record r ++ rest) ≡ some (header_of r, bytes_of r.content ++ rest)
unfolding read_header header_of
read_header-image r rest h = rw append_assoc (
    ground (
      arith,
      read_bytes-append r.key ((le32 r.size ++ bytes_of r.content) ++ rest),
      read_u32-le32 r.size (bytes_of r.content ++ rest) h,
    ))

-- A record as it is after a reload: NULL stands for no bytes.
abbrev pub reloaded_content : Option (List ℕ) → Option (List ℕ)
reloaded_content none = none
reloaded_content (some []) = none
reloaded_content (some (b ∷ bs)) = some (b ∷ bs)

abbrev pub reloaded : Record → Record
reloaded r = record r { content = reloaded_content r.content }

read_content_lem :
    (size : ℕ) (content : Option (List ℕ)) (rest : List ℕ)
    → length (bytes_of content) ≡ size
    → read_content true size (bytes_of content ++ rest) ≡ done (reloaded_content content, rest)
unfolding read_content
read_content_lem zero none rest h = refl
read_content_lem zero (some []) rest h = refl
read_content_lem zero (some (b ∷ bs)) rest h = absurd (omega (arith, h))
read_content_lem (suc n) none rest h = absurd (omega (arith, h))
read_content_lem (suc n) (some []) rest h = absurd (omega (arith, h))
read_content_lem (suc n) (some (b ∷ bs)) rest h =
    let e : length bs ≡ n = omega (arith, h) in ground (arith, e, read_bytes-append bs rest)

read_record-image :
    (r : Record) (rest : List ℕ)
    → IsStorable r
    → read_record plenty (header_of r) (bytes_of r.content ++ rest) ≡ done (reloaded r, rest)
unfolding read_record header_of
read_record-image r rest s =
    ground
      (arith, read_content_lem r.size r.content rest s.sound, c_string_nonzero r.key s.key_text)

load_loop-image :
    (rs before : List Record) (i : ℕ)
    → AllStorable rs
    → load_loop (λ _. plenty) (length rs) i (image_records rs) before
      ≡ done (ok, push_all (map reloaded rs) before)
unfolding load_loop
load_loop-image [] before i s = refl
load_loop-image (r ∷ rs) before i (s, ss) = ground (
  arith,
  read_header-image r (image_records rs) s.size_fits,
  read_record-image r (image_records rs) s,
  load_loop-image rs (reloaded r ∷ before) (suc i) ss,
)

pub load-image :
    (rs : List Record)
    → AllStorable rs
    → length rs < 2 ^ 32
    → load (λ _. plenty) (some (image rs)) ≡ done (ok, push_all (map reloaded rs) [])
unfolding load
load-image rs s h =
    ground (arith, read_u32-le32 (length rs) (image_records rs) h, load_loop-image rs [] 0 s)
