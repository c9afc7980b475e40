-- ===== src/Sim/Nvs/Image.antt =====
-- sim/ports/sim_nvs.c: `_store_flush` and `_load`, which write the records of a namespace to its
-- file and read them back. The host is little-endian.
pub mod RoundTrip
pub mod Durable
use micro_tech.Prelude.{
  ℕ, zero, suc, ◌+◌, ◌*◌, ◌/◌, ◌%◌, ◌^◌, Bool, true, false, not, ◌&&◌, ◌||◌, Option, none, some,
  List, [], ◌∷◌, ◌++◌, length, take, ltb, ◌==◌, if◌then◌else◌, EspErr, ok, fail, no_mem,
}
use micro_tech.Sim.Nvs.{Text, Record, Alloc}

-- The bytes of a `uint32_t`.
abbrev pub le32 : ℕ → List ℕ
le32 n = n % 256 ∷ n / 256 % 256 ∷ n / 65536 % 256 ∷ n / 16777216 % 256 ∷ []

-- What a step on a file gives; `fault` is a transfer from or to NULL, which is not defined.
pub data Io {ℓ} (A : Type ℓ) : Type ℓ where
  done : A → Io A
  failed : Io A
  fault : Io A

-- The writes of one record.
pub data Field : Type 0 where
  type_field klen_field key_field dlen_field content_field : Field

-- `fwrite(r->data, 1U, dlen, fp)`, unless `dlen` is 0.
unfoldable pub write_content : Bool → ℕ → Option (List ℕ) → Io (List ℕ)
write_content wrote zero content = done []
write_content wrote (suc n) none = fault
write_content wrote (suc n) (some bytes) = if wrote then done (take (suc n) bytes) else failed

-- The body of the second loop of `_store_flush`: the bytes that it writes.
unfoldable pub write_record : (Field → Bool) → Record → Io (List ℕ)
unfolding write_content
write_record wrote r =
    let klen = length r.key % 256 in
    let dlen = r.size % 2 ^ 32 in
    if wrote type_field && wrote klen_field && wrote key_field && wrote dlen_field
    then elim (write_content (wrote content_field) dlen r.content) [
      | done bytes ↦ done (r.type ∷ klen ∷ (take klen r.key ++ (le32 dlen ++ bytes)))
      | failed ↦ failed
      | fault ↦ fault
    ]
    else failed

-- The loop; `i` is how many records have been written.
unfoldable pub write_records : (ℕ → Field → Bool) → ℕ → List Record → Io (List ℕ)
write_records wrote i [] = done []
write_records wrote i (r ∷ rs) =
    let rest = write_records wrote (suc i) rs in
    elim (write_record (wrote i) r) [
      | done bytes ↦ elim rest [
        | done more ↦ done (bytes ++ more)
        | failed ↦ failed
        | fault ↦ fault
      ]
      | failed ↦ failed
      | fault ↦ fault
    ]

-- What the file system answers to a flush.
pub record Disk : Type 0 where
  pub opened : Bool  -- fopen of the temporary file
  pub counted : Bool  -- the write of `count`
  pub wrote : ℕ → Field → Bool
  pub lost : Option (List ℕ)  -- what the file holds after an fclose that fails; `none`: it succeeds
  pub renamed : Bool

-- What the temporary file holds after fclose, whose result the source does not look at.
abbrev pub closed_file : Option (List ℕ) → List ℕ → List ℕ
closed_file none written = written
closed_file (some left) written = left

-- `_store_flush`: the error code, and the new content of the file of the namespace.
-- The temporary file is gone at the end on each path.
unfoldable pub store_flush : Disk → List Record → Option (List ℕ) → Io (EspErr × Option (List ℕ))
unfolding write_records write_record
store_flush disk rs file =
    if disk.opened && disk.counted
    then elim (write_records disk.wrote 0 rs) [
      | done bytes ↦
          if disk.renamed
          then done (ok, some (closed_file disk.lost (le32 (length rs % 2 ^ 32) ++ bytes)))
          else done (fail, file)
      | failed ↦ done (fail, file)
      | fault ↦ fault
    ]
    else done (fail, file)

-- `fread` of `n` bytes: they, and what follows them; `none` if the file is too short.
unfoldable pub read_bytes : ℕ → List ℕ → Option (List ℕ × List ℕ)
read_bytes zero bs = some ([], bs)
read_bytes (suc n) [] = none
read_bytes (suc n) (b ∷ bs) = elim (read_bytes n bs) [
  | none ↦ none
  | some (front, rest) ↦ some (b ∷ front, rest)
]

unfoldable pub read_u32 : List ℕ → Option (ℕ × List ℕ)
read_u32 (a ∷ b ∷ c ∷ d ∷ bs) = some (a + b * 256 + c * 65536 + d * 16777216, bs)
read_u32 bs = none

-- The string in a buffer that a 0 has been put behind: `strdup(key)`.
unfoldable pub c_string : List ℕ → Text
c_string [] = []
c_string (b ∷ bs) = if b == 0 then [] else b ∷ c_string bs

pub record Header : Type 0 where
  pub type : ℕ
  pub key : List ℕ
  pub dlen : ℕ

-- The first four reads of a record.
unfoldable pub read_header : List ℕ → Option (Header × List ℕ)
unfolding read_bytes read_u32
read_header [] = none
read_header (type ∷ []) = none
read_header (type ∷ klen ∷ bs) = elim (read_bytes klen bs) [
  | none ↦ none
  | some (key, rest) ↦ elim (read_u32 rest) [
    | none ↦ none
    | some (dlen, rest') ↦ some (record { type = type; key = key; dlen = dlen }, rest')
  ]
]

-- `malloc(dlen)` and `fread(rec->data, 1U, dlen, fp)`, unless `dlen` is 0.
unfoldable pub read_content : Bool → ℕ → List ℕ → Io (Option (List ℕ) × List ℕ)
unfolding read_bytes
read_content allocated zero bs = done (none, bs)
read_content allocated (suc n) bs =
    if allocated
    then elim (read_bytes (suc n) bs) [
      | none ↦ failed
      | some (bytes, rest) ↦ done (some bytes, rest)
    ]
    else fault

-- The body of the loop of `_load` after the header: the new record, and what follows in the file.
unfoldable pub read_record : Alloc → Header → List ℕ → Io (Record × List ℕ)
unfolding read_content
read_record alloc h bs =
    if alloc.name
    then elim (read_content alloc.content h.dlen bs) [
      | done (content, rest) ↦
          done
            (record { key = c_string h.key; type = h.type; content = content; size = h.dlen }, rest)
      | failed ↦ failed
      | fault ↦ fault
    ]
    else failed

-- The loop: how many records are left, the index of the next one, and the records so far.
unfoldable pub load_loop : (ℕ → Alloc) → ℕ → ℕ → List ℕ → List Record → Io (EspErr × List Record)
load_loop alloc zero i bs rs = done (ok, rs)
load_loop alloc (suc n) i bs rs = elim (read_header bs) [
  | none ↦ done (fail, [])
  | some (h, rest) ↦
      if (alloc i).node
      then elim (read_record (alloc i) h rest) [
        | done (r, rest') ↦ load_loop alloc n (suc i) rest' (r ∷ rs)
        | failed ↦ done (fail, rs)
        | fault ↦ fault
      ]
      else done (no_mem, rs)
]

-- `_load` into a store without records: `none` is a file that cannot be opened.
unfoldable pub load : (ℕ → Alloc) → Option (List ℕ) → Io (EspErr × List Record)
unfolding load_loop read_record read_header c_string read_u32
load alloc none = done (ok, [])
load alloc (some bs) = elim (read_u32 bs) [
  | none ↦ done (fail, [])
  | some (count, rest) ↦ load_loop alloc count 0 rest []
]
