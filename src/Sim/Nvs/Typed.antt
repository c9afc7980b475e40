-- ===== src/Sim/Nvs/Typed.antt =====
-- sim/ports/sim_nvs.c: the setters and getters of nvs.h for each type.
use micro_tech.Prelude.{
  ℕ, ◌+◌, ◌*◌, ◌/◌, ◌%◌, ◌^◌, ◌<◌, ◌≡◌, refl, ◌∙◌, Bool, true, Option, none, some, List, [], ◌∷◌,
  ◌++◌, if◌then◌else◌, EspErr, ok, arith, ap,
}
use micro_tech.Sim.Nvs.{Text, Record, Alloc, str_eq, set_record, Got, get_record}
use micro_tech.Sim.Nvs.Values.{AllSound, values, str_eq_refl}
use micro_tech.Sim.Nvs.Refine.{answer, get_record_lem, set_record-values, set_record-AllSound}
use micro_tech.Sim.Nvs.Image.{le32}
use micro_tech.Sim.Nvs.Handles.{Nvs, slot_store, nvs_set, nvs_get, set_records}

-- SIM_NVS_TYPE_U8 and so on
abbrev pub type_u8 : ℕ
type_u8 = 1

abbrev pub type_u16 : ℕ
type_u16 = 2

abbrev pub type_u32 : ℕ
type_u32 = 3

abbrev pub type_str : ℕ
type_str = 4

abbrev pub type_blob : ℕ
type_blob = 5

module _ (handle : ℕ) (key : Option Text) where
  module _ (alloc : Alloc) where
    unfoldable pub nvs_set_u8 : ℕ → Nvs → EspErr × Nvs
    nvs_set_u8 v = nvs_set alloc handle key type_u8 (some (v % 256 ∷ []))

    unfoldable pub nvs_set_u16 : ℕ → Nvs → EspErr × Nvs
    nvs_set_u16 v = nvs_set alloc handle key type_u16 (some (v % 256 ∷ v / 256 % 256 ∷ []))

    unfoldable pub nvs_set_u32 : ℕ → Nvs → EspErr × Nvs
    nvs_set_u32 v = nvs_set alloc handle key type_u32 (some (le32 v))

    -- The 0 at the end is stored too. The value is a string; NULL is not defined.
    unfoldable pub nvs_set_str : Text → Nvs → EspErr × Nvs
    nvs_set_str value = nvs_set alloc handle key type_str (some (value ++ (0 ∷ [])))

    unfoldable pub nvs_set_blob : Option (List ℕ) → Nvs → EspErr × Nvs
    nvs_set_blob value = nvs_set alloc handle key type_blob value

  -- `wants_value` is `output != NULL`.
  unfoldable pub nvs_get_u8 : Bool → Nvs → Option Got
  nvs_get_u8 wants_value =
      nvs_get handle key type_u8 wants_value (some (if wants_value then 1 else 0))

  unfoldable pub nvs_get_u16 : Bool → Nvs → Option Got
  nvs_get_u16 wants_value =
      nvs_get handle key type_u16 wants_value (some (if wants_value then 2 else 0))

  unfoldable pub nvs_get_u32 : Bool → Nvs → Option Got
  nvs_get_u32 wants_value =
      nvs_get handle key type_u32 wants_value (some (if wants_value then 4 else 0))

  unfoldable pub nvs_get_str : Bool → Option ℕ → Nvs → Option Got
  nvs_get_str = nvs_get handle key type_str

  unfoldable pub nvs_get_blob : Bool → Option ℕ → Nvs → Option Got
  nvs_get_blob = nvs_get handle key type_blob

-- The `uint32_t` of which these are the bytes.
abbrev pub le32_value : List ℕ → Option ℕ
le32_value (a ∷ b ∷ c ∷ d ∷ []) = some (a + b * 256 + c * 65536 + d * 16777216)
le32_value bs = none

-- What `nvs_set` does when it succeeds.
nvs_set_ok :
    (alloc : Alloc) (handle k : ℕ) (key : Text) (type : ℕ) (bytes : List ℕ) (n : Nvs)
    → slot_store n handle ≡ some k
    → (nvs_set alloc handle (some key) type (some bytes) n).0 ≡ ok
    → ((nvs_set alloc handle (some key) type (some bytes) n).1
        ≡ set_records k (set_record alloc key type bytes (n.stores k).records).1 n)
      × ((set_record alloc key type bytes (n.stores k).records).0 ≡ ok)
unfolding nvs_set
nvs_set_ok alloc handle k key type bytes n opened h = ground arith

slot_store-set_records :
    (n : Nvs) (k handle : ℕ) (rs : List Record)
    → slot_store (set_records k rs n) handle ≡ slot_store n handle
unfolding slot_store
slot_store-set_records n k handle rs = refl

get_from :
    (m : Nvs) (reader k : ℕ) (key : Text) (type : ℕ) (wants_bytes : Bool) (size : Option ℕ)
    → slot_store m reader ≡ some k
    → nvs_get reader (some key) type wants_bytes size m
      ≡ get_record key type wants_bytes size (m.stores k).records
unfolding nvs_get
get_from m reader k key type wants_bytes size e = rw (e, nvs_get)

records-set_records :
    (n : Nvs) (k : ℕ) (rs : List Record) → ((set_records k rs n).stores k).records ≡ rs
records-set_records n k rs = ground arith

-- A value that was set by one handle is what any handle of the same namespace gets: for the key that
-- was set the new value, with the errors for another type and for too small a buffer, and for every
-- other key the value that it had.
pub nvs_get-nvs_set :
    (alloc : Alloc) (writer reader k : ℕ) (key : Text) (type : ℕ) (bytes : List ℕ) (n : Nvs)
    → slot_store n writer ≡ some k
    → slot_store n reader ≡ some k
    → AllSound (n.stores k).records
    → (nvs_set alloc writer (some key) type (some bytes) n).0 ≡ ok
    → (wanted : Text) (as_type : ℕ) (wants_bytes : Bool) (size : Option ℕ)
    → nvs_get reader
        (some wanted)
        as_type
        wants_bytes
        size
        (nvs_set alloc writer (some key) type (some bytes) n).1
      ≡ some (
          answer as_type wants_bytes size
            (if str_eq key wanted then some (type, bytes) else values (n.stores k).records wanted))
nvs_get-nvs_set alloc writer reader k key type bytes n opened again sound h wanted as_type
      wants_bytes size =
    let (left, stored) = nvs_set_ok alloc writer k key type bytes n opened h in
    let rs = (n.stores k).records in
    let rs' = (set_record alloc key type bytes rs).1 in
    rw (
      left,
      get_from (set_records k rs' n) reader k wanted as_type wants_bytes size
          (slot_store-set_records n k reader rs' ∙ again),
      records-set_records n k rs',
      get_record_lem wanted as_type wants_bytes size rs'
          (set_record-AllSound key type bytes alloc rs stored sound),
      set_record-values key type bytes alloc rs wanted stored,
    )

of_le32 : (v : ℕ) → v < 2 ^ 32 → le32_value (le32 v) ≡ some v
of_le32 v h = ap some (omega arith)

-- A `uint32_t` that was set is read back as the same number, by any handle of the
-- namespace, from four bytes.
pub nvs_get_u32-nvs_set_u32 :
    (alloc : Alloc) (writer reader k : ℕ) (key : Text) (v : ℕ) (n : Nvs)
    → v < 2 ^ 32
    → slot_store n writer ≡ some k
    → slot_store n reader ≡ some k
    → AllSound (n.stores k).records
    → (nvs_set_u32 writer (some key) alloc v n).0 ≡ ok
    → (bytes : List ℕ) × (nvs_get_u32 reader
          (some key)
          true
          (nvs_set_u32 writer (some key) alloc v n).1
        ≡ some (record { result = ok; out = some bytes; size = some 4 }))
      × (le32_value bytes ≡ some v)
unfolding nvs_set_u32 nvs_get_u32
nvs_get_u32-nvs_set_u32 alloc writer reader k key v n fits opened again sound h = (
  le32 v,
  nvs_get-nvs_set alloc writer reader k key type_u32 (le32 v) n opened again sound h key type_u32
        true (some 4)
      ∙ rw (str_eq_refl key) refl,
  of_le32 v fits,
)
