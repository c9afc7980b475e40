-- ===== src/Sim/Nvs.antt =====
-- sim/ports/sim_nvs.c: the records of one namespace. A C string is the list of its bytes, without
-- the 0 at its end; a pointer that may be NULL is an option.
pub mod Values
pub mod Refine
pub mod Run
pub mod Image
pub mod Handles
mod Tests
pub mod Typed
use micro_tech.Prelude.{
  ℕ, ◌<◌, ◌≡◌, Bool, true, false, not, ◌&&◌, Option, none, some, List, [], ◌∷◌, length, ltb, leb,
  ◌==◌, if◌then◌else◌, EspErr, ok, no_mem, invalid_arg, invalid_size, other,
}

abbrev pub Text : Type 0
Text = List ℕ

-- `nvs_record_t`: `content` is `data`.
pub record Record : Type 0 where
  pub key : Text
  pub type : ℕ
  pub content : Option (List ℕ)
  pub size : ℕ

-- NVS_KEY_NAME_MAX_SIZE, of the ESP-IDF
abbrev pub key_max : ℕ
key_max = 16

-- ESP_ERR_NVS_NOT_FOUND, of the ESP-IDF
abbrev pub nvs_not_found : EspErr
nvs_not_found = other 0x1102

-- `strcmp(a, b) == 0`
unfoldable pub str_eq : Text → Text → Bool
str_eq [] [] = true
str_eq [] (b ∷ t) = false
str_eq (a ∷ s) [] = false
str_eq (a ∷ s) (b ∷ t) = a == b && str_eq s t

-- `_find`
unfoldable pub find : List Record → Text → Option Record
find [] key = none
find (r ∷ rs) key = if str_eq r.key key then some r else find rs key

-- A write through the pointer that `_find` returns.
unfoldable pub modify : Text → (Record → Record) → List Record → List Record
modify key f [] = []
modify key f (r ∷ rs) = if str_eq r.key key then f r ∷ rs else r ∷ modify key f rs

-- Which of the allocations of one record succeed: the record, its key, its content.
pub record Alloc : Type 0 where
  pub node : Bool
  pub name : Bool
  pub content : Bool

-- The end of `_set`, from `rec->data = malloc(size)` on.
unfoldable pub store_content : Bool → Text → ℕ → List ℕ → List Record → EspErr × List Record
store_content allocated key type bytes rs =
    if allocated
    then (
      ok,
      modify key (λ r. record r { content = some bytes; type = type; size = length bytes }) rs,
    )
    else (no_mem, modify key (λ r. record r { content = none }) rs)

-- `_set` on the records of the store, after the checks of its arguments: what `_find` returns, and
-- the rest.
unfoldable pub set_with :
    Option Record → Alloc → Text → ℕ → List ℕ → List Record → EspErr × List Record
set_with none alloc key type bytes rs =
    if not alloc.node
    then (no_mem, rs)
    else if not alloc.name
    then (no_mem, rs)
    else store_content alloc.content key type bytes
        (record { key = key; type = 0; content = none; size = 0 } ∷ rs)
set_with (some r) alloc key type bytes rs = store_content alloc.content key type bytes rs

unfoldable pub set_record : Alloc → Text → ℕ → List ℕ → List Record → EspErr × List Record
unfolding set_with store_content
set_record alloc key type bytes rs = set_with (find rs key) alloc key type bytes rs

-- What `_get` leaves: its result, the bytes that it writes to `out`, and what it stores in `*size`.
-- `none` for the whole is a copy from NULL, which has no defined behaviour.
pub record Got : Type 0 where
  pub result : EspErr
  pub out : Option (List ℕ)
  pub size : Option ℕ

abbrev refuse : EspErr → Option Got
refuse e = some (record { result = e; out = none; size = none })

-- `memcpy(out, rec->data, rec->size)`
unfoldable pub copy_out : Record → Option Got
copy_out r = elim r.content [
  | none ↦ if r.size == 0 then some (record { result = ok; out = some []; size = some 0 }) else none
  | some bytes ↦ some (record { result = ok; out = some bytes; size = some r.size })
]

-- `_get` on the records of the store: `wants_bytes` is `out != NULL`, and `size` what `*size` holds.
unfoldable pub get_record : Text → ℕ → Bool → Option ℕ → List Record → Option Got
get_record key type wants_bytes size rs = elim (find rs key) [
  | none ↦ refuse nvs_not_found
  | some r ↦
      if not (r.type == type)
      then refuse nvs_not_found
      else if not wants_bytes
      then some (record {
        result = ok;
        out = none;
        size = elim size [ none ↦ none | some room ↦ some r.size ];
      })
      else elim size [
        | none ↦ refuse invalid_size
        | some room ↦ if ltb room r.size then refuse invalid_size else copy_out r
      ]
]

-- The loop of `nvs_erase_key`.
unfoldable pub erase_record : Text → List Record → EspErr × List Record
erase_record key [] = (nvs_not_found, [])
erase_record key (r ∷ rs) =
    let (e, rest) = erase_record key rs in if str_eq r.key key then (ok, rs) else (e, r ∷ rest)
