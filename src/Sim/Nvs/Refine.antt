-- ===== src/Sim/Nvs/Refine.antt =====
-- The records of a namespace behave as the map from keys to values that they stand for.
use micro_tech.Prelude.{
  ℕ, ◌<◌, ◌≡◌, refl, Bool, true, false, not, Option, none, some, List, [], ◌∷◌, length, ltb, ◌==◌,
  if◌then◌else◌, ok, no_mem, invalid_size, arith, inl, inr, Option-cases,
}
use micro_tech.Sim.Nvs.{
  Text, Record, str_eq, find, Alloc, store_content, set_with, set_record, Got, get_record,
  erase_record, nvs_not_found, copy_out,
}
use micro_tech.Sim.Nvs.Values.{
  Values, values, bytes_of, AllSound, Distinct, find-modify, modify-Distinct, modify-AllSound,
  str_eq_refl, str_eq→eq,
}

-- The operations of a namespace, on the map.
abbrev pub put : Text → ℕ → List ℕ → Values → Values
put key type bytes m k = if str_eq key k then some (type, bytes) else m k

abbrev pub remove : Text → Values → Values
remove key m k = if str_eq key k then none else m k

-- What a read of a value answers.
abbrev pub answer : ℕ → Bool → Option ℕ → Option (ℕ × List ℕ) → Got
answer type wants_bytes size none = record { result = nvs_not_found; out = none; size = none }
answer type wants_bytes size (some (t, bytes)) =
    if not (t == type)
    then record { result = nvs_not_found; out = none; size = none }
    else if wants_bytes
    then elim size [
      | none ↦ record { result = invalid_size; out = none; size = none }
      | some room ↦
          if ltb room (length bytes)
          then record { result = invalid_size; out = none; size = none }
          else record { result = ok; out = some bytes; size = some (length bytes) }
    ]
    else record {
      result = ok;
      out = none;
      size = elim size [ none ↦ none | some room ↦ some (length bytes) ];
    }

find-Sound :
    (key : Text) (rs : List Record) (r : Record)
    → AllSound rs
    → find rs key ≡ some r
    → length (bytes_of r.content) ≡ r.size
unfolding find
find-Sound key [] r h e = cc
find-Sound key (q ∷ rs) r (s, h) e = ground (arith, find-Sound key rs r h)

copy_out_lem :
    (r : Record)
    → length (bytes_of r.content) ≡ r.size
    → copy_out r
      ≡ some (record {
        result = ok;
        out = some (bytes_of r.content);
        size = some (length (bytes_of r.content));
      })
unfolding copy_out
copy_out_lem r h = ground arith

pub get_record_lem :
    (key : Text) (type : ℕ) (wants_bytes : Bool) (size : Option ℕ) (rs : List Record)
    → AllSound rs
    → get_record key type wants_bytes size rs ≡ some (answer type wants_bytes size (values rs key))
unfolding get_record values
get_record_lem key type wants_bytes size rs h = elim (Option-cases (find rs key)) [
  | inl e ↦ ground arith
  | inr (r, e) ↦ ground (arith, copy_out_lem r, find-Sound key rs r h e)
]

find_here :
    (r : Record) (rs : List Record) (k : Text)
    → find (r ∷ rs) k ≡ (if str_eq r.key k then some r else find rs k)
unfolding find
find_here r rs k = refl

module _ (key : Text) (type : ℕ) (bytes : List ℕ) where
  abbrev filled : Record → Record
  filled r = record r { content = some bytes; type = type; size = length bytes }

  store_content-values :
      (k : Text) (rs : List Record) (r : Record)
      → find rs key ≡ some r
      → values (store_content true key type bytes rs).1 k ≡ put key type bytes (values rs) k
  unfolding store_content values
  store_content-values k rs r e = ground (arith, find-modify filled key (λ r. refl) k rs)

  -- The store that the last allocation of `_set` works on, if the first two succeed.
  abbrev prepared_for : Option Record → List Record → List Record
  prepared_for none rs = record { key = key; type = 0; content = none; size = 0 } ∷ rs
  prepared_for (some r) rs = rs

  abbrev prepared : List Record → List Record
  prepared rs = prepared_for (find rs key) rs

  find-prepared : (rs : List Record) → (r : Record) × (find (prepared rs) key ≡ some r)
  find-prepared rs = elim (Option-cases (find rs key)) [
    | inl e ↦ (
      record { key = key; type = 0; content = none; size = 0 },
      ground (
        arith,
        find_here (record { key = key; type = 0; content = none; size = 0 }) rs key,
        str_eq_refl key,
      ),
    )
    | inr (r, e) ↦ (r, ground arith)
  ]

  values-prepared :
      (k : Text) (rs : List Record) → str_eq key k ≡ false → values (prepared rs) k ≡ values rs k
  unfolding values
  values-prepared k rs h =
      ground (arith, find_here (record { key = key; type = 0; content = none; size = 0 }) rs k)

  module _ (alloc : Alloc) (rs : List Record) where
    set_record_ok :
        (set_record alloc key type bytes rs).0 ≡ ok
        → set_record alloc key type bytes rs ≡ store_content true key type bytes (prepared rs)
    unfolding set_record set_with store_content
    set_record_ok h = ground arith

    pub set_record-values :
        (k : Text)
        → (set_record alloc key type bytes rs).0 ≡ ok
        → values (set_record alloc key type bytes rs).1 k ≡ put key type bytes (values rs) k
    set_record-values k h = rw (set_record_ok h) (
        ground (
          arith,
          store_content-values k (prepared rs) (find-prepared rs).0 (find-prepared rs).1,
          values-prepared k rs,
        ))

    pub set_record-AllSound :
        (set_record alloc key type bytes rs).0 ≡ ok
        → AllSound rs
        → AllSound (set_record alloc key type bytes rs).1
    set_record-AllSound h s =
        rw (set_record_ok h)
          (unfold store_content in modify-AllSound filled key (prepared rs) (λ r. refl) sound)
      where
        sound : AllSound (prepared rs)
        sound = elim (find rs key) as (λ o. AllSound (prepared_for o rs)) [
          | none ↦ (refl, s)
          | some r ↦ s
        ]

    store_content-Distinct :
        (b : Bool) (o : Option Record)
        → find rs key ≡ o
        → Distinct rs
        → Distinct (store_content b key type bytes (prepared_for o rs)).1
    unfolding store_content
    store_content-Distinct true none e d = modify-Distinct filled key (λ r. refl) _ (e, d)
    store_content-Distinct true (some r) e d = modify-Distinct filled key (λ r. refl) rs d
    store_content-Distinct false none e d =
        modify-Distinct (λ r. record r { content = none }) key (λ r. refl) _ (e, d)
    store_content-Distinct false (some r) e d =
        modify-Distinct (λ r. record r { content = none }) key (λ r. refl) rs d

    set_with-Distinct :
        (o : Option Record)
        → find rs key ≡ o
        → Distinct rs
        → Distinct (set_with o alloc key type bytes rs).1
    unfolding set_with
    set_with-Distinct none e d = ground (arith, store_content-Distinct alloc.content none e d)
    set_with-Distinct (some r) e d = store_content-Distinct alloc.content (some r) e d

    pub set_record-Distinct : Distinct rs → Distinct (set_record alloc key type bytes rs).1
    unfolding set_record
    set_record-Distinct d = set_with-Distinct (find rs key) refl d

module _ (key : Text) where
  pub erase_record-values :
      (k : Text) (rs : List Record)
      → Distinct rs
      → values (erase_record key rs).1 k ≡ remove key (values rs) k
  unfolding erase_record values
  erase_record-values k [] d = unfold find in ground arith
  erase_record-values k (r ∷ rs) (fresh, d) = ground (
    arith,
    erase_record-values k rs d,
    find_here r rs k,
    find_here r (erase_record key rs).1 k,
    str_eq→eq r.key key,
    str_eq→eq key k,
    str_eq_refl key,
    str_eq→eq r.key k,
  )

  pub erase_record-AllSound : (rs : List Record) → AllSound rs → AllSound (erase_record key rs).1
  unfolding erase_record
  erase_record-AllSound [] h = tt
  erase_record-AllSound (r ∷ rs) (s, h) = ground (arith, erase_record-AllSound rs h)

  find-erase_record :
      (k : Text) (rs : List Record) → find rs k ≡ none → find (erase_record key rs).1 k ≡ none
  unfolding erase_record find
  find-erase_record k [] h = refl
  find-erase_record k (r ∷ rs) h = ground (arith, find-erase_record k rs)

  pub erase_record-Distinct : (rs : List Record) → Distinct rs → Distinct (erase_record key rs).1
  unfolding erase_record
  erase_record-Distinct [] h = tt
  erase_record-Distinct (r ∷ rs) (fresh, h) =
      ground (arith, erase_record-Distinct rs h, find-erase_record r.key rs)

  pub erase_record_result :
      (rs : List Record)
      → (erase_record key rs).0 ≡ elim (values rs key) [ none ↦ nvs_not_found | some v ↦ ok ]
  unfolding erase_record values find
  erase_record_result [] = refl
  erase_record_result (r ∷ rs) = ground (arith, erase_record_result rs)

-- When there is no memory for the new content of a record that holds some bytes, `_set` leaves the
-- record with its old type and size and with NULL for its bytes, and the other records as they were;
-- a read of it with a buffer of that size then copies from NULL.
pub set_record_no_mem :
    (alloc : Alloc) (key : Text) (type : ℕ) (bytes : List ℕ) (rs : List Record) (r : Record)
    → find rs key ≡ some r
    → alloc.content ≡ false
    → 0 < r.size
    → ((set_record alloc key type bytes rs).0 ≡ no_mem)
      × (find (set_record alloc key type bytes rs).1 key ≡ some (record r { content = none }))
      × ((k : Text)
          → str_eq key k ≡ false
          → find (set_record alloc key type bytes rs).1 k ≡ find rs k)
      × (get_record key r.type true (some r.size) (set_record alloc key type bytes rs).1 ≡ none)
unfolding set_record set_with store_content get_record copy_out
set_record_no_mem alloc key type bytes rs r e full size =
    let changed =
      λ (k : Text). find-modify (λ q. record q { content = none }) key (λ q. refl) k rs in
    let here = str_eq_refl key in
    (
      ground (arith, changed key, here),
      ground (arith, changed key, here),
      λ k apart. ground (arith, changed k, here),
      ground (arith, changed key, here),
    )
