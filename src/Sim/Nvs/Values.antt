-- ===== src/Sim/Nvs/Values.antt =====
-- The records as a map from keys to values.
use micro_tech.Prelude.{
  ℕ, ◌≡◌, refl, true, false, Option, none, some, List, [], ◌∷◌, length, if◌then◌else◌, arith,
  Bool-cases, inl, inr,
}
use micro_tech.Sim.Nvs.{Text, Record, str_eq, find, modify}

pub str_eq_refl : (a : Text) → str_eq a a ≡ true
unfolding str_eq
str_eq_refl [] = refl
str_eq_refl (x ∷ xs) = ground (arith, str_eq_refl xs)

pub str_eq→eq : (a b : Text) → str_eq a b ≡ true → a ≡ b
unfolding str_eq
str_eq→eq [] [] h = refl
str_eq→eq [] (b ∷ t) h = cc
str_eq→eq (a ∷ s) [] h = cc
str_eq→eq (a ∷ s) (b ∷ t) h = ground (arith, str_eq→eq s t)

pub str_eq_comm : (a b : Text) → str_eq a b ≡ str_eq b a
unfolding str_eq
str_eq_comm [] [] = refl
str_eq_comm [] (b ∷ t) = refl
str_eq_comm (a ∷ s) [] = refl
str_eq_comm (a ∷ s) (b ∷ t) = ground (arith, str_eq_comm s t)

pub str_eq_ne : (a b c : Text) → str_eq a b ≡ true → str_eq a c ≡ false → str_eq b c ≡ false
str_eq_ne a b c p q = rw (str_eq→eq a b p) at q

-- What a namespace promises: a map from keys to values, each with its type.
abbrev pub Values : Type 0
Values = Text → Option (ℕ × List ℕ)

abbrev pub bytes_of : Option (List ℕ) → List ℕ
bytes_of none = []
bytes_of (some bytes) = bytes

abbrev pub value_of : Option Record → Option (ℕ × List ℕ)
value_of none = none
value_of (some r) = some (r.type, bytes_of r.content)

unfoldable pub values : List Record → Values
values rs key = value_of (find rs key)

-- Each record holds as many bytes as it says.
abbrev pub AllSound : List Record → Type 0
AllSound [] = Unit
AllSound (r ∷ rs) = (length (bytes_of r.content) ≡ r.size) × AllSound rs

abbrev pub Distinct : List Record → Type 0
Distinct [] = Unit
Distinct (r ∷ rs) = (find rs r.key ≡ none) × Distinct rs

abbrev map_option : (Record → Record) → Option Record → Option Record
map_option f none = none
map_option f (some r) = some (f r)

module _ (f : Record → Record) (key : Text) (same : (r : Record) → (f r).key ≡ r.key) where
  -- A write through a pointer to the record of a key, seen by a later search.
  pub find-modify :
      (k : Text) (rs : List Record)
      → find (modify key f rs) k ≡ (if str_eq key k then map_option f (find rs key) else find rs k)
  unfolding find modify
  find-modify k [] = ground arith
  find-modify k (r ∷ rs) = ground (
    arith,
    same r,
    str_eq→eq r.key key,
    str_eq_ne r.key k key,
    find-modify k rs,
    str_eq→eq r.key k,
    str_eq→eq key k,
    str_eq_refl key,
  )

  pub modify-Distinct : (rs : List Record) → Distinct rs → Distinct (modify key f rs)
  unfolding modify
  modify-Distinct [] h = tt
  modify-Distinct (r ∷ rs) (fresh, h) = elim (Bool-cases (str_eq r.key key)) [
    | inl e ↦ rw (e, if◌then◌else◌) (rw (same r) fresh, h)
    | inr e ↦
        rw (e, if◌then◌else◌)
          (ground (arith, find-modify r.key rs, str_eq_comm r.key key), modify-Distinct rs h)
  ]

pub modify-AllSound :
    (f : Record → Record) (key : Text) (rs : List Record)
    → ((r : Record) → length (bytes_of (f r).content) ≡ (f r).size)
    → AllSound rs
    → AllSound (modify key f rs)
unfolding modify
modify-AllSound f key [] keeps h = tt
modify-AllSound f key (r ∷ rs) keeps (s, h) =
    ground (arith, keeps r, modify-AllSound f key rs keeps h)
