-- ===== src/Sim/Assets/Tests.antt =====
-- The table of the staged files on concrete data.
use micro_tech.Prelude.{
  ℕ, ◌+◌, ◌≡◌, refl, ◌&&◌, ◌%◌, ◌^◌, List, [], ◌∷◌, ◌++◌, length, ◌==◌, if◌then◌else◌, ok,
  invalid_crc, arith,
}
use micro_tech.Sim.Assets.{
  Asset, verify_checksum, longest, sum_name, sum_field, sum_data, sum_asset, sum_loop,
}
use micro_tech.Sim.Assets.Checksum.{shares, verify_checksum_lem, changed_byte_refused}
use micro_tech.Sim.Assets.Names.{
  less, same, str_cmp, mem_cmp, last_dot, name_cmp, then_by, flip, name_cmp_dotted, name_cmp_result,
}

abbrev first_file : Asset
first_file = record { name = 98 ∷ 46 ∷ 99 ∷ 100 ∷ 101 ∷ []; data_bytes = 5 ∷ [] }

abbrev second_file : Asset
second_file = record { name = 97 ∷ []; data_bytes = 1 ∷ 2 ∷ [] }

checksum_run : verify_checksum (first_file ∷ second_file ∷ []) (65536 + 915) 2 ≡ ok
unfolding verify_checksum longest sum_name sum_field sum_data sum_asset sum_loop
checksum_run = refl

verify_checksum_lem_example : verify_checksum (first_file ∷ second_file ∷ []) 915 3 ≡ (
    if (length (first_file ∷ second_file ∷ []) == 3)
      && (shares (first_file ∷ second_file ∷ []) 0 % 2 ^ 16 == 915 % 2 ^ 16)
    then ok
    else invalid_crc)
verify_checksum_lem_example = verify_checksum_lem (first_file ∷ second_file ∷ []) 915 3

-- The second file with 7 in place of its 2.
changed_byte_refused_example :
    verify_checksum
      (first_file ∷ record { name = 97 ∷ []; data_bytes = 1 ∷ 7 ∷ [] } ∷ [])
      (65536 + 915)
      2
    ≡ invalid_crc
changed_byte_refused_example =
    changed_byte_refused (first_file ∷ []) [] (97 ∷ []) (1 ∷ []) [] 2 7 (65536 + 915) 2
      (omega arith) (omega arith) (λ (e : 2 ≡ 7). omega (arith, e)) checksum_run

-- "a.z", "b" and "c.a": of the three, each comes before the next, and the last before the first.
abbrev a_z : List ℕ
a_z = 97 ∷ 46 ∷ 122 ∷ []

abbrev c_a : List ℕ
c_a = 99 ∷ 46 ∷ 97 ∷ []

names_cycle :
    (name_cmp a_z (98 ∷ []) ≡ less) × (name_cmp (98 ∷ []) c_a ≡ less) × (name_cmp c_a a_z ≡ less)
unfolding name_cmp last_dot str_cmp mem_cmp
names_cycle = (refl, refl, refl)

-- "a.b.z" and "c.a".
name_cmp_dotted_example :
    name_cmp ((97 ∷ 46 ∷ 98 ∷ []) ++ (46 ∷ 122 ∷ [])) ((99 ∷ []) ++ (46 ∷ 97 ∷ []))
    ≡ then_by (str_cmp (122 ∷ []) (97 ∷ [])) (str_cmp (97 ∷ 46 ∷ 98 ∷ []) (99 ∷ []))
name_cmp_dotted_example =
    name_cmp_dotted (97 ∷ 46 ∷ 98 ∷ []) (122 ∷ []) (99 ∷ []) (97 ∷ []) (refl, tt) (refl, tt)

name_cmp_result_example :
    (name_cmp c_a a_z ≡ flip (name_cmp a_z c_a)) × (name_cmp a_z c_a ≡ same → a_z ≡ c_a)
name_cmp_result_example = name_cmp_result a_z c_a
