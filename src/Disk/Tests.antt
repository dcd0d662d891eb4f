-- ===== src/Disk/Tests.antt =====
-- A disk with two logical partitions, and the theorem at it.
use armboot.Prelude.{
  ℕ, zero, suc, ◌≡◌, refl, true, List, [], ◌∷◌, ◌++◌, Option, none, some, arith, ◌==◌,
  if◌then◌else◌,
}
use armboot.Disk.{
  partitions, get_partition_info_extended, get_partition_info_dos, first_loop, lead_on,
  test_part_dos,
}
use armboot.Disk.Link.{get_partition_info_extended-link}

abbrev zeros : ℕ → List ℕ
zeros zero = []
zeros (suc n) = 0 ∷ zeros n

abbrev entry : ℕ → ℕ → ℕ → List ℕ
entry kind start size = 0 ∷ 0 ∷ 0 ∷ 0 ∷ kind ∷ 0 ∷ 0 ∷ 0 ∷ start ∷ 0 ∷ 0 ∷ 0 ∷ size ∷ 0 ∷ 0 ∷ 0 ∷ []

abbrev sector : List ℕ → List ℕ → List ℕ
sector first second = zeros 446 ++ (first ++ (second ++ (zeros 32 ++ 0x55 ∷ 0xaa ∷ [])))

-- The extended partition begins at sector 100; its second table stands at sector 120.
abbrev block_read : ℕ → Option (List ℕ)
block_read i =
    if i == 0
    then some (sector (entry 0x83 1 99) (entry 5 100 50))
    else if i == 100
    then some (sector (entry 0x83 1 19) (entry 5 20 30))
    else if i == 120
    then some (sector (entry 0x83 1 29) (entry 0 0 0))
    else none

get_partition_info_extended-link_example :
    get_partition_info_extended block_read 1 100 100 5 6 ≡ some (record { start = 120; size = 30 })
unfolding partitions
get_partition_info_extended-link_example =
    get_partition_info_extended-link block_read 0 100 100 5
      (sector (entry 0x83 1 19) (entry 5 20 30)) (record { sys_ind = 0x83; start4 = 1; size4 = 19 })
      (record { sys_ind = 5; start4 = 20; size4 = 30 })
      (record { sys_ind = 0; start4 = 0; size4 = 0 }
        ∷ record { sys_ind = 0; start4 = 0; size4 = 0 }
        ∷ [])
      refl refl refl (λ e. omega (arith, e)) (λ e. omega (arith, e)) refl refl

has_partitions : test_part_dos block_read ≡ true
unfolding test_part_dos
has_partitions = refl

-- The first logical partition, and what is given for the second one.
logical_five : get_partition_info_dos block_read 3 5 ≡ some (record { start = 101; size = 19 })
unfolding get_partition_info_dos get_partition_info_extended first_loop lead_on partitions
logical_five = refl

logical_six : get_partition_info_dos block_read 3 6 ≡ some (record { start = 120; size = 30 })
unfolding get_partition_info_dos get_partition_info_extended first_loop lead_on partitions
logical_six = refl
