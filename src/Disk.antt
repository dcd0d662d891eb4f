-- ===== src/Disk.antt =====
-- disk/part_dos.c: `test_part_dos` and `get_partition_info_dos`. A block that is read is a list of
-- bytes, `none` where `block_read` does not return 1; its numbers have 32 bits.
pub mod Link
mod Tests
use armboot.Prelude.{
  ℕ, zero, suc, ◌+◌, ◌*◌, ◌%◌, ◌^◌, Bool, true, false, not, ◌&&◌, ◌||◌, ◌⊎◌, inl, inr, List, [],
  ◌∷◌, Option, none, some, ◌==◌, if◌then◌else◌, drop,
}

-- dos_partition_t as far as it is read: sys_ind, start4 and size4
pub record Partition : Type 0 where
  pub sys_ind : ℕ
  pub start4 : ℕ
  pub size4 : ℕ

-- disk_partition_t less its name, its type and its block size, which is 512
pub record Info : Type 0 where
  pub start : ℕ
  pub size : ℕ

abbrev pub dos_part_tbl_offset : ℕ
dos_part_tbl_offset = 0x1be

abbrev pub dos_part_magic_offset : ℕ
dos_part_magic_offset = 0x1fe

abbrev pub first_byte : List ℕ → ℕ
first_byte [] = 0
first_byte (b ∷ _) = b

abbrev pub byte_at : List ℕ → ℕ → ℕ
byte_at buffer i = first_byte (drop i buffer)

abbrev pub le32_to_int : List ℕ → ℕ → ℕ
le32_to_int buffer i =
    byte_at buffer i
    + 2 ^ 8 * byte_at buffer (i + 1)
    + 2 ^ 16 * byte_at buffer (i + 2)
    + 2 ^ 24 * byte_at buffer (i + 3)

abbrev pub is_extended : ℕ → Bool
is_extended part_type = part_type == 0x5 || part_type == 0xf || part_type == 0x85

abbrev pub partition_at : List ℕ → ℕ → Partition
partition_at buffer i = record {
  sys_ind = byte_at buffer (i + 4);
  start4 = le32_to_int buffer (i + 8);
  size4 = le32_to_int buffer (i + 12);
}

-- pt = buffer + DOS_PART_TBL_OFFSET; for (i = 0; i < 4; i++, pt++)
unfoldable pub partitions : List ℕ → List Partition
partitions buffer =
    partition_at buffer dos_part_tbl_offset
    ∷ partition_at buffer (dos_part_tbl_offset + 16)
    ∷ partition_at buffer (dos_part_tbl_offset + 32)
    ∷ partition_at buffer (dos_part_tbl_offset + 48)
    ∷ []

abbrev pub has_magic : List ℕ → Bool
has_magic buffer =
    byte_at buffer dos_part_magic_offset == 0x55
    && byte_at buffer (dos_part_magic_offset + 1) == 0xaa

abbrev pub magic_of : Option (List ℕ) → Bool
magic_of none = false
magic_of (some buffer) = has_magic buffer

-- `true` is 0, and `false` is -1.
unfoldable pub test_part_dos : (ℕ → Option (List ℕ)) → Bool
test_part_dos block_read = magic_of (block_read 0)

-- "Reverse engr the fdisk part# assignment rule!"
abbrev pub next_num : ℕ → Partition → ℕ → ℕ
next_num ext pt part_num =
    if ext == 0 || (not (pt.sys_ind == 0) && not (is_extended pt.sys_ind))
    then part_num + 1
    else part_num

-- The first loop: the partition, or the number behind the table.
unfoldable pub first_loop : ℕ → ℕ → ℕ → List Partition → Info ⊎ ℕ
first_loop ext which part_num [] = inr part_num
first_loop ext which part_num (pt ∷ pts) =
    let rest = first_loop ext which (next_num ext pt part_num) pts in
    if not (pt.sys_ind == 0) && part_num == which
    then inl (record { start = (ext + pt.start4) % 2 ^ 32; size = pt.size4 })
    else rest

-- The second loop: lba_start of the first extended partition.
unfoldable pub lead_on : ℕ → List Partition → Option ℕ
lead_on relative [] = none
lead_on relative (pt ∷ pts) =
    let rest = lead_on relative pts in
    if is_extended pt.sys_ind then some ((pt.start4 + relative) % 2 ^ 32) else rest

-- What the two tests in front leave: `none` is the return of -1.
abbrev pub signed : List ℕ → Bool → Option (List Partition)
signed buffer ok = if ok then some (partitions buffer) else none

abbrev pub read_table : Option (List ℕ) → Option (List Partition)
read_table none = none
read_table (some buffer) = signed buffer (has_magic buffer)

-- The end of both loops, in front of the recursive call.
abbrev pub after_loops : Info ⊎ ℕ → Option ℕ → (ℕ → ℕ → Option Info) → Option Info
after_loops (inl info) lba_start again = some info
after_loops (inr num) none again = none
after_loops (inr num) (some lba_start) again = again lba_start num

abbrev pub both_loops :
    ℕ → ℕ → ℕ → ℕ → Option (List Partition) → (ℕ → ℕ → Option Info) → Option Info
both_loops ext relative part_num which none again = none
both_loops ext relative part_num which (some pts) again =
    after_loops (first_loop ext which part_num pts) (lead_on relative pts) again

-- `none` is -1; tables that lead to each other without an end run out of the fuel.
unfoldable pub get_partition_info_extended : (ℕ → Option (List ℕ)) → ℕ → ℕ → ℕ → ℕ → ℕ → Option Info
unfolding first_loop lead_on
get_partition_info_extended block_read zero ext relative part_num which = none
get_partition_info_extended block_read (suc fuel) ext relative part_num which =
    both_loops ext relative part_num which (read_table (block_read ext)) (λ lba_start num.
      get_partition_info_extended block_read fuel lba_start
        (if ext == 0 then lba_start else relative) num which)

unfoldable pub get_partition_info_dos : (ℕ → Option (List ℕ)) → ℕ → ℕ → Option Info
unfolding get_partition_info_extended
get_partition_info_dos block_read fuel part = get_partition_info_extended block_read fuel 0 0 1 part
