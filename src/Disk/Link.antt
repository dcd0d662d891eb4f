-- ===== src/Disk/Link.antt =====
-- `get_partition_info_dos` of disk/part_dos.c where a table of a logical partition leads on to the
-- next one.
use armboot.Prelude.{
  ℕ, suc, ◌+◌, ◌%◌, ◌^◌, ◌≡◌, ◌≢◌, ◌∙◌, ap, true, false, inl, List, ◌∷◌, Option, some, arith, ◌==◌,
  if◌then◌else◌,
}
use armboot.Disk.{
  Partition, Info, signed, read_table, after_loops, both_loops, lead_on, is_extended, has_magic,
  partitions, first_loop, get_partition_info_extended,
}

-- The entry as a partition of its own.
abbrev pub as_info : ℕ → Partition → Info
as_info ext pt = record { start = (ext + pt.start4) % 2 ^ 32; size = pt.size4 }

first_loop-link :
    (ext n : ℕ) (logical link : Partition) (pts : List Partition)
    → ext ≢ 0
    → logical.sys_ind ≢ 0
    → is_extended logical.sys_ind ≡ false
    → is_extended link.sys_ind ≡ true
    → first_loop ext (n + 1) n (logical ∷ link ∷ pts) ≡ inl (as_info ext link)
unfolding first_loop
first_loop-link ext n logical link pts e used plain leads =
    let some_type : link.sys_ind ≢ 0 = λ z. ground (arith, z, leads) in
    ground (arith, e, used, plain, some_type)

-- In the table at `ext` of a logical partition with the number `n`, the second entry leads to the
-- next such table. The search for the number `n + 1` ends at this entry, and gives the place and
-- the size of the entry itself.
pub get_partition_info_extended-link :
    (block_read : ℕ → Option (List ℕ)) (fuel ext relative n : ℕ) (buffer : List ℕ)
    (logical link : Partition) (pts : List Partition)
    → block_read ext ≡ some buffer
    → has_magic buffer ≡ true
    → partitions buffer ≡ logical ∷ link ∷ pts
    → ext ≢ 0
    → logical.sys_ind ≢ 0
    → is_extended logical.sys_ind ≡ false
    → is_extended link.sys_ind ≡ true
    → get_partition_info_extended block_read (suc fuel) ext relative n (n + 1)
      ≡ some (as_info ext link)
unfolding get_partition_info_extended
get_partition_info_extended-link block_read fuel ext relative n buffer logical link pts reads magic
      entries e used plain leads =
    let again : ℕ → ℕ → Option Info = λ lba_start num.
      get_partition_info_extended block_read fuel lba_start
        (if ext == 0 then lba_start else relative) num (n + 1) in
    let seen : read_table (block_read ext) ≡ some (logical ∷ link ∷ pts) =
      ap read_table reads ∙ ap (signed buffer) magic ∙ ap some entries in
    ap (λ r. both_loops ext relative n (n + 1) r again) seen
    ∙ ap (λ o. after_loops o (lead_on relative (logical ∷ link ∷ pts)) again)
        (first_loop-link ext n logical link pts e used plain leads)
